-- ===== src/Text/Order.antt =====
-- Proofs about the order of keys.
use fusedav.Prelude.{◌≡◌, refl, true, false, [], ◌∷◌, arith}
use fusedav.Text.{Text, starts_with, str_lt}

pub str_lt_irrefl : (s : Text) → str_lt s s ≡ false
unfolding str_lt
str_lt_irrefl [] = refl
str_lt_irrefl (c ∷ s) = ground (arith, str_lt_irrefl s)

pub str_lt_trans : (s t u : Text) → str_lt s t ≡ true → str_lt t u ≡ true → str_lt s u ≡ true
unfolding str_lt
str_lt_trans s t [] p q = ground arith
str_lt_trans s [] (e ∷ u) p q = ground arith
str_lt_trans [] (d ∷ t) (e ∷ u) p q = refl
str_lt_trans (c ∷ s) (d ∷ t) (e ∷ u) p q = ground (arith, str_lt_trans s t u)

-- Two texts that are not ordered either way are equal.
pub str_lt_connected : (s t : Text) → str_lt s t ≡ false → str_lt t s ≡ false → s ≡ t
unfolding str_lt
str_lt_connected [] [] p q = refl
str_lt_connected [] (d ∷ t) p q = ground arith
str_lt_connected (c ∷ s) [] p q = ground arith
str_lt_connected (c ∷ s) (d ∷ t) p q = ground (arith, str_lt_connected s t)

-- A text is not below its prefixes.
pub starts_with-str_lt : (p s : Text) → starts_with p s ≡ true → str_lt s p ≡ false
unfolding starts_with str_lt
starts_with-str_lt [] s h = refl
starts_with-str_lt (c ∷ p) [] h = ground arith
starts_with-str_lt (c ∷ p) (d ∷ s) h = ground (arith, starts_with-str_lt p s)

-- Behind a text that has passed all those with a prefix, no text has it.
pub starts_with_passed :
    (p s t : Text)
    → str_lt s p ≡ false
    → starts_with p s ≡ false
    → str_lt s t ≡ true
    → starts_with p t ≡ false
unfolding starts_with str_lt
starts_with_passed [] s t a b l = ground arith
starts_with_passed (c ∷ p) s [] a b l = ground arith
starts_with_passed (c ∷ p) [] (e ∷ t) a b l = ground arith
starts_with_passed (c ∷ p) (d ∷ s) (e ∷ t) a b l = ground (arith, starts_with_passed p s t)
