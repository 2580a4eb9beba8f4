-- ===== src/Text/Decimal.antt =====
-- `%u` and `strtol`.
pub mod Digits
use fusedav.Prelude.{
  ℕ, zero, suc, ◌+◌, ◌-◌, ◌*◌, ◌/◌, ◌%◌, ◌<◌, ◌≡◌, refl, Bool, true, false, ◌&&◌, ◌||◌, List, [],
  ◌∷◌, ◌++◌, inl, inr, arith, Bool-cases, ltb, leb, ◌==◌, if◌then◌else◌,
}

-- Most significant digit first, onto the digits already made; the fuel bounds their number.
unfoldable pub utoa_onto : ℕ → ℕ → List ℕ → List ℕ
utoa_onto zero n out = out
utoa_onto (suc f) n out =
    let rest = utoa_onto f (n / 10) ((48 + n % 10) ∷ out) in
    if ltb n 10 then (48 + n) ∷ out else rest

-- asprintf (…, "%u", n)
unfoldable pub utoa : ℕ → List ℕ
unfolding utoa_onto
utoa n = utoa_onto (suc n) n []

unfoldable pub is_digit : ℕ → Bool
is_digit c = leb b'0' c && leb c b'9'

-- isspace
unfoldable pub is_space : ℕ → Bool
is_space c = c == 32 || (leb 9 c && leb c 13)

unfoldable pub strtol_digits : ℕ → List ℕ → ℕ
unfolding is_digit
strtol_digits n [] = n
strtol_digits n (c ∷ s) =
    let rest = strtol_digits (n * 10 + (c - 48)) s in if is_digit c then rest else n

-- A `long`: its sign and its magnitude.
pub record Long : Type 0 where
  pub negative : Bool
  pub magnitude : ℕ

unfoldable pub strtol_signed : List ℕ → Long
unfolding strtol_digits
strtol_signed [] = record { negative = false; magnitude = 0 }
strtol_signed (c ∷ s) =
    if c == b'-'
    then record { negative = true; magnitude = strtol_digits 0 s }
    else if c == b'+'
    then record { negative = false; magnitude = strtol_digits 0 s }
    else record { negative = false; magnitude = strtol_digits 0 (c ∷ s) }

-- strtol (s, NULL, 10), in range
unfoldable pub strtol : List ℕ → Long
unfolding is_space strtol_signed
strtol [] = record { negative = false; magnitude = 0 }
strtol (c ∷ s) = let rest = strtol s in if is_space c then rest else strtol_signed (c ∷ s)

pub utoa_onto-append :
    (f n : ℕ) (out s : List ℕ) → utoa_onto f n out ++ s ≡ utoa_onto f n (out ++ s)
unfolding utoa_onto
utoa_onto-append zero n out s = refl
utoa_onto-append (suc f) n out s =
    ground (arith, utoa_onto-append f (n / 10) ((48 + n % 10) ∷ out) s)

-- What is printed onto a text reads as the number in front of that text.
pub strtol_digits-utoa_onto :
    (f n : ℕ) (out : List ℕ) → n < f → strtol_digits 0 (utoa_onto f n out) ≡ strtol_digits n out
unfolding utoa_onto strtol_digits
strtol_digits-utoa_onto zero n out h = elim h [ ]
strtol_digits-utoa_onto (suc f) n out h =
    ground (arith, strtol_digits-utoa_onto f (n / 10) ((48 + n % 10) ∷ out))

-- The text that `utoa_onto` makes begins with a digit.
abbrev pub DigitFirst : List ℕ → Type 0
DigitFirst [] = ⊥
DigitFirst (c ∷ s) = is_digit c ≡ true

pub utoa_onto-DigitFirst : (f n : ℕ) (out : List ℕ) → n < f → DigitFirst (utoa_onto f n out)
unfolding utoa_onto is_digit
utoa_onto-DigitFirst zero n out h = elim h [ ]
utoa_onto-DigitFirst (suc f) n out h = elim (Bool-cases (ltb n 10)) [
  | inl one ↦ rw one (ground arith)
  | inr more ↦ rw more (utoa_onto-DigitFirst f (n / 10) ((48 + n % 10) ∷ out) (ground arith))
]

pub utoa-DigitFirst : (n : ℕ) (s : List ℕ) → DigitFirst (utoa n ++ s)
utoa-DigitFirst n s =
    unfold utoa in
    rw (utoa_onto-append (suc n) n [] s) (utoa_onto-DigitFirst (suc n) n s (omega arith))

strtol-DigitFirst :
    (s : List ℕ)
    → DigitFirst s
    → strtol s ≡ record { negative = false; magnitude = strtol_digits 0 s }
unfolding strtol is_digit
strtol-DigitFirst [] h = absurd h
strtol-DigitFirst (c ∷ s) h = ground arith

-- A number that is printed before a text that does not begin with a digit is read back.
pub strtol-utoa :
    (n c : ℕ) (s : List ℕ)
    → is_digit c ≡ false
    → strtol (utoa n ++ c ∷ s) ≡ record { negative = false; magnitude = n }
strtol-utoa n c s h =
    let onto : utoa n ++ c ∷ s ≡ utoa_onto (suc n) n (c ∷ s) =
      unfold utoa in utoa_onto-append (suc n) n [] (c ∷ s) in
    rw
      (
        onto,
        strtol-DigitFirst _ (utoa_onto-DigitFirst (suc n) n (c ∷ s) (omega arith)),
        strtol_digits-utoa_onto (suc n) n (c ∷ s) (omega arith),
      )
      (unfold strtol_digits in ground arith)

utoa_test : utoa 1024 ≡ b'1' ∷ b'0' ∷ b'2' ∷ b'4' ∷ []
unfolding utoa
utoa_test = refl
