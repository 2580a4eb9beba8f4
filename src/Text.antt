-- ===== src/Text.antt =====
-- C strings as lists of bytes, without the terminating NUL: the byte order of LevelDB, `strcmp`,
-- `strncmp`, `%u` of `asprintf` and `strtol`, as far as fusedav uses them.
pub mod Decimal
pub mod Order
use Prim.Native.Char.{code}
use Prim.Native.String.{String}
use fusedav.Prelude.{
  ℕ, ◌≡◌, refl, ◌↔◌, Bool, true, false, ◌&&◌, List, [], ◌∷◌, ◌++◌, arith, ltb, ◌==◌, if◌then◌else◌,
}

abbrev pub Text : Type 0
Text = List ℕ

-- The bytes of an ASCII literal.
abbrev pub codes : String → Text
codes String.[] = []
codes (String.◌∷◌ c s) = code c ∷ codes s

abbrev pub slash : ℕ
slash = b'/'

-- `strcmp (s, t) == 0`
unfoldable pub str_eq : Text → Text → Bool
str_eq [] [] = true
str_eq [] (d ∷ t) = false
str_eq (c ∷ s) [] = false
str_eq (c ∷ s) (d ∷ t) = (c == d) && str_eq s t

-- `strncmp (s, prefix, strlen (prefix)) == 0`
unfoldable pub starts_with : Text → Text → Bool
starts_with [] s = true
starts_with (c ∷ p) [] = false
starts_with (c ∷ p) (d ∷ s) = (c == d) && starts_with p s

-- `memcmp (s, t) < 0` on the stored keys, which end in NUL: a proper prefix comes first.
unfoldable pub str_lt : Text → Text → Bool
str_lt s [] = false
str_lt [] (d ∷ t) = true
str_lt (c ∷ s) (d ∷ t) = if c == d then str_lt s t else ltb c d

pub str_eq_sound : (s t : Text) → str_eq s t ≡ true → s ≡ t
unfolding str_eq
str_eq_sound [] [] h = refl
str_eq_sound [] (d ∷ t) h = ground arith
str_eq_sound (c ∷ s) [] h = ground arith
str_eq_sound (c ∷ s) (d ∷ t) h = ground (arith, str_eq_sound s t)

pub str_eq_refl : (s : Text) → str_eq s s ≡ true
unfolding str_eq
str_eq_refl [] = refl
str_eq_refl (c ∷ s) = ground (arith, str_eq_refl s)

pub str_eq_iff : (s t : Text) → (str_eq s t ≡ true) ↔ (s ≡ t)
str_eq_iff s t = (str_eq_sound s t, λ e. ground (arith, str_eq_refl s))

-- A text starts with a prefix exactly when a rest completes it.
pub starts_with_append : (p s : Text) → starts_with p (p ++ s) ≡ true
unfolding starts_with
starts_with_append [] s = refl
starts_with_append (c ∷ p) s = ground (arith, starts_with_append p s)

pub starts_with_sound : (p s : Text) → starts_with p s ≡ true → (r : Text) × (s ≡ p ++ r)
unfolding starts_with
starts_with_sound [] s h = (s, refl)
starts_with_sound (c ∷ p) [] h = absurd (ground arith)
starts_with_sound (c ∷ p) (d ∷ s) h =
    let ih = starts_with_sound p s (ground arith) in (ih.0, ground arith)
