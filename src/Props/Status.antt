-- ===== src/Props/Status.antt =====
-- The status line of a response, as the handlers of src/props.c read it.
use fusedav.Prelude.{ℕ, ◌≡◌, refl, some, [], ◌∷◌, ◌++◌, arith}
use fusedav.Text.{Text, codes}
use fusedav.Text.Decimal.{utoa, utoa-DigitFirst, DigitFirst, is_digit, strtol, strtol-utoa}
use fusedav.Props.{second_token, skip_spaces, skip_token, some_text, as_unsigned}

-- "HTTP/1.1 ", the code, a space, and what the server says about it.
abbrev pub status_line : ℕ → Text → Text
status_line code reason = codes "HTTP/1.1 " ++ (utoa code ++ 32 ∷ reason)

skip_spaces-DigitFirst : (s : Text) → DigitFirst s → some_text (skip_spaces s) ≡ some s
unfolding skip_spaces some_text is_digit
skip_spaces-DigitFirst [] h = absurd h
skip_spaces-DigitFirst (c ∷ s) h = ground arith

pub second_token-status_line :
    (code : ℕ) (reason : Text)
    → second_token (status_line code reason) ≡ some (utoa code ++ 32 ∷ reason)
unfolding second_token skip_spaces skip_token
second_token-status_line code reason =
    skip_spaces-DigitFirst (utoa code ++ 32 ∷ reason) (utoa-DigitFirst code (32 ∷ reason))

pub as_unsigned-utoa :
    (code : ℕ) (reason : Text) → as_unsigned (strtol (utoa code ++ 32 ∷ reason)) ≡ code
as_unsigned-utoa code reason =
    rw (strtol-utoa code 32 reason (unfold is_digit in refl)) (unfold as_unsigned in refl)
