-- ===== src/Session/Escape.antt =====
-- `escape_except_slashes` of src/session.c against the escaping of one character after the other.
use fusedav.Prelude.{
  ℕ, ◌≡◌, ◌⊎◌, refl, ap, ◌∙◌, true, false, Option, some, [], ◌∷◌, ◌++◌, ◌==◌, inl, inr,
  if◌then◌else◌, Bool-cases,
}
use fusedav.Text.{Text, slash}
use fusedav.Session.{escape_except_slashes, hide_slashes, restore_slashes, restore_in}

-- One character after the other.
unfoldable pub escape_each : (ℕ → Text) → Text → Text
escape_each encode [] = []
escape_each encode (c ∷ path) = encode c ++ escape_each encode path

-- A slash stays.
abbrev pub except_slash : (ℕ → Text) → ℕ → Text
except_slash encode c = if c == slash then slash ∷ [] else encode c

-- What curl documents of a character's escape: it is the character's, or a percent sign and two
-- digits.
abbrev pub IsEscape : Text → Type 0
IsEscape t =
    ((d : ℕ) × (t ≡ d ∷ []) × ((d == b'%') ≡ false)) ⊎ ((x : ℕ) × (y : ℕ) × (t ≡ b'%' ∷ x ∷ y ∷ []))

restore_slash :
    (c : ℕ) (path rest : Text)
    → (c == slash) ≡ true
    → restore_slashes (c ∷ path) (b'0' ∷ rest) ≡ slash ∷ restore_slashes path rest
unfolding restore_slashes
restore_slash c path rest e = rw e refl

module _ (encode : ℕ → Text) where
  restore_escape :
      (c : ℕ) (path rest : Text)
      → (c == slash) ≡ false
      → IsEscape (encode c)
      → restore_slashes (c ∷ path) (encode c ++ rest) ≡ encode c ++ restore_slashes path rest
  unfolding restore_slashes
  restore_escape c path rest other (inl (d, e, plain)) = rw (e, other, plain) refl
  restore_escape c path rest other (inr (x, y, e)) = rw (e, other) refl

  restore_slashes-escape_each :
      (path : Text)
      → encode b'0' ≡ b'0' ∷ []
      → ((c : ℕ) → IsEscape (encode c))
      → restore_slashes path (escape_each encode (hide_slashes path))
        ≡ escape_each (except_slash encode) path
  unfolding restore_slashes escape_each hide_slashes
  restore_slashes-escape_each [] zero_stays escapes = refl
  restore_slashes-escape_each (c ∷ path) zero_stays escapes =
      let rest = restore_slashes-escape_each path zero_stays escapes in
      elim (Bool-cases (c == slash)) [
        | inl e ↦ rw (e, zero_stays) (restore_slash c path _ e ∙ ap (λ t. slash ∷ t) rest)
        | inr e ↦ rw e (restore_escape c path _ e (escapes c) ∙ ap (λ t. encode c ++ t) rest)
      ]

  -- Where curl escapes a text one character after the other and leaves digits alone, a path is
  -- escaped one character after the other, too, with its slashes left alone.
  pub escape_except_slashes-each :
      (curl_easy_escape : Text → Option Text) (path : Text)
      → ((s : Text) → curl_easy_escape s ≡ some (escape_each encode s))
      → encode b'0' ≡ b'0' ∷ []
      → ((c : ℕ) → IsEscape (encode c))
      → escape_except_slashes curl_easy_escape path ≡ some (escape_each (except_slash encode) path)
  unfolding escape_except_slashes restore_in
  escape_except_slashes-each curl_easy_escape path each zero_stays escapes =
      rw (each (hide_slashes path)) (ap some (restore_slashes-escape_each path zero_stays escapes))
