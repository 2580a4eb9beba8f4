-- ===== src/FileCache/Etag.antt =====
-- Proofs about `capture_etag` of src/filecache.c.
use fusedav.Prelude.{
  ℕ, suc, ◌+◌, ◌≤◌, ◌≡◌, refl, ap, ◌∙◌, true, false, [], ◌∷◌, ◌++◌, arith, ltb, length, take,
  length-append, take-length_append,
}
use fusedav.Text.{Text, codes}
use fusedav.Text.Decimal.{is_space}
use fusedav.FileCache.Entry.{
  capture_etag, store_value, copy_value, header_value, skip_space, is_prefix_nocase,
}

-- White space only
abbrev pub IsBlank : Text → Type 0
IsBlank [] = Unit
IsBlank (c ∷ s) = (is_space c ≡ true) × IsBlank s

skip_space-IsBlank : (s : Text) → IsBlank s → skip_space s ≡ []
unfolding skip_space
skip_space-IsBlank [] h = refl
skip_space-IsBlank (c ∷ s) h = rw h.0 (skip_space-IsBlank s h.1)

-- From a line `ETag: ` and a value of at most 255 bytes that begins with no white space, the buffer
-- receives the value without the last byte of the line, and the write stays in the buffer. So of the
-- CR and LF that end a line of a response, the CR stays in the etag.
pub capture_etag-value :
    (c : ℕ) (value : Text) (last : ℕ) (etag : Text)
    → is_space c ≡ false
    → length value ≤ 254
    → capture_etag (codes "ETag: " ++ c ∷ value ++ last ∷ []) etag ≡ (c ∷ value, true)
unfolding capture_etag store_value copy_value header_value skip_space is_prefix_nocase is_space
capture_etag-value c value last etag visible short =
    let size : length (value ++ last ∷ []) ≡ length value + 1 = length-append value (last ∷ []) in
    let fits : ltb 256 (suc (length (value ++ last ∷ []))) ≡ false = rw size (ground arith) in
    let next : length value + 1 ≡ suc (length value) = omega arith in
    rw (visible, fits)
      (ap (λ t. (t, true))
        (ap (λ n. take n (c ∷ value ++ last ∷ [])) (size ∙ next)
          ∙ ap (λ t. c ∷ t) (take-length_append value (last ∷ []))))

-- For a line `ETag:` with nothing but white space behind it, the byte before the buffer is written.
pub capture_etag-blank :
    (blank etag : Text) → IsBlank blank → (capture_etag (codes "ETag:" ++ blank) etag).1 ≡ false
unfolding capture_etag store_value copy_value header_value is_prefix_nocase
capture_etag-blank blank etag h = rw (skip_space-IsBlank blank h) refl
