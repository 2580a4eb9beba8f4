-- ===== src/Props/Relative.antt =====
-- `get_relative_path` and `get_path_beyond_base` of src/props.c. uriparser, which cuts a URL's
-- normalized path into segments, is a parameter.
use fusedav.Prelude.{
  ℕ, ◌≡◌, refl, ap, sym, ◌∙◌, inl, inr, Option, none, some, List, [], ◌∷◌, ◌++◌, arith, ◌==◌, ◌↔◌,
  Bool-cases, Option-cases, if◌then◌else◌,
}
use mathlib.Core.List.{append-nil, append_assoc}
use fusedav.Text.{Text, slash, str_eq, str_eq_refl, str_eq_sound}

-- What is left of a path when the base is done, or none if it is not a proper prefix.
unfoldable pub unique_part : List Text → List Text → Option (List Text)
unique_part [] [] = none
unique_part [] (s ∷ source) = some (s ∷ source)
unique_part (b ∷ base) [] = none
unique_part (b ∷ base) (s ∷ source) = if str_eq s b then unique_part base source else none

-- The segments onto the path made so far.
unfoldable pub join_onto : Text → List Text → Text
join_onto path [] = path
join_onto path (s ∷ segments) = join_onto (path ++ slash ∷ s) segments

-- `none` is a null pointer.
join_segments : Option (List Text) → Option Text
unfolding join_onto
join_segments none = none
join_segments (some []) = none
join_segments (some (s ∷ segments)) = some (join_onto s segments)

unfoldable pub get_relative_path : List Text → List Text → Option Text
unfolding unique_part join_segments
get_relative_path base source = join_segments (unique_part base source)

-- A text of at least one byte, less a slash at its end.
unfoldable pub drop_last_slash : ℕ → Text → Text
drop_last_slash c [] = if c == slash then [] else c ∷ []
drop_last_slash c (d ∷ s) = c ∷ drop_last_slash d s

-- For an empty path the code reads the byte before it, and writes there if that is a slash: `none`.
unfoldable pub drop_trailing_slash : Text → Option Text
unfolding drop_last_slash
drop_trailing_slash [] = none
drop_trailing_slash (c ∷ s) = some (drop_last_slash c s)

unfoldable pub beyond : Option Text → Option Text
unfolding drop_trailing_slash
beyond none = some []
beyond (some path) = drop_trailing_slash path

module _ (uri_segments : Text → Option (List Text)) where
  unfoldable pub relative_to : Option (List Text) → Option (List Text) → Option (Option Text)
  unfolding beyond get_relative_path
  relative_to none source = some none
  relative_to (some base) none = some none
  relative_to (some base) (some source) = elim (beyond (get_relative_path base source)) [
    | none ↦ none
    | some path ↦ some (some path)
  ]

  -- The inner `none`, a null pointer, for a URL that does not parse.
  unfoldable pub get_path_beyond_base : Text → Text → Option (Option Text)
  unfolding relative_to
  get_path_beyond_base base_url source_url =
      relative_to (uri_segments base_url) (uri_segments source_url)

-- What `unique_part` finds completes the base.
unique_part-append :
    (base : List Text) (s : Text) (rest : List Text)
    → unique_part base (base ++ s ∷ rest) ≡ some (s ∷ rest)
unfolding unique_part
unique_part-append [] s rest = refl
unique_part-append (b ∷ base) s rest = rw (str_eq_refl b) (unique_part-append base s rest)

unique_part_sound :
    (base source part : List Text)
    → unique_part base source ≡ some part
    → (s : Text) × (rest : List Text) × (part ≡ s ∷ rest) × (source ≡ base ++ s ∷ rest)
unfolding unique_part
unique_part_sound [] [] part h = absurd (ground arith)
unique_part_sound [] (s ∷ source) part h = (s, source, ground arith, refl)
unique_part_sound (b ∷ base) [] part h = absurd (ground arith)
unique_part_sound (b ∷ base) (c ∷ source) part h = elim (Bool-cases (str_eq c b)) [
  | inr e ↦ absurd (ground arith)
  | inl e ↦
      let (s, rest, p, q) = unique_part_sound base source part (ground arith) in
      (s, rest, p, ap (λ t. c ∷ t) q ∙ ap (λ t. t ∷ (base ++ s ∷ rest)) (str_eq_sound c b e))
]

relative_eq :
    {path : Text} (s : Text) (rest part : List Text) (o : Option (List Text))
    → o ≡ some part
    → part ≡ s ∷ rest
    → join_segments o ≡ some path
    → path ≡ join_onto s rest
unfolding join_segments
relative_eq s rest part none e p h = absurd (ground arith)
relative_eq s rest part (some []) e p h = absurd (ground arith)
relative_eq s rest part (some (t ∷ more)) e p h = ground arith

-- Segments, each behind a slash.
abbrev pub slashed : List Text → Text
slashed [] = []
slashed (s ∷ segments) = (slash ∷ s) ++ slashed segments

pub join_onto-slashed :
    (path : Text) (segments : List Text) → join_onto path segments ≡ path ++ slashed segments
unfolding join_onto
join_onto-slashed path [] = sym (append-nil path)
join_onto-slashed path (s ∷ segments) =
    join_onto-slashed (path ++ slash ∷ s) segments
    ∙ append_assoc path (slash ∷ s) (slashed segments)

-- The relative path is made of all segments beyond the base, with a slash between one and the next,
-- and there is one exactly for the paths that go on where the base ends.
pub get_relative_path_iff :
    (base source : List Text) (path : Text)
    → (get_relative_path base source ≡ some path)
      ↔ ((s : Text) × (rest : List Text) × (source ≡ base ++ s ∷ rest) × (path ≡ s ++ slashed rest))
unfolding get_relative_path join_segments
get_relative_path_iff base source path = (
  λ h. elim (Option-cases (unique_part base source)) [
    | inl e ↦ absurd (ground arith)
    | inr (part, e) ↦
        let (s, rest, p, q) = unique_part_sound base source part e in
        (
          s,
          rest,
          q,
          relative_eq s rest part (unique_part base source) e p h ∙ join_onto-slashed s rest,
        )
  ],
  λ (s, rest, e, f).
      rw (e, unique_part-append base s rest, f ∙ sym (join_onto-slashed s rest)) refl,
)
