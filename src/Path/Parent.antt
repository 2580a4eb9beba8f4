-- ===== src/Path/Parent.antt =====
-- Proofs about `path_parent` of src/util.c: a child's path and its directory.
use fusedav.Prelude.{
  ℕ, zero, suc, ◌+◌, ◌-◌, ◌≤◌, ◌<◌, ◌≡◌, ◌≢◌, refl, ap, sym, ◌∙◌, ◌⊎◌, inl, inr, some, [], ◌∷◌,
  ◌++◌, arith, ◌==◌, length, get_or, take, Bool-cases, length-append, take-length_append,
}
use fusedav.Text.{Text, slash}
use fusedav.Path.{find_previous_slash, path_parent}

-- The text holds no slash: it is one name.
abbrev pub IsName : Text → Type 0
IsName [] = Unit
IsName (c ∷ s) = (c ≢ slash) × IsName s

get_or-IsName : (name : Text) (i : ℕ) → IsName name → get_or name i 0 ≢ slash
get_or-IsName [] i h = ground arith
get_or-IsName (d ∷ name) zero h = h.0
get_or-IsName (d ∷ name) (suc i) h = get_or-IsName name i h.1

get_or-append : (s t : Text) (i : ℕ) → get_or (s ++ t) (length s + i) 0 ≡ get_or t i 0
get_or-append [] t i = ap (λ j. get_or t j 0) (omega arith)
get_or-append (c ∷ s) t i =
    let step : suc (length s) + i ≡ suc (length s + i) = omega arith in
    ap (λ j. get_or (c ∷ s ++ t) j 0) step ∙ get_or-append s t i

-- The walk stops at the last slash, or at the beginning.
find_previous_slash-eq :
    (uri : Text) (m pnt : ℕ)
    → m ≤ pnt
    → (m ≡ 0) ⊎ (get_or uri m 0 ≡ slash)
    → ((i : ℕ) → m < i → i ≤ pnt → get_or uri i 0 ≢ slash)
    → find_previous_slash uri pnt ≡ m
unfolding find_previous_slash
find_previous_slash-eq uri m zero le stop clear = omega arith
find_previous_slash-eq uri m (suc pnt) le stop clear =
    elim (Bool-cases (get_or uri (suc pnt) 0 == slash)) [
      | inl here ↦ rw here (ground (arith, clear (suc pnt)))
      | inr on ↦ rw on (
          find_previous_slash-eq uri m pnt (ground arith) stop
            (λ i above below. clear i above (omega arith)))
    ]

-- In `dir/name` the walk stops behind `dir`.
find_previous_slash-child :
    (dir name : Text) (pnt : ℕ)
    → IsName name
    → pnt ≡ length dir + length name
    → find_previous_slash (dir ++ slash ∷ name) pnt ≡ length dir
find_previous_slash-child dir name pnt h e =
    find_previous_slash-eq (dir ++ slash ∷ name) (length dir) pnt (omega arith)
      (inr (
        ap (λ j. get_or (dir ++ slash ∷ name) j 0) (omega arith)
        ∙ get_or-append dir (slash ∷ name) 0))
      λ i above below q.
        let index : i ≡ length dir + suc (i - length dir - 1) = omega arith in
        get_or-IsName name (i - length dir - 1) h (
          sym (get_or-append dir (slash ∷ name) (suc (i - length dir - 1)))
          ∙ ap (λ j. get_or (dir ++ slash ∷ name) j 0) (sym index)
          ∙ q)

-- The root has no name of its own: its children are `/name`.
abbrev pub directory_path : Text → Text
directory_path [] = slash ∷ []
directory_path (c ∷ s) = c ∷ s

-- A text that can stand in front of `/name` in an absolute path.
abbrev pub IsDirectory : Text → Type 0
IsDirectory [] = Unit
IsDirectory (c ∷ s) = c ≡ slash

take-child : (s : Text) (n : ℕ) (t : Text) → n ≡ length s → take n (s ++ t) ≡ s
take-child s n t e = rw e (take-length_append s t)

-- The parent of `dir/name` is `dir`, and that of `/name` is the root.
pub path_parent-child :
    (dir name : Text)
    → IsDirectory dir
    → IsName name
    → path_parent (dir ++ slash ∷ name) ≡ some (directory_path dir)
unfolding path_parent
path_parent-child [] name d h =
    rw (find_previous_slash-child [] name (length name) h (omega arith)) refl
path_parent-child (c ∷ dir) name d h =
    rw
      (find_previous_slash-child (c ∷ dir) name (length (dir ++ slash ∷ name)) h
        (omega (arith, length-append {0} dir (slash ∷ name))))
      (ground (arith, take-child (c ∷ dir) (suc (length dir) - 1 + 1) (slash ∷ name)))

append-IsName : (s t : Text) → IsName s → IsName t → IsName (s ++ t)
append-IsName [] t h k = k
append-IsName (c ∷ s) t h k = (h.0, append-IsName s t h.1 k)

-- A text is one name, or has a last slash.
split_last :
    (s : Text) → IsName s ⊎ ((dir : Text) × (name : Text) × (s ≡ dir ++ slash ∷ name) × IsName name)
split_last [] = inl tt
split_last (c ∷ s) = elim (split_last s) [
  | inr (dir, name, e, n) ↦ inr (c ∷ dir, name, ap (λ t. c ∷ t) e, n)
  | inl n ↦ elim (Bool-cases (c == slash)) [
    | inl here ↦ inr ([], s, ground arith, n)
    | inr other ↦ inl (ground arith, n)
  ]
]

-- Every absolute path is `dir/name`, so that its parent is `dir`, or the root.
pub split_absolute :
    (c : ℕ) (s : Text)
    → c ≡ slash
    → (dir : Text) × (name : Text) × (c ∷ s ≡ dir ++ slash ∷ name) × IsDirectory dir × IsName name
split_absolute c s h = elim (split_last s) [
  | inl n ↦ ([], s, ap (λ x. x ∷ s) h, tt, n)
  | inr (dir, name, e, n) ↦ (c ∷ dir, name, ap (λ t. c ∷ t) e, h, n)
]
