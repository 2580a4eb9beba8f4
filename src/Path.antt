-- ===== src/Path.antt =====
-- src/util.c: `path_parent`.
pub mod Parent
mod Tests
use fusedav.Prelude.{
  ℕ, zero, suc, ◌+◌, ◌-◌, Bool, ◌&&◌, not, Option, none, some, List, [], ◌∷◌, ltb, ◌==◌,
  if◌then◌else◌, length, get_or, take,
}
use fusedav.Text.{Text, slash}

-- `while (pnt > uri && *pnt != '/') pnt--`, on the offset of `pnt` from `uri`.
find_previous_slash : Text → ℕ → ℕ
find_previous_slash uri zero = zero
find_previous_slash uri (suc pnt) =
    let rest = find_previous_slash uri pnt in
    if get_or uri (suc pnt) 0 == slash then suc pnt else rest

-- Move up past the slash, but not past the beginning of the text.
step_back : ℕ → ℕ
step_back pnt = if ltb 0 pnt then pnt - 1 else pnt

cut_at : Text → ℕ → Option Text
cut_at uri pnt =
    if pnt == 0 && not (get_or uri pnt 0 == slash) then none else some (take (pnt + 1) uri)

-- On the empty text `pnt` stands one before `uri`, and `strndup` copies no byte.
unfoldable pub path_parent : Text → Option Text
unfolding find_previous_slash step_back cut_at
path_parent [] = some []
path_parent (c ∷ s) = let uri = c ∷ s in cut_at uri (step_back (find_previous_slash uri (length s)))
