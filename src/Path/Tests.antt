-- ===== src/Path/Tests.antt =====
-- Runs of `path_parent` of src/util.c.
use fusedav.Prelude.{◌≡◌, refl, none, some}
use fusedav.Text.{codes}
use fusedav.Path.{path_parent}

nested : path_parent (codes "/sites/default") ≡ some (codes "/sites")
unfolding path_parent
nested = refl

top_level : path_parent (codes "/sites") ≡ some (codes "/")
unfolding path_parent
top_level = refl

root : path_parent (codes "/") ≡ some (codes "/")
unfolding path_parent
root = refl

trailing_slash : path_parent (codes "/sites/") ≡ some (codes "/sites")
unfolding path_parent
trailing_slash = refl

relative : path_parent (codes "sites") ≡ none
unfolding path_parent
relative = refl

-- A relative path whose directory has a one-letter name has no parent either.
one_letter : path_parent (codes "a/b") ≡ none
unfolding path_parent
one_letter = refl
