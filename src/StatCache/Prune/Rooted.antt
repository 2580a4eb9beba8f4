-- ===== src/StatCache/Prune/Rooted.antt =====
-- Which entries pruning must keep, and what it expects of the keys of a cache.
use fusedav.Prelude.{◌≤◌, ◌≡◌, ◌⊎◌, true, false, some, [], ◌∷◌}
use fusedav.Text.{Text, str_lt}
use fusedav.Text.Decimal.{strtol}
use fusedav.Path.{path_parent}
use fusedav.LevelDb.{Entries, lookup}
use fusedav.Structs.{Blob}
use fusedav.StatCache.{path2key}
use fusedav.StatCache.Key.Shape.{slashes, IsAbsolute}
use fusedav.StatCache.Prune.{base_directory, is_directory}

-- The path is the base directory, or a directory in the entries whose parent is rooted.
pub data IsRooted (es : Entries Blob) : Text → Type 0 where
  base : (path : Text) → path ≡ base_directory → IsRooted es path
  under :
      (path parent : Text) (value : Blob)
      → IsAbsolute path
      → slashes path ≤ 9999
      → path_parent path ≡ some parent
      → IsRooted es parent
      → lookup (path2key path false) es ≡ some value
      → is_directory value ≡ true
      → IsRooted es path

-- The entries that must stay: those of the base directory and of a rooted directory's children.
abbrev pub HasRootedParent : Entries Blob → Text → Type 0
HasRootedParent es path =
    (path ≡ base_directory)
    ⊎ ((parent : Text) × (path_parent path ≡ some parent) × IsRooted es parent)

-- A key of the other kinds, such as `fc:` and `updated_children:`, comes behind those of all paths
-- and begins with no number.
pub record IsLate (key : Text) : Type 0 where
  pub behind : (path : Text) → IsAbsolute path → str_lt (path2key path false) key ≡ true
  pub no_depth : (strtol key).magnitude ≡ 0

abbrev pub KeyKind : Text → Type 0
KeyKind key = ((path : Text) × IsAbsolute path × (key ≡ path2key path false)) ⊎ IsLate key

abbrev pub WellKeyed : Entries Blob → Type 0
WellKeyed [] = Unit
WellKeyed ((key, value) ∷ es) = KeyKind key × WellKeyed es
