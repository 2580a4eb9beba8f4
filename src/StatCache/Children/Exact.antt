-- ===== src/StatCache/Children/Exact.antt =====
-- Proofs about `stat_cache_enumerate` of src/statcache.c and the children of a directory.
use fusedav.Prelude.{
  ℕ, ◌≡◌, ◌↔◌, refl, sym, ap, ◌∙◌, Bool, true, false, ◌||◌, Option, none, some, List, [], ◌∷◌, ◌++◌,
  map, arith, inl, inr, Bool-cases, length, drop, drop-length_append,
}
use fusedav.Text.{
  Text, slash, str_eq, str_eq_sound, starts_with, starts_with_sound, starts_with_append,
}
use fusedav.Path.Parent.{IsName, IsDirectory, directory_path}
use fusedav.LevelDb.{LevelDb, Entries, lookup, IsLevelDb}
use fusedav.Structs.{Blob}
use fusedav.StatCache.{StatCache, path2key}
use fusedav.StatCache.Key.Shape.{ends_in_slash, IsAbsolute, path2key-child, path2key-children_only}
use fusedav.StatCache.Iter.{iterate}
use fusedav.StatCache.Iter.Range.{with_prefix, iter_entries-seek}
use fusedav.StatCache.Children.{filenames, stat_cache_enumerate}

abbrev pub contains : Text → List Text → Bool
contains name [] = false
contains name (n ∷ names) = str_eq n name || contains name names

abbrev pub is_some : {A : Type 0} → Option A → Bool
is_some none = false
is_some (some a) = true

str_eq-append : (p s t : Text) → str_eq (p ++ s) (p ++ t) ≡ str_eq s t
unfolding str_eq
str_eq-append [] s t = refl
str_eq-append (c ∷ p) s t = ground (arith, str_eq-append p s t)

-- A key that is the prefix and a name has the prefix.
str_eq-starts_with : (p k name : Text) → starts_with p k ≡ false → str_eq k (p ++ name) ≡ false
str_eq-starts_with p k name h = elim (Bool-cases (str_eq k (p ++ name))) [
  | inl same ↦
      let e : k ≡ p ++ name = str_eq_sound k (p ++ name) same in
      cc (ap (starts_with p) e, starts_with_append p name)
  | inr other ↦ other
]

contains-with_prefix :
    (p name : Text) (es : Entries Blob)
    → contains name (map (λ e. drop (length p) e.0) (with_prefix p es))
      ≡ is_some (lookup (p ++ name) es)
unfolding lookup
contains-with_prefix p name [] = refl
contains-with_prefix p name ((k, v) ∷ es) = elim (Bool-cases (starts_with p k)) [
  | inl has ↦
      let (r, e) = starts_with_sound p k has in
      let rest : drop (length p) k ≡ r = ap (drop (length p)) e ∙ drop-length_append p r in
      let same : str_eq k (p ++ name) ≡ str_eq r name =
        ap (λ t. str_eq t (p ++ name)) e ∙ str_eq-append p r name in
      ground (arith, contains-with_prefix p name es, ap (λ t. str_eq t name) rest)
  | inr other ↦ ground (arith, contains-with_prefix p name es, str_eq-starts_with p k name other)
]

-- Every key with the prefix of a directory's children is the key of an absolute path.
abbrev pub KeysOfPaths : (ldb : LevelDb Blob) → StatCache ldb → Text → Type 0
KeysOfPaths ldb cache dir =
    (name : Text)
    → is_some (lookup (path2key (directory_path dir) true ++ name) (ldb.entries cache.db)) ≡ true
    → (path : Text) × IsAbsolute path
      × (path2key path false ≡ path2key (directory_path dir) true ++ name)

module _ (ldb : LevelDb Blob) (laws : IsLevelDb ldb) (cache : StatCache ldb) (dir : Text) where
  contains-filenames :
      (name : Text)
      → contains name (filenames ldb (directory_path dir) (iterate ldb cache (directory_path dir)))
        ≡ is_some (lookup (path2key (directory_path dir) true ++ name) (ldb.entries cache.db))
  unfolding filenames iterate
  contains-filenames name =
      rw
        (iter_entries-seek (path2key (directory_path dir) true) (ldb.entries cache.db)
          (laws.entries_sorted cache.db))
        (contains-with_prefix (path2key (directory_path dir) true) name (ldb.entries cache.db))

  -- A forced listing calls back on a text exactly when it is one name, and an entry for that child
  -- of the directory is in the cache; nothing else with the same prefix is taken for a child.
  pub stat_cache_enumerate-exact :
      (name : Text) (now : ℕ)
      → ends_in_slash dir ≡ false
      → IsDirectory dir
      → KeysOfPaths ldb cache dir
      → (contains name (stat_cache_enumerate ldb cache (directory_path dir) true now).0 ≡ true) ↔ (
          IsName name
          × (is_some (lookup (path2key (dir ++ slash ∷ name) false) (ldb.entries cache.db)) ≡ true))
  unfolding stat_cache_enumerate
  stat_cache_enumerate-exact name now inner d keys = (
    λ h.
        let there = sym (contains-filenames name) ∙ h in
        let (path, absolute, key) = keys name there in
        let (e, n) = path2key-children_only dir path name inner d absolute key in
        (n, rw (path2key-child dir name inner n) there),
    λ (n, there).
        contains-filenames name
        ∙ ap (λ k. is_some (lookup k (ldb.entries cache.db)))
            (sym (path2key-child dir name inner n))
        ∙ there,
  )
