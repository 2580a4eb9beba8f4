-- ===== src/StatCache/Children/Aged.antt =====
-- `stat_cache_delete_older` of src/statcache.c on the children of a directory.
use fusedav.Prelude.{
  ℕ, ◌≡◌, refl, sym, ap, subst, ◌∙◌, true, false, ◌&&◌, none, [], ◌∷◌, ◌++◌, arith, inl, inr,
  if◌then◌else◌, Bool-cases,
}
use fusedav.Text.{Text, str_eq, str_eq_sound, str_eq_refl, starts_with, starts_with_sound}
use fusedav.Path.Parent.{directory_path}
use fusedav.LevelDb.{LevelDb, Entries, lookup, IsLevelDb, IsSorted, AllAbove}
use fusedav.Structs.{Blob}
use fusedav.StatCache.{StatCache, path2key}
use fusedav.StatCache.Key.Shape.{IsAbsolute}
use fusedav.StatCache.Iter.{iterate}
use fusedav.StatCache.Iter.Range.{with_prefix, iter_entries-seek}
use fusedav.StatCache.Children.{delete_older_loop}
use fusedav.StatCache.Children.Exact.{is_some, KeysOfPaths}
use fusedav.StatCache.Children.Older.{PathKeys, is_older, delete_older_loop-After}

with_prefix-AllAbove :
    (p k : Text) (es : Entries Blob) → AllAbove k es → AllAbove k (with_prefix p es)
with_prefix-AllAbove p k [] above = tt
with_prefix-AllAbove p k ((j, v) ∷ es) (below, above) = elim (Bool-cases (starts_with p j)) [
  | inl has ↦ rw has (below, with_prefix-AllAbove p k es above)
  | inr other ↦ rw other (with_prefix-AllAbove p k es above)
]

with_prefix-IsSorted : (p : Text) (es : Entries Blob) → IsSorted es → IsSorted (with_prefix p es)
with_prefix-IsSorted p [] sorted = tt
with_prefix-IsSorted p ((k, v) ∷ es) (above, sorted) = elim (Bool-cases (starts_with p k)) [
  | inl has ↦ rw has (with_prefix-AllAbove p k es above, with_prefix-IsSorted p es sorted)
  | inr other ↦ rw other (with_prefix-IsSorted p es sorted)
]

pub lookup-with_prefix :
    (p key : Text) (es : Entries Blob)
    → lookup key (with_prefix p es) ≡ (if starts_with p key then lookup key es else none)
unfolding lookup
lookup-with_prefix p key [] = elim (Bool-cases (starts_with p key)) [
  | inl has ↦ rw has refl
  | inr other ↦ rw other refl
]
lookup-with_prefix p key ((k, v) ∷ es) = elim (Bool-cases (str_eq k key)) [
  | inl same ↦
      let e : starts_with p k ≡ starts_with p key = ap (starts_with p) (str_eq_sound k key same) in
      ground (arith, lookup-with_prefix p key es)
  | inr different ↦ ground (arith, lookup-with_prefix p key es)
]

-- Every name behind the prefix makes the key of an absolute path.
abbrev NamesOfPaths : Text → Entries Blob → Type 0
NamesOfPaths p es =
    (name : Text)
    → is_some (lookup (p ++ name) es) ≡ true
    → (path : Text) × IsAbsolute path × (path2key path false ≡ p ++ name)

lookup-own : (k : Text) (v : Blob) (es : Entries Blob) → is_some (lookup k ((k, v) ∷ es)) ≡ true
unfolding lookup
lookup-own k v es = rw (str_eq_refl k) refl

lookup-tail :
    (k key : Text) (v : Blob) (es : Entries Blob)
    → is_some (lookup key es) ≡ true
    → is_some (lookup key ((k, v) ∷ es)) ≡ true
unfolding lookup
lookup-tail k key v es there = elim (Bool-cases (str_eq k key)) [
  | inl same ↦ rw same refl
  | inr other ↦ rw other there
]

with_prefix-PathKeys :
    (p : Text) (es : Entries Blob) → NamesOfPaths p es → PathKeys (with_prefix p es)
with_prefix-PathKeys p [] names = tt
with_prefix-PathKeys p ((k, v) ∷ es) names =
    let rest =
      with_prefix-PathKeys p es (λ name there. names name (lookup-tail k (p ++ name) v es there)) in
    elim (Bool-cases (starts_with p k)) [
      | inr other ↦ rw other rest
      | inl has ↦
          let (name, e) = starts_with_sound p k has in
          let own = subst (λ t. is_some (lookup t ((k, v) ∷ es)) ≡ true) e (lookup-own k v es) in
          let (path, absolute, f) = names name own in rw has ((path, absolute, e ∙ sym f), rest)
    ]

module _ (ldb : LevelDb Blob) (laws : IsLevelDb ldb) (cache : StatCache ldb) (dir : Text) where
  abbrev prefix : Text
  prefix = path2key (directory_path dir) true

  iterate-with_prefix :
      iterate ldb cache (directory_path dir) ≡ with_prefix prefix (ldb.entries cache.db)
  unfolding iterate
  iterate-with_prefix =
      iter_entries-seek prefix (ldb.entries cache.db) (laws.entries_sorted cache.db)

  older_if :
      (minimum : ℕ) (key : Text)
      → (if is_older minimum (lookup key (with_prefix prefix (ldb.entries cache.db)))
          then none
          else lookup key (ldb.entries cache.db))
        ≡ (if starts_with prefix key && is_older minimum (lookup key (ldb.entries cache.db))
            then none
            else lookup key (ldb.entries cache.db))
  older_if minimum key =
      rw (lookup-with_prefix prefix key (ldb.entries cache.db))
        (elim (Bool-cases (starts_with prefix key)) [
          | inl has ↦ rw has refl
          | inr other ↦ rw other refl
        ])

  -- If the loop of stat_cache_delete_older over a directory whose keys are those of paths ends
  -- without an error, then the entries with the directory's prefix and a generation below the
  -- minimum are gone, and the value at every other key is what it was.
  pub delete_older_loop-directory :
      (minimum : ℕ) (key : Text)
      → KeysOfPaths ldb cache dir
      → (delete_older_loop ldb minimum (iterate ldb cache (directory_path dir)) 0 cache).error
        ≡ none
      → lookup key (
          ldb.entries
            (delete_older_loop ldb minimum
              (iterate ldb cache (directory_path dir))
              0
              cache).cache.db)
        ≡ (if starts_with (path2key (directory_path dir) true) key
              && is_older minimum (lookup key (ldb.entries cache.db))
            then none
            else lookup key (ldb.entries cache.db))
  delete_older_loop-directory minimum key keys = rw iterate-with_prefix (λ h.
      delete_older_loop-After ldb laws minimum (with_prefix prefix (ldb.entries cache.db)) 0 cache
        key (with_prefix-IsSorted prefix (ldb.entries cache.db) (laws.entries_sorted cache.db))
        (with_prefix-PathKeys prefix (ldb.entries cache.db) keys) h
      ∙ older_if minimum key)
