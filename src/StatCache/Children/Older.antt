-- ===== src/StatCache/Children/Older.antt =====
-- The loop of `stat_cache_delete_older` in src/statcache.c.
use fusedav.Prelude.{
  ℕ, ◌+◌, ◌≡◌, refl, sym, ap, subst, ◌∙◌, Bool, true, false, Option, none, some, [], ◌∷◌, arith,
  inl, inr, if◌then◌else◌, Bool-cases, ltb,
}
use fusedav.Text.{Text, str_eq, str_eq_sound}
use fusedav.LevelDb.{LevelDb, Entries, lookup, IsLevelDb, IsSorted, AllAbove}
use fusedav.LevelDb.Sorted.{lookup-AllAbove}
use fusedav.Structs.{Blob}
use fusedav.StatCache.{
  StatCache, Reply, path2key, generation_of, stat_cache_delete, end_delete, reply,
}
use fusedav.StatCache.Key.Shape.{IsAbsolute, key2path-path2key}
use fusedav.StatCache.Children.{delete_entry, delete_older_loop}

-- The keys are those of absolute paths, as are the keys of a directory's children.
abbrev pub PathKeys : Entries Blob → Type 0
PathKeys [] = Unit {0}
PathKeys ((key, value) ∷ es) =
    ((path : Text) × IsAbsolute path × (key ≡ path2key path false)) × PathKeys es

-- Whether an entry has a generation below the minimum.
abbrev pub is_older : ℕ → Option Blob → Bool
is_older minimum none = false
is_older minimum (some value) = ltb (generation_of value) minimum

module _ (ldb : LevelDb Blob) (laws : IsLevelDb ldb) (minimum : ℕ) where
  delete_entry-key :
      (cache : StatCache ldb) (key : Text)
      → (path : Text) × IsAbsolute path × (key ≡ path2key path false)
      → delete_entry ldb cache key ≡ end_delete ldb cache (ldb.delete cache.db key)
  unfolding delete_entry stat_cache_delete
  delete_entry-key cache key (path, absolute, e) =
      let at : delete_entry ldb cache (path2key path false)
          ≡ end_delete ldb cache (ldb.delete cache.db (path2key path false)) =
        ap (λ o. elim o [ none ↦ reply ldb tt cache | some p ↦ stat_cache_delete ldb cache p ])
          (key2path-path2key path absolute) in
      subst (λ k. delete_entry ldb cache k ≡ end_delete ldb cache (ldb.delete cache.db k)) (sym e)
        at

  -- What the loop leaves at a key, in terms of what was there.
  abbrev after : Option Blob → Option Blob → Option Blob
  after found before = if is_older minimum found then none else before

  after-none : (found : Option Blob) → after found none ≡ none
  after-none found = elim (Bool-cases (is_older minimum found)) [
    | inl old ↦ rw old refl
    | inr young ↦ rw young refl
  ]

  -- Behind an entry that stays.
  kept :
      (k : Text) (value : Blob) (es : Entries Blob) (before : Option Blob) (key : Text)
      → AllAbove k es
      → ltb (generation_of value) minimum ≡ false
      → after (lookup key es) before ≡ after (lookup key ((k, value) ∷ es)) before
  unfolding lookup
  kept k value es before key above young = elim (Bool-cases (str_eq k key)) [
    | inr other ↦ rw other refl
    | inl same ↦
        let e : k ≡ key = str_eq_sound k key same in
        let gone : lookup key es ≡ none =
          subst (λ t. lookup t es ≡ none) e (lookup-AllAbove k es above) in
        rw (same, gone, young) refl
  ]

  -- Behind an entry that is deleted.
  deleted_key :
      (k : Text) (value : Blob) (es : Entries Blob) (db : ldb.Db) (key : Text)
      → AllAbove k es
      → ltb (generation_of value) minimum ≡ true
      → (ldb.delete db k).1 ≡ false
      → after (lookup key es) (lookup key (ldb.entries (ldb.delete db k).0))
        ≡ after (lookup key ((k, value) ∷ es)) (lookup key (ldb.entries db))
  unfolding lookup
  deleted_key k value es db key above old done = elim (Bool-cases (str_eq k key)) [
    | inr other ↦ rw (other, laws.delete_other db k key other) refl
    | inl same ↦
        let e : k ≡ key = str_eq_sound k key same in
        let gone : lookup key (ldb.entries (ldb.delete db k).0) ≡ none =
          subst (λ t. lookup t (ldb.entries (ldb.delete db k).0) ≡ none) e
            (laws.delete_self db k done) in
        rw (same, gone, old) (after-none (lookup key es))
  ]

  next_deleted : Entries Blob → ℕ → Reply ldb (Unit {0}) → Reply ldb ℕ
  next_deleted es deleted r = elim r.error [
    | none ↦ delete_older_loop ldb minimum es (deleted + 1) r.cache
    | some e ↦ record { result = deleted + 1; error = some e; cache = r.cache }
  ]

  older_step :
      (k : Text) (value : Blob) (es : Entries Blob) (deleted : ℕ) (cache : StatCache ldb)
      → (path : Text) × IsAbsolute path × (k ≡ path2key path false)
      → ltb (generation_of value) minimum ≡ true
      → delete_older_loop ldb minimum ((k, value) ∷ es) deleted cache
        ≡ next_deleted es deleted (end_delete ldb cache (ldb.delete cache.db k))
  unfolding delete_older_loop next_deleted
  older_step k value es deleted cache own old =
      rw old (ap (next_deleted es deleted) (delete_entry-key cache k own))

  younger_step :
      (k : Text) (value : Blob) (es : Entries Blob) (deleted : ℕ) (cache : StatCache ldb)
      → ltb (generation_of value) minimum ≡ false
      → delete_older_loop ldb minimum ((k, value) ∷ es) deleted cache
        ≡ delete_older_loop ldb minimum es deleted cache
  unfolding delete_older_loop
  younger_step k value es deleted cache young = rw young refl

  abbrev Leaves : Entries Blob → StatCache ldb → Text → Reply ldb ℕ → Type 0
  Leaves es cache key r =
      r.error ≡ none
      → lookup key (ldb.entries r.cache.db)
        ≡ after (lookup key es) (lookup key (ldb.entries cache.db))

  no_entries :
      (deleted : ℕ) (cache : StatCache ldb) (key : Text)
      → Leaves [] cache key (delete_older_loop ldb minimum [] deleted cache)
  unfolding delete_older_loop lookup
  no_entries deleted cache key h = refl

  -- From the entry that is deleted to the loop over the others.
  next-Leaves :
      (k : Text) (value : Blob) (es : Entries Blob) (deleted : ℕ) (cache : StatCache ldb)
      (key : Text)
      → AllAbove k es
      → ltb (generation_of value) minimum ≡ true
      → ((later : StatCache ldb)
          → Leaves es later key (delete_older_loop ldb minimum es (deleted + 1) later))
      → Leaves
          ((k, value) ∷ es)
          cache
          key
          (next_deleted es deleted (end_delete ldb cache (ldb.delete cache.db k)))
  unfolding next_deleted end_delete
  next-Leaves k value es deleted cache key above old rest =
      elim (Bool-cases (ldb.delete cache.db k).1) [
        | inl failed ↦ rw failed (λ h. absurd (ground arith))
        | inr done ↦ rw done (λ h.
            rest (record cache { db = (ldb.delete cache.db k).0 }) h
            ∙ deleted_key k value es cache.db key above old done)
      ]

  -- If the loop over sorted entries with keys of paths ends without an error, then the entries whose
  -- generation is below the minimum are deleted, and no other key of the database has changed.
  pub delete_older_loop-After :
      (es : Entries Blob) (deleted : ℕ) (cache : StatCache ldb) (key : Text)
      → IsSorted es
      → PathKeys es
      → (delete_older_loop ldb minimum es deleted cache).error ≡ none
      → lookup key (ldb.entries (delete_older_loop ldb minimum es deleted cache).cache.db)
        ≡ (if is_older minimum (lookup key es) then none else lookup key (ldb.entries cache.db))
  delete_older_loop-After [] deleted cache key sorted paths = no_entries deleted cache key
  delete_older_loop-After ((k, value) ∷ es) deleted cache key (above, sorted) (own, paths) =
      elim (Bool-cases (ltb (generation_of value) minimum)) [
        | inr young ↦
            subst (Leaves ((k, value) ∷ es) cache key)
              (sym (younger_step k value es deleted cache young))
              (λ h.
                delete_older_loop-After es deleted cache key sorted paths h
                ∙ kept k value es (lookup key (ldb.entries cache.db)) key above young)
        | inl old ↦
            subst (Leaves ((k, value) ∷ es) cache key)
              (sym (older_step k value es deleted cache own old))
              (next-Leaves k value es deleted cache key above old
                (λ later. delete_older_loop-After es (deleted + 1) later key sorted paths))
      ]
