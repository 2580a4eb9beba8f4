-- ===== src/StatCache/Prune/Survives.antt =====
-- Proofs about `stat_cache_prune` of src/statcache.c as a whole.
use fusedav.Prelude.{
  suc, ◌≤◌, ◌≡◌, inl, inr, refl, ap, ◌∙◌, Bool, true, false, Option, none, some, [], ◌∷◌, arith,
  ◌==◌, Bool-cases,
}
use fusedav.Text.{Text, str_eq, str_eq_sound, starts_with}
use fusedav.Text.Decimal.{utoa, utoa_onto-append, utoa_onto-DigitFirst, DigitFirst, is_digit}
use fusedav.Bloom.{Bloomfilter, bloomfilter_exists}
use fusedav.Bloom.Member.{IsWellFormed, bloomfilter_add-Added, bloomfilter_exists-defined}
use fusedav.Bloom.Sizes.{bloomfilter_init-cases}
use fusedav.LevelDb.{LevelDb, Entries, lookup, seek, IsLevelDb}
use fusedav.Structs.{Blob}
use fusedav.StatCache.{StatCache, path2key, key2path, updated_children_prefix}
use fusedav.StatCache.Key.Shape.{slashes, IsAbsolute, path2key-own}
use fusedav.StatCache.Prune.{
  BloomEnv, PruneState, base_directory, delete_key, sweep, sweep_path, prune_with, prune_fuel,
  start_prune, stat_cache_prune,
}
use fusedav.StatCache.Prune.Rooted.{HasRootedParent, WellKeyed}
use fusedav.StatCache.Prune.Keeps.{prune_passes-own}
use fusedav.StatCache.Prune.Keeps.OneVisit.{Inv, Pending}
use fusedav.StatCache.Prune.Order.{pass_of}

path2key-DigitFirst : (path : Text) → DigitFirst (path2key path false)
path2key-DigitFirst path = rw (path2key-own path) (
    unfold utoa in
    rw (utoa_onto-append (suc (slashes path)) (slashes path) [] path)
      (utoa_onto-DigitFirst (suc (slashes path)) (slashes path) path (omega arith)))

not_digit : (key : Text) → DigitFirst key → starts_with updated_children_prefix key ≡ false
unfolding starts_with is_digit
not_digit [] h = absurd h
not_digit (c ∷ key) h = ground arith

not_own :
    (key path : Text)
    → starts_with updated_children_prefix key ≡ true
    → str_eq key (path2key path false) ≡ false
not_own key path h = elim (Bool-cases (str_eq key (path2key path false))) [
  | inr other ↦ other
  | inl same ↦
      let e : key ≡ path2key path false = str_eq_sound key (path2key path false) same in
      cc (
        ap (starts_with updated_children_prefix) e,
        not_digit (path2key path false) (path2key-DigitFirst path),
      )
]

module _ (ldb : LevelDb Blob) (laws : IsLevelDb ldb) (path : Text) where
  -- Before the first pass every directory is still to come.
  first_pass : (es : Entries Blob) (p : Text) → Pending ldb laws es 0 es p
  first_pass es p = elim (Bool-cases (pass_of (slashes p) == 0)) [
    | inl now ↦ inr (ground arith, refl)
    | inr later ↦ inl (ground arith)
  ]

  abbrev entry : StatCache ldb → Option Blob
  entry cache = lookup (path2key path false) (ldb.entries cache.db)

  delete_key-entry :
      (cache : StatCache ldb) (key : Text)
      → starts_with updated_children_prefix key ≡ true
      → entry (delete_key ldb cache key) ≡ entry cache
  unfolding delete_key
  delete_key-entry cache key h =
      laws.delete_other cache.db key (path2key path false) (not_own key path h)

  sweep_path-entry :
      (filter : Bloomfilter) (cache : StatCache ldb) (key : Text) (base : Option Text)
      → IsWellFormed filter
      → starts_with updated_children_prefix key ≡ true
      → (c : StatCache ldb) × (sweep_path ldb filter cache key base ≡ some c)
        × (entry c ≡ entry cache)
  sweep_path-entry filter cache key none wf h =
      (delete_key ldb cache key, unfold sweep_path in refl, delete_key-entry cache key h)
  sweep_path-entry filter cache key (some p) wf h =
      let (found, e) = bloomfilter_exists-defined filter p wf in go found e
    where
      go :
          (found : Bool)
          → bloomfilter_exists filter p ≡ some found
          → (c : StatCache ldb) × (sweep_path ldb filter cache key (some p) ≡ some c)
            × (entry c ≡ entry cache)
      go true e = (cache, unfold sweep_path in rw (e, sweep_path), refl)
      go false e = (
        delete_key ldb cache key,
        unfold sweep_path in rw (e, sweep_path),
        delete_key-entry cache key h,
      )

  sweep-entry :
      (filter : Bloomfilter) (es : Entries Blob) (cache : StatCache ldb)
      → IsWellFormed filter
      → (c : StatCache ldb) × (sweep ldb filter es cache ≡ some c) × (entry c ≡ entry cache)
  unfolding sweep
  sweep-entry filter [] cache wf = (cache, refl, refl)
  sweep-entry filter ((key, value) ∷ es) cache wf =
      elim (Bool-cases (starts_with updated_children_prefix key)) [
        | inr other ↦ (cache, rw other, refl)
        | inl has ↦
            let (c, swept, same) = sweep_path-entry filter cache key (key2path key) wf has in
            let (d, rest, same') = sweep-entry filter es c wf in
            (d, rw (has, swept) rest, same' ∙ same)
      ]

  module _ (a : IsAbsolute path) (most : slashes path ≤ 9999) where
    prune_with-entry :
        (cache : StatCache ldb) (filter : Bloomfilter)
        → IsWellFormed filter
        → bloomfilter_exists filter base_directory ≡ some true
        → WellKeyed (ldb.entries cache.db)
        → HasRootedParent (ldb.entries cache.db) path
        → (c : StatCache ldb) × (prune_with ldb cache filter ≡ some c) × (entry c ≡ entry cache)
    prune_with-entry cache filter wf held keyed parents =
        let es : Entries Blob = ldb.entries cache.db in
        let start : PruneState ldb = record {
          filter = filter;
          cache = cache;
          depths = record { passes = 1; max_depth = 0 };
        } in
        let inv : Inv ldb laws es 0 es start = record {
          wf = wf;
          base_held = held;
          rooted = λ p r. inr (first_pass es p);
        } in
        let (t, ran, wf', own) =
          prune_passes-own ldb laws es path a most parents prune_fuel 0 start inv
            (laws.entries_sorted cache.db) keyed in
        let (c, swept, same) = sweep-entry t.filter (seek updated_children_prefix es) t.cache wf' in
        (c, unfold prune_with in rw (ran, prune_with) swept, same ∙ own)

    -- Whatever keys the cache holds besides, pruning ends within the bounds of its filter, and the
    -- entry of a path survives unchanged if it is the base directory's, or if all its directories
    -- up to the base directory are in the cache as directories. This holds for every hash
    -- function, so for false positives too, and also when an allocation fails.
    pub stat_cache_prune-keeps :
        (env : BloomEnv) (cache : StatCache ldb)
        → WellKeyed (ldb.entries cache.db)
        → HasRootedParent (ldb.entries cache.db) path
        → (c : StatCache ldb) × (stat_cache_prune ldb env cache ≡ some c)
          × (lookup (path2key path false) (ldb.entries c.db)
              ≡ lookup (path2key path false) (ldb.entries cache.db))
    stat_cache_prune-keeps env cache keyed parents =
        elim (bloomfilter_init-cases env.adler32 0 env.salt env.options_alloc env.bitfield_alloc) [
          | inl (e, failing) ↦ (cache, unfold stat_cache_prune in rw (failing, start_prune), refl)
          | inr (options, made, wf) ↦
              let (filter, added, has) = bloomfilter_add-Added options base_directory wf in
              let (c, ran, same) = prune_with-entry cache filter has.wf has.holds keyed parents in
              (c, unfold stat_cache_prune in rw (made, start_prune, added) ran, same)
        ]
