-- ===== src/StatCache/Children.antt =====
-- The calls of src/statcache.c that go through a directory's children.
pub mod Exact
pub mod Older
pub mod Aged
use fusedav.Prelude.{
  ℕ, ◌+◌, ◌-◌, Bool, true, false, not, Option, none, some, List, [], ◌∷◌, map, ltb, ◌==◌,
  if◌then◌else◌, length, drop,
}
use fusedav.Text.{Text}
use fusedav.LevelDb.{LevelDb, Entries}
use fusedav.Structs.{Blob, GError}
use fusedav.StatCache.{
  StatCache, Reply, reply, cache_timeout, path2key, key2path, generation_of,
  stat_cache_read_updated_children, stat_cache_delete,
}
use fusedav.StatCache.Iter.{iterate}
use fusedav.StatCache.Prune.{BloomEnv, stat_cache_prune}

-- The negated codes that `stat_cache_enumerate` returns.
pub data Enumerated : Type 0 where
  success no_data old_data : Enumerated

module _ (ldb : LevelDb Blob) where
  -- What is left of a key behind its directory's prefix.
  unfoldable pub filenames : Text → Entries Blob → List Text
  filenames path_prefix es = map (λ e. drop (length (path2key path_prefix true)) e.0) es

  abbrev found_entries : List Text → Enumerated
  found_entries [] = no_data
  found_entries (name ∷ names) = success

  list_children : StatCache ldb → Text → List Text × Enumerated
  unfolding filenames
  list_children cache path_prefix =
      let names = filenames path_prefix (iterate ldb cache path_prefix) in
      (names, found_entries names)

  -- The first component is the names that the callback is called on, in order. The error of the
  -- read is dropped, since the call passes no place for it.
  enumerate_listed : ℕ → Text → Reply ldb ℕ → List Text × Enumerated × StatCache ldb
  unfolding list_children
  enumerate_listed now path_prefix listed =
      if listed.result == 0
      then ([], no_data, listed.cache)
      else if ltb cache_timeout (now - listed.result)
      then ([], old_data, listed.cache)
      else let (names, status) = list_children listed.cache path_prefix in
        (names, status, listed.cache)

  unfoldable pub stat_cache_enumerate :
      StatCache ldb → Text → Bool → ℕ → List Text × Enumerated × StatCache ldb
  unfolding enumerate_listed
  stat_cache_enumerate cache path_prefix true now =
      let (names, status) = list_children cache path_prefix in (names, status, cache)
  stat_cache_enumerate cache path_prefix false now =
      enumerate_listed now path_prefix (stat_cache_read_updated_children ldb cache path_prefix)

  unfoldable pub stat_cache_dir_has_child : StatCache ldb → Text → Bool
  stat_cache_dir_has_child cache path = elim (iterate ldb cache path) [ [] ↦ false | e ∷ es ↦ true ]

  -- A null path, which the keys of this loop never have, would not get as far as the delete.
  unfoldable pub delete_entry : StatCache ldb → Text → Reply ldb (Unit {0})
  delete_entry cache key = elim (key2path key) [
    | none ↦ reply ldb tt cache
    | some path ↦ stat_cache_delete ldb cache path
  ]

  -- The result counts the deleted entries; an error ends the loop.
  unfoldable pub delete_older_loop : ℕ → Entries Blob → ℕ → StatCache ldb → Reply ldb ℕ
  unfolding delete_entry
  delete_older_loop minimum [] deleted cache = reply ldb deleted cache
  delete_older_loop minimum ((key, value) ∷ es) deleted cache =
      let on = delete_older_loop minimum es deleted cache in
      let after : Reply ldb (Unit {0}) = delete_entry cache key in
      let next = delete_older_loop minimum es (deleted + 1) after.cache in
      if ltb (generation_of value) minimum
      then elim after.error [
        | none ↦ next
        | some e ↦ record { result = deleted + 1; error = some e; cache = after.cache }
      ]
      else on

  -- Without an error, and if something was deleted, the orphans are pruned.
  prune_after : BloomEnv → Reply ldb ℕ → Option (Reply ldb (Unit {0}))
  prune_after env r = elim r.error [
    | some e ↦ some (record { result = tt; error = some e; cache = r.cache })
    | none ↦
        if ltb 0 r.result
        then elim (stat_cache_prune ldb env r.cache) [
          | none ↦ none
          | some c ↦ some (reply ldb tt c)
        ]
        else some (reply ldb tt r.cache)
  ]

  unfoldable pub stat_cache_delete_older :
      BloomEnv → StatCache ldb → Text → ℕ → Option (Reply ldb (Unit {0}))
  unfolding delete_older_loop prune_after
  stat_cache_delete_older env cache path_prefix minimum_local_generation =
      prune_after env
        (delete_older_loop minimum_local_generation (iterate ldb cache path_prefix) 0 cache)
