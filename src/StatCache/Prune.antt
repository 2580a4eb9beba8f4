-- ===== src/StatCache/Prune.antt =====
-- `stat_cache_prune` of src/statcache.c: entries whose directories are gone are deleted. `none`
-- stands for an access outside of the bloom filter. What the function only counts and logs is
-- left out, and so is the cut of a path at PATH_MAX.
pub mod Steps
pub mod Order
pub mod Rooted
pub mod Keeps
pub mod Survives
use fusedav.Prelude.{
  ℕ, zero, suc, Bool, true, false, ◌&&◌, ◌||◌, not, Option, none, some, List, [], ◌∷◌, ltb, leb,
  ◌==◌, if◌then◌else◌,
}
use fusedav.Text.{Text, codes, slash, str_eq, starts_with}
use fusedav.Text.Decimal.{Long, strtol}
use fusedav.Path.{path_parent}
use fusedav.Bloom.{
  HashFunction, Bloomfilter, InitResult, created, failed, bloomfilter_init, bloomfilter_add,
  bloomfilter_exists,
}
use fusedav.LevelDb.{LevelDb, Entries, seek}
use fusedav.Structs.{Blob, stat_blob, time_blob, pdata_blob, s_isdir}
use fusedav.StatCache.{StatCache, key2path, stat_cache_delete, updated_children_prefix}

-- What the bloom filter takes from outside: zlib's hash, the clock, and the two allocations.
pub record BloomEnv : Type 0 where
  pub adler32 : HashFunction
  pub salt : ℕ
  pub options_alloc : Bool
  pub bitfield_alloc : Bool

abbrev pub base_directory : Text
base_directory = slash ∷ []

-- S_ISDIR of the value, read as a `struct stat_cache_value`
unfoldable pub is_directory : Blob → Bool
unfolding s_isdir
is_directory (stat_blob v) = s_isdir v.st.st_mode
is_directory (time_blob t) = false
is_directory (pdata_blob p) = false

-- How many passes there are and up to which depth, as far as the loop has seen.
pub record Depths : Type 0 where
  pub passes : ℕ
  pub max_depth : ℕ

unfoldable pub grow : ℕ → Depths → Depths
grow depth d =
    if ltb d.max_depth depth
    then (if leb 1000 depth
        then record { passes = 4; max_depth = 9999 }
        else if leb 100 depth
        then record { passes = 3; max_depth = 999 }
        else if leb 10 depth
        then record { passes = 2; max_depth = 99 }
        else record d { max_depth = depth })
    else d

-- `depth` is signed: a negative one is below every maximum, and belongs to the first pass.
unfoldable pub grow_long : Long → Depths → Depths
unfolding grow
grow_long depth d = if depth.negative then d else grow depth.magnitude d

unfoldable pub in_pass : ℕ → Long → Bool
in_pass pass depth =
    ((pass == 0) && (depth.negative || leb depth.magnitude 9))
    || (((pass == 1) && (not depth.negative && (leb 10 depth.magnitude && leb depth.magnitude 99)))
        || (((pass == 2)
              && (not depth.negative && (leb 100 depth.magnitude && leb depth.magnitude 999)))
            || ((pass == 3) && (not depth.negative && leb 1000 depth.magnitude))))

-- As many passes as there can be.
abbrev pub prune_fuel : ℕ
prune_fuel = 4

module _ (ldb : LevelDb Blob) where
  pub record PruneState : Type 0 where
    pub filter : Bloomfilter
    pub cache : StatCache ldb
    pub depths : Depths

  -- What the body of the loop does: go on, or leave the loop.
  pub data Visit : Type 0 where
    continue : PruneState → Visit
    break : PruneState → Visit

  -- An entry that is not keyed by a path is deleted, whatever the outcome.
  pub delete_key : StatCache ldb → Text → StatCache ldb
  delete_key cache key = record cache { db = (ldb.delete cache.db key).0 }

  -- The parent is in the filter: a directory is added for the next depth.
  pub keep_entry : PruneState → Text → Bool → Option PruneState
  keep_entry s path is_dir =
      if is_dir
      then elim (bloomfilter_add s.filter path) [
        | none ↦ none
        | some filter ↦ some (record s { filter = filter })
      ]
      else some s

  pub check_entry : PruneState → Text → Bool → Option Bool → Option PruneState
  unfolding keep_entry
  check_entry s path is_dir none = none
  check_entry s path is_dir (some true) = keep_entry s path is_dir
  check_entry s path is_dir (some false) =
      some (record s { cache = (stat_cache_delete ldb s.cache path).cache })

  -- An entry whose depth belongs to the pass.
  pub prune_entry : PruneState → Text → Bool → Option PruneState
  unfolding check_entry
  prune_entry s path is_dir =
      if str_eq path base_directory then some s else elim (path_parent path) [
        | none ↦ some s
        | some parent ↦ check_entry s path is_dir (bloomfilter_exists s.filter parent)
      ]

  pub visit_path : ℕ → PruneState → Text → Long → Bool → Option Visit
  unfolding prune_entry
  visit_path pass s path depth is_dir =
      if depth.magnitude == 0
      then some (break s)
      else let seen : PruneState = record s { depths = grow_long depth s.depths } in
        if in_pass pass depth
        then elim (prune_entry seen path is_dir) [ none ↦ none | some t ↦ some (continue t) ]
        else some (continue seen)

  pub visit : ℕ → PruneState → Text → Blob → Option Visit
  unfolding delete_key visit_path
  visit pass s key value = elim (key2path key) [
    | none ↦ some (continue (record s { cache = delete_key s.cache key }))
    | some path ↦ visit_path pass s path (strtol key) (is_directory value)
  ]

  -- One pass over the snapshot.
  pub prune_pass : ℕ → Entries Blob → PruneState → Option PruneState
  prune_pass pass [] s = some s
  prune_pass pass ((key, value) ∷ es) s = elim (visit pass s key value) [
    | none ↦ none
    | some (continue t) ↦ prune_pass pass es t
    | some (break t) ↦ some t
  ]

  -- `while (pass < passes)`: there are at most four passes, which the fuel counts down.
  pub prune_passes : ℕ → ℕ → Entries Blob → PruneState → Option PruneState
  prune_passes zero pass es s = some s
  prune_passes (suc fuel) pass es s =
      if ltb pass s.depths.passes
      then elim (prune_pass pass es s) [ none ↦ none | some t ↦ prune_passes fuel (suc pass) es t ]
      else some s

  -- The entries of `updated_children` stay if their directory is in the filter.
  pub sweep_path : Bloomfilter → StatCache ldb → Text → Option Text → Option (StatCache ldb)
  unfolding delete_key
  sweep_path filter cache key none = some (delete_key cache key)
  sweep_path filter cache key (some basepath) = elim (bloomfilter_exists filter basepath) [
    | none ↦ none
    | some true ↦ some cache
    | some false ↦ some (delete_key cache key)
  ]

  pub sweep : Bloomfilter → Entries Blob → StatCache ldb → Option (StatCache ldb)
  unfolding sweep_path
  sweep filter [] cache = some cache
  sweep filter ((key, value) ∷ es) cache =
      if starts_with updated_children_prefix key
      then elim (sweep_path filter cache key (key2path key)) [
        | none ↦ none
        | some c ↦ sweep filter es c
      ]
      else some cache

  -- The iterator keeps the snapshot of the database that it was created on.
  pub prune_with : StatCache ldb → Bloomfilter → Option (StatCache ldb)
  unfolding prune_passes prune_pass visit sweep
  prune_with cache filter =
      let es = ldb.entries cache.db in
      let start : PruneState = record {
        filter = filter;
        cache = cache;
        depths = record { passes = 1; max_depth = 0 };
      } in
      elim (prune_passes prune_fuel 0 es start) [
        | none ↦ none
        | some s ↦ sweep s.filter (seek updated_children_prefix es) s.cache
      ]

  pub start_prune : StatCache ldb → InitResult → Option (StatCache ldb)
  unfolding prune_with
  start_prune cache (failed e) = some cache
  start_prune cache (created options) = elim (bloomfilter_add options base_directory) [
    | none ↦ none
    | some filter ↦ prune_with cache filter
  ]

  unfoldable pub stat_cache_prune : BloomEnv → StatCache ldb → Option (StatCache ldb)
  unfolding start_prune
  stat_cache_prune env cache =
      start_prune cache
        (bloomfilter_init env.adler32 0 none 0 env.salt env.options_alloc env.bitfield_alloc)
