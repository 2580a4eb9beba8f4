-- ===== src/StatCache.antt =====
-- src/statcache.c: the cache of file attributes. A call that reads the clock takes the reading as
-- an argument; a call that LevelDB refuses sets the error and, for most calls, sends SIGTERM to
-- the process. Times are unsigned, so that a difference of an earlier time less a later one is 0,
-- which is as young as a negative one.
pub mod Key
pub mod Iter
pub mod Prune
pub mod Children
pub mod Fresh
mod Tests
unfoldable pub use Key.{path2key, key2path}
use fusedav.Prelude.{
  ℕ, ◌+◌, ◌-◌, ◌*◌, ◌/◌, ◌%◌, ◌^◌, Bool, true, false, ◌&&◌, not, Option, none, some, List, [], ◌∷◌,
  ◌++◌, map, ltb, ◌==◌, if◌then◌else◌, length, drop,
}
use fusedav.Text.{Text, codes, starts_with}
use fusedav.Path.{path_parent}
use fusedav.LevelDb.{LevelDb, Entries, seek}
use fusedav.Structs.{
  Stat, StatCacheValue, Blob, stat_blob, time_blob, pdata_blob, GError, g_error, leveldb, eio,
}

abbrev pub cache_timeout : ℕ
cache_timeout = 3

-- The database, the static counter of `stat_cache_get_local_generation`, and whether the process
-- has sent itself SIGTERM.
pub record StatCache (ldb : LevelDb Blob) : Type 0 where
  pub db : ldb.Db
  pub counter : ℕ
  pub terminated : Bool

-- What a call returns, the error that it sets, and the cache afterwards.
pub record Reply (ldb : LevelDb Blob) (A : Type 0) : Type 0 where
  pub result : A
  pub error : Option GError
  pub cache : StatCache ldb

-- Programs that were compiled before the field was filled left `st_blocks` at 0.
unfoldable pub fill_blocks : StatCacheValue → StatCacheValue
fill_blocks value =
    if value.st.st_blocks == 0 && ltb 0 value.st.st_size
    then record value { st = record (value.st) { st_blocks = (value.st.st_size + 511) / 512 } }
    else value

-- The bytes under a key of `updated_children`, read as a time: nothing else is stored there.
unfoldable pub as_time : Blob → ℕ
as_time (time_blob t) = t
as_time (stat_blob v) = 0
as_time (pdata_blob p) = 0

-- The generation in an entry under a path's key: nothing but attributes is stored there.
unfoldable pub generation_of : Blob → ℕ
generation_of (stat_blob v) = v.local_generation
generation_of (time_blob t) = 0
generation_of (pdata_blob p) = 0

abbrev pub updated_children_prefix : Text
updated_children_prefix = codes "updated_children:"

abbrev pub updated_children_key : Text → Text
updated_children_key path = updated_children_prefix ++ path

module _ (ldb : LevelDb Blob) where
  abbrev pub reply : {A : Type 0} → A → StatCache ldb → Reply ldb A
  reply a cache = record { result = a; error = none; cache = cache }

  -- A LevelDB error after which the process is killed.
  abbrev pub fatal : {A : Type 0} → A → StatCache ldb → Reply ldb A
  fatal a cache = record {
    result = a;
    error = g_error leveldb eio;
    cache = record cache { terminated = true };
  }

  -- The top 40 bits are the time of the first call, the bottom 24 bits count.
  unfoldable pub stat_cache_get_local_generation : ℕ → StatCache ldb → ℕ × StatCache ldb
  stat_cache_get_local_generation now cache =
      let counter = if cache.counter == 0 then now * 2 ^ 24 % 2 ^ 64 else cache.counter in
      let ret = (counter + 1) % 2 ^ 64 in (ret, record cache { counter = ret })

  unfoldable pub read_updated : Option (Option Blob) → StatCache ldb → Reply ldb ℕ
  unfolding as_time
  read_updated none cache = fatal 0 cache
  read_updated (some none) cache = reply 0 cache
  read_updated (some (some blob)) cache = reply (as_time blob) cache

  unfoldable pub stat_cache_read_updated_children : StatCache ldb → Text → Reply ldb ℕ
  unfolding read_updated
  stat_cache_read_updated_children cache path =
      read_updated (ldb.get cache.db (updated_children_key path)) cache

  -- An old entry is good as long as its directory was listed a short while ago.
  unfoldable pub check_directory :
      ℕ → StatCacheValue → Reply ldb ℕ → Reply ldb (Option StatCacheValue)
  check_directory now value listed = elim listed.error [
    | some e ↦ record { result = none; error = some e; cache = listed.cache }
    | none ↦
        if ltb cache_timeout (now - listed.result)
        then reply none listed.cache
        else reply (some (fill_blocks value)) listed.cache
  ]

  unfoldable pub check_parent :
      StatCache ldb → ℕ → StatCacheValue → Option Text → Reply ldb (Option StatCacheValue)
  unfolding check_directory stat_cache_read_updated_children
  check_parent cache now value none = reply none cache
  check_parent cache now value (some directory) =
      check_directory now value (stat_cache_read_updated_children cache directory)

  unfoldable pub check_value :
      StatCache ldb → Text → Bool → ℕ → Option (Option Blob) → Reply ldb (Option StatCacheValue)
  unfolding check_parent
  check_value cache path skip now none = fatal none cache
  check_value cache path skip now (some none) = reply none cache
  check_value cache path skip now (some (some (stat_blob value))) =
      if not skip && ltb cache_timeout (now - value.updated)
      then check_parent cache now value (path_parent path)
      else reply (some (fill_blocks value)) cache
  -- the length is not that of a `struct stat_cache_value`
  check_value cache path skip now (some (some (time_blob t))) = record {
    result = none;
    error = g_error leveldb eio;
    cache = cache;
  }
  check_value cache path skip now (some (some (pdata_blob p))) = record {
    result = none;
    error = g_error leveldb eio;
    cache = cache;
  }

  unfoldable pub stat_cache_value_get :
      StatCache ldb → Text → Bool → ℕ → Reply ldb (Option StatCacheValue)
  unfolding check_value
  stat_cache_value_get cache path skip_freshness_check now =
      check_value cache path skip_freshness_check now (ldb.get cache.db (path2key path false))

  -- The end of a write: the database, and whether `errptr` was set.
  unfoldable pub fatal_write : {A : Type 0} → A → StatCache ldb → ldb.Db × Bool → Reply ldb A
  fatal_write a cache (db, failed) =
      if failed then fatal a (record cache { db = db }) else reply a (record cache { db = db })

  unfoldable pub stat_cache_updated_children : StatCache ldb → Text → ℕ → Reply ldb (Unit {0})
  unfolding fatal_write
  stat_cache_updated_children cache path timestamp =
      let key = updated_children_key path in
      fatal_write tt cache (
        if timestamp == 0
        then ldb.delete cache.db key
        else ldb.put cache.db key (time_blob timestamp))

  -- The value is stamped, in the caller's structure too. The first call of all reads the clock
  -- once more, for the counter.
  unfoldable pub set_value :
      StatCache ldb → Text → StatCacheValue → ℕ → ℕ → Reply ldb StatCacheValue
  unfolding fatal_write stat_cache_get_local_generation
  set_value cache path value now counter_now =
      let (generation, counted) = stat_cache_get_local_generation counter_now cache in
      let stamped : StatCacheValue = record value {
        updated = now;
        local_generation = generation;
      } in
      fatal_write stamped counted (ldb.put counted.db (path2key path false) (stat_blob stamped))

  -- A null path is ignored.
  unfoldable pub stat_cache_value_set :
      StatCache ldb → Option Text → StatCacheValue → ℕ → ℕ → Reply ldb StatCacheValue
  unfolding set_value
  stat_cache_value_set cache none value now counter_now = reply value cache
  stat_cache_value_set cache (some path) value now counter_now =
      set_value cache path value now counter_now

  -- The end of a delete: an error is reported, and no signal sent.
  unfoldable pub end_delete : StatCache ldb → ldb.Db × Bool → Reply ldb (Unit {0})
  end_delete cache (db, failed) = record {
    result = tt;
    error = if failed then g_error leveldb eio else none;
    cache = record cache { db = db };
  }

  unfoldable pub stat_cache_delete : StatCache ldb → Text → Reply ldb (Unit {0})
  unfolding end_delete
  stat_cache_delete cache path = end_delete cache (ldb.delete cache.db (path2key path false))

  -- `time(NULL) - CACHE_TIMEOUT - 1`, for a clock past its first seconds.
  expire : ℕ → Text → Reply ldb (Unit {0}) → Reply ldb (Unit {0})
  unfolding stat_cache_updated_children
  expire now directory deleted = elim deleted.error [
    | some e ↦ record { result = tt; error = some e; cache = deleted.cache }
    | none ↦ stat_cache_updated_children deleted.cache directory (now - cache_timeout - 1)
  ]

  delete_and_expire : StatCache ldb → Text → ℕ → Reply ldb (Unit {0})
  unfolding expire stat_cache_delete
  delete_and_expire cache path now = expire now path (stat_cache_delete cache path)

  -- Without a parent the path itself is deleted.
  unfoldable pub stat_cache_delete_parent : StatCache ldb → Text → ℕ → Reply ldb (Unit {0})
  unfolding delete_and_expire
  stat_cache_delete_parent cache path now = elim (path_parent path) [
    | some parent ↦ delete_and_expire cache parent now
    | none ↦ delete_and_expire cache path now
  ]
