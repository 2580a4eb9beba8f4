-- ===== src/Dav/Stored.antt =====
-- What `get_stat` of src/fusedav.c finds of attributes that were just stored.
use fusedav.Prelude.{
  ℕ, ◌+◌, ◌≤◌, ◌≡◌, refl, false, ◌&&◌, not, Option, none, some, [], ◌∷◌, ◌==◌, arith, inr,
  if◌then◌else◌,
}
use fusedav.Text.{Text, slash, str_eq}
use fusedav.LevelDb.{LevelDb, IsLevelDb}
use fusedav.Structs.{StatCacheValue, Blob}
use fusedav.StatCache.{Reply, stat_cache_value_set, set_value, fatal_write, path2key, fill_blocks}
use fusedav.StatCache.Fresh.{stat_cache_value_set-read}
use fusedav.FileCache.{World}
use fusedav.Dav.{Config, SetCalls}
use fusedav.Dav.Update.{Server}
use fusedav.Dav.GetStat.{
  GetStatCalls, IgnoreFreshness, off, saint_mode, is_off, found, get_stat, get_stat_from_cache,
  found_reply, found_value, first_read,
}

module _ (ldb : LevelDb Blob) (laws : IsLevelDb ldb) (w : World ldb) (path : Text)
    (value : StatCacheValue) (set : SetCalls) where
  abbrev pub stored : Reply ldb StatCacheValue
  stored = stat_cache_value_set ldb w.cache (some path) value set.now set.counter_now

  abbrev pub after : World ldb
  after = record w { cache = stored.cache }

  get_stat_from_cache-stored :
      (skip : IgnoreFreshness) (now : ℕ) (r : Option Blob)
      → stored.error ≡ none
      → ldb.get stored.cache.db (path2key path false) ≡ some r
      → now ≤ set.now + 3
      → ((fill_blocks stored.result).st.st_mode == 0) ≡ false
      → get_stat_from_cache ldb after path skip now ≡ (found (fill_blocks stored.result).st, after)
  unfolding get_stat_from_cache found_reply found_value
  get_stat_from_cache-stored skip now r h reads young mode =
      rw
        (
          stat_cache_value_set-read ldb laws w.cache path value set.now set.counter_now now
              (not (is_off skip)) r h reads (inr young),
          mode,
        )
        refl

  pub stored-st : stored.result.st ≡ value.st
  unfolding stat_cache_value_set set_value fatal_write
  stored-st = ground arith

  -- The file is answered from the cache, in saint mode too.
  pub get_stat-stored :
      (server : Server) (config : Config) (calls : GetStatCalls) (r : Option Blob)
      → str_eq path (slash ∷ []) ≡ false
      → stored.error ≡ none
      → ldb.get stored.cache.db (path2key path false) ≡ some r
      → calls.first_now ≤ set.now + 3
      → ((fill_blocks stored.result).st.st_mode == 0) ≡ false
      → get_stat ldb server config after path calls
        ≡ some (record { st = (fill_blocks stored.result).st; error = none; world = after })
  unfolding get_stat first_read
  get_stat-stored server config calls r other h reads young mode =
      rw
        (
          other,
          get_stat_from_cache-stored
              (if config.grace && calls.in_saint_mode then saint_mode else off) calls.first_now r h
              reads young mode,
        )
        refl
