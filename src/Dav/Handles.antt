-- ===== src/Dav/Handles.antt =====
-- The calls of src/fusedav.c on an open file or on a file's attributes: mknod, open, create, read,
-- ftruncate, fsync, flush and utimens.
use fusedav.Prelude.{ℕ, Bool, true, false, Option, none, some, if◌then◌else◌}
use fusedav.Text.{Text}
use fusedav.LevelDb.{LevelDb}
use fusedav.Structs.{StatCacheValue, Blob, GError, enoent, eperm}
use fusedav.StatCache.{Reply, stat_cache_value_get}
use fusedav.FileCache.{World, FilecacheSdata, OpenFlags, OsResult}
use fusedav.FileCache.Io.{LockedCalls, filecache_read, filecache_truncate}
use fusedav.FileCache.Put.{SyncCalls, filecache_sync}
use fusedav.FileCache.Open.{OpenCalls, Opened, filecache_open}
use fusedav.Dav.{
  Config, Ret, returns, errno, processed_gerror, ret_of, FillCalls, fill_stat_generic, SetCalls,
  set_in, store_stat, refresh_stat,
}

-- What a call returns, and what it leaves.
pub record Handled (ldb : LevelDb Blob) : Type 0 where
  pub ret : Ret
  pub sdata : Option FilecacheSdata
  pub world : World ldb

-- The clock and the size for a new stat structure.
pub record RefreshCalls : Type 0 where
  pub fill : FillCalls
  pub set : SetCalls

-- O_WRONLY becomes O_RDWR.
unfoldable pub read_write : OpenFlags → OpenFlags
read_write flags =
    if flags.o_wronly then record flags { o_wronly = false; o_rdwr = true } else flags

unfoldable pub creating : OpenFlags → OpenFlags
creating flags = record flags { o_creat = true; o_trunc = true }

module _ (ldb : LevelDb Blob) where
  abbrev pub handled : Ret → Option FilecacheSdata → World ldb → Handled ldb
  handled ret sdata w = record { ret = ret; sdata = sdata; world = w }

  unfoldable pub dav_mknod : World ldb → Text → ℕ → RefreshCalls → Ret × World ldb
  unfolding store_stat fill_stat_generic
  dav_mknod w path mode calls =
      let (error, after) =
        store_stat ldb w (some path) (fill_stat_generic mode false none calls.fill) calls.set in
      (ret_of error, after)

  -- The end of a call whose last step is a new stat structure.
  refreshed : ℕ → Option FilecacheSdata → Option (Option GError × World ldb) → Option (Handled ldb)
  refreshed n sdata none = none
  refreshed n sdata (some (some e, w)) = some (handled (processed_gerror e) sdata w)
  refreshed n sdata (some (none, w)) = some (handled (returns n) sdata w)

  unfoldable pub refresh :
      World ldb → Option Text → Option FilecacheSdata → RefreshCalls → Option (Handled ldb)
  unfolding refreshed refresh_stat
  refresh w path sdata calls =
      refreshed 0 sdata (refresh_stat ldb w path sdata calls.fill calls.set)

  open_result : Text → OpenFlags → RefreshCalls → Opened ldb → Option (Handled ldb)
  unfolding refresh
  open_result path flags calls r = elim r.error [
    | some e ↦ some (handled (processed_gerror e) r.handle r.world)
    | none ↦
        if flags.o_trunc
        then refresh r.world (some path) r.handle calls
        else some (handled (returns 0) r.handle r.world)
  ]

  unfoldable pub dav_open :
      ℕ → Config → World ldb → Text → OpenFlags → OpenCalls → RefreshCalls → Option (Handled ldb)
  unfolding open_result read_write filecache_open
  dav_open nodes config w path flags opening calls =
      open_result path (read_write flags) calls
        (filecache_open ldb nodes w path (read_write flags) config.grace opening)

  read_ret : Option ℕ × Option GError → Ret
  read_ret (bytes_read, some e) = processed_gerror e
  read_ret (some bytes_read, none) = returns bytes_read
  -- -1
  read_ret (none, none) = errno eperm

  unfoldable pub dav_read : Option FilecacheSdata → OsResult ℕ → Ret
  unfolding read_ret filecache_read
  dav_read sdata pread = read_ret (filecache_read sdata pread)

  -- What a sync leaves: whether data was written, the error, the handle and the world.
  abbrev pub Result : Type 0
  Result = Bool × Option GError × Option FilecacheSdata × World ldb

  -- Of `dav_fsync` and `dav_flush`.
  synced : Option Text → RefreshCalls → Result → Option (Handled ldb)
  unfolding refresh
  synced path calls (wrote_data, some e, sdata, w) = some (handled (processed_gerror e) sdata w)
  synced path calls (wrote_data, none, sdata, w) =
      if wrote_data then refresh w path sdata calls else some (handled (returns 0) sdata w)

  unfoldable pub dav_fsync :
      ℕ
      → World ldb
      → Option Text
      → Option FilecacheSdata
      → SyncCalls
      → RefreshCalls
      → Option (Handled ldb)
  unfolding synced filecache_sync
  dav_fsync nodes w path sdata sync calls =
      synced path calls (filecache_sync ldb nodes w path sdata true sync)

  unfoldable pub dav_flush :
      ℕ
      → World ldb
      → Option Text
      → Option FilecacheSdata
      → SyncCalls
      → RefreshCalls
      → Option (Handled ldb)
  unfolding synced filecache_sync
  dav_flush nodes w none sdata sync calls = some (handled (returns 0) sdata w)
  dav_flush nodes w (some path) sdata sync calls =
      synced (some path) calls (filecache_sync ldb nodes w (some path) sdata true sync)

  -- Of `dav_create` and `dav_ftruncate`, whether data was written or not.
  stored : Option Text → RefreshCalls → Result → Option (Handled ldb)
  unfolding refresh
  stored path calls (wrote_data, some e, sdata, w) = some (handled (processed_gerror e) sdata w)
  stored path calls (wrote_data, none, sdata, w) = refresh w path sdata calls

  create_opened : ℕ → Text → SyncCalls → RefreshCalls → Opened ldb → Option (Handled ldb)
  unfolding stored filecache_sync
  create_opened nodes path sync calls r = elim r.error [
    | some e ↦ some (handled (processed_gerror e) r.handle r.world)
    | none ↦
        stored (some path) calls (filecache_sync ldb nodes r.world (some path) r.handle false sync)
  ]

  unfoldable pub dav_create :
      ℕ
      → Config
      → World ldb
      → Text
      → OpenFlags
      → OpenCalls
      → SyncCalls
      → RefreshCalls
      → Option (Handled ldb)
  unfolding create_opened creating filecache_open
  dav_create nodes config w path flags opening sync calls =
      create_opened nodes path sync calls
        (filecache_open ldb nodes w path (creating flags) config.grace opening)

  truncated :
      ℕ
      → World ldb
      → Option Text
      → SyncCalls
      → RefreshCalls
      → Option GError × Option FilecacheSdata
      → Option (Handled ldb)
  unfolding stored filecache_sync
  truncated nodes w path sync calls (some e, sdata) = some (handled (processed_gerror e) sdata w)
  truncated nodes w path sync calls (none, sdata) =
      stored path calls (filecache_sync ldb nodes w path sdata false sync)

  unfoldable pub dav_ftruncate :
      ℕ
      → World ldb
      → Option Text
      → Option FilecacheSdata
      → LockedCalls (Unit {0})
      → SyncCalls
      → RefreshCalls
      → Option (Handled ldb)
  unfolding truncated filecache_truncate
  dav_ftruncate nodes w path sdata truncate sync calls =
      truncated nodes w path sync calls (filecache_truncate sdata true truncate)

  with_times : ℕ → ℕ → StatCacheValue → StatCacheValue
  with_times accessed modified value = record value {
    st = record (value.st) { st_atime = accessed; st_ctime = modified; st_mtime = modified };
  }

  utimens_reply :
      ℕ → ℕ → World ldb → Text → SetCalls → Reply ldb (Option StatCacheValue) → Ret × World ldb
  unfolding with_times
  utimens_reply accessed modified w path calls r = elim r.error [
    | some e ↦ (processed_gerror e, record w { cache = r.cache })
    | none ↦ elim r.result [
      | none ↦ (errno enoent, record w { cache = r.cache })
      | some value ↦
          let (error, after) =
            set_in ldb (record w { cache = r.cache }) (some path)
              (with_times accessed modified value) calls in
          (ret_of error, after)
    ]
  ]

  -- The seconds of `tv[0]` and `tv[1]`.
  unfoldable pub dav_utimens : World ldb → Text → ℕ → ℕ → SetCalls → Ret × World ldb
  unfolding utimens_reply stat_cache_value_get
  dav_utimens w path accessed modified calls =
      utimens_reply accessed modified w path calls
        (stat_cache_value_get ldb w.cache path true calls.now)
