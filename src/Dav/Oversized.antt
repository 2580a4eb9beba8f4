-- ===== src/Dav/Oversized.antt =====
-- A write that makes a file too big, and the release of its handle, in src/fusedav.c.
use fusedav.Prelude.{
  ℕ, ◌*◌, ◌<◌, ◌≡◌, ◌≢◌, refl, ap, ◌∙◌, Bool, true, false, Option, none, some, List, lt→ltb, arith,
}
use fusedav.Text.{Text}
use fusedav.LevelDb.{LevelDb}
use fusedav.Structs.{Blob, efbig}
use fusedav.StatCache.{stat_cache_value_get}
use fusedav.FileCache.{World, FilecacheSdata, ok}
use fusedav.FileCache.Io.{LockedCalls, filecache_write, set_error}
use fusedav.FileCache.Put.{SyncCalls, filecache_sync}
use fusedav.FileCache.Remove.{filecache_forensic_haven}
use fusedav.FileCache.Sync.{write_all, write_all-sync}
use fusedav.Dav.{Config, errno, fill_stat_generic}
use fusedav.Dav.Update.{Server}
use fusedav.Dav.GetStat.{GotStat, get_stat}
use fusedav.Dav.Handles.{RefreshCalls}
use fusedav.Dav.Writes.{dav_write, written, write_synced, write_filled, file_too_big}
use fusedav.Dav.Names.{common_unlink, unlink_found}
use fusedav.Dav.Release.{ReleaseCalls, dav_release, release_synced, abandon, close_handle}

set_error-stays : (s : FilecacheSdata) → (set_error s efbig).error_code ≢ 0
unfolding set_error
set_error-stays s = ground arith

set_error-first : (s : FilecacheSdata) → s.error_code ≡ 0 → (set_error s efbig).error_code ≡ efbig
unfolding set_error
set_error-first s h = ground arith

module _ (ldb : LevelDb Blob) (server : Server) (config : Config) (path : Text) where
  -- The caches when a release gives a file up: the handle is closed, and the file put aside.
  abbrev pub put_by : World ldb → Option FilecacheSdata → ReleaseCalls → World ldb
  put_by w sdata calls =
      let closed = close_handle ldb server w sdata calls.close in
      (filecache_forensic_haven ldb
        (record closed {
          cache = (stat_cache_value_get ldb closed.cache path true calls.stat_now).cache;
        })
        path calls.rename calls.creat calls.write).1

  release_Stuck :
      (w : World ldb) (sdata : FilecacheSdata) (writes : List (LockedCalls ℕ))
      (calls : ReleaseCalls) (r : GotStat ldb)
      → sdata.error_code ≢ 0
      → get_stat ldb server config
          (put_by w (write_all (some sdata) writes) calls)
          path
          calls.unlink.stat
        ≡ some r
      → dav_release ldb server config w (some path) (write_all (some sdata) writes) calls
        ≡ some
            (errno sdata.error_code, (unlink_found ldb server path false calls.unlink.attempts r).1)
  unfolding dav_release
  release_Stuck w sdata writes calls r e got =
      rw
        (
          write_all-sync sdata ldb server.nodes w path e writes calls.sync,
          release_synced,
          abandon,
          common_unlink,
          got,
        )
        refl

  write_big :
      (bytes size fd : ℕ) (w : World ldb) (s : FilecacheSdata) (calls : RefreshCalls)
      → s.fd ≡ some fd
      → calls.fill.lseek ≡ ok size
      → config.max_file_size * (1024 * 1024) < size
      → write_filled ldb config bytes path s w calls.set (fill_stat_generic 0 false s.fd calls.fill)
        ≡ record { ret = errno efbig; sdata = some (set_error s efbig); world = w }
  unfolding write_filled fill_stat_generic file_too_big
  write_big bytes size fd w s calls open_fd lseek big =
      rw (open_fd, lseek, lt→ltb (config.max_file_size * (1024 * 1024)) size big) refl

  -- A write that makes a file larger than the limit returns EFBIG, and however the handle is written
  -- to after that, its release returns EFBIG as well: no PUT is made, the file is put aside, and its
  -- entries are dealt with as by an unlink that leaves the server alone.
  pub dav_write-release :
      (bytes size fd : ℕ) (wrote_data : Bool) (w after : World ldb) (sdata put s : FilecacheSdata)
      (write : LockedCalls ℕ) (sync : SyncCalls) (calls : RefreshCalls)
      (writes : List (LockedCalls ℕ)) (release : ReleaseCalls) (r : GotStat ldb)
      → filecache_write (some sdata) write ≡ (some bytes, none, some put)
      → filecache_sync ldb server.nodes w (some path) (some put) false sync
        ≡ (wrote_data, none, some s, after)
      → s.error_code ≡ 0
      → s.fd ≡ some fd
      → calls.fill.lseek ≡ ok size
      → config.max_file_size * (1024 * 1024) < size
      → get_stat ldb server config
          (put_by after (write_all (some (set_error s efbig)) writes) release)
          path
          release.unlink.stat
        ≡ some r
      → (dav_write ldb server.nodes config w (some path) (some sdata) write sync calls
          ≡ some (record { ret = errno efbig; sdata = some (set_error s efbig); world = after }))
        × (dav_release ldb server config after
              (some path)
              (write_all (some (set_error s efbig)) writes)
              release
            ≡ some (errno efbig, (unlink_found ldb server path false release.unlink.attempts r).1))
  unfolding dav_write written write_synced
  dav_write-release bytes size fd wrote_data w after sdata put s write sync calls writes release r
        wrote synced fine open_fd lseek big got =
      (
        ap (written ldb server.nodes config w (some path) sync calls) wrote
            ∙ ap (write_synced ldb config bytes path calls) synced
            ∙ ap some (write_big bytes size fd after s calls open_fd lseek big),
        release_Stuck after (set_error s efbig) writes release r (set_error-stays s) got
            ∙ ap
                (λ code.
                  some
                    (errno code, (unlink_found ldb server path false release.unlink.attempts r).1))
                (set_error-first s fine),
      )
