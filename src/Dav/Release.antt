-- ===== src/Dav/Release.antt =====
-- `dav_release` of src/fusedav.c.
use fusedav.Prelude.{ℕ, Bool, true, false, Option, none, some, ◌∷◌, if◌then◌else◌}
use fusedav.Text.{Text}
use fusedav.LevelDb.{LevelDb}
use fusedav.Structs.{Blob, GError}
use fusedav.StatCache.{stat_cache_value_get}
use fusedav.FileCache.{World, FilecacheSdata, OsResult}
use fusedav.FileCache.Io.{filecache_close}
use fusedav.FileCache.Put.{SyncCalls, filecache_sync}
use fusedav.FileCache.Remove.{filecache_forensic_haven}
use fusedav.Dav.{Config, Ret, processed_gerror, ret_of, refresh_stat}
use fusedav.Dav.Update.{Server}
use fusedav.Dav.Handles.{RefreshCalls}
use fusedav.Dav.Names.{NameCalls, common_unlink}

-- `rename`, `creat` and `write` are those of the forensic haven.
pub record ReleaseCalls : Type 0 where
  pub sync : SyncCalls
  pub refill : RefreshCalls
  pub close : OsResult (Unit {0})
  pub stat_now : ℕ
  pub rename : OsResult (Unit {0})
  pub creat : OsResult ℕ
  pub write : OsResult ℕ
  pub unlink : NameCalls

module _ (ldb : LevelDb Blob) (server : Server) where
  -- The caches are cleaned of a file that could not be saved; the server is left alone, and the
  -- errors on the way are only logged.
  unfoldable pub abandon :
      Config → World ldb → Text → GError → ReleaseCalls → Option (Ret × World ldb)
  unfolding common_unlink filecache_forensic_haven stat_cache_value_get
  abandon config w path e calls =
      let r = stat_cache_value_get ldb w.cache path true calls.stat_now in
      let (haven_error, aside) =
        filecache_forensic_haven ldb (record w { cache = r.cache }) path calls.rename calls.creat
          calls.write in
      elim (common_unlink ldb server config aside path false calls.unlink) [
        | none ↦ none
        | some (error, after) ↦ some (processed_gerror e, after)
      ]

  -- `sdata` is freed, its descriptor closed.
  unfoldable pub close_handle : World ldb → Option FilecacheSdata → OsResult (Unit {0}) → World ldb
  unfolding filecache_close
  close_handle w none close = w
  close_handle w (some sdata) close = elim sdata.fd [
    | none ↦ w
    | some fd ↦ elim (filecache_close (some sdata) close) [
      | none ↦ record w { closed = fd ∷ w.closed }
      | some e ↦ w
    ]
  ]

  -- The end of a release whose sync set no error.
  released :
      ReleaseCalls
      → Option FilecacheSdata
      → Option (Option GError × World ldb)
      → Option (Ret × World ldb)
  unfolding close_handle
  released calls sdata none = none
  released calls sdata (some (error, w)) = some (ret_of error, close_handle w sdata calls.close)

  unfoldable pub release_synced :
      Config
      → Text
      → ReleaseCalls
      → Bool × Option GError × Option FilecacheSdata × World ldb
      → Option (Ret × World ldb)
  unfolding released abandon close_handle refresh_stat
  release_synced config path calls (wrote_data, some e, sdata, w) =
      abandon config (close_handle w sdata calls.close) path e calls
  release_synced config path calls (wrote_data, none, sdata, w) =
      if wrote_data
      then released calls sdata
          (refresh_stat ldb w (some path) sdata calls.refill.fill calls.refill.set)
      else released calls sdata (some (none, w))

  unfoldable pub dav_release :
      Config
      → World ldb
      → Option Text
      → Option FilecacheSdata
      → ReleaseCalls
      → Option (Ret × World ldb)
  unfolding release_synced released filecache_sync
  dav_release config w none sdata calls = released calls sdata (some (none, w))
  dav_release config w (some path) sdata calls =
      release_synced config path calls
        (filecache_sync ldb server.nodes w (some path) sdata true calls.sync)
