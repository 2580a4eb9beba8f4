-- ===== src/Dav/Writes.antt =====
-- `dav_write` of src/fusedav.c.
use fusedav.Prelude.{ℕ, ◌*◌, Bool, false, Option, none, some, ltb, if◌then◌else◌}
use fusedav.Text.{Text}
use fusedav.LevelDb.{LevelDb}
use fusedav.Structs.{Stat, Blob, GError, efbig, eperm}
use fusedav.FileCache.{World, FilecacheSdata, OsResult, ok, fails}
use fusedav.FileCache.Io.{LockedCalls, filecache_write, set_error}
use fusedav.FileCache.Put.{SyncCalls, filecache_sync}
use fusedav.Dav.{
  Config, returns, errno, processed_gerror, fill_stat_generic, SetCalls, set_in, store_stat,
  zero_value,
}
use fusedav.Dav.Handles.{Handled, RefreshCalls, handled, Result}

-- The size is in bytes, the limit in MiB.
unfoldable pub file_too_big : ℕ → ℕ → Bool
file_too_big fsz maxsz = ltb (maxsz * (1024 * 1024)) fsz

module _ (ldb : LevelDb Blob) where
  -- A file that is too big keeps EFBIG in its handle, and no attributes are stored.
  unfoldable pub write_filled :
      Config → ℕ → Text → FilecacheSdata → World ldb → SetCalls → OsResult Stat → Handled ldb
  unfolding file_too_big set_error store_stat
  write_filled config bytes path sdata w calls (fails code) =
      handled ldb (errno code) (some sdata) w
  write_filled config bytes path sdata w calls (ok st) =
      if file_too_big st.st_size config.max_file_size
      then handled ldb (errno efbig) (some (set_error sdata efbig)) w
      else (let (error, after) = set_in ldb w (some path) (zero_value st) calls in
          elim error [
            | some e ↦ handled ldb (processed_gerror e) (some sdata) after
            | none ↦ handled ldb (returns bytes) (some sdata) after
          ])

  unfoldable pub write_synced : Config → ℕ → Text → RefreshCalls → Result ldb → Option (Handled ldb)
  unfolding write_filled fill_stat_generic
  write_synced config bytes path calls (wrote_data, some e, sdata, w) =
      some (handled ldb (processed_gerror e) sdata w)
  write_synced config bytes path calls (wrote_data, none, none, w) = none
  write_synced config bytes path calls (wrote_data, none, some sdata, w) = some (
      write_filled config bytes path sdata w calls.set
        (fill_stat_generic 0 false sdata.fd calls.fill))

  unfoldable pub written :
      ℕ
      → Config
      → World ldb
      → Option Text
      → SyncCalls
      → RefreshCalls
      → Option ℕ × Option GError × Option FilecacheSdata
      → Option (Handled ldb)
  unfolding write_synced filecache_sync
  written nodes config w path sync calls (bytes, some e, sdata) =
      some (handled ldb (processed_gerror e) sdata w)
  -- -1
  written nodes config w path sync calls (none, none, sdata) =
      some (handled ldb (errno eperm) sdata w)
  written nodes config w none sync calls (some bytes, none, sdata) =
      some (handled ldb (returns bytes) sdata w)
  written nodes config w (some path) sync calls (some bytes, none, sdata) =
      write_synced config bytes path calls (filecache_sync ldb nodes w (some path) sdata false sync)

  unfoldable pub dav_write :
      ℕ
      → Config
      → World ldb
      → Option Text
      → Option FilecacheSdata
      → LockedCalls ℕ
      → SyncCalls
      → RefreshCalls
      → Option (Handled ldb)
  unfolding written filecache_write
  dav_write nodes config w path sdata write sync calls =
      written nodes config w path sync calls (filecache_write sdata write)
