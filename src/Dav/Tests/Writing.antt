-- ===== src/Dav/Tests/Writing.antt =====
-- Runs of a write, and of the release of its handle.
use fusedav.Prelude.{◌≡◌, refl, Bool, true, false, Option, none, some, [], ◌∷◌, arith}
use fusedav.Text.{str_eq, str_lt}
use fusedav.LevelDb.{lookup}
use fusedav.LevelDb.Memory.{memory, memory-IsLevelDb}
use fusedav.Structs.{Blob, GError, efbig}
use fusedav.StatCache.{path2key, stat_cache_value_set, stat_cache_value_get}
use fusedav.FileCache.{World, FilecacheSdata, ok}
use fusedav.FileCache.Io.{filecache_write, set_error}
use fusedav.FileCache.Put.{filecache_sync}
use fusedav.FileCache.Remove.{filecache_forensic_haven}
use fusedav.FileCache.Sync.{write_all}
use fusedav.Text.Decimal.{utoa}
use fusedav.Dav.{returns, errno, zero_value, set_in}
use fusedav.Dav.GetStat.{get_stat}
use fusedav.Dav.Writes.{dav_write}
use fusedav.Dav.Names.{unlink_found}
use fusedav.Dav.Release.{ReleaseCalls, dav_release, close_handle}
use fusedav.Dav.Oversized.{dav_write-release, put_by}
use fusedav.Dav.Generic.{generic_file}
use fusedav.Dav.Cached.{dav_write-get_stat}
use fusedav.Dav.Saint.{cached_answer, get_stat-saint}
use fusedav.Dav.Tests.{
  file_value, world, server, config, set_calls, refresh_of, answering, stat_calls, a, opened,
  write_calls, sync_calls, name_calls,
}

-- What a write leaves of the handle.
abbrev put : FilecacheSdata
put = record opened { modified = true }

abbrev synced : Bool × Option GError × Option FilecacheSdata × World (memory Blob)
synced = filecache_sync (memory Blob) 3 world (some a) (some put) false sync_calls

abbrev after : World (memory Blob)
after = synced.3

dav_write-get_stat_example :
    get_stat
      (memory Blob)
      server
      config
      (set_in (memory Blob) after (some a) (zero_value (generic_file 5 200)) set_calls).1
      a
      stat_calls
    ≡ some (record {
      st = generic_file 5 200;
      error = none;
      world = (set_in (memory Blob) after (some a) (zero_value (generic_file 5 200)) set_calls).1;
    })
unfolding memory dav_write filecache_sync lookup str_eq path2key stat_cache_value_set utoa
dav_write-get_stat_example =
    dav_write-get_stat (memory Blob) (memory-IsLevelDb Blob) server config a (refresh_of 5)
      stat_calls 3 5 4 5 world opened put write_calls sync_calls
      (record {
        ret = returns 5;
        sdata = some put;
        world = (set_in (memory Blob) after (some a) (zero_value (generic_file 5 200)) set_calls).1;
      })
      _ refl refl refl refl refl refl (omega arith) refl

abbrev release_calls : ReleaseCalls
release_calls = record {
  sync = sync_calls;
  refill = refresh_of 5;
  close = ok tt;
  stat_now = 300;
  rename = ok tt;
  creat = ok 8;
  write = ok 10;
  unlink = name_calls 404;
}

abbrev stuck : FilecacheSdata
stuck = set_error put efbig

abbrev aside : World (memory Blob)
aside =
    put_by (memory Blob) server config a after (write_all (some stuck) (write_calls ∷ []))
      release_calls

dav_write-release_example :
    (dav_write
        (memory Blob)
        3
        config
        world
        (some a)
        (some opened)
        write_calls
        sync_calls
        (refresh_of 2000000)
      ≡ some (record { ret = errno efbig; sdata = some stuck; world = after }))
    × (dav_release
          (memory Blob)
          server
          config
          after
          (some a)
          (write_all (some stuck) (write_calls ∷ []))
          release_calls
        ≡ some (
          errno efbig,
          (unlink_found
              (memory Blob)
              server
              a
              false
              (answering 404)
              (cached_answer (memory Blob) aside (some file_value))).1,
        ))
unfolding memory filecache_write filecache_sync lookup str_eq path2key utoa filecache_forensic_haven
    stat_cache_value_get close_handle write_all str_lt
dav_write-release_example =
    dav_write-release (memory Blob) server config a 5 2000000 4 true world after opened put put
      write_calls sync_calls (refresh_of 2000000) (write_calls ∷ []) release_calls
      (cached_answer (memory Blob) aside (some file_value)) refl refl refl refl refl (omega arith)
      (get_stat-saint (memory Blob) server config aside a stat_calls refl refl refl
        (some file_value) refl)
