-- ===== src/Dav/Tests/Renaming.antt =====
-- A run of `dav_rename` that only moves the entries of the caches.
use fusedav.Prelude.{◌≡◌, ◌↔◌, refl, some}
use fusedav.Text.{codes, str_eq, str_lt}
use fusedav.Text.Decimal.{utoa}
use fusedav.LevelDb.{lookup}
use fusedav.LevelDb.Memory.{memory, memory-IsLevelDb}
use fusedav.Structs.{Blob, s_isdir}
use fusedav.StatCache.{path2key, fill_blocks, stat_cache_value_set}
use fusedav.FileCache.{World}
use fusedav.Dav.{Ret, returns, request}
use fusedav.Dav.Names.{dav_rename, local_move, is_request_bad}
use fusedav.Dav.Moved.{CachesMoved}
use fusedav.Dav.Renamed.{Succeeds, asked, dav_rename-Succeeds}
use fusedav.Dav.Saint.{cached_answer, get_stat-saint}
use fusedav.Dav.Tests.{
  file_value, world, server, config, set_calls, answering, stat_calls, a, name_calls,
}

abbrev asked_world : World (memory Blob)
asked_world =
    asked (memory Blob) server (name_calls 404)
      (cached_answer (memory Blob) world (some file_value))

dav_rename-Succeeds_example :
    (x : Ret × World (memory Blob)) × (dav_rename
        (memory Blob)
        server
        config
        world
        a
        (codes "/b")
        (name_calls 404)
        set_calls
      ≡ some x)
    × ((x.0 ≡ returns 0)
        ↔ Succeeds
            (request 3 (answering 404))
            (local_move (memory Blob) server asked_world a (codes "/b") set_calls).0)
    × (x.0 ≡ returns 0
        → (local_move (memory Blob) server asked_world a (codes "/b") set_calls).0 ≡ returns 0
        → CachesMoved (memory Blob) a (codes "/b") set_calls asked_world x.1)
unfolding world memory is_request_bad fill_blocks str_eq lookup path2key utoa s_isdir
dav_rename-Succeeds_example =
    dav_rename-Succeeds (memory Blob) server (memory-IsLevelDb Blob) config world a (codes "/b")
      (name_calls 404) set_calls (cached_answer (memory Blob) world (some file_value)) refl refl
      refl
      (get_stat-saint (memory Blob) server config world a stat_calls refl refl refl
        (some file_value) refl)
      refl

-- Both moves of this run return 0.
moves : (local_move (memory Blob) server asked_world a (codes "/b") set_calls).0 ≡ returns 0
unfolding world memory local_move lookup str_eq str_lt path2key utoa fill_blocks
    stat_cache_value_set
moves = refl
