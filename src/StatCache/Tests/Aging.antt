-- ===== src/StatCache/Tests/Aging.antt =====
-- A run of the loop of `stat_cache_delete_older` in src/statcache.c.
use fusedav.Prelude.{◌≡◌, refl, none}
use fusedav.Text.{codes, str_eq, str_lt, starts_with}
use fusedav.Text.Decimal.{utoa}
use fusedav.LevelDb.{lookup, seek}
use fusedav.LevelDb.Memory.{memory, memory-IsLevelDb}
use fusedav.Structs.{Blob}
use fusedav.StatCache.{path2key, key2path, stat_cache_delete, generation_of}
use fusedav.StatCache.Iter.{iterate}
use fusedav.StatCache.Children.{delete_older_loop}
use fusedav.StatCache.Children.Aged.{delete_older_loop-directory}
use fusedav.StatCache.Tests.{two_levels, a_keys}

-- The generation of `/a/b` is 1.
loop_runs :
    (delete_older_loop
      (memory Blob)
      2
      (iterate (memory Blob) two_levels (codes "/a"))
      0
      two_levels).error
    ≡ none
unfolding delete_older_loop memory iterate path2key utoa key2path stat_cache_delete generation_of
    str_lt starts_with seek
loop_runs = refl

delete_older_loop-directory_example :
    lookup (codes "2/a/b") (
      (memory Blob).entries
        (delete_older_loop
          (memory Blob)
          2
          (iterate (memory Blob) two_levels (codes "/a"))
          0
          two_levels).cache.db)
    ≡ none
unfolding path2key utoa memory lookup str_eq starts_with generation_of
delete_older_loop-directory_example =
    delete_older_loop-directory (memory Blob) (memory-IsLevelDb Blob) two_levels (codes "/a") 2
      (codes "2/a/b") a_keys loop_runs
