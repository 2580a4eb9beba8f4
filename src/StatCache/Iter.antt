-- ===== src/StatCache/Iter.antt =====
-- The iterator of src/statcache.c, over a snapshot of the database: from the first key that is not
-- below the prefix, as long as the keys have the prefix.
pub mod Range
use fusedav.Prelude.{Bool, true, false, List, [], ◌∷◌, map, length, drop, if◌then◌else◌}
use fusedav.Text.{Text, starts_with}
use fusedav.LevelDb.{LevelDb, Entries, seek}
use fusedav.Structs.{Blob}
use fusedav.StatCache.{StatCache, path2key}

-- `while ((entry = stat_cache_iter_current(iter))) … stat_cache_iter_next(iter)`: the entries that
-- the loop comes to.
unfoldable pub iter_entries : Text → Entries Blob → Entries Blob
iter_entries key_prefix [] = []
iter_entries key_prefix ((key, value) ∷ es) =
    if starts_with key_prefix key then (key, value) ∷ iter_entries key_prefix es else []

unfoldable pub stat_cache_iter_init : (ldb : LevelDb Blob) → StatCache ldb → Text → Entries Blob
stat_cache_iter_init ldb cache path_prefix = seek (path2key path_prefix true) (ldb.entries cache.db)

-- All entries that an iterator over a directory comes to.
unfoldable pub iterate : (ldb : LevelDb Blob) → StatCache ldb → Text → Entries Blob
unfolding iter_entries stat_cache_iter_init
iterate ldb cache path_prefix =
    iter_entries (path2key path_prefix true) (stat_cache_iter_init ldb cache path_prefix)
