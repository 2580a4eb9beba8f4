-- ===== src/Dav/Tests/Removing.antt =====
-- Runs of `dav_unlink` and `dav_rmdir`.
use fusedav.Prelude.{refl, false, [], ◌∷◌}
use fusedav.Text.{codes, str_eq, str_lt, starts_with}
use fusedav.Text.Decimal.{utoa}
use fusedav.LevelDb.{Entries, IsSorted, lookup, seek}
use fusedav.LevelDb.Memory.{memory, memory-IsLevelDb}
use fusedav.Structs.{Blob, stat_blob, time_blob, s_isdir}
use fusedav.StatCache.{path2key, fill_blocks}
use fusedav.StatCache.Iter.{iterate}
use fusedav.FileCache.{World}
use fusedav.FileCache.Entry.{filecache_pdata_get}
use fusedav.Dav.GetStat.{get_stat}
use fusedav.Dav.Names.{dav_unlink, dav_rmdir}
use fusedav.Dav.Unlinked.{Gone, dav_unlink-Gone}
use fusedav.Dav.Removed.{Removes, dav_rmdir-Removes}
use fusedav.Dav.Tests.{file_value, world, server, config, stat_calls, a, name_calls}

-- The world behind an unlink of the file.
abbrev emptied : World (memory Blob)
unfolding memory
emptied = record {
  cache = record {
    db =
        ((memory Blob).delete ((memory Blob).delete world.cache.db (codes "fc:/a")).0
          (codes "1/a")).0;
    counter = 7;
    terminated = false;
  };
  saint = false;
  closed = [];
  unlinked = codes "f1" ∷ [];
  put_aside = [];
}

dav_unlink-Gone_example : Gone (memory Blob) a emptied
unfolding memory dav_unlink lookup str_eq path2key utoa fill_blocks filecache_pdata_get
dav_unlink-Gone_example =
    dav_unlink-Gone (memory Blob) (memory-IsLevelDb Blob) server a config world emptied
      (name_calls 204) refl

-- `/a` is a directory that was listed at 100, and its neighbour has a file.
abbrev directories : Entries Blob
directories =
    (codes "1/a", stat_blob (record file_value { st = record file_value.st { st_mode = 16877 } }))
    ∷ (codes "2/b/c", stat_blob file_value)
    ∷ (codes "updated_children:/a", time_blob 100)
    ∷ []

directories-IsSorted : IsSorted directories
unfolding str_lt
directories-IsSorted = ((refl, (refl, tt)), ((refl, tt), (tt, tt)))

abbrev listed_world : World (memory Blob)
unfolding memory
listed_world = record world {
  cache = record {
    db = record { items = directories; sorted = directories-IsSorted; broken = false };
    counter = 7;
    terminated = false;
  };
}

abbrev removed : World (memory Blob)
unfolding memory
removed = record listed_world {
  cache = record {
    db =
        ((memory Blob).delete ((memory Blob).delete listed_world.cache.db (codes "1/a")).0
          (codes "updated_children:/a")).0;
    counter = 7;
    terminated = false;
  };
}

dav_rmdir-Removes_example :
    Removes (memory Blob) a (get_stat (memory Blob) server config listed_world a stat_calls) removed
unfolding memory dav_rmdir lookup str_eq str_lt path2key utoa fill_blocks seek iterate starts_with
    s_isdir
dav_rmdir-Removes_example =
    dav_rmdir-Removes (memory Blob) (memory-IsLevelDb Blob) server a config listed_world removed
      (name_calls 204) refl
