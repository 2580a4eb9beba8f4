-- ===== src/FileCache/Tests.antt =====
-- Runs of the file cache on a database in memory.
mod Renaming
mod Cleaning
use fusedav.Prelude.{◌==◌, ◌≡◌, refl, true, false, Option, none, some, [], ◌∷◌, arith}
use fusedav.Text.{codes, str_eq}
use fusedav.LevelDb.{Entries, IsSorted, lookup}
use fusedav.LevelDb.Memory.{memory, memory-IsLevelDb}
use fusedav.Structs.{Blob, pdata_blob, FilecachePdata, g_error, filecache}
use fusedav.FileCache.{World, FilecacheSdata, empty_sdata, OpenFlags, ok}
use fusedav.FileCache.Entry.{path2key, filecache_pdata_get}
use fusedav.FileCache.Io.{filecache_truncate}
use fusedav.FileCache.Fetch.{Attempt, FetchCalls}
use fusedav.FileCache.Open.{OpenCalls, filecache_open}
use fusedav.FileCache.Put.{put_return_etag, SyncCalls, filecache_sync}
use fusedav.FileCache.Sync.{write_all, write_all-sync, filecache_truncate-sync}
use fusedav.FileCache.Stored.{Stored, filecache_sync-Stored}
use fusedav.FileCache.Reopen.{filecache_sync-open}
use fusedav.FileCache.Servers.{no_curl, filecache_open-down}
use fusedav.FileCache.Accepted.{Accepted, put_return_etag-Accepted}

abbrev pub cached : FilecachePdata
cached = record { filename = codes "f1"; etag = codes "e"; last_server_update = 100 }

abbrev pub items : Entries Blob
items = (codes "fc:/a", pdata_blob cached) ∷ []

pub items-IsSorted : IsSorted items
items-IsSorted = (tt, tt)

abbrev pub world : World (memory Blob)
unfolding memory
world = record {
  cache = record {
    db = record { items = items; sorted = items-IsSorted; broken = false };
    counter = 0;
    terminated = false;
  };
  saint = false;
  closed = [];
  unlinked = [];
  put_aside = [];
}

-- An open file that was written to.
abbrev written : FilecacheSdata
written = record { fd = some 4; readable = true; writable = true; modified = true; error_code = 0 }

abbrev no_answer : Attempt
no_answer = record {
  session = true;
  file = record { cache_file_path = codes "f2"; mkstemp = ok 5 };
  performed = none;
  headers = [];
}

abbrev fetch_calls : FetchCalls
fetch_calls = record {
  now = 200;
  later = 200;
  open_local = ok 6;
  truncation = record { lock = ok tt; call = ok tt; unlock = ok tt };
  attempts = λ i. no_answer;
  open_cached = ok 6;
}

abbrev open_calls : OpenCalls
open_calls = record {
  saint_mode = false;
  calloc = ok tt;
  rounds = λ i. record {
    file = record { cache_file_path = codes "f3"; mkstemp = ok 7 };
    fetch = fetch_calls;
  };
}

-- The servers are down in the first round, and saint mode gives no session in the second one.
abbrev down_calls : OpenCalls
down_calls = record open_calls {
  rounds = λ i. record {
    file = record { cache_file_path = codes "f3"; mkstemp = ok 7 };
    fetch = record fetch_calls {
      attempts = λ j. record (fetch_calls.attempts j) { session = i == 0 };
    };
  };
}

abbrev read_write : OpenFlags
read_write = record { o_creat = false; o_trunc = false; o_wronly = false; o_rdwr = true }

abbrev sync_calls : SyncCalls
sync_calls = record {
  lseek = ok tt;
  put = record {
    lock = ok tt;
    fstat = ok tt;
    attempts = λ i. record {
      fdopen = ok tt;
      fseek = ok tt;
      performed = some 200;
      headers = codes "ETag: new " ∷ [];
    };
    unlock = ok tt;
  };
  now = 300;
}

-- The world after a sync without a PUT, and after one with it.
abbrev synced : World (memory Blob)
synced =
    (filecache_sync (memory Blob) 3 world (some (codes "/a")) (some written) false sync_calls).3

sync_runs :
    filecache_sync (memory Blob) 3 world (some (codes "/a")) (some written) false sync_calls
    ≡ (true, none, some written, synced)
unfolding memory filecache_sync filecache_pdata_get lookup str_eq
sync_runs = refl

filecache_sync-Stored_example :
    Stored
      (memory Blob)
      (memory-IsLevelDb Blob)
      3
      world
      (codes "/a")
      written
      false
      sync_calls
      written
      synced
filecache_sync-Stored_example =
    filecache_sync-Stored (memory Blob) (memory-IsLevelDb Blob) 3 world (codes "/a") written false
      sync_calls written synced sync_runs

abbrev entry_read : Option Blob
entry_read = lookup (path2key (codes "/a")) ((memory Blob).entries synced.cache.db)

entry_reads : (memory Blob).get synced.cache.db (path2key (codes "/a")) ≡ some entry_read
unfolding memory filecache_sync filecache_pdata_get lookup str_eq
entry_reads = refl

filecache_sync-open_example :
    filecache_open (memory Blob) 3 synced (codes "/a") read_write true open_calls ≡ record {
      handle = some record empty_sdata { fd = some 6; readable = true; writable = true };
      error = none;
      world = synced;
    }
filecache_sync-open_example =
    filecache_sync-open (memory Blob) (memory-IsLevelDb Blob) 3 world synced (codes "/a") written
      written sync_calls read_write true open_calls 6 entry_read sync_runs entry_reads refl refl
      refl refl

write_all-sync_example :
    filecache_sync
      (memory Blob)
      3
      world
      (some (codes "/a"))
      (write_all
        (some record written { error_code = 28 })
        (record { lock = ok tt; call = ok 10; unlock = ok tt } ∷ []))
      true
      sync_calls
    ≡ (
      false,
      g_error filecache 28,
      write_all
          (some record written { error_code = 28 })
          (record { lock = ok tt; call = ok 10; unlock = ok tt } ∷ []),
      world,
    )
write_all-sync_example =
    write_all-sync (record written { error_code = 28 }) (memory Blob) 3 world (codes "/a")
      (omega arith) (record { lock = ok tt; call = ok 10; unlock = ok tt } ∷ []) sync_calls

filecache_truncate-sync_example :
    (filecache_sync
      (memory Blob)
      3
      world
      (some (codes "/a"))
      (filecache_truncate
        (some record written { modified = false })
        true
        (record { lock = ok tt; call = ok tt; unlock = ok tt })).1
      true
      sync_calls).0
    ≡ false
filecache_truncate-sync_example =
    filecache_truncate-sync (memory Blob) 3 world (codes "/a") (record written { modified = false })
      refl (record { lock = ok tt; call = ok tt; unlock = ok tt }) true sync_calls

absent : filecache_pdata_get (memory Blob) world.cache (codes "/b") ≡ (none, none)
unfolding memory filecache_pdata_get lookup str_eq
absent = refl

filecache_open-down_example :
    ((filecache_open (memory Blob) 3 world (codes "/b") read_write true down_calls).error ≡ none)
    × ((filecache_open (memory Blob) 3 world (codes "/b") read_write true down_calls).world.saint
        ≡ true)
    × ((filecache_open (memory Blob) 3 world (codes "/b") read_write true down_calls).handle
        ≡ some record empty_sdata { fd = some 0; readable = true; writable = true })
filecache_open-down_example =
    filecache_open-down (memory Blob) 3 (codes "/b") read_write world down_calls absent refl refl
      refl (λ i. no_curl 5 refl refl refl) refl

put_runs : (put_return_etag 3 (codes "old") (sync_calls.put)).error ≡ none
unfolding put_return_etag
put_runs = refl

put_return_etag-Accepted_example :
    Accepted (sync_calls.put.attempts) 3 (put_return_etag 3 (codes "old") (sync_calls.put))
put_return_etag-Accepted_example =
    put_return_etag-Accepted 3 (codes "old") (sync_calls.put) put_runs
