-- ===== src/Dav/Tests.antt =====
-- Runs of the calls of src/fusedav.c on a database in memory.
mod Writing
mod Removing
mod Renaming
use fusedav.Prelude.{
  ℕ, ◌≡◌, ◌↔◌, ◌⊎◌, refl, Bool, ◌||◌, true, false, Option, none, some, [], ◌∷◌, ◌++◌, arith,
  if◌then◌else◌,
}
use fusedav.Text.{Text, codes, slash, str_eq, str_lt}
use fusedav.LevelDb.{Entries, IsSorted, lookup}
use fusedav.LevelDb.Memory.{memory, memory-IsLevelDb}
use fusedav.Structs.{
  Stat, StatCacheValue, Blob, GError, stat_blob, time_blob, pdata_blob, FilecachePdata, efbig,
  s_isdir,
}
use fusedav.StatCache.{
  path2key, stat_cache_read_updated_children, stat_cache_value_set, stat_cache_value_get,
  fill_blocks,
}
use fusedav.FileCache.{World, FilecacheSdata, ok}
use fusedav.FileCache.Io.{LockedCalls, filecache_write, set_error}
use fusedav.FileCache.Put.{SyncCalls, filecache_sync}
use fusedav.FileCache.Entry.{filecache_pdata_get}
use fusedav.FileCache.Sync.{write_all}
use fusedav.Text.Decimal.{utoa}
use fusedav.Props.{run_events}
use fusedav.Dav.{
  Config, Ret, returns, errno, FillCalls, SetCalls, RequestAttempt, request, zero_value, set_in,
}
use fusedav.Dav.Update.{Server, ListCalls, UpdateCalls, update_directory}
use fusedav.Dav.Callbacks.{getdir_propfind_callback}
use fusedav.Dav.GetStat.{GetStatCalls, get_stat}
use fusedav.Dav.Handles.{RefreshCalls}
use fusedav.Dav.Writes.{dav_write}
use fusedav.Dav.Names.{
  NameCalls, dav_rename, dav_unlink, dav_rmdir, dav_mkdir, local_move, is_request_bad, unlink_found,
}
use fusedav.Dav.Release.{ReleaseCalls, dav_release, close_handle}
use fusedav.Dav.Oversized.{dav_write-release, put_by}
use fusedav.Dav.Generic.{generic_file}
use fusedav.Dav.Cached.{dav_write-get_stat}
use fusedav.Dav.Listed.{update_directory-read}
use fusedav.Dav.Outlives.{set-getdir_propfind_callback}
use fusedav.Dav.Saint.{cached_answer, get_stat-saint}
use fusedav.Dav.Requests.{first_settled, request-first, request-any_code}

abbrev file_stat : Stat
file_stat = generic_file 5 90

abbrev pub file_value : StatCacheValue
file_value = record {
  st = file_stat;
  local_generation = 1;
  updated = 100;
  prepopulated = false;
  remote_generation = [];
}

abbrev cached : FilecachePdata
cached = record { filename = codes "f1"; etag = codes "e"; last_server_update = 100 }

abbrev items : Entries Blob
items = (codes "1/a", stat_blob file_value) ∷ (codes "fc:/a", pdata_blob cached) ∷ []

pub items-IsSorted : IsSorted items
unfolding str_lt
items-IsSorted = ((refl, tt), (tt, tt))

abbrev pub world : World (memory Blob)
unfolding memory
world = record {
  cache = record {
    db = record { items = items; sorted = items-IsSorted; broken = false };
    counter = 7;
    terminated = false;
  };
  saint = false;
  closed = [];
  unlinked = [];
  put_aside = [];
}

abbrev pub server : Server
server = record {
  lib = record {
    uri_segments = λ t. none;
    unescape = λ t. t;
    getdate = λ t. 0;
    creation_time = λ t. 0;
  };
  base_url = codes "https://host/base";
  nodes = 3;
}

abbrev pub config : Config
config = record {
  progressive_propfind = true;
  refresh_dir_for_file_stat = true;
  grace = true;
  max_file_size = 1;
}

abbrev pub set_calls : SetCalls
set_calls = record { now = 200; counter_now = 200 }

abbrev fill_of : ℕ → FillCalls
fill_of size = record { now = 200; lseek = ok size }

abbrev pub refresh_of : ℕ → RefreshCalls
refresh_of size = record { fill = fill_of size; set = set_calls }

abbrev pub answering : ℕ → ℕ → RequestAttempt
answering code i = record { session = true; performed = some code }

abbrev list_calls : ListCalls
list_calls = record {
  propfind = record {
    attempts = λ i. record { session = true; events = []; parsed = true; performed = some 207 };
    final = true;
    now = λ i. 200;
  };
  callback = record { set = λ t. set_calls; head = λ t. answering 200 };
}

abbrev update_calls : UpdateCalls
update_calls = record {
  progressive_now = 200;
  progressive = list_calls;
  complete_now = 201;
  generation_now = 201;
  complete = list_calls;
  env = record { adler32 = λ salt key. 1; salt = 1; options_alloc = true; bitfield_alloc = true };
}

abbrev pub stat_calls : GetStatCalls
stat_calls = record {
  fill = fill_of 0;
  in_saint_mode = true;
  first_now = 201;
  ttl_now = 201;
  second_now = 201;
  single = list_calls;
  update = update_calls;
}

abbrev pub a : Text
a = codes "/a"

-- An open file.
abbrev pub opened : FilecacheSdata
opened = record { fd = some 4; readable = true; writable = true; modified = false; error_code = 0 }

abbrev pub write_calls : LockedCalls ℕ
write_calls = record { lock = ok tt; call = ok 5; unlock = ok tt }

abbrev pub sync_calls : SyncCalls
sync_calls = record {
  lseek = ok tt;
  put = record {
    lock = ok tt;
    fstat = ok tt;
    attempts = λ i. record { fdopen = ok tt; fseek = ok tt; performed = some 200; headers = [] };
    unlock = ok tt;
  };
  now = 300;
}

request-first_example : request 3 (answering 503) ≡ first_settled (answering 503) 3 0
request-first_example = request-first 3 (answering 503)

pub get_stat-saint_example :
    get_stat (memory Blob) server config world a stat_calls
    ≡ some (cached_answer (memory Blob) world (some file_value))
unfolding memory lookup str_eq path2key utoa
get_stat-saint_example =
    get_stat-saint (memory Blob) server config world a stat_calls refl refl refl (some file_value)
      refl

abbrev pub name_calls : ℕ → NameCalls
name_calls code = record { stat = stat_calls; attempts = answering code }

request-any_code_example :
    (dav_unlink (memory Blob) server config world a (name_calls 403)
      ≡ dav_unlink (memory Blob) server config world a (name_calls 204))
    × (dav_rmdir (memory Blob) server config world a (name_calls 403)
        ≡ dav_rmdir (memory Blob) server config world a (name_calls 204))
    × (dav_mkdir (memory Blob) server world a 493 (answering 403) (refresh_of 0)
        ≡ dav_mkdir (memory Blob) server world a 493 (answering 204) (refresh_of 0))
unfolding request
request-any_code_example =
    request-any_code (memory Blob) server config world a 493 stat_calls (refresh_of 0)
      (answering 403) (answering 204) 403 204 refl refl

-- The world behind an update of the root.
abbrev updated : World (memory Blob)
unfolding memory
updated = record world {
  cache = record {
    db = ((memory Blob).put world.cache.db (codes "updated_children:/") (time_blob 200)).0;
    counter = 7;
    terminated = false;
  };
}

update_directory-read_example :
    (stat_cache_read_updated_children (memory Blob) updated.cache (slash ∷ [])).result ≡ 200
unfolding memory update_directory lookup str_eq stat_cache_read_updated_children run_events str_lt
update_directory-read_example =
    update_directory-read (memory Blob) server (slash ∷ []) update_calls (memory-IsLevelDb Blob)
      config world updated true (some (time_blob 200)) refl refl

set-getdir_propfind_callback_example :
    getdir_propfind_callback
      (memory Blob)
      3
      list_calls.callback
      (set_in (memory Blob) world (some a) file_value set_calls).1
      a
      file_stat
      410
    ≡ ((set_in (memory Blob) world (some a) file_value set_calls).1, none)
unfolding memory lookup str_eq path2key stat_cache_value_set
set-getdir_propfind_callback_example =
    set-getdir_propfind_callback (memory Blob) (memory-IsLevelDb Blob) world a file_value set_calls
      3 list_calls.callback file_stat _ refl refl (omega arith)
