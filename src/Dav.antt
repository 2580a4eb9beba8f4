-- ===== src/Dav.antt =====
-- src/fusedav.c: the calls that FUSE makes. What a clock, the operating system or a server answers
-- is an argument. Undefined behaviour is `none`. Logs, counters and injected errors are left out.
pub mod Callbacks
pub mod Update
pub mod GetStat
pub mod Handles
pub mod Names
pub mod Release
pub mod Requests
pub mod Saint
pub mod Listed
pub mod Oversized
pub mod Separate
pub mod Moved
pub mod Renamed
pub mod Stored
pub mod Generic
pub mod Writes
pub mod Outlives
pub mod Unlinked
pub mod Removed
pub mod Cached
mod Tests
use Prim.Native.Nat.{bit_or}
use mathlib.Core.Bool.{true≢false}
use fusedav.Prelude.{
  ◌≢◌, ap, ℕ, zero, suc, ◌+◌, ◌/◌, Bool, true, false, Option, none, some, [], if◌then◌else◌,
}
use fusedav.Text.{Text}
use fusedav.LevelDb.{LevelDb}
use fusedav.Structs.{Stat, StatCacheValue, Blob, GError, g_error, fusedav_domain}
use fusedav.StatCache.{StatCache, Reply, stat_cache_value_set}
use fusedav.FileCache.{World, FilecacheSdata, OsResult, ok, fails}
use fusedav.FileCache.Fetch.{is_bad}
use fusedav.Props.{s_ifdir, s_ifreg, zero_stat}

-- `struct fusedav_config`, as far as it is read here
pub record Config : Type 0 where
  pub progressive_propfind : Bool
  pub refresh_dir_for_file_stat : Bool
  pub grace : Bool
  pub max_file_size : ℕ

-- What a call returns to FUSE: 0 or a number of bytes, or a negated errno.
pub data Ret : Type 0 where
  returns : ℕ → Ret
  errno : ℕ → Ret

abbrev is_errno : Ret → Bool
is_errno (returns n) = false
is_errno (errno code) = true

pub refused : {code n : ℕ} → errno code ≢ returns n
refused e = true≢false (ap is_errno e)

-- The error is logged, too.
abbrev pub processed_gerror : GError → Ret
processed_gerror e = errno e.code

-- 0 unless there is an error.
abbrev pub ret_of : Option GError → Ret
ret_of none = returns 0
ret_of (some e) = processed_gerror e

-- The time, and the result of `lseek` to the end of the file.
pub record FillCalls : Type 0 where
  pub now : ℕ
  pub lseek : OsResult ℕ

abbrev generic : ℕ → Bool → ℕ → Stat
generic mode is_dir now = record {
  st_mode = if is_dir then bit_or mode s_ifdir else bit_or mode s_ifreg;
  st_nlink = if is_dir then 3 else 1;
  st_size = if is_dir then 4096 else 0;
  st_blksize = 4096;
  st_blocks = 0;
  st_atime = now;
  st_mtime = now;
  st_ctime = now;
}

-- `fd` is `none` where it is negative. No caller looks at what an error leaves behind.
unfoldable pub fill_stat_generic : ℕ → Bool → Option ℕ → FillCalls → OsResult Stat
fill_stat_generic mode is_dir none calls = ok (generic mode is_dir calls.now)
fill_stat_generic mode is_dir (some fd) calls = elim calls.lseek [
  | fails code ↦ fails code
  | ok size ↦
      ok (record (generic mode is_dir calls.now) { st_size = size; st_blocks = (size + 511) / 512 })
]

-- `memset (&value, 0, sizeof (struct stat_cache_value))`
abbrev pub zero_value : Stat → StatCacheValue
zero_value st = record {
  st = st;
  local_generation = 0;
  updated = 0;
  prepopulated = false;
  remote_generation = [];
}

-- The clock for one write of an attribute, and for the first generation of all.
pub record SetCalls : Type 0 where
  pub now : ℕ
  pub counter_now : ℕ

-- One attempt of a request without a body: whether there is a session, and the code of the response
-- (`none` where curl fails).
pub record RequestAttempt : Type 0 where
  pub session : Bool
  pub performed : Option ℕ

pub data Requested : Type 0 where
  no_session bad : Requested
  answered : ℕ → Requested

abbrev pub request_end : Bool → ℕ → Requested
request_end res_ok response_code =
    if is_bad res_ok response_code then bad else answered response_code

-- The variables of the loop are `res == CURLE_OK` and `response_code`.
unfoldable pub request_loop : (ℕ → RequestAttempt) → ℕ → ℕ → Bool → ℕ → Requested
unfolding is_bad
request_loop attempts zero idx res_ok response_code = request_end res_ok response_code
request_loop attempts (suc nodes) idx res_ok response_code =
    if is_bad res_ok response_code
    then (if (attempts idx).session
        then (elim (attempts idx).performed [
          | none ↦ request_loop attempts nodes (suc idx) false response_code
          | some code ↦ request_loop attempts nodes (suc idx) true code
        ])
        else no_session)
    else request_end res_ok response_code

-- The loop of the HEAD, DELETE, MKCOL and MOVE requests.
unfoldable pub request : ℕ → (ℕ → RequestAttempt) → Requested
unfolding request_loop
request nodes attempts = request_loop attempts nodes 0 true 500

module _ (ldb : LevelDb Blob) where
  -- `stat_cache_value_set` on what is shared.
  abbrev pub set_in :
      World ldb → Option Text → StatCacheValue → SetCalls → Option GError × World ldb
  set_in w path value calls =
      let r = stat_cache_value_set ldb w.cache path value calls.now calls.counter_now in
      (r.error, record w { cache = r.cache })

  -- A generic stat structure for a path.
  unfoldable pub store_stat :
      World ldb → Option Text → OsResult Stat → SetCalls → Option GError × World ldb
  unfolding stat_cache_value_set
  store_stat w path (fails code) calls = (g_error fusedav_domain code, w)
  store_stat w path (ok st) calls = set_in w path (zero_value st) calls

  -- What a file is now, by its descriptor. A null handle is used as a pointer.
  unfoldable pub refresh_stat :
      World ldb
      → Option Text
      → Option FilecacheSdata
      → FillCalls
      → SetCalls
      → Option (Option GError × World ldb)
  unfolding store_stat fill_stat_generic
  refresh_stat w path none fill calls = none
  refresh_stat w path (some sdata) fill calls =
      some (store_stat w path (fill_stat_generic 0 false sdata.fd fill) calls)
