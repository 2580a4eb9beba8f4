-- ===== src/FileCache/Fetch.antt =====
-- `get_fresh_fd` of src/filecache.c: a descriptor of the local copy, after the server was asked
-- for a newer one where that is needed. Allocations succeed.
use fusedav.Prelude.{
  ℕ, zero, suc, ◌-◌, Bool, true, false, ◌||◌, not, Option, none, some, List, [], ◌∷◌, leb, ◌==◌,
  if◌then◌else◌,
}
use fusedav.Text.{Text}
use fusedav.LevelDb.{LevelDb}
use fusedav.Structs.{
  Blob, FilecachePdata, StatCacheValue, GError, g_error, system, curl, filecache, enoent,
}
use fusedav.StatCache.{Reply, stat_cache_value_get, stat_cache_delete}
use fusedav.FileCache.{
  World, FilecacheSdata, empty_sdata, OpenFlags, OsResult, ok, fails, e_fc_pdatanull, e_fc_curlerr,
}
use fusedav.FileCache.Entry.{NewFile, new_cache_file, filecache_pdata_set, capture_etags}
use fusedav.FileCache.Io.{LockedCalls, locked_truncate}
use fusedav.FileCache.Remove.{filecache_delete}

abbrev pub refresh_interval : ℕ
refresh_interval = 3

-- One request to the server: whether there is a session, the new temporary file, the code of the
-- response (`none` where curl fails), and the lines of its header.
pub record Attempt : Type 0 where
  pub session : Bool
  pub file : NewFile
  pub performed : Option ℕ
  pub headers : List Text

-- What the calls of one `get_fresh_fd` return. `now` is the time at its start, `later` that at
-- which a response is taken over.
pub record FetchCalls : Type 0 where
  pub now : ℕ
  pub later : ℕ
  pub open_local : OsResult ℕ
  pub truncation : LockedCalls (Unit {0})
  pub attempts : ℕ → Attempt
  pub open_cached : OsResult ℕ

-- Whether the local copy will do.
unfoldable pub is_local : Option FilecachePdata → OpenFlags → Bool → ℕ → Bool
is_local none flags use_local_copy now = false
is_local (some pdata) flags use_local_copy now =
    flags.o_trunc
    || use_local_copy
    || (pdata.last_server_update == 0)
    || leb (now - pdata.last_server_update) refresh_interval

unfoldable pub open_local :
    FilecacheSdata → OpenFlags → FetchCalls → OsResult ℕ → Option GError × FilecacheSdata
unfolding locked_truncate
open_local sdata flags calls (fails errno) = (g_error system errno, record sdata { fd = none })
open_local sdata flags calls (ok fd) =
    if flags.o_trunc
    then locked_truncate (record sdata { fd = some fd }) true calls.truncation
    else (none, record sdata { fd = some fd })

-- `res != CURLE_OK || response_code >= 500`
unfoldable pub is_bad : Bool → ℕ → Bool
is_bad res_ok response_code = not res_ok || leb 500 response_code

module _ (ldb : LevelDb Blob) where
  -- The variables of the loop: `res == CURLE_OK`, and the others under their names.
  pub record Fetch : Type 0 where
    pub res_ok : Bool
    pub response_code : ℕ
    pub etag : Text
    pub response_fd : Option ℕ
    pub response_filename : Text
    pub world : World ldb

  pub record FreshFd : Type 0 where
    pub sdata : FilecacheSdata
    pub pdata : Option FilecachePdata
    pub error : Option GError
    pub world : World ldb

module _ (ldb : LevelDb Blob) where
  abbrev close_response : Option ℕ → World ldb → World ldb
  close_response none w = w
  close_response (some fd) w = record w { closed = fd ∷ w.closed }

  abbrev unlink_response : Text → World ldb → World ldb
  unlink_response [] w = w
  unlink_response (c ∷ s) w = record w { unlinked = (c ∷ s) ∷ w.unlinked }

  -- The temporary file is closed and unlinked.
  unfoldable pub discard : Option ℕ → Text → World ldb → World ldb
  discard fd filename w = unlink_response filename (close_response fd w)

  unfoldable pub perform : Fetch ldb → Attempt → Fetch ldb
  unfolding capture_etags
  perform s attempt =
      let heard : Fetch ldb = record s { etag = capture_etags attempt.headers [] } in
      elim attempt.performed [
        | none ↦ record heard { res_ok = false }
        | some code ↦ record heard { res_ok = true; response_code = code }
      ]

  -- The request goes out once its temporary file is there.
  unfoldable pub send : Fetch ldb → Attempt → Option ℕ × Option GError → Fetch ldb × Option GError
  unfolding perform
  send s attempt (fd, some e) =
      (record s { response_fd = fd; response_filename = attempt.file.cache_file_path }, some e)
  send s attempt (fd, none) = (
    perform (record s { response_fd = fd; response_filename = attempt.file.cache_file_path })
        attempt,
    none,
  )

  unfoldable pub fetch_once : Fetch ldb → Attempt → Fetch ldb × Option GError
  unfolding send discard new_cache_file
  fetch_once s attempt =
      let cleaned : Fetch ldb = record s {
        world = discard s.response_fd s.response_filename s.world;
      } in
      if attempt.session
      then send cleaned attempt (new_cache_file attempt.file)
      else (cleaned, g_error curl e_fc_curlerr)

  -- At most so many servers are asked, until one answers.
  unfoldable pub fetch_loop : (ℕ → Attempt) → ℕ → ℕ → Fetch ldb → Fetch ldb × Option GError
  unfolding fetch_once is_bad
  fetch_loop attempts zero idx s = (s, none)
  fetch_loop attempts (suc nodes) idx s =
      if is_bad s.res_ok s.response_code
      then (let (t, error) = fetch_once s (attempts idx) in
          elim error [ some e ↦ (t, some e) | none ↦ fetch_loop attempts nodes (suc idx) t ])
      else (s, none)

  -- `goto finish`, where the temporary file goes.
  abbrev finish :
      Fetch ldb → FilecacheSdata → Option FilecachePdata → Option GError → World ldb → FreshFd ldb
  finish s sdata pdata error w = record {
    sdata = sdata;
    pdata = pdata;
    error = error;
    world = discard s.response_fd s.response_filename w;
  }

  -- A cached entry whose file is gone is deleted.
  open_cached :
      Fetch ldb → Text → FilecacheSdata → FilecachePdata → World ldb → OsResult ℕ → FreshFd ldb
  unfolding filecache_delete
  open_cached s path sdata pdata w (ok fd) =
      finish s (record sdata { fd = some fd }) (some pdata) none w
  open_cached s path sdata pdata w (fails errno) =
      let after = if errno == enoent then (filecache_delete ldb w path true).1 else w in
      finish s (record sdata { fd = none }) (some pdata) (g_error system errno) after

  -- 304: the local copy is the one of the server.
  not_modified :
      Fetch ldb → Text → FilecacheSdata → Option FilecachePdata → FetchCalls → FreshFd ldb
  unfolding open_cached filecache_pdata_set
  not_modified s path sdata none calls = finish s sdata none (g_error system e_fc_pdatanull) s.world
  not_modified s path sdata (some pdata) calls =
      let updated : FilecachePdata = record pdata { last_server_update = calls.later } in
      let (error, cache) = filecache_pdata_set ldb s.world.cache path updated in
      let w : World ldb = record (s.world) { cache = cache } in
      elim error [
        | some e ↦ finish s sdata (some updated) (some e) w
        | none ↦ open_cached s path sdata updated w calls.open_cached
      ]

  abbrev unlink_old : Option FilecachePdata → World ldb → World ldb
  unlink_old none w = w
  unlink_old (some pdata) w = record w { unlinked = pdata.filename ∷ w.unlinked }

  -- 200: the temporary file becomes the local copy. An entry that cannot be stored clears `sdata`.
  taken_over : Fetch ldb → Text → FilecacheSdata → Option FilecachePdata → FetchCalls → FreshFd ldb
  unfolding filecache_pdata_set
  taken_over s path sdata pdata calls =
      let new : FilecachePdata = record {
        filename = s.response_filename;
        etag = s.etag;
        last_server_update = calls.later;
      } in
      let (error, cache) = filecache_pdata_set ldb s.world.cache path new in
      let w : World ldb = record (s.world) { cache = cache } in
      elim error [
        | some e ↦ finish s empty_sdata (some new) (some e) w
        | none ↦ record {
          sdata = record sdata { fd = s.response_fd };
          pdata = some new;
          error = none;
          world = unlink_old pdata w;
        }
      ]

  drop_value : Text → World ldb → Reply ldb (Option StatCacheValue) → World ldb
  unfolding stat_cache_delete
  drop_value path w got = elim got.result [
    | none ↦ record w { cache = got.cache }
    | some value ↦ record w { cache = (stat_cache_delete ldb got.cache path).cache }
  ]

  -- 404: the attributes that said there is such a file are dropped.
  missing : Fetch ldb → Text → FilecacheSdata → Option FilecachePdata → FetchCalls → FreshFd ldb
  unfolding drop_value stat_cache_value_get
  missing s path sdata pdata calls =
      finish s sdata pdata (g_error filecache enoent)
        (drop_value path s.world (stat_cache_value_get ldb s.world.cache path true calls.later))

  -- Any other code below 500 sets no error and no descriptor.
  unfoldable pub take_response :
      Fetch ldb → Text → FilecacheSdata → Option FilecachePdata → FetchCalls → FreshFd ldb
  unfolding missing not_modified taken_over is_bad
  take_response s path sdata pdata calls =
      if is_bad s.res_ok s.response_code
      then finish s sdata pdata (g_error curl e_fc_curlerr) (record (s.world) { saint = true })
      else if s.response_code == 304
      then not_modified s path sdata pdata calls
      else if s.response_code == 200
      then taken_over s path sdata pdata calls
      else if s.response_code == 404
      then missing s path sdata pdata calls
      else finish s sdata pdata none s.world

  abbrev pub first_fetch : World ldb → Fetch ldb
  first_fetch w = record {
    res_ok = true;
    response_code = 500;
    etag = [];
    response_fd = none;
    response_filename = [];
    world = w;
  }

  unfoldable pub ask_server :
      ℕ → World ldb → Text → FilecacheSdata → Option FilecachePdata → FetchCalls → FreshFd ldb
  unfolding fetch_loop take_response
  ask_server nodes w path sdata pdata calls =
      let (s, error) = fetch_loop calls.attempts nodes 0 (first_fetch w) in
      elim error [
        | some e ↦ finish s sdata pdata (some e) s.world
        | none ↦ take_response s path sdata pdata calls
      ]

  -- The caller passes a place for an error. `nodes` is `num_filesystem_server_nodes`.
  unfoldable pub get_fresh_fd :
      ℕ
      → World ldb
      → Text
      → FilecacheSdata
      → Option FilecachePdata
      → OpenFlags
      → Bool
      → FetchCalls
      → FreshFd ldb
  unfolding ask_server open_local is_local
  get_fresh_fd nodes w path sdata pdata flags use_local_copy calls =
      if is_local pdata flags use_local_copy calls.now
      then (let (error, after) = open_local sdata flags calls calls.open_local in
          record { sdata = after; pdata = pdata; error = error; world = w })
      else ask_server nodes w path sdata pdata calls
