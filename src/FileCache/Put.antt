-- ===== src/FileCache/Put.antt =====
-- `put_return_etag` and `filecache_sync` of src/filecache.c: local changes go to the server.
use fusedav.Prelude.{
  ℕ, zero, suc, Bool, true, false, ◌&&◌, ◌||◌, not, Option, none, some, List, [], ltb, leb, ◌==◌,
  if◌then◌else◌,
}
use fusedav.Text.{Text}
use fusedav.LevelDb.{LevelDb}
use fusedav.Structs.{Blob, FilecachePdata, GError, g_error, system, curl, filecache}
use fusedav.FileCache.{
  World, FilecacheSdata, OsResult, ok, fails, first_error, e_fc_pdatanull, e_fc_sdatanull,
  e_fc_curlerr, e_fc_filetoolarge,
}
use fusedav.FileCache.Entry.{filecache_pdata_get, filecache_pdata_set, capture_etags}
use fusedav.FileCache.Io.{set_error, errno_error}
use fusedav.FileCache.Fetch.{is_bad}

-- One PUT: the two calls that prepare the file, the code of the response (`none` where curl
-- fails), and the lines of its header.
pub record PutAttempt : Type 0 where
  pub fdopen : OsResult (Unit {0})
  pub fseek : OsResult (Unit {0})
  pub performed : Option ℕ
  pub headers : List Text

pub record PutCalls : Type 0 where
  pub lock : OsResult (Unit {0})
  pub fstat : OsResult (Unit {0})
  pub attempts : ℕ → PutAttempt
  pub unlock : OsResult (Unit {0})

-- The variables of the loop, and the error at which it ends.
pub record Put : Type 0 where
  pub res_ok : Bool
  pub response_code : ℕ
  pub etag : Text

unfoldable pub put_perform : Put → PutAttempt → Put
unfolding capture_etags
put_perform s attempt = elim attempt.performed [
  | none ↦ record s { res_ok = false; etag = capture_etags attempt.headers [] }
  | some code ↦ record {
    res_ok = true;
    response_code = code;
    etag = capture_etags attempt.headers [];
  }
]

unfoldable pub put_once : Put → PutAttempt → Put × Option GError
unfolding put_perform
put_once s attempt = elim attempt.fdopen [
  | fails errno ↦ (s, g_error system errno)
  | ok u ↦ elim attempt.fseek [
    | fails errno ↦ (s, g_error system errno)
    | ok v ↦ (put_perform s attempt, none)
  ]
]

unfoldable pub put_loop : (ℕ → PutAttempt) → ℕ → ℕ → Put → Put × Option GError
unfolding put_once is_bad
put_loop attempts zero idx s = (s, none)
put_loop attempts (suc nodes) idx s =
    if is_bad s.res_ok s.response_code
    then (let (t, error) = put_once s (attempts idx) in
        elim error [ some e ↦ (t, some e) | none ↦ put_loop attempts nodes (suc idx) t ])
    else (s, none)

-- What the outcome of the loop is reported as, and whether saint mode is set.
unfoldable pub put_error : Put × Option GError → Option GError × Bool
unfolding is_bad
put_error (s, some e) = (some e, false)
put_error (s, none) =
    if is_bad s.res_ok s.response_code
    then (g_error curl e_fc_curlerr, true)
    else if leb 200 s.response_code && ltb s.response_code 300
    then (none, false)
    else (g_error curl (if s.response_code == 413 then e_fc_filetoolarge else e_fc_curlerr), false)

-- The etag afterwards, the error, and whether saint mode is set.
pub record PutResult : Type 0 where
  pub etag : Text
  pub error : Option GError
  pub saint : Bool

unfoldable pub put_locked : ℕ → Text → PutCalls → PutResult
unfolding put_loop put_error first_error
put_locked nodes etag calls = elim calls.fstat [
  | fails errno ↦ record {
    etag = etag;
    error = first_error (g_error system errno) (errno_error calls.unlock);
    saint = false;
  }
  | ok u ↦
      let done =
        put_loop calls.attempts nodes 0
          (record { res_ok = true; response_code = 500; etag = etag }) in
      record {
        etag = done.0.etag;
        error = first_error (put_error done).0 (errno_error calls.unlock);
        saint = (put_error done).1;
      }
]

unfoldable pub put_return_etag : ℕ → Text → PutCalls → PutResult
unfolding put_locked
put_return_etag nodes etag calls = elim calls.lock [
  | fails errno ↦ record { etag = etag; error = g_error system errno; saint = false }
  | ok u ↦ put_locked nodes etag calls
]

-- What the calls of one `filecache_sync` return; `now` is the time behind the PUT.
pub record SyncCalls : Type 0 where
  pub lseek : OsResult (Unit {0})
  pub put : PutCalls
  pub now : ℕ

module _ (ldb : LevelDb Blob) where
  -- Whether data was written, the error, `sdata` and the world afterwards.
  pub record Synced : Type 0 where
    pub wrote_data : Bool
    pub error : Option GError
    pub sdata : FilecacheSdata
    pub world : World ldb

module _ (ldb : LevelDb Blob) (nodes : ℕ) where
  abbrev pub stop : GError → FilecacheSdata → World ldb → Synced ldb
  stop e sdata w = record { wrote_data = false; error = some e; sdata = sdata; world = w }

  -- The entry is stored; data counts as written even if that fails.
  unfoldable pub store : World ldb → Text → FilecacheSdata → FilecachePdata → Synced ldb
  unfolding filecache_pdata_set set_error
  store w path sdata pdata =
      let (error, cache) = filecache_pdata_set ldb w.cache path pdata in
      elim error [
        | some e ↦ record {
          wrote_data = true;
          error = some e;
          sdata = set_error sdata e.code;
          world = record w { cache = cache };
        }
        | none ↦ record {
          wrote_data = true;
          error = none;
          sdata = sdata;
          world = record w { cache = cache };
        }
      ]

  -- An error with curl's code may go away by the next PUT, so `sdata` does not keep it.
  unfoldable pub finish_put :
      World ldb → Text → FilecacheSdata → FilecachePdata → ℕ → PutResult → Synced ldb
  unfolding store set_error
  finish_put w path sdata pdata now put =
      let after : World ldb = record w { saint = w.saint || put.saint } in
      elim put.error [
        | some e ↦ stop e (if e.code == e_fc_curlerr then sdata else set_error sdata e.code) after
        | none ↦
            store after path (record sdata { modified = false })
              (record pdata { etag = put.etag; last_server_update = now })
      ]

  unfoldable pub upload :
      World ldb → Text → FilecacheSdata → FilecachePdata → SyncCalls → Synced ldb
  unfolding finish_put put_return_etag set_error
  upload w path sdata pdata calls = elim calls.lseek [
    | fails errno ↦ record {
      wrote_data = false;
      error = g_error system errno;
      sdata = set_error sdata errno;
      world = w;
    }
    | ok u ↦ finish_put w path sdata pdata calls.now (put_return_etag nodes pdata.etag calls.put)
  ]

  unfoldable pub sync_entry :
      World ldb
      → Text
      → FilecacheSdata
      → Bool
      → SyncCalls
      → Option FilecachePdata × Option GError
      → Synced ldb
  unfolding upload store
  sync_entry w path sdata do_put calls (pdata, some e) = stop e sdata w
  sync_entry w path sdata do_put calls (none, none) = record {
    wrote_data = false;
    error = g_error filecache e_fc_pdatanull;
    sdata = sdata;
    world = w;
  }
  sync_entry w path sdata do_put calls (some pdata, none) =
      if sdata.modified
      then if do_put
        then upload w path sdata pdata calls
        else store w path sdata (record pdata { etag = []; last_server_update = 0 })
      else record { wrote_data = false; error = none; sdata = sdata; world = w }

  -- For a path and a handle that are there.
  unfoldable pub sync_open : World ldb → Text → FilecacheSdata → Bool → SyncCalls → Synced ldb
  unfolding sync_entry filecache_pdata_get
  sync_open w path sdata do_put calls =
      if not (sdata.error_code == 0) && do_put
      then record {
        wrote_data = false;
        error = g_error filecache (sdata.error_code);
        sdata = sdata;
        world = w;
      }
      else if sdata.writable
      then sync_entry w path sdata do_put calls (filecache_pdata_get ldb w.cache path)
      else record { wrote_data = false; error = none; sdata = sdata; world = w }

  -- Whether data was written, the error, `sdata` and the world afterwards. Nothing is done without
  -- a path.
  unfoldable pub filecache_sync :
      World ldb
      → Option Text
      → Option FilecacheSdata
      → Bool
      → SyncCalls
      → Bool × Option GError × Option FilecacheSdata × World ldb
  unfolding sync_open
  filecache_sync w none sdata do_put calls = (false, none, sdata, w)
  filecache_sync w (some path) none do_put calls =
      (false, g_error filecache e_fc_sdatanull, none, w)
  filecache_sync w (some path) (some sdata) do_put calls =
      let s : Synced ldb = sync_open w path sdata do_put calls in
      (s.wrote_data, s.error, some (s.sdata), s.world)
