-- ===== src/Dav/Names.antt =====
-- The calls of src/fusedav.c that remove, make or rename a file or directory on the server.
use fusedav.Prelude.{
  ℕ, Bool, true, false, ◌||◌, not, Option, none, some, [], ◌∷◌, ◌++◌, leb, ◌==◌, if◌then◌else◌,
}
use fusedav.Text.{Text, slash}
use fusedav.LevelDb.{LevelDb}
use fusedav.Structs.{
  StatCacheValue, Blob, GError, g_error, fusedav_domain, enetdown, enoent, eio, eisdir, enotdir,
  enotempty, s_isdir, s_isreg,
}
use fusedav.StatCache.{Reply, stat_cache_value_get, stat_cache_delete, stat_cache_updated_children}
use fusedav.StatCache.Children.{stat_cache_dir_has_child}
use fusedav.FileCache.{World, first_error}
use fusedav.FileCache.Remove.{filecache_delete, filecache_pdata_move}
use fusedav.Dav.{
  Config, Ret, returns, errno, processed_gerror, ret_of, fill_stat_generic, SetCalls, set_in,
  store_stat, RequestAttempt, Requested, no_session, bad, answered, request,
}
use fusedav.Dav.Update.{Server}
use fusedav.Dav.GetStat.{GetStatCalls, GotStat, get_stat}
use fusedav.Dav.Handles.{RefreshCalls}

-- The answers to `get_stat` and to the request that follows.
pub record NameCalls : Type 0 where
  pub stat : GetStatCalls
  pub attempts : ℕ → RequestAttempt

-- `server_ret` after the MOVE, or none where the local move is left out.
unfoldable pub server_ret : Requested → Option Ret
server_ret no_session = none
server_ret bad = none
server_ret (answered code) =
    if leb 400 code then (if code == 404 then some (errno eio) else none) else some (returns 0)

unfoldable pub is_zero : Ret → Bool
is_zero (returns n) = n == 0
is_zero (errno code) = false

unfoldable pub is_request_bad : Requested → Bool
is_request_bad no_session = false
is_request_bad bad = true
is_request_bad (answered code) = false

module _ (ldb : LevelDb Blob) (server : Server) where
  -- The file cache first.
  unfoldable pub unlink_local : World ldb → Text → Option GError × World ldb
  unfolding filecache_delete stat_cache_delete first_error
  unlink_local w path =
      let (error, after) = filecache_delete ldb w path true in
      let r = stat_cache_delete ldb after.cache path in
      (first_error error r.error, record after { cache = r.cache })

  unfoldable pub unlink_answered : World ldb → Text → Requested → Option GError × World ldb
  unfolding unlink_local
  unlink_answered w path no_session = (g_error fusedav_domain enetdown, w)
  unlink_answered w path bad = (g_error fusedav_domain enetdown, record w { saint = true })
  unlink_answered w path (answered code) = unlink_local w path

  unfoldable pub unlink_found :
      Text → Bool → (ℕ → RequestAttempt) → GotStat ldb → Option GError × World ldb
  unfolding unlink_answered unlink_local s_isreg request
  unlink_found path do_unlink attempts r = elim r.error [
    | some e ↦ (some e, r.world)
    | none ↦
        if not (s_isreg r.st.st_mode)
        then (g_error fusedav_domain eisdir, r.world)
        else if do_unlink
        then unlink_answered r.world path (request server.nodes attempts)
        else unlink_local r.world path
  ]

  unfoldable pub common_unlink :
      Config → World ldb → Text → Bool → NameCalls → Option (Option GError × World ldb)
  unfolding unlink_found get_stat
  common_unlink config w path do_unlink calls =
      elim (get_stat ldb server config w path calls.stat) [
        | none ↦ none
        | some r ↦ some (unlink_found path do_unlink calls.attempts r)
      ]

  unfoldable pub unlink_ret : Option (Option GError × World ldb) → Option (Ret × World ldb)
  unlink_ret none = none
  unlink_ret (some (error, w)) = some (ret_of error, w)

  unfoldable pub dav_unlink : Config → World ldb → Text → NameCalls → Option (Ret × World ldb)
  unfolding unlink_ret common_unlink
  dav_unlink config w path calls = unlink_ret (common_unlink config w path true calls)

  -- The entry of the directory goes, then the time at which it was listed.
  unfoldable pub rmdir_local : World ldb → Text → Ret × World ldb
  unfolding stat_cache_delete stat_cache_updated_children
  rmdir_local w path =
      let r = stat_cache_delete ldb w.cache path in
      elim r.error [
        | some e ↦ (processed_gerror e, record w { cache = r.cache })
        | none ↦
            let s = stat_cache_updated_children ldb r.cache path 0 in
            (ret_of s.error, record w { cache = s.cache })
      ]

  unfoldable pub rmdir_answered : World ldb → Text → Requested → Ret × World ldb
  unfolding rmdir_local
  rmdir_answered w path no_session = (errno enetdown, w)
  rmdir_answered w path bad = (errno enetdown, record w { saint = true })
  rmdir_answered w path (answered code) = rmdir_local w path

  unfoldable pub rmdir_found : Text → (ℕ → RequestAttempt) → GotStat ldb → Ret × World ldb
  unfolding rmdir_answered s_isdir stat_cache_dir_has_child request
  rmdir_found path attempts r = elim r.error [
    | some e ↦ (processed_gerror e, r.world)
    | none ↦
        if not (s_isdir r.st.st_mode)
        then (errno enotdir, r.world)
        else if stat_cache_dir_has_child ldb r.world.cache path
        then (errno enotempty, r.world)
        else rmdir_answered r.world path (request server.nodes attempts)
  ]

  unfoldable pub dav_rmdir : Config → World ldb → Text → NameCalls → Option (Ret × World ldb)
  unfolding rmdir_found get_stat
  dav_rmdir config w path calls = elim (get_stat ldb server config w path calls.stat) [
    | none ↦ none
    | some r ↦ some (rmdir_found path calls.attempts r)
  ]

  unfoldable pub mkdir_answered : World ldb → Text → ℕ → RefreshCalls → Requested → Ret × World ldb
  unfolding store_stat fill_stat_generic
  mkdir_answered w path mode calls no_session = (errno enetdown, w)
  mkdir_answered w path mode calls bad = (errno enetdown, record w { saint = true })
  mkdir_answered w path mode calls (answered code) =
      let (error, after) =
        store_stat ldb w (some path) (fill_stat_generic mode true none calls.fill) calls.set in
      (ret_of error, after)

  unfoldable pub dav_mkdir :
      World ldb → Text → ℕ → (ℕ → RequestAttempt) → RefreshCalls → Ret × World ldb
  unfolding mkdir_answered request
  dav_mkdir w path mode attempts calls =
      mkdir_answered w path mode calls (request server.nodes attempts)

  -- The new file goes if its entry could not be moved.
  unfoldable pub move_file : World ldb → Text → Text → Ret × World ldb
  unfolding filecache_pdata_move filecache_delete
  move_file w from to =
      let (error, after) = filecache_pdata_move ldb w from to in
      elim error [
        | none ↦ (returns 0, after)
        | some e ↦ (processed_gerror e, (filecache_delete ldb after to true).1)
      ]

  unfoldable pub delete_old : World ldb → Text → Text → Ret × World ldb
  unfolding move_file stat_cache_delete
  delete_old w from to =
      let r = stat_cache_delete ldb w.cache from in
      elim r.error [
        | some e ↦ (processed_gerror e, record w { cache = r.cache })
        | none ↦ move_file (record w { cache = r.cache }) from to
      ]

  unfoldable pub move_entry : World ldb → Text → Text → SetCalls → StatCacheValue → Ret × World ldb
  unfolding delete_old
  move_entry w from to calls entry =
      let (error, after) = set_in ldb w (some to) entry calls in
      elim error [ some e ↦ (processed_gerror e, after) | none ↦ delete_old after from to ]

  unfoldable pub move_found :
      World ldb → Text → Text → SetCalls → Reply ldb (Option StatCacheValue) → Ret × World ldb
  unfolding move_entry
  move_found w from to calls r = elim r.error [
    | some e ↦ (processed_gerror e, record w { cache = r.cache })
    | none ↦ elim r.result [
      | none ↦ (errno enoent, record w { cache = r.cache })
      | some entry ↦ move_entry (record w { cache = r.cache }) from to calls entry
    ]
  ]

  -- `local_ret`, and what the caches then are.
  unfoldable pub local_move : World ldb → Text → Text → SetCalls → Ret × World ldb
  unfolding move_found stat_cache_value_get
  local_move w from to calls =
      move_found w from to calls (stat_cache_value_get ldb w.cache from true calls.now)

  -- 0 if either move succeeds, or else `server_ret`.
  unfoldable pub either_ret : Ret → Ret × World ldb → Ret × World ldb
  unfolding is_zero
  either_ret remote (moved, w) = (if is_zero remote || is_zero moved then returns 0 else remote, w)

  unfoldable pub rename_answered : World ldb → Text → Text → SetCalls → Option Ret → Ret × World ldb
  unfolding either_ret local_move
  rename_answered w from to calls none = (errno eio, w)
  rename_answered w from to calls (some remote) = either_ret remote (local_move w from to calls)

  -- A directory's old path ends in a slash from here on.
  unfoldable pub rename_found :
      Text → Text → (ℕ → RequestAttempt) → SetCalls → GotStat ldb → Ret × World ldb
  unfolding rename_answered is_request_bad server_ret s_isdir request
  rename_found from to attempts calls r = elim r.error [
    | some e ↦ (processed_gerror e, r.world)
    | none ↦
        let path = if s_isdir r.st.st_mode then from ++ slash ∷ [] else from in
        let answer = request server.nodes attempts in
        rename_answered (record (r.world) { saint = r.world.saint || is_request_bad answer }) path
          to calls (server_ret answer)
  ]

  unfoldable pub dav_rename :
      Config → World ldb → Text → Text → NameCalls → SetCalls → Option (Ret × World ldb)
  unfolding rename_found get_stat
  dav_rename config w from to calls set = elim (get_stat ldb server config w from calls.stat) [
    | none ↦ none
    | some r ↦ some (rename_found from to calls.attempts set r)
  ]
