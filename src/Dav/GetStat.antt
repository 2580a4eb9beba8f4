-- ===== src/Dav/GetStat.antt =====
-- `get_stat` and the calls for a file's attributes of src/fusedav.c.
use Prim.Native.Nat.{bit_or}
use fusedav.Prelude.{
  ℕ, ◌-◌, Bool, true, false, ◌&&◌, not, Option, none, some, [], ◌∷◌, ltb, ◌==◌, if◌then◌else◌,
}
use fusedav.Text.{Text, slash, str_eq}
use fusedav.Path.{path_parent}
use fusedav.LevelDb.{LevelDb}
use fusedav.Structs.{
  Stat, StatCacheValue, Blob, GError, fusedav_domain, enetdown, enoent, s_isdir, s_isreg,
}
use fusedav.StatCache.{
  Reply, stat_cache_value_get, stat_cache_delete, stat_cache_read_updated_children,
}
use fusedav.FileCache.{World, FilecacheSdata, OsResult, ok, fails}
use fusedav.Props.{zero_stat, s_ifdir, s_ifreg}
use fusedav.Props.Request.{PropfindResult, success, failed, stale, simple_propfind}
use fusedav.Dav.{Config, Ret, ret_of, FillCalls, fill_stat_generic}
use fusedav.Dav.Update.{Server, ListCalls, UpdateCalls, update_directory, world_after}
use fusedav.Dav.Callbacks.{getattr_propfind_callback}

-- `enum ignore_freshness`
pub data IgnoreFreshness : Type 0 where
  off saint_mode already_fresh : IgnoreFreshness

unfoldable pub is_off : IgnoreFreshness → Bool
is_off off = true
is_off saint_mode = false
is_off already_fresh = false

-- What is found in the cache: the stat structure, an error, or neither (`-EKEYEXPIRED`).
pub data Found : Type 0 where
  found : Stat → Found
  refused : GError → Found
  expired : Found

abbrev fusedav_error : ℕ → GError
fusedav_error code = record { domain = fusedav_domain; code = code }

-- The two times at which the cache is read, the clock for the negative entries, whether saint mode
-- is on, the clock for the root, and the PROPFINDs.
pub record GetStatCalls : Type 0 where
  pub fill : FillCalls
  pub in_saint_mode : Bool
  pub first_now : ℕ
  pub ttl_now : ℕ
  pub second_now : ℕ
  pub single : ListCalls
  pub update : UpdateCalls

module _ (ldb : LevelDb Blob) where
  unfoldable pub missing : IgnoreFreshness → Found
  missing off = expired
  missing saint_mode = refused (fusedav_error enetdown)
  missing already_fresh = refused (fusedav_error enoent)

  unfoldable pub found_value : IgnoreFreshness → Option StatCacheValue → Found
  unfolding missing
  found_value skip none = missing skip
  found_value skip (some value) =
      if value.st.st_mode == 0 then refused (fusedav_error enoent) else found value.st

  unfoldable pub found_reply :
      World ldb → IgnoreFreshness → Reply ldb (Option StatCacheValue) → Found × World ldb
  unfolding found_value
  found_reply w skip r = elim r.error [
    | some e ↦ (refused e, record w { cache = r.cache })
    | none ↦ (found_value skip r.result, record w { cache = r.cache })
  ]

  unfoldable pub get_stat_from_cache : World ldb → Text → IgnoreFreshness → ℕ → Found × World ldb
  unfolding found_reply is_off stat_cache_value_get
  get_stat_from_cache w path skip now =
      found_reply w skip (stat_cache_value_get ldb w.cache path (not (is_off skip)) now)

-- What `get_stat` leaves in `stbuf`, where no caller looks after an error, and that error.
pub record GotStat (ldb : LevelDb Blob) : Type 0 where
  pub st : Stat
  pub error : Option GError
  pub world : World ldb

module _ (ldb : LevelDb Blob) (server : Server) where
  abbrev got : Stat → World ldb → GotStat ldb
  got st w = record { st = st; error = none; world = w }

  abbrev got_error : GError → World ldb → GotStat ldb
  got_error e w = record { st = zero_stat; error = some e; world = w }

  -- The second reading of the cache.
  unfoldable pub second_read : Found × World ldb → GotStat ldb
  second_read (found st, w) = got st w
  second_read (refused e, w) = got_error e w
  second_read (expired, w) = got zero_stat w

  unfoldable pub fresh_read : World ldb → Text → ℕ → GotStat ldb
  unfolding second_read get_stat_from_cache
  fresh_read w path now = second_read (get_stat_from_cache ldb w path already_fresh now)

  -- The entry goes if the PROPFIND fails. Its error comes before one of the deletion.
  propfind_failed : World ldb → Text → Option GError → GotStat ldb
  unfolding stat_cache_delete
  propfind_failed w path error =
      let r = stat_cache_delete ldb w.cache path in
      let after : World ldb = record w { cache = r.cache } in
      elim error [
        | some e ↦ got_error e after
        | none ↦ elim r.error [
          | some e ↦ got_error e after
          | none ↦ got_error (fusedav_error enetdown) after
        ]
      ]

  unfoldable pub single_result :
      Text → GetStatCalls → Option (PropfindResult (World ldb)) → Option (GotStat ldb)
  unfolding propfind_failed fresh_read
  single_result path calls none = none
  single_result path calls (some r) = elim r.error [
    | some e ↦ some (propfind_failed (world_after ldb server r) path (some e))
    | none ↦ elim r.ret [
      | success ↦ some (fresh_read (world_after ldb server r) path calls.second_now)
      | failed ↦ some (propfind_failed (world_after ldb server r) path none)
      | stale ↦ some (propfind_failed (world_after ldb server r) path none)
    ]
  ]

  unfoldable pub single_propfind : World ldb → Text → GetStatCalls → Option (GotStat ldb)
  unfolding single_result simple_propfind getattr_propfind_callback
  single_propfind w path calls = single_result path calls (
      simple_propfind server.lib server.base_url
        (getattr_propfind_callback ldb calls.single.callback) server.nodes calls.single.propfind
        path w)

  updated_result : Text → GetStatCalls → Option (Option GError × World ldb) → Option (GotStat ldb)
  unfolding fresh_read
  updated_result path calls none = none
  updated_result path calls (some (some e, w)) = some (got_error e w)
  updated_result path calls (some (none, w)) = some (fresh_read w path calls.second_now)

  abbrev pub stat_cache_negative_ttl : ℕ
  stat_cache_negative_ttl = 2

  refresh_parent :
      Config → World ldb → Text → Text → GetStatCalls → Reply ldb ℕ → Option (GotStat ldb)
  unfolding updated_result fresh_read update_directory
  refresh_parent config w path parent_path calls r = elim r.error [
    | some e ↦ some (got_error e (record w { cache = r.cache }))
    | none ↦
        if ltb r.result (calls.ttl_now - stat_cache_negative_ttl)
        then updated_result path calls (
            update_directory ldb server config (record w { cache = r.cache }) parent_path
              (ltb 0 r.result) calls.update)
        else some (fresh_read (record w { cache = r.cache }) path calls.second_now)
  ]

  -- Without a parent there is neither a stat structure nor an error.
  unfoldable pub refresh_by_parent :
      Config → World ldb → Text → GetStatCalls → Option Text → Option (GotStat ldb)
  unfolding refresh_parent stat_cache_read_updated_children
  refresh_by_parent config w path calls none = some (got zero_stat w)
  refresh_by_parent config w path calls (some parent_path) =
      refresh_parent config w path parent_path calls
        (stat_cache_read_updated_children ldb w.cache parent_path)

  unfoldable pub first_read :
      Config → Text → GetStatCalls → Found × World ldb → Option (GotStat ldb)
  unfolding single_propfind refresh_by_parent
  first_read config path calls (found st, w) = some (got st w)
  first_read config path calls (refused e, w) = some (got_error e w)
  first_read config path calls (expired, w) =
      if config.refresh_dir_for_file_stat
      then refresh_by_parent config w path calls (path_parent path)
      else single_propfind w path calls

  unfoldable pub root_stat : World ldb → OsResult Stat → GotStat ldb
  root_stat w (ok st) = got st w
  root_stat w (fails code) = got_error (fusedav_error code) w

  unfoldable pub get_stat : Config → World ldb → Text → GetStatCalls → Option (GotStat ldb)
  unfolding root_stat first_read get_stat_from_cache fill_stat_generic
  get_stat config w path calls =
      if str_eq path (slash ∷ [])
      then some (root_stat w (fill_stat_generic 0 true none calls.fill))
      else first_read config path calls (
          get_stat_from_cache ldb w path
            (if config.grace && calls.in_saint_mode then saint_mode else off) calls.first_now)

  unfoldable pub with_type : Stat → Stat
  unfolding s_isreg s_isdir
  with_type st =
      let mode = if s_isdir st.st_mode then bit_or st.st_mode s_ifdir else st.st_mode in
      record st { st_mode = if s_isreg mode then bit_or mode s_ifreg else mode }

  unfoldable pub getattr_result : Option (GotStat ldb) → Option (GotStat ldb)
  unfolding with_type
  getattr_result none = none
  getattr_result (some r) = elim r.error [
    | some e ↦ some r
    | none ↦ some (record r { st = with_type r.st })
  ]

  -- Without a path the file is described by its descriptor.
  unfoldable pub common_getattr :
      Config → World ldb → Option Text → Option FilecacheSdata → GetStatCalls → Option (GotStat ldb)
  unfolding getattr_result get_stat root_stat fill_stat_generic
  common_getattr config w (some path) info calls = getattr_result (get_stat config w path calls)
  common_getattr config w none none calls = none
  common_getattr config w none (some sdata) calls =
      some (root_stat w (fill_stat_generic 0 false sdata.fd calls.fill))

  unfoldable pub getattr_ret : Option (GotStat ldb) → Option (Ret × GotStat ldb)
  getattr_ret none = none
  getattr_ret (some r) = some (ret_of r.error, r)

  unfoldable pub dav_fgetattr :
      Config
      → World ldb
      → Option Text
      → Option FilecacheSdata
      → GetStatCalls
      → Option (Ret × GotStat ldb)
  unfolding getattr_ret common_getattr
  dav_fgetattr config w path info calls = getattr_ret (common_getattr config w path info calls)

  unfoldable pub dav_getattr : Config → World ldb → Text → GetStatCalls → Option (Ret × GotStat ldb)
  unfolding getattr_ret common_getattr
  dav_getattr config w path calls = getattr_ret (common_getattr config w (some path) none calls)
