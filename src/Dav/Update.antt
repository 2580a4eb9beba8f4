-- ===== src/Dav/Update.antt =====
-- `update_directory` and `dav_readdir` of src/fusedav.c.
use fusedav.Prelude.{
  ℕ, Bool, true, false, ◌&&◌, ◌||◌, Option, none, some, List, [], ◌∷◌, ◌++◌, if◌then◌else◌,
}
use fusedav.Text.{Text, codes}
use fusedav.LevelDb.{LevelDb}
use fusedav.Structs.{Blob, GError, g_error, fusedav_domain, enetdown, enoent}
use fusedav.StatCache.{
  StatCache, Reply, stat_cache_updated_children, stat_cache_read_updated_children,
  stat_cache_get_local_generation,
}
use fusedav.StatCache.Prune.{BloomEnv}
use fusedav.StatCache.Children.{
  Enumerated, success, no_data, old_data, stat_cache_enumerate, stat_cache_delete_older,
}
use fusedav.FileCache.{World, first_error}
use fusedav.Props.{Libraries}
use fusedav.Props.Request.{
  PropfindCalls, PropfindRet, PropfindResult, failed, stale, simple_propfind,
}
use fusedav.Props.Request as Request
use fusedav.Dav.{Config, Ret, returns, errno, processed_gerror}
use fusedav.Dav.Callbacks.{CallbackCalls, getdir_propfind_callback}

-- One PROPFIND and what its callback needs.
pub record ListCalls : Type 0 where
  pub propfind : PropfindCalls
  pub callback : CallbackCalls

-- The two readings of the clock, the two PROPFINDs, the clock for the first generation of all, and
-- what the pruning needs.
pub record UpdateCalls : Type 0 where
  pub progressive_now : ℕ
  pub progressive : ListCalls
  pub complete_now : ℕ
  pub generation_now : ℕ
  pub complete : ListCalls
  pub env : BloomEnv

-- What all requests share.
pub record Server : Type 0 where
  pub lib : Libraries
  pub base_url : Text
  pub nodes : ℕ

module _ (ldb : LevelDb Blob) (server : Server) where
  unfoldable pub list_directory : World ldb → Text → ListCalls → Option (PropfindResult (World ldb))
  unfolding getdir_propfind_callback simple_propfind
  list_directory w path calls =
      simple_propfind server.lib server.base_url
        (getdir_propfind_callback ldb server.nodes calls.callback) server.nodes calls.propfind path
        w

  abbrev pub world_after : PropfindResult (World ldb) → World ldb
  world_after r = record (r.userdata) { saint = r.userdata.saint || r.saint }

  -- The directory's contents are marked as updated.
  unfoldable pub mark_updated : World ldb → Text → ℕ → Option GError × World ldb
  unfolding stat_cache_updated_children
  mark_updated w path timestamp =
      let r = stat_cache_updated_children ldb w.cache path timestamp in
      (r.error, record w { cache = r.cache })

  unfoldable pub older_deleted :
      World ldb → Text → ℕ → Option (Reply ldb (Unit {0})) → Option (Option GError × World ldb)
  unfolding mark_updated
  older_deleted w path timestamp none = none
  older_deleted w path timestamp (some r) = elim r.error [
    | some e ↦ some (some e, record w { cache = r.cache })
    | none ↦ some (mark_updated (record w { cache = r.cache }) path timestamp)
  ]

  -- What a complete PROPFIND did not list goes.
  unfoldable pub complete_listed :
      Text → ℕ → ℕ → BloomEnv → PropfindResult (World ldb) → Option (Option GError × World ldb)
  unfolding older_deleted stat_cache_delete_older
  complete_listed path timestamp min_generation env r = elim r.error [
    | some e ↦ some (some e, world_after r)
    | none ↦ elim r.ret [
      | Request.success ↦
          older_deleted (world_after r) path timestamp
            (stat_cache_delete_older ldb env r.userdata.cache path min_generation)
      | failed ↦ some (g_error fusedav_domain enetdown, world_after r)
      | stale ↦ some (g_error fusedav_domain enetdown, world_after r)
    ]
  ]

  unfoldable pub complete_update :
      World ldb → Text → UpdateCalls → Option (Option GError × World ldb)
  unfolding complete_listed list_directory
  complete_update w path calls =
      let (min_generation, cache) =
        stat_cache_get_local_generation ldb calls.generation_now w.cache in
      elim (list_directory (record w { cache = cache }) path calls.complete) [
        | none ↦ none
        | some r ↦ complete_listed path calls.complete_now min_generation calls.env r
      ]

  -- A directory whose last update is too old for the server is listed completely.
  unfoldable pub progressive_listed :
      Text → UpdateCalls → PropfindResult (World ldb) → Option (Option GError × World ldb)
  unfolding complete_update mark_updated
  progressive_listed path calls r = elim r.ret [
    | Request.success ↦ some (mark_updated (world_after r) path calls.progressive_now)
    | stale ↦ complete_update (world_after r) path calls
    | failed ↦ some (first_error r.error (g_error fusedav_domain enetdown), world_after r)
  ]

  unfoldable pub progressive_update :
      World ldb → Text → UpdateCalls → Reply ldb ℕ → Option (Option GError × World ldb)
  unfolding progressive_listed list_directory
  progressive_update w path calls last_updated = elim last_updated.error [
    | some e ↦ some (some e, record w { cache = last_updated.cache })
    | none ↦
        elim (list_directory (record w { cache = last_updated.cache }) path calls.progressive) [
          | none ↦ none
          | some r ↦ progressive_listed path calls r
        ]
  ]

  -- `last_updated - CLOCK_SKEW` only goes into the request.
  unfoldable pub update_directory :
      Config → World ldb → Text → Bool → UpdateCalls → Option (Option GError × World ldb)
  unfolding progressive_update complete_update
  update_directory config w path attempt_progressive_update calls =
      if attempt_progressive_update && config.progressive_propfind
      then progressive_update w path calls (stat_cache_read_updated_children ldb w.cache path)
      else complete_update w path calls

  -- An empty name is left out.
  unfoldable pub getdir_cache_callback : List Text → Text → List Text
  getdir_cache_callback names [] = names
  getdir_cache_callback names (c ∷ filename) = names ++ (c ∷ filename) ∷ []

  unfoldable pub fill_names : List Text → List Text → List Text
  unfolding getdir_cache_callback
  fill_names names [] = names
  fill_names names (filename ∷ filenames) =
      fill_names (getdir_cache_callback names filename) filenames

  -- The second reading of the cache skips all checks of freshness.
  readdir_again :
      Text → List Text → Option (Option GError × World ldb) → Option (Ret × List Text × World ldb)
  unfolding fill_names stat_cache_enumerate
  readdir_again path names none = none
  readdir_again path names (some (some e, w)) = some (processed_gerror e, names, w)
  readdir_again path names (some (none, w)) =
      let (filenames, status, cache) = stat_cache_enumerate ldb w.cache path true 0 in
      some (returns 0, fill_names names filenames, record w { cache = cache })

  readdir_cached :
      Config
      → World ldb
      → Text
      → List Text
      → UpdateCalls
      → List Text × Enumerated × StatCache ldb
      → Option (Ret × List Text × World ldb)
  unfolding readdir_again fill_names update_directory
  readdir_cached config w path names calls (filenames, success, cache) =
      some (returns 0, fill_names names filenames, record w { cache = cache })
  readdir_cached config w path names calls (filenames, no_data, cache) =
      readdir_again path (fill_names names filenames)
        (update_directory config (record w { cache = cache }) path false calls)
  readdir_cached config w path names calls (filenames, old_data, cache) =
      readdir_again path (fill_names names filenames)
        (update_directory config (record w { cache = cache }) path true calls)

  abbrev pub dots : List Text
  dots = codes "." ∷ codes ".." ∷ []

  -- The names that the filler is called with, in order.
  unfoldable pub dav_readdir :
      Config → World ldb → Option Text → ℕ → UpdateCalls → Option (Ret × List Text × World ldb)
  unfolding readdir_cached stat_cache_enumerate
  dav_readdir config w none now calls = some (errno enoent, [], w)
  dav_readdir config w (some path) now calls =
      readdir_cached config w path dots calls (stat_cache_enumerate ldb w.cache path false now)
