-- ===== src/Dav/Callbacks.antt =====
-- The callbacks of a PROPFIND in src/fusedav.c.
use fusedav.Prelude.{
  ℕ, Bool, true, false, ◌&&◌, ◌||◌, Option, none, some, ltb, leb, ◌==◌, if◌then◌else◌,
}
use fusedav.Text.{Text}
use fusedav.LevelDb.{LevelDb}
use fusedav.Structs.{Stat, StatCacheValue, Blob, GError, g_error, fusedav_domain, enetdown, einval}
use fusedav.StatCache.{Reply, stat_cache_value_get, stat_cache_delete}
use fusedav.FileCache.{World, first_error}
use fusedav.FileCache.Remove.{filecache_delete}
use fusedav.Dav.{
  zero_value, SetCalls, RequestAttempt, Requested, no_session, bad, answered, request, set_in,
}

-- For the path of a response: the clock, and the answers to a HEAD.
pub record CallbackCalls : Type 0 where
  pub set : Text → SetCalls
  pub head : Text → ℕ → RequestAttempt

module _ (ldb : LevelDb Blob) where
  -- From both caches, the file too. The first error of the two is kept.
  unfoldable pub remove_path : World ldb → Text → Option GError × World ldb
  unfolding stat_cache_delete filecache_delete first_error
  remove_path w path =
      let r = stat_cache_delete ldb w.cache path in
      let (error, after) = filecache_delete ldb (record w { cache = r.cache }) path true in
      (first_error r.error error, after)

  unfoldable pub getattr_propfind_callback :
      CallbackCalls → World ldb → Text → Stat → ℕ → World ldb × Option GError
  unfolding remove_path
  getattr_propfind_callback calls w path st status_code =
      if status_code == 410
      then (let (error, after) = remove_path w path in (after, error))
      else let (error, after) = set_in ldb w (some path) (zero_value st) (calls.set path) in
        (after, error)

  abbrev failing : World ldb → Bool → ℕ → World ldb × Option GError
  failing w saint code = (record w { saint = w.saint || saint }, g_error fusedav_domain code)

  -- The server was asked whether the file exists.
  unfoldable pub after_head : World ldb → Text → Requested → World ldb × Option GError
  unfolding remove_path
  after_head w path no_session = failing w false enetdown
  after_head w path bad = failing w true enetdown
  after_head w path (answered code) =
      if leb 400 code
      then (let (error, after) = remove_path w path in (after, error))
      else if leb 200 code && ltb code 300
      then (w, none)
      else failing w false einval

  -- An entry that was updated later than the deletion stays; for one of the same second the server
  -- is asked.
  unfoldable pub existing_gone :
      ℕ
      → CallbackCalls
      → World ldb
      → Text
      → Stat
      → Option StatCacheValue
      → World ldb × Option GError
  unfolding after_head remove_path request
  existing_gone nodes calls w path st none =
      let (error, after) = remove_path w path in (after, error)
  existing_gone nodes calls w path st (some existing) =
      if ltb st.st_ctime existing.updated
      then (w, none)
      else if existing.updated == st.st_ctime
      then after_head w path (request nodes (calls.head path))
      else let (error, after) = remove_path w path in (after, error)

  unfoldable pub gone_reply :
      ℕ
      → CallbackCalls
      → World ldb
      → Text
      → Stat
      → Reply ldb (Option StatCacheValue)
      → World ldb × Option GError
  unfolding existing_gone
  gone_reply nodes calls w path st r = elim r.error [
    | some e ↦ (record w { cache = r.cache }, some e)
    | none ↦ existing_gone nodes calls (record w { cache = r.cache }) path st r.result
  ]

  unfoldable pub getdir_propfind_callback :
      ℕ → CallbackCalls → World ldb → Text → Stat → ℕ → World ldb × Option GError
  unfolding gone_reply
  getdir_propfind_callback nodes calls w path st status_code =
      if status_code == 410
      then gone_reply nodes calls w path st
          (stat_cache_value_get ldb w.cache path true (calls.set path).now)
      else let (error, after) = set_in ldb w (some path) (zero_value st) (calls.set path) in
        (after, error)
