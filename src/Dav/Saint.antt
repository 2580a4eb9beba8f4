-- ===== src/Dav/Saint.antt =====
-- What src/fusedav.c answers in saint mode, when no server is asked.
use fusedav.Prelude.{
  ◌≡◌, refl, true, false, Option, none, some, [], ◌∷◌, ◌==◌, arith, inl, inr, if◌then◌else◌,
  Bool-cases,
}
use fusedav.Text.{Text, slash, str_eq}
use fusedav.LevelDb.{LevelDb}
use fusedav.Structs.{StatCacheValue, Blob, g_error, stat_blob, enetdown, enoent, fusedav_domain}
use fusedav.StatCache.{stat_cache_value_get, check_value, path2key, fill_blocks}
use fusedav.FileCache.{World}
use fusedav.Props.{zero_stat}
use fusedav.Dav.{Config}
use fusedav.Dav.Update.{Server}
use fusedav.Dav.GetStat.{
  GetStatCalls, GotStat, get_stat, get_stat_from_cache, found_reply, found_value, first_read,
  missing,
}

abbrev pub map_blob : Option StatCacheValue → Option Blob
map_blob none = none
map_blob (some value) = some (stat_blob value)

fill_blocks-mode : (value : StatCacheValue) → (fill_blocks value).st.st_mode ≡ value.st.st_mode
unfolding fill_blocks
fill_blocks-mode value = ground arith

module _ (ldb : LevelDb Blob) (w : World ldb) where
  -- What the entry of a path is answered with.
  abbrev pub cached_answer : Option StatCacheValue → GotStat ldb
  cached_answer none = record { st = zero_stat; error = g_error fusedav_domain enetdown; world = w }
  cached_answer (some value) =
      if value.st.st_mode == 0
      then record { st = zero_stat; error = g_error fusedav_domain enoent; world = w }
      else record { st = (fill_blocks value).st; error = none; world = w }

module _ (ldb : LevelDb Blob) (server : Server) (config : Config) (w : World ldb) (path : Text)
    (calls : GetStatCalls) where
  -- In saint mode, with grace, the entry of the cache is the answer whatever its age, with ENOENT for
  -- a mode of 0, and ENETDOWN is the answer where there is none. No server is asked.
  pub get_stat-saint :
      str_eq path (slash ∷ []) ≡ false
      → config.grace ≡ true
      → calls.in_saint_mode ≡ true
      → (entry : Option StatCacheValue)
      → ldb.get w.cache.db (path2key path false) ≡ some (map_blob entry)
      → get_stat ldb server config w path calls ≡ some (cached_answer ldb w entry)
  unfolding get_stat get_stat_from_cache stat_cache_value_get check_value found_reply found_value
      first_read missing
  get_stat-saint other grace saint none reads = rw (other, grace, saint, reads) refl
  get_stat-saint other grace saint (some value) reads = elim (Bool-cases (value.st.st_mode == 0)) [
    | inl mode ↦ rw (other, grace, saint, reads, fill_blocks-mode value, mode) refl
    | inr mode ↦ rw (other, grace, saint, reads, fill_blocks-mode value, mode) refl
  ]
