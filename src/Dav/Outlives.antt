-- ===== src/Dav/Outlives.antt =====
-- What the callback of a listing in src/fusedav.c does with a file stored after its removal.
use fusedav.Prelude.{ℕ, ◌<◌, ◌≡◌, refl, true, false, Option, none, some, ltb, lt→ltb, arith, inl}
use fusedav.Text.{Text}
use fusedav.LevelDb.{LevelDb, IsLevelDb}
use fusedav.Structs.{Stat, StatCacheValue, Blob}
use fusedav.StatCache.{Reply, stat_cache_value_set, set_value, fatal_write, fill_blocks, path2key}
use fusedav.StatCache.Fresh.{stat_cache_value_set-read}
use fusedav.FileCache.{World}
use fusedav.Dav.{SetCalls, set_in}
use fusedav.Dav.Callbacks.{CallbackCalls, getdir_propfind_callback, gone_reply, existing_gone}

module _ (ldb : LevelDb Blob) (laws : IsLevelDb ldb) (w : World ldb) (path : Text)
    (value : StatCacheValue) (set : SetCalls) where
  abbrev stored : Reply ldb StatCacheValue
  stored = stat_cache_value_set ldb w.cache (some path) value set.now set.counter_now

  filled-updated : (fill_blocks stored.result).updated ≡ set.now
  unfolding stat_cache_value_set set_value fatal_write fill_blocks
  filled-updated = ground arith

  -- A file that was stored after the time at which the server saw it removed outlives the notice of
  -- that: nothing changes, and nobody is asked.
  pub set-getdir_propfind_callback :
      (nodes : ℕ) (calls : CallbackCalls) (st : Stat) (r : Option Blob)
      → (set_in ldb w (some path) value set).0 ≡ none
      → ldb.get stored.cache.db (path2key path false) ≡ some r
      → st.st_ctime < set.now
      → getdir_propfind_callback ldb nodes calls (set_in ldb w (some path) value set).1 path st 410
        ≡ ((set_in ldb w (some path) value set).1, none)
  unfolding getdir_propfind_callback gone_reply existing_gone
  set-getdir_propfind_callback nodes calls st r error reads older =
      let newer : ltb st.st_ctime (fill_blocks stored.result).updated ≡ true =
        rw filled-updated (lt→ltb st.st_ctime set.now older) in
      rw
        (
          stat_cache_value_set-read ldb laws w.cache path value set.now set.counter_now
              (calls.set path).now true r error reads (inl refl),
          newer,
        )
        refl
