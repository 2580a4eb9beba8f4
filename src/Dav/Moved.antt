-- ===== src/Dav/Moved.antt =====
-- What the local move of `dav_rename` in src/fusedav.c leaves in the caches.
use fusedav.Prelude.{
  ℕ, ◌≡◌, refl, sym, ap, ◌∙◌, true, false, Option, none, some, arith, inl, inr, Bool-cases,
  Option-cases,
}
use fusedav.Text.{Text, str_eq}
use fusedav.LevelDb.{LevelDb, IsLevelDb, lookup}
use fusedav.Structs.{StatCacheValue, Blob, stat_blob, time_blob, pdata_blob, FilecachePdata, GError}
use fusedav.StatCache as Stats
use fusedav.StatCache.{
  StatCache, Reply, stat_cache_value_get, check_value, stat_cache_value_set, set_value, fatal_write,
  stat_cache_delete, end_delete, stat_cache_get_local_generation,
}
use fusedav.StatCache.Fresh.{set-entry, set-result}
use fusedav.StatCache.Key.Shape.{IsAbsolute}
use fusedav.FileCache.{World}
use fusedav.FileCache.Entry as Files
use fusedav.FileCache.Entry.{filecache_pdata_get, filecache_pdata_set, check_pdata, end_set}
use fusedav.FileCache.Remove as Remove
use fusedav.FileCache.Remove.{filecache_pdata_move, filecache_delete, delete_found, end_move}
use fusedav.FileCache.Move.{filecache_pdata_move-moves}
use fusedav.Dav.{returns, refused, SetCalls}
use fusedav.Dav.Update.{Server}
use fusedav.Dav.Names.{local_move, move_found, move_entry, delete_old, move_file}
use fusedav.Dav.Separate.{at, stat_differs, stat_keys_differ, pdata_get-lookup, move_found-stat}

module _ (ldb : LevelDb Blob) (laws : IsLevelDb ldb) where
  set-other :
      (cache : StatCache ldb) (path : Text) (value : StatCacheValue) (now counter_now : ℕ)
      (key : Text)
      → str_eq (Stats.path2key path false) key ≡ false
      → lookup key
          (ldb.entries (stat_cache_value_set ldb cache (some path) value now counter_now).cache.db)
        ≡ lookup key (ldb.entries cache.db)
  unfolding stat_cache_value_set set_value fatal_write stat_cache_get_local_generation
  set-other cache path value now counter_now key other =
      let stamped : StatCacheValue = record value {
        updated = now;
        local_generation = (stat_cache_get_local_generation ldb counter_now cache).0;
      } in
      let kept =
        laws.put_other cache.db (Stats.path2key path false) (stat_blob stamped) key other in
      elim (Bool-cases (ldb.put cache.db (Stats.path2key path false) (stat_blob stamped)).1) [
        | inl e ↦ rw (e, stat_cache_value_set) kept
        | inr e ↦ rw (e, stat_cache_value_set) kept
      ]

  -- A read without a check of freshness leaves the database alone.
  get-db :
      (cache : StatCache ldb) (path : Text) (now : ℕ)
      → (stat_cache_value_get ldb cache path true now).cache.db ≡ cache.db
  unfolding stat_cache_value_get check_value
  get-db cache path now = go (ldb.get cache.db (Stats.path2key path false))
    where
      go : (r : Option (Option Blob)) → (check_value ldb cache path true now r).cache.db ≡ cache.db
      go none = refl
      go (some none) = refl
      go (some (some (stat_blob value))) = refl
      go (some (some (time_blob t))) = refl
      go (some (some (pdata_blob p))) = refl

module _ (ldb : LevelDb Blob) (from to : Text) where
  -- The file of the old path is the new path's, and nothing is left of the old one.
  abbrev HasMoved : FilecachePdata → World ldb → World ldb → Type 0
  HasMoved pdata w after =
      (at ldb w (Files.path2key from) ≡ some (pdata_blob pdata))
      × (at ldb after (Files.path2key to) ≡ some (pdata_blob pdata))
      × (at ldb after (Files.path2key from) ≡ none)
      × (at ldb after (Stats.path2key from false) ≡ none)

  -- The attributes of the new path are those of an entry.
  abbrev HasStat : StatCacheValue → World ldb → Type 0
  HasStat entry after =
      (v : StatCacheValue) × (at ldb after (Stats.path2key to false) ≡ some (stat_blob v))
      × (v.st ≡ entry.st)

  -- The file and the attributes that the old path had are the new path's, and the old path has none.
  abbrev pub CachesMoved : SetCalls → World ldb → World ldb → Type 0
  CachesMoved calls w after =
      (entry : StatCacheValue) × (pdata : FilecachePdata) × ((stat_cache_value_get ldb w.cache from
          true calls.now).result
        ≡ some entry)
      × HasMoved pdata w after
      × HasStat entry after

module _ (ldb : LevelDb Blob) (laws : IsLevelDb ldb) (server : Server) (from to : Text)
    (absolute_from : IsAbsolute from) (absolute_to : IsAbsolute to)
    (different : str_eq from to ≡ false) where
  move_pdata :
      (w : World ldb)
      → (filecache_pdata_move ldb w from to).0 ≡ none
      → (pdata : FilecachePdata) × (filecache_pdata_get ldb w.cache from ≡ (some pdata, none))
  unfolding filecache_pdata_move Remove.move_found
  move_pdata w h = go (filecache_pdata_get ldb w.cache from) refl h
    where
      go :
          (got : Option FilecachePdata × Option GError)
          → filecache_pdata_get ldb w.cache from ≡ got
          → (Remove.move_found ldb w from to got).0 ≡ none
          → (pdata : FilecachePdata) × (filecache_pdata_get ldb w.cache from ≡ (some pdata, none))
      go (pdata, some e) q f = absurd (ground arith)
      go (none, none) q f = absurd (ground arith)
      go (some pdata, none) q f = (pdata, q)

  move_stat :
      (w : World ldb) (path : Text)
      → at ldb (filecache_pdata_move ldb w from to).1 (Stats.path2key path false)
        ≡ at ldb w (Stats.path2key path false)
  unfolding filecache_pdata_move
  move_stat w path = move_found-stat ldb laws w from to path (filecache_pdata_get ldb w.cache from)

  move_file-HasMoved :
      (w : World ldb)
      → at ldb w (Stats.path2key from false) ≡ none
      → (move_file ldb server w from to).0 ≡ returns 0
      → (pdata : FilecachePdata) × HasMoved ldb from to pdata w (move_file ldb server w from to).1
        × (at ldb (move_file ldb server w from to).1 (Stats.path2key to false)
            ≡ at ldb w (Stats.path2key to false))
  unfolding move_file
  move_file-HasMoved w gone = elim (Option-cases (filecache_pdata_move ldb w from to).0) [
    | inr (e, failed) ↦ rw (failed, move_file) (λ h. absurd (refused h))
    | inl fine ↦
        rw (fine, move_file)
          (λ h.
            let (pdata, got) = move_pdata w fine in
            let (there, (left, files)) =
              filecache_pdata_move-moves ldb laws w from to pdata got different fine in
            (
              pdata,
              (
                pdata_get-lookup ldb laws w.cache from pdata got,
                there,
                left,
                move_stat w from ∙ gone,
              ),
              move_stat w to,
            ))
  ]

  delete_old-HasMoved :
      (w : World ldb)
      → (delete_old ldb server w from to).0 ≡ returns 0
      → (pdata : FilecachePdata) × HasMoved ldb from to pdata w (delete_old ldb server w from to).1
        × (at ldb (delete_old ldb server w from to).1 (Stats.path2key to false)
            ≡ at ldb w (Stats.path2key to false))
  unfolding delete_old stat_cache_delete end_delete
  delete_old-HasMoved w =
      let key = Stats.path2key from false in
      let w1 : World ldb = record w {
        cache = record (w.cache) { db = (ldb.delete w.cache.db key).0 };
      } in
      elim (Bool-cases (ldb.delete w.cache.db key).1) [
        | inl failed ↦ rw (failed, delete_old) (λ h. absurd (refused h))
        | inr done ↦
            rw (done, delete_old)
              (λ h.
                let (pdata, (file, there, left, gone), same) =
                  move_file-HasMoved w1 (laws.delete_self w.cache.db key done) h in
                (
                  pdata,
                  (
                    sym (
                          laws.delete_other w.cache.db key (Files.path2key from)
                            (stat_differs from from))
                        ∙ file,
                    there,
                    left,
                    gone,
                  ),
                  same
                      ∙ laws.delete_other w.cache.db key (Stats.path2key to false)
                          (stat_keys_differ from to absolute_from absolute_to different),
                ))
      ]

  move_entry-HasMoved :
      (w : World ldb) (calls : SetCalls) (entry : StatCacheValue)
      → (move_entry ldb server w from to calls entry).0 ≡ returns 0
      → (pdata : FilecachePdata) × HasMoved ldb from to pdata w
          (move_entry ldb server w from to calls entry).1
        × HasStat ldb from to entry (move_entry ldb server w from to calls entry).1
  unfolding move_entry
  move_entry-HasMoved w calls entry =
      let s = stat_cache_value_set ldb w.cache (some to) entry calls.now calls.counter_now in
      elim (Option-cases s.error) [
        | inr (e, failed) ↦ rw (failed, move_entry) (λ h. absurd (refused h))
        | inl fine ↦
            rw (fine, move_entry)
              (λ h.
                let (pdata, (file, there, left, gone), same) =
                  delete_old-HasMoved (record w { cache = s.cache }) h in
                let stored = set-entry ldb laws w.cache to entry calls.now calls.counter_now fine in
                let stamped =
                  set-result ldb laws w.cache to entry calls.now calls.counter_now fine in
                (
                  pdata,
                  (
                    sym (
                          set-other ldb laws w.cache to entry calls.now calls.counter_now
                            (Files.path2key from) (stat_differs to from))
                        ∙ file,
                    there,
                    left,
                    gone,
                  ),
                  (s.result, same ∙ stored.0, ap (λ v. v.st) stamped),
                ))
      ]

  pub local_move-CachesMoved :
      (w : World ldb) (calls : SetCalls)
      → (local_move ldb server w from to calls).0 ≡ returns 0
      → CachesMoved ldb from to calls w (local_move ldb server w from to calls).1
  unfolding local_move move_found
  local_move-CachesMoved w calls =
      let r = stat_cache_value_get ldb w.cache from true calls.now in
      let w1 : World ldb = record w { cache = r.cache } in
      let same : at ldb w1 (Files.path2key from) ≡ at ldb w (Files.path2key from) =
        ap (λ db. lookup (Files.path2key from) (ldb.entries db))
          (get-db ldb laws w.cache from calls.now) in
      elim (Option-cases r.error) [
        | inr (e, failed) ↦ rw (failed, move_found) (λ h. absurd (refused h))
        | inl fine ↦ elim (Option-cases r.result) [
          | inl missing ↦ rw (fine, missing, move_found) (λ h. absurd (refused h))
          | inr (entry, got) ↦
              rw (fine, got, move_found)
                (λ h.
                  let (pdata, (file, there, left, gone), stat) =
                    move_entry-HasMoved w1 calls entry h in
                  (entry, pdata, refl, (sym same ∙ file, there, left, gone), stat))
        ]
      ]
