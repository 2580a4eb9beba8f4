-- ===== src/FileCache/Move.antt =====
-- Proofs about the deletion and the renaming of entries in src/filecache.c.
use fusedav.Prelude.{
  ◌≡◌, refl, ◌∙◌, inl, inr, Bool, true, false, Option, none, some, arith, Bool-cases,
}
use fusedav.Text.{Text, str_eq}
use fusedav.LevelDb.{LevelDb, IsLevelDb, lookup}
use fusedav.Structs.{Blob, pdata_blob, stat_blob, time_blob, FilecachePdata, GError}
use fusedav.FileCache.{World}
use fusedav.FileCache.Entry.{
  path2key, filecache_pdata_get, filecache_pdata_set, end_set, check_pdata,
}
use fusedav.FileCache.Remove.{
  filecache_delete, delete_found, end_delete, filecache_pdata_move, move_found, end_move,
}

module _ (ldb : LevelDb Blob) (laws : IsLevelDb ldb) (w : World ldb) (path : Text) where
  end_delete-gone :
      (unlink_cachefile : Bool) (pdata : FilecachePdata)
      → (end_delete ldb w unlink_cachefile pdata (ldb.delete w.cache.db (path2key path))).0 ≡ none
      → lookup (path2key path) (
          ldb.entries
            (end_delete ldb w unlink_cachefile pdata
              (ldb.delete w.cache.db (path2key path))).1.cache.db)
        ≡ none
  unfolding end_delete
  end_delete-gone true pdata h = laws.delete_self w.cache.db (path2key path) (ground arith)
  end_delete-gone false pdata h = laws.delete_self w.cache.db (path2key path) (ground arith)

  -- A delete without an error leaves no entry, whether or not it unlinks the file.
  pub filecache_delete-gone :
      (unlink_cachefile : Bool)
      → (filecache_delete ldb w path unlink_cachefile).0 ≡ none
      → lookup
          (path2key path)
          (ldb.entries (filecache_delete ldb w path unlink_cachefile).1.cache.db)
        ≡ none
  unfolding filecache_delete filecache_pdata_get check_pdata delete_found
  filecache_delete-gone unlink_cachefile h = go (ldb.get w.cache.db (path2key path)) refl h
    where
      go :
          (r : Option (Option Blob))
          → ldb.get w.cache.db (path2key path) ≡ r
          → (delete_found ldb w path unlink_cachefile (check_pdata ldb r)).0 ≡ none
          → lookup (path2key path) (
              ldb.entries (delete_found ldb w path unlink_cachefile (check_pdata ldb r)).1.cache.db)
            ≡ none
      go none e h = absurd (ground arith)
      go (some none) e h = laws.get_reads w.cache.db (path2key path) none e
      go (some (some (pdata_blob pdata))) e h = end_delete-gone unlink_cachefile pdata h
      go (some (some (stat_blob value))) e h = absurd (ground arith)
      go (some (some (time_blob t))) e h = absurd (ground arith)

  -- A delete that keeps the file touches no other path's entry, and unlinks nothing.
  found-other :
      (other : Text) (got : Option FilecachePdata × Option GError)
      → str_eq path other ≡ false
      → (lookup (path2key other) (ldb.entries (delete_found ldb w path false got).1.cache.db)
          ≡ lookup (path2key other) (ldb.entries w.cache.db))
        × ((delete_found ldb w path false got).1.unlinked ≡ w.unlinked)
  unfolding delete_found end_delete str_eq
  found-other other (pdata, some e) h = (refl, refl)
  found-other other (none, none) h = (refl, refl)
  found-other other (some pdata, none) h =
      (laws.delete_other w.cache.db (path2key path) (path2key other) h, refl)

module _ (ldb : LevelDb Blob) (laws : IsLevelDb ldb) (w : World ldb)
    (old_path new_path : Text) where
  -- The entry is under the new path only, and its file is still there.
  abbrev pub Moved : FilecachePdata → World ldb → Type 0
  Moved pdata after =
      (lookup (path2key new_path) (ldb.entries after.cache.db) ≡ some (pdata_blob pdata))
      × ((lookup (path2key old_path) (ldb.entries after.cache.db) ≡ none)
          × (after.unlinked ≡ w.unlinked))

  end_move-Moved :
      (pdata : FilecachePdata)
      → str_eq old_path new_path ≡ false
      → (end_move ldb w old_path (filecache_pdata_set ldb w.cache new_path pdata)).0 ≡ none
      → Moved pdata (end_move ldb w old_path (filecache_pdata_set ldb w.cache new_path pdata)).1
  unfolding end_move filecache_pdata_set end_set filecache_delete
  end_move-Moved pdata different =
      let written = ldb.put w.cache.db (path2key new_path) (pdata_blob pdata) in
      let stored : World ldb = record w { cache = record (w.cache) { db = written.0 } } in
      let (kept, files) =
        found-other ldb laws stored old_path new_path
          (filecache_pdata_get ldb stored.cache old_path) different in
      elim (Bool-cases written.1) [
        | inl e ↦ rw (e, end_move) (λ h. absurd (ground arith))
        | inr e ↦
            rw (e, end_move)
              (λ h. (
                kept ∙ laws.put_self w.cache.db (path2key new_path) (pdata_blob pdata) e,
                (filecache_delete-gone ldb laws stored old_path false h, files),
              ))
      ]

  -- After a move without an error the entry that the old path had is under the new one, the old path
  -- has none, and no file was unlinked.
  pub filecache_pdata_move-moves :
      (pdata : FilecachePdata)
      → filecache_pdata_get ldb w.cache old_path ≡ (some pdata, none)
      → str_eq old_path new_path ≡ false
      → (filecache_pdata_move ldb w old_path new_path).0 ≡ none
      → Moved pdata (filecache_pdata_move ldb w old_path new_path).1
  unfolding filecache_pdata_move move_found
  filecache_pdata_move-moves pdata got different = rw got (end_move-Moved pdata different)
