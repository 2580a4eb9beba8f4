-- ===== src/FileCache/Remove.antt =====
-- The calls of src/filecache.c that delete an entry, rename it, or put its file aside.
use fusedav.Prelude.{ℕ, Bool, false, Option, none, some, ◌∷◌, if◌then◌else◌}
use fusedav.Text.{Text}
use fusedav.LevelDb.{LevelDb}
use fusedav.Structs.{Blob, FilecachePdata, GError, g_error, leveldb, filecache}
use fusedav.StatCache.{StatCache}
use fusedav.FileCache.{World, OsResult, ok, fails, e_fc_ldberr, e_fc_pdatanull}
use fusedav.FileCache.Entry.{path2key, filecache_pdata_get, filecache_pdata_set}

module _ (ldb : LevelDb Blob) where
  abbrev unlink : World ldb → Text → World ldb
  unlink w filename = record w { unlinked = filename ∷ w.unlinked }

  -- The cache file goes even if the entry cannot be deleted.
  unfoldable pub end_delete :
      World ldb → Bool → FilecachePdata → ldb.Db × Bool → Option GError × World ldb
  end_delete w unlink_cachefile pdata (db, failed) =
      let after : World ldb = record w { cache = record (w.cache) { db = db } } in
      (
        if failed then g_error leveldb e_fc_ldberr else none,
        if unlink_cachefile then unlink after pdata.filename else after,
      )

  unfoldable pub delete_found :
      World ldb → Text → Bool → Option FilecachePdata × Option GError → Option GError × World ldb
  unfolding end_delete
  delete_found w path unlink_cachefile (pdata, some e) = (some e, w)
  delete_found w path unlink_cachefile (none, none) = (none, w)
  delete_found w path unlink_cachefile (some pdata, none) =
      end_delete w unlink_cachefile pdata (ldb.delete w.cache.db (path2key path))

  unfoldable pub filecache_delete : World ldb → Text → Bool → Option GError × World ldb
  unfolding delete_found
  filecache_delete w path unlink_cachefile =
      delete_found w path unlink_cachefile (filecache_pdata_get ldb w.cache path)

  -- The entry of the old path stays, for the new one keeps its file.
  unfoldable pub end_move :
      World ldb → Text → Option GError × StatCache ldb → Option GError × World ldb
  unfolding filecache_delete
  end_move w old_path (some e, cache) = (some e, record w { cache = cache })
  end_move w old_path (none, cache) = filecache_delete (record w { cache = cache }) old_path false

  unfoldable pub move_found :
      World ldb → Text → Text → Option FilecachePdata × Option GError → Option GError × World ldb
  unfolding end_move filecache_pdata_set
  move_found w old_path new_path (pdata, some e) = (some e, w)
  move_found w old_path new_path (none, none) = (g_error filecache e_fc_pdatanull, w)
  move_found w old_path new_path (some pdata, none) =
      end_move w old_path (filecache_pdata_set ldb w.cache new_path pdata)

  unfoldable pub filecache_pdata_move : World ldb → Text → Text → Option GError × World ldb
  unfolding move_found filecache_pdata_get
  filecache_pdata_move w old_path new_path =
      move_found w old_path new_path (filecache_pdata_get ldb w.cache old_path)

  put_aside : World ldb → Text → OsResult (Unit {0}) → World ldb
  put_aside w filename (ok u) = record w { put_aside = filename ∷ w.put_aside }
  put_aside w filename (fails errno) = w

  -- A text that cannot be created is no error. Its descriptor is closed.
  write_text : World ldb → OsResult ℕ → OsResult ℕ → Option GError × World ldb
  write_text w (fails errno) write = (none, w)
  write_text w (ok fd) (fails errno) =
      (g_error filecache errno, record w { closed = fd ∷ w.closed })
  write_text w (ok fd) (ok bytes_written) = (none, record w { closed = fd ∷ w.closed })

  haven_found :
      World ldb
      → OsResult (Unit {0})
      → OsResult ℕ
      → OsResult ℕ
      → Option FilecachePdata × Option GError
      → Option GError × World ldb
  unfolding write_text put_aside
  haven_found w rename creat write (pdata, some e) = (some e, w)
  haven_found w rename creat write (none, none) = (g_error filecache e_fc_pdatanull, w)
  haven_found w rename creat write (some pdata, none) =
      write_text (put_aside w pdata.filename rename) creat write

  -- The cache file is renamed into the directory `forensic-haven`, and a text about it is written
  -- beside it. A rename that fails is mentioned in the text only.
  unfoldable pub filecache_forensic_haven :
      World ldb → Text → OsResult (Unit {0}) → OsResult ℕ → OsResult ℕ → Option GError × World ldb
  unfolding haven_found filecache_pdata_get
  filecache_forensic_haven w path rename creat write =
      haven_found w rename creat write (filecache_pdata_get ldb w.cache path)
