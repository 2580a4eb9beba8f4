-- ===== src/FileCache/Stored.antt =====
-- What a sync that wrote data leaves in the database and in the handle.
use fusedav.Prelude.{
  ℕ, ◌≡◌, ap, inl, inr, refl, ◌∙◌, Bool, true, false, Option, none, some, [], arith, ◌==◌,
  Bool-cases, ◌||◌, ◌&&◌, not, subst, if◌then◌else◌,
}
use fusedav.Text.{Text}
use fusedav.LevelDb.{LevelDb, IsLevelDb, lookup}
use fusedav.Structs.{Blob, pdata_blob, FilecachePdata, GError, g_error, filecache}
use fusedav.FileCache.{World, FilecacheSdata, OsResult, ok, fails}
use fusedav.FileCache.Entry.{path2key, filecache_pdata_set, filecache_pdata_get, end_set}
use fusedav.FileCache.Put.{
  SyncCalls, Synced, PutResult, filecache_sync, sync_open, sync_entry, store, upload, finish_put,
  put_return_etag,
}

module _ (ldb : LevelDb Blob) (laws : IsLevelDb ldb) (nodes : ℕ) (w : World ldb) (path : Text)
    (sdata : FilecacheSdata) where
  -- The entry of the path before and after a sync.
  pub record Stored (do_put : Bool) (calls : SyncCalls) (after : FilecacheSdata) (w' : World ldb)
      : Type 0 where
    pub before : FilecachePdata
    pub found : filecache_pdata_get ldb w.cache path ≡ (some before, none)
    pub pdata : FilecachePdata
    pub entry : lookup (path2key path) (ldb.entries w'.cache.db) ≡ some (pdata_blob pdata)
    pub filename : pdata.filename ≡ before.filename
    pub uploaded :
        do_put ≡ true
        → (after.modified ≡ false)
          × (pdata.last_server_update ≡ calls.now)
          × (pdata.etag ≡ (put_return_etag nodes before.etag calls.put).etag)
          × ((put_return_etag nodes before.etag calls.put).error ≡ none)
    pub kept : do_put ≡ false → (after.modified ≡ true) × (pdata.last_server_update ≡ 0)

  store-entry :
      (w1 : World ldb) (s : FilecacheSdata) (pdata : FilecachePdata)
      → (store ldb nodes w1 path s pdata).error ≡ none
      → ((store ldb nodes w1 path s pdata).sdata ≡ s)
        × (lookup (path2key path) (ldb.entries (store ldb nodes w1 path s pdata).world.cache.db)
            ≡ some (pdata_blob pdata))
  unfolding store filecache_pdata_set end_set
  store-entry w1 s pdata h =
      elim (Bool-cases (ldb.put w1.cache.db (path2key path) (pdata_blob pdata)).1) [
        | inr e ↦
            rw (e, store) (refl, laws.put_self w1.cache.db (path2key path) (pdata_blob pdata) e)
        | inl e ↦ ground arith
      ]

  -- The end of an upload that succeeds.
  record Uploaded (before : FilecachePdata) (now : ℕ) (put : PutResult) (s : Synced ldb)
      : Type 0 where
    accepted : put.error ≡ none
    unmodified : s.sdata.modified ≡ false
    entry :
        lookup (path2key path) (ldb.entries s.world.cache.db)
        ≡ some (pdata_blob (record before { etag = put.etag; last_server_update = now }))

  finish_put-Uploaded :
      (before : FilecachePdata) (now : ℕ) (put : PutResult)
      → (finish_put ldb nodes w path sdata before now put).error ≡ none
      → Uploaded before now put (finish_put ldb nodes w path sdata before now put)
  unfolding finish_put
  finish_put-Uploaded before now put h = go put.error h
    where
      go :
          (x : Option GError)
          → (finish_put ldb nodes w path sdata before now (record put { error = x })).error ≡ none
          → Uploaded before now
              (record put { error = x })
              (finish_put ldb nodes w path sdata before now (record put { error = x }))
      go none h =
          let (same, entry) =
            store-entry (record w { saint = w.saint || put.saint })
              (record sdata { modified = false })
              (record before { etag = put.etag; last_server_update = now }) h in
          record {
            accepted = refl;
            unmodified = ap (λ (s : FilecacheSdata). s.modified) same;
            entry = entry;
          }
      go (some e) h = absurd (ground arith)

  upload-Uploaded :
      (before : FilecachePdata) (calls : SyncCalls)
      → (upload ldb nodes w path sdata before calls).error ≡ none
      → Uploaded before calls.now
          (put_return_etag nodes before.etag calls.put)
          (upload ldb nodes w path sdata before calls)
  unfolding upload
  upload-Uploaded before calls h = go calls.lseek h
    where
      go :
          (l : OsResult (Unit {0}))
          → (upload ldb nodes w path sdata before (record calls { lseek = l })).error ≡ none
          → Uploaded before calls.now
              (put_return_etag nodes before.etag calls.put)
              (upload ldb nodes w path sdata before (record calls { lseek = l }))
      go (ok u) h =
          finish_put-Uploaded before calls.now (put_return_etag nodes before.etag calls.put) h
      go (fails errno) h = absurd (ground arith)

  -- The branches of a sync that has found the entry.
  abbrev synced : FilecachePdata → SyncCalls → Bool → Bool → Synced ldb
  synced pdata calls do_put modified =
      if modified
      then if do_put
        then upload ldb nodes w path sdata pdata calls
        else store ldb nodes w path sdata (record pdata { etag = []; last_server_update = 0 })
      else record { wrote_data = false; error = none; sdata = sdata; world = w }

  sync_entry-Stored :
      (do_put : Bool) (calls : SyncCalls) (got : Option FilecachePdata × Option GError)
      → filecache_pdata_get ldb w.cache path ≡ got
      → (sync_entry ldb nodes w path sdata do_put calls got).wrote_data ≡ true
      → (sync_entry ldb nodes w path sdata do_put calls got).error ≡ none
      → Stored do_put calls
          (sync_entry ldb nodes w path sdata do_put calls got).sdata
          (sync_entry ldb nodes w path sdata do_put calls got).world
  unfolding sync_entry
  sync_entry-Stored do_put calls (pdata, some e) g wrote h = absurd (ground arith)
  sync_entry-Stored do_put calls (none, none) g wrote h = absurd (ground arith)
  sync_entry-Stored do_put calls (some pdata, none) g wrote h =
      go do_put sdata.modified refl wrote h
    where
      go :
          (d m : Bool)
          → sdata.modified ≡ m
          → (synced pdata calls d m).wrote_data ≡ true
          → (synced pdata calls d m).error ≡ none
          → Stored d calls (synced pdata calls d m).sdata (synced pdata calls d m).world
      go d false e wrote h = absurd (ground arith)
      go true true e wrote h =
          let up = upload-Uploaded pdata calls h in
          record {
            before = pdata;
            found = g;
            pdata = record pdata {
              etag = (put_return_etag nodes pdata.etag calls.put).etag;
              last_server_update = calls.now;
            };
            entry = up.entry;
            filename = refl;
            uploaded = λ t. (up.unmodified, refl, refl, up.accepted);
            kept = λ f. absurd (ground arith);
          }
      go false true e wrote h =
          let (same, entry) =
            store-entry w sdata (record pdata { etag = []; last_server_update = 0 }) h in
          record {
            before = pdata;
            found = g;
            pdata = record pdata { etag = []; last_server_update = 0 };
            entry = entry;
            filename = refl;
            uploaded = λ f. absurd (ground arith);
            kept = λ t. (ap (λ (s : FilecacheSdata). s.modified) same ∙ e, refl);
          }

  sync_open-Stored :
      (do_put : Bool) (calls : SyncCalls)
      → (sync_open ldb nodes w path sdata do_put calls).wrote_data ≡ true
      → (sync_open ldb nodes w path sdata do_put calls).error ≡ none
      → Stored do_put calls
          (sync_open ldb nodes w path sdata do_put calls).sdata
          (sync_open ldb nodes w path sdata do_put calls).world
  unfolding sync_open
  sync_open-Stored do_put calls wrote h =
      go (not (sdata.error_code == 0) && do_put) sdata.writable wrote h
    where
      pick : Bool → Bool → Synced ldb
      pick refused writable =
          if refused
          then record {
            wrote_data = false;
            error = g_error filecache (sdata.error_code);
            sdata = sdata;
            world = w;
          }
          else if writable
          then sync_entry ldb nodes w path sdata do_put calls (filecache_pdata_get ldb w.cache path)
          else record { wrote_data = false; error = none; sdata = sdata; world = w }

      go :
          (refused writable : Bool)
          → (pick refused writable).wrote_data ≡ true
          → (pick refused writable).error ≡ none
          → Stored do_put calls (pick refused writable).sdata (pick refused writable).world
      go true writable wrote h = absurd (ground arith)
      go false false wrote h = absurd (ground arith)
      go false true wrote h =
          sync_entry-Stored do_put calls (filecache_pdata_get ldb w.cache path) refl wrote h

  -- After a sync that wrote data and reports no error, the entry of the path names the same local
  -- file as before. With a PUT, which was accepted, it carries the etag that came back and the time,
  -- and the handle is no longer modified; without one its time is 0, which marks the local copy as
  -- newer than the server's, and the handle stays modified.
  pub filecache_sync-Stored :
      (do_put : Bool) (calls : SyncCalls) (after : FilecacheSdata) (w' : World ldb)
      → filecache_sync ldb nodes w (some path) (some sdata) do_put calls
        ≡ (true, none, some after, w')
      → Stored do_put calls after w'
  unfolding filecache_sync
  filecache_sync-Stored do_put calls after w' e =
      let s : Synced ldb = sync_open ldb nodes w path sdata do_put calls in
      let open_handle : s.sdata ≡ after = ground (arith, ap (λ r. r.2) e) in
      subst (λ a. Stored do_put calls a w') open_handle
        (subst (λ v. Stored do_put calls s.sdata v) (ap (λ r. r.3) e)
          (sync_open-Stored do_put calls (ap (λ r. r.0) e) (ap (λ r. r.1) e)))
