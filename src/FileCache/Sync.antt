-- ===== src/FileCache/Sync.antt =====
-- A sync behind writes that failed, and behind a truncation.
use fusedav.Prelude.{
  ℕ, ◌≡◌, ◌≢◌, refl, ◌∙◌, Bool, true, false, Option, none, some, List, [], ◌∷◌, arith, ◌==◌,
  if◌then◌else◌,
}
use fusedav.Text.{Text}
use fusedav.LevelDb.{LevelDb}
use fusedav.Structs.{Blob, FilecachePdata, GError, g_error, filecache, system, ebadf}
use fusedav.FileCache.{World, FilecacheSdata, OsResult, ok, fails}
use fusedav.FileCache.Entry.{filecache_pdata_get}
use fusedav.FileCache.Io.{
  LockedCalls, filecache_write, end_write, locked_write, filecache_truncate, locked_truncate,
  end_truncate, set_error,
}
use fusedav.FileCache.Put.{SyncCalls, filecache_sync, sync_open, sync_entry}

-- Writes one after the other on one handle.
unfoldable pub write_all : Option FilecacheSdata → List (LockedCalls ℕ) → Option FilecacheSdata
unfolding filecache_write
write_all sdata [] = sdata
write_all sdata (calls ∷ more) = write_all (filecache_write sdata calls).2 more

module _ (sdata : FilecacheSdata) where
  -- The error code and the permission to write of a handle that has an error.
  abbrev pub Stuck : Option FilecacheSdata → Type 0
  Stuck none = ⊥
  Stuck (some after) = after.error_code ≡ sdata.error_code

  end_write-Stuck :
      (s : FilecacheSdata) (write : OsResult ℕ) (unlock : OsResult (Unit {0}))
      → s.error_code ≢ 0
      → (end_write s write unlock).2.error_code ≡ s.error_code
  unfolding end_write set_error
  end_write-Stuck s (ok bytes) unlock e = refl
  end_write-Stuck s (fails errno) unlock e = ground arith

  locked_write-Stuck :
      (s : FilecacheSdata) (calls : LockedCalls ℕ)
      → s.error_code ≢ 0
      → (locked_write s calls).2.error_code ≡ s.error_code
  unfolding locked_write
  locked_write-Stuck s calls e = go calls.lock
    where
      go :
          (lock : OsResult (Unit {0}))
          → (locked_write s (record calls { lock = lock })).2.error_code ≡ s.error_code
      go (ok u) = end_write-Stuck s calls.call calls.unlock e
      go (fails errno) = refl

  write-Stuck :
      (s : FilecacheSdata) (calls : LockedCalls ℕ)
      → sdata.error_code ≢ 0
      → s.error_code ≡ sdata.error_code
      → Stuck (filecache_write (some s) calls).2
  unfolding filecache_write
  write-Stuck s calls e same = go s.writable
    where
      go :
          (b : Bool)
          → (let r : Option ℕ × Option GError × Option FilecacheSdata =
                if b
                then (let (bytes, error, after) = locked_write s calls in
                    (bytes, error, some after))
                else (none, g_error system ebadf, some s) in
              Stuck r.2)
      go true = locked_write-Stuck s calls (rw same e) ∙ same
      go false = same

  write_all-Stuck :
      (s : Option FilecacheSdata) (writes : List (LockedCalls ℕ))
      → sdata.error_code ≢ 0
      → Stuck s
      → Stuck (write_all s writes)
  unfolding write_all
  write_all-Stuck s [] e same = same
  write_all-Stuck none (calls ∷ writes) e same = absurd same
  write_all-Stuck (some s) (calls ∷ writes) e same =
      write_all-Stuck (filecache_write (some s) calls).2 writes e (write-Stuck s calls e same)

  -- An error in a handle stays there through all later writes, and a sync that is to PUT then
  -- reports it and does nothing else.
  pub write_all-sync :
      (ldb : LevelDb Blob) (nodes : ℕ) (w : World ldb) (path : Text)
      → sdata.error_code ≢ 0
      → (writes : List (LockedCalls ℕ)) (calls : SyncCalls)
      → filecache_sync ldb nodes w (some path) (write_all (some sdata) writes) true calls
        ≡ (false, g_error filecache sdata.error_code, write_all (some sdata) writes, w)
  unfolding filecache_sync sync_open
  write_all-sync ldb nodes w path e writes calls =
      go (write_all (some sdata) writes) (write_all-Stuck (some sdata) writes e refl)
    where
      go :
          (s : Option FilecacheSdata)
          → Stuck s
          → filecache_sync ldb nodes w (some path) s true calls
            ≡ (false, g_error filecache sdata.error_code, s, w)
      go none same = absurd same
      go (some s) same =
          let tested : (s.error_code == 0) ≡ false = rw same (ground arith) in
          rw (tested, same) refl

truncate-unmodified :
    (sdata : FilecacheSdata) (calls : LockedCalls (Unit {0}))
    → (filecache_truncate (some sdata) true calls).1 ≡ some sdata
unfolding filecache_truncate locked_truncate end_truncate
truncate-unmodified sdata calls = go calls.lock calls.unlock
  where
    go :
        (lock unlock : OsResult (Unit {0}))
        → (filecache_truncate (some sdata) true (record calls { lock = lock; unlock = unlock })).1
          ≡ some sdata
    go (fails errno) unlock = refl
    go (ok u) (fails errno) = refl
    go (ok u) (ok v) = refl

module _ (ldb : LevelDb Blob) (nodes : ℕ) (w : World ldb) (path : Text)
    (sdata : FilecacheSdata) where
  entry_unmodified :
      (do_put : Bool) (sync : SyncCalls) (got : Option FilecachePdata × Option GError)
      → sdata.modified ≡ false
      → (sync_entry ldb nodes w path sdata do_put sync got).wrote_data ≡ false
  unfolding sync_entry
  entry_unmodified do_put sync (pdata, some e) h = refl
  entry_unmodified do_put sync (none, none) h = refl
  entry_unmodified do_put sync (some pdata, none) h = ground arith

  sync_unmodified :
      sdata.modified ≡ false
      → (do_put : Bool) (sync : SyncCalls)
      → (filecache_sync ldb nodes w (some path) (some sdata) do_put sync).0 ≡ false
  unfolding filecache_sync sync_open
  sync_unmodified h do_put sync =
      ground (arith, entry_unmodified do_put sync (filecache_pdata_get ldb w.cache path) h)

-- A truncation for which the caller passes a place for an error never marks the handle as modified,
-- so that a sync behind it writes nothing, with or without a PUT.
pub filecache_truncate-sync :
    (ldb : LevelDb Blob) (nodes : ℕ) (w : World ldb) (path : Text) (sdata : FilecacheSdata)
    → sdata.modified ≡ false
    → (calls : LockedCalls (Unit {0})) (do_put : Bool) (sync : SyncCalls)
    → (filecache_sync ldb nodes w
        (some path)
        (filecache_truncate (some sdata) true calls).1
        do_put
        sync).0
      ≡ false
filecache_truncate-sync ldb nodes w path sdata e calls do_put sync =
    rw (truncate-unmodified sdata calls) (sync_unmodified ldb nodes w path sdata e do_put sync)
