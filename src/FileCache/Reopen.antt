-- ===== src/FileCache/Reopen.antt =====
-- Opening a file whose local copy is newer than the server's.
use fusedav.Prelude.{ℕ, ◌≡◌, refl, sym, ◌∙◌, Bool, true, false, ◌||◌, Option, none, some, arith}
use fusedav.Text.{Text}
use fusedav.LevelDb.{LevelDb, IsLevelDb, lookup}
use fusedav.Structs.{Blob, pdata_blob, FilecachePdata}
use fusedav.FileCache.{World, FilecacheSdata, empty_sdata, OpenFlags, ok}
use fusedav.FileCache.Entry.{path2key, filecache_pdata_get, check_pdata}
use fusedav.FileCache.Fetch.{FetchCalls, is_local, get_fresh_fd, open_local}
use fusedav.FileCache.Open.{
  OpenCalls, Round, filecache_open, open_loop, open_end, cached_pdata, needs_create,
}
use fusedav.FileCache.Put.{SyncCalls, filecache_sync}
use fusedav.FileCache.Stored.{Stored, filecache_sync-Stored}

module _ (ldb : LevelDb Blob) (nodes : ℕ) (w : World ldb) (path : Text) (flags : OpenFlags)
    (calls : OpenCalls) where
  local_fd :
      (sdata : FilecacheSdata) (pdata : FilecachePdata) (use_local : Bool) (fetch : FetchCalls)
      (fd : ℕ)
      → pdata.last_server_update ≡ 0
      → flags.o_trunc ≡ false
      → fetch.open_local ≡ ok fd
      → get_fresh_fd ldb nodes w path sdata (some pdata) flags use_local fetch ≡ record {
        sdata = record sdata { fd = some fd };
        pdata = some pdata;
        error = none;
        world = w;
      }
  unfolding get_fresh_fd is_local open_local
  local_fd sdata pdata use_local fetch fd in_use trunc opened =
      let local : is_local (some pdata) flags use_local fetch.now ≡ true = ground arith in
      rw (local, opened, get_fresh_fd, trunc, open_local) refl

  -- A local copy that is newer than the server's is opened without a request.
  open-in_use :
      (pdata : FilecachePdata) (fd : ℕ) (grace : Bool)
      → filecache_pdata_get ldb w.cache path ≡ (some pdata, none)
      → pdata.last_server_update ≡ 0
      → flags.o_creat ≡ false
      → flags.o_trunc ≡ false
      → calls.calloc ≡ ok tt
      → (calls.rounds 0).fetch.open_local ≡ ok fd
      → filecache_open ldb nodes w path flags grace calls ≡ record {
        handle = some record empty_sdata {
          fd = some fd;
          readable = flags.o_rdwr;
          writable = flags.o_wronly || flags.o_rdwr;
        };
        error = none;
        world = w;
      }
  unfolding filecache_open open_loop open_end
  open-in_use pdata fd grace got in_use creat trunc calloc opened =
      let start : Round ldb = record {
        sdata = empty_sdata;
        pdata = none;
        use_local_copy = calls.saint_mode;
        world = w;
      } in
      let cached : cached_pdata ldb nodes start path ≡ some pdata =
        unfold cached_pdata in rw (got, cached_pdata) refl in
      let needs : needs_create ldb nodes flags (some pdata) ≡ false =
        unfold needs_create in creat in
      rw
        (
          calloc,
          filecache_open,
          cached,
          needs,
          local_fd empty_sdata pdata calls.saint_mode (calls.rounds 0).fetch fd in_use trunc opened,
        )
        (rw
          (
            cached,
            local_fd empty_sdata pdata calls.saint_mode (calls.rounds 0).fetch fd in_use trunc
                opened,
          )
          refl)

-- The entry that a lookup sees is the one that a read that succeeds returns.
get-entry :
    (ldb : LevelDb Blob) (laws : IsLevelDb ldb) (w : World ldb) (path : Text)
    (pdata : FilecachePdata) (r : Option Blob)
    → lookup (path2key path) (ldb.entries w.cache.db) ≡ some (pdata_blob pdata)
    → ldb.get w.cache.db (path2key path) ≡ some r
    → filecache_pdata_get ldb w.cache path ≡ (some pdata, none)
unfolding filecache_pdata_get check_pdata
get-entry ldb laws w path pdata r entry reads =
    let found : r ≡ some (pdata_blob pdata) =
      sym (laws.get_reads w.cache.db (path2key path) r reads) ∙ entry in
    rw (reads, found, check_pdata) refl

-- After a sync without a PUT that wrote data, opening the file again for neither creation nor
-- truncation opens a local copy without asking any server, in and out of saint mode, if the entry
-- can be read.
pub filecache_sync-open :
    (ldb : LevelDb Blob) (laws : IsLevelDb ldb) (nodes : ℕ) (w w' : World ldb) (path : Text)
    (sdata after : FilecacheSdata) (sync : SyncCalls) (flags : OpenFlags) (grace : Bool)
    (calls : OpenCalls) (fd : ℕ) (r : Option Blob)
    → filecache_sync ldb nodes w (some path) (some sdata) false sync ≡ (true, none, some after, w')
    → ldb.get w'.cache.db (path2key path) ≡ some r
    → flags.o_creat ≡ false
    → flags.o_trunc ≡ false
    → calls.calloc ≡ ok tt
    → (calls.rounds 0).fetch.open_local ≡ ok fd
    → filecache_open ldb nodes w' path flags grace calls ≡ record {
      handle = some record empty_sdata {
        fd = some fd;
        readable = flags.o_rdwr;
        writable = flags.o_wronly || flags.o_rdwr;
      };
      error = none;
      world = w';
    }
filecache_sync-open ldb laws nodes w w' path sdata after sync flags grace calls fd r synced reads
      creat trunc calloc opened =
    let stored : Stored ldb laws nodes w path sdata false sync after w' =
      filecache_sync-Stored ldb laws nodes w path sdata false sync after w' synced in
    open-in_use ldb nodes w' path flags calls stored.pdata fd grace
      (get-entry ldb laws w' path stored.pdata r stored.entry reads) (stored.kept refl).1 creat
      trunc calloc opened
