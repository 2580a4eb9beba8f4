-- ===== src/FileCache/Open.antt =====
-- `filecache_open` of src/filecache.c.
use fusedav.Prelude.{ℕ, zero, suc, Bool, true, false, ◌&&◌, ◌||◌, Option, none, some, if◌then◌else◌}
use fusedav.Text.{Text}
use fusedav.LevelDb.{LevelDb}
use fusedav.Structs.{
  Blob, FilecachePdata, GError, g_error, Domain, curl, leveldb, filecache, system, fusedav_domain,
  props_domain,
}
use fusedav.FileCache.{World, FilecacheSdata, empty_sdata, OpenFlags, OsResult, ok, fails}
use fusedav.FileCache.Entry.{NewFile, create_file, filecache_pdata_get}
use fusedav.FileCache.Fetch.{FetchCalls, FreshFd, get_fresh_fd}

unfoldable pub is_curl : Domain → Bool
is_curl curl = true
is_curl leveldb = false
is_curl filecache = false
is_curl system = false
is_curl fusedav_domain = false
is_curl props_domain = false

-- What the calls of one round return.
pub record RoundCalls : Type 0 where
  pub file : NewFile
  pub fetch : FetchCalls

pub record OpenCalls : Type 0 where
  -- `use_saint_mode ()`, and the allocation of `sdata`
  pub saint_mode : Bool
  pub calloc : OsResult (Unit {0})
  pub rounds : ℕ → RoundCalls

module _ (ldb : LevelDb Blob) where
  -- The handle that the file gets (`none` for a null pointer), and the error.
  pub record Opened : Type 0 where
    pub handle : Option FilecacheSdata
    pub error : Option GError
    pub world : World ldb

  pub record Round : Type 0 where
    pub sdata : FilecacheSdata
    pub pdata : Option FilecachePdata
    pub use_local_copy : Bool
    pub world : World ldb

module _ (ldb : LevelDb Blob) (nodes : ℕ) where
  abbrev pub fail : GError → World ldb → Opened ldb
  fail e w = record { handle = none; error = some e; world = w }

  -- Behind the loop. O_RDONLY is 0, so it makes nothing readable.
  unfoldable pub open_end : OpenFlags → FilecacheSdata → World ldb → Opened ldb
  open_end flags sdata w = elim sdata.fd [
    | none ↦ record { handle = none; error = none; world = w }
    | some fd ↦ record {
      handle = some record sdata {
        readable = sdata.readable || flags.o_rdwr;
        writable = sdata.writable || flags.o_wronly || flags.o_rdwr;
      };
      error = none;
      world = w;
    }
  ]

  unfoldable pub cached_pdata : Round ldb → Text → Option FilecachePdata
  unfolding filecache_pdata_get
  cached_pdata s path = elim s.pdata [
    | some pdata ↦ some pdata
    | none ↦ (filecache_pdata_get ldb s.world.cache path).0
  ]

  unfoldable pub needs_create : OpenFlags → Option FilecachePdata → Bool
  needs_create flags none = flags.o_creat || flags.o_trunc
  needs_create flags (some pdata) = flags.o_creat

  create_round : OpenFlags → Text → FilecacheSdata → World ldb → NewFile → Opened ldb
  unfolding create_file open_end
  create_round flags path sdata w file =
      let (after, error, cache) = create_file ldb w.cache path sdata file in
      elim error [
        | some e ↦ fail e (record w { cache = cache })
        | none ↦ open_end flags after (record w { cache = cache })
      ]

  -- A failure of the network is tried again with the local copy, given grace. Behind the last
  -- round the file is open with what `sdata` then holds.
  unfoldable pub open_loop :
      (ℕ → RoundCalls) → ℕ → ℕ → Text → OpenFlags → Bool → Round ldb → Opened ldb
  unfolding open_end create_round cached_pdata is_curl
  open_loop rounds zero idx path flags grace s = open_end flags s.sdata s.world
  open_loop rounds (suc retries) idx path flags grace s =
      let pdata = cached_pdata s path in
      if needs_create flags pdata
      then create_round flags path s.sdata s.world (rounds idx).file
      else (let got : FreshFd ldb =
            get_fresh_fd ldb nodes s.world path s.sdata pdata flags s.use_local_copy
              (rounds idx).fetch in
          elim got.error [
            | none ↦ open_end flags got.sdata got.world
            | some e ↦
                if is_curl e.domain && grace
                then open_loop rounds retries (suc idx) path flags grace (record {
                  sdata = got.sdata;
                  pdata = got.pdata;
                  use_local_copy = true;
                  world = got.world;
                })
                else fail e got.world
          ])

  abbrev pub max_retries : ℕ
  max_retries = 2

  unfoldable pub filecache_open : World ldb → Text → OpenFlags → Bool → OpenCalls → Opened ldb
  unfolding open_loop
  filecache_open w path flags grace calls = elim calls.calloc [
    | fails errno ↦ record { handle = none; error = g_error system errno; world = w }
    | ok u ↦
        open_loop calls.rounds max_retries 0 path flags grace (record {
          sdata = empty_sdata;
          pdata = none;
          use_local_copy = calls.saint_mode;
          world = w;
        })
  ]
