-- ===== src/FileCache.antt =====
-- src/filecache.c: local copies of remote files. What a call to the operating system or to the
-- network returns is an argument; what it does to the file system is a list of events.
pub mod Entry
pub mod Io
pub mod Fetch
pub mod Open
pub mod Put
pub mod Remove
pub mod Cleanup
pub mod Sync
pub mod Stored
pub mod Reopen
pub mod Servers
pub mod Keep
pub mod Etag
pub mod Accepted
pub mod Move
mod Tests
use fusedav.Prelude.{ℕ, Bool, true, false, Option, none, some, List, [], ◌∷◌}
use fusedav.Text.{Text}
use fusedav.LevelDb.{LevelDb}
use fusedav.Structs.{Blob, GError, Domain}
use fusedav.StatCache.{StatCache}

-- E_FC_PDATANULL and the other codes of src/filecache.h
abbrev pub e_fc_pdatanull : ℕ
e_fc_pdatanull = 2

abbrev pub e_fc_sdatanull : ℕ
e_fc_sdatanull = 5

abbrev pub e_fc_ldberr : ℕ
e_fc_ldberr = 5

abbrev pub e_fc_curlerr : ℕ
e_fc_curlerr = 100

abbrev pub e_fc_filetoolarge : ℕ
e_fc_filetoolarge = 27

-- `struct filecache_sdata`, the state of one open file. The descriptor is `none` where it is
-- negative.
pub record FilecacheSdata : Type 0 where
  pub fd : Option ℕ
  pub readable : Bool
  pub writable : Bool
  pub modified : Bool
  pub error_code : ℕ

-- `calloc (1, sizeof (struct filecache_sdata))`
abbrev pub empty_sdata : FilecacheSdata
empty_sdata = record {
  fd = some 0;
  readable = false;
  writable = false;
  modified = false;
  error_code = 0;
}

-- What an operating system call returns, or its `errno`.
pub data OsResult (A : Type 0) : Type 0 where
  ok : A → OsResult A
  fails : ℕ → OsResult A

-- The flags of `open` that fusedav looks at. O_RDONLY is 0: no test can see it.
pub record OpenFlags : Type 0 where
  pub o_creat : Bool
  pub o_trunc : Bool
  pub o_wronly : Bool
  pub o_rdwr : Bool

-- What the calls do besides setting `sdata`: the database, whether saint mode was set, and the
-- descriptors closed, the files unlinked and those renamed into the forensic haven, the last first.
pub record World (ldb : LevelDb Blob) : Type 0 where
  pub cache : StatCache ldb
  pub saint : Bool
  pub closed : List ℕ
  pub unlinked : List Text
  pub put_aside : List Text

-- A second `g_set_error` on the same place keeps the first error.
unfoldable pub first_error : Option GError → Option GError → Option GError
first_error none new = new
first_error (some old) new = some old
