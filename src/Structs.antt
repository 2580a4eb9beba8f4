-- ===== src/Structs.antt =====
-- The structures that the caches keep in LevelDB (src/statcache.h, src/filecache.c), errno values
-- and GError. Sizes, times and counters are never negative here.
use fusedav.Prelude.{ℕ, ◌/◌, ◌%◌, Bool, Option, some, ◌==◌}
use fusedav.Text.{Text}

-- `struct stat`, as far as the caches fill and read it
pub record Stat : Type 0 where
  pub st_mode : ℕ
  pub st_nlink : ℕ
  pub st_size : ℕ
  pub st_blksize : ℕ
  pub st_blocks : ℕ
  pub st_atime : ℕ
  pub st_mtime : ℕ
  pub st_ctime : ℕ

-- S_ISDIR: the file type is in the four bits above the permissions.
unfoldable pub s_isdir : ℕ → Bool
s_isdir mode = mode / 4096 % 16 == 4

-- S_ISREG
unfoldable pub s_isreg : ℕ → Bool
s_isreg mode = mode / 4096 % 16 == 8

pub record StatCacheValue : Type 0 where
  pub st : Stat
  pub local_generation : ℕ
  pub updated : ℕ
  pub prepopulated : Bool
  pub remote_generation : Text

-- `struct filecache_pdata`
pub record FilecachePdata : Type 0 where
  pub filename : Text
  pub etag : Text
  pub last_server_update : ℕ

-- What the database holds as bytes. The three structures have different sizes, so that a test of
-- the length tells them apart.
pub data Blob : Type 0 where
  stat_blob : StatCacheValue → Blob
  time_blob : ℕ → Blob
  pdata_blob : FilecachePdata → Blob

abbrev pub enoent : ℕ
enoent = 2

abbrev pub eperm : ℕ
eperm = 1

abbrev pub eisdir : ℕ
eisdir = 21

abbrev pub enotdir : ℕ
enotdir = 20

abbrev pub enotempty : ℕ
enotempty = 39

abbrev pub eio : ℕ
eio = 5

abbrev pub ebadf : ℕ
ebadf = 9

abbrev pub einval : ℕ
einval = 22

abbrev pub efbig : ℕ
efbig = 27

abbrev pub enetdown : ℕ
enetdown = 100

-- The quarks that name the source of an error.
pub data Domain : Type 0 where
  leveldb filecache system curl fusedav_domain props_domain : Domain

-- A `GError`, without its message. `none` in its place is a null pointer: no error.
pub record GError : Type 0 where
  pub domain : Domain
  pub code : ℕ

abbrev pub g_error : Domain → ℕ → Option GError
g_error domain code = some (record { domain = domain; code = code })
