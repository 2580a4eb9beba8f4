-- ===== src/FileCache/Entry.antt =====
-- The entries of src/filecache.c in the database, under `fc:` and the path.
use fusedav.Prelude.{
  ℕ, ◌+◌, Bool, true, false, ◌&&◌, Option, none, some, List, [], ◌∷◌, ◌++◌, ltb, leb, ◌==◌,
  if◌then◌else◌, length, drop, take,
}
use fusedav.Text.{Text, codes, starts_with}
use fusedav.Text.Decimal.{is_space}
use fusedav.LevelDb.{LevelDb}
use fusedav.Structs.{
  Blob, stat_blob, time_blob, pdata_blob, FilecachePdata, GError, g_error, leveldb, system,
}
use fusedav.StatCache.{StatCache}
use fusedav.FileCache.{FilecacheSdata, OsResult, ok, fails, e_fc_ldberr}

abbrev pub filecache_prefix : Text
filecache_prefix = codes "fc:"

abbrev pub path2key : Text → Text
path2key path = filecache_prefix ++ path

-- `strstr (key, "fc:") == key`
unfoldable pub key2path : Text → Option Text
key2path key = if starts_with filecache_prefix key then some (drop 3 key) else none

-- `new_cache_file`: mkstemp leaves the path that it made up in the caller's buffer; the
-- descriptor is negative if it fails.
pub record NewFile : Type 0 where
  pub cache_file_path : Text
  pub mkstemp : OsResult ℕ

unfoldable pub new_cache_file : NewFile → Option ℕ × Option GError
new_cache_file file = elim file.mkstemp [
  | ok fd ↦ (some fd, none)
  | fails errno ↦ (none, g_error system errno)
]

module _ (ldb : LevelDb Blob) where
  -- The database afterwards, and the error.
  unfoldable pub end_set : StatCache ldb → ldb.Db × Bool → Option GError × StatCache ldb
  end_set cache (db, failed) =
      (if failed then g_error leveldb e_fc_ldberr else none, record cache { db = db })

  -- No caller passes a null entry.
  unfoldable pub filecache_pdata_set :
      StatCache ldb → Text → FilecachePdata → Option GError × StatCache ldb
  unfolding end_set
  filecache_pdata_set cache path pdata =
      end_set cache (ldb.put cache.db (path2key path) (pdata_blob pdata))

  unfoldable pub check_pdata : Option (Option Blob) → Option FilecachePdata × Option GError
  check_pdata none = (none, g_error leveldb e_fc_ldberr)
  check_pdata (some none) = (none, none)
  check_pdata (some (some (pdata_blob pdata))) = (some pdata, none)
  -- the length is not that of a `struct filecache_pdata`
  check_pdata (some (some (stat_blob value))) = (none, g_error leveldb e_fc_ldberr)
  check_pdata (some (some (time_blob t))) = (none, g_error leveldb e_fc_ldberr)

  -- The entry and the error; both are null for a path that has no entry.
  unfoldable pub filecache_pdata_get : StatCache ldb → Text → Option FilecachePdata × Option GError
  unfolding check_pdata
  filecache_pdata_get cache path = check_pdata (ldb.get cache.db (path2key path))

  -- The local copy trumps the one of the server: its time of the last update is 0.
  fresh_pdata : Text → FilecachePdata
  fresh_pdata filename = record { filename = filename; etag = []; last_server_update = 0 }

  store_new :
      StatCache ldb
      → Text
      → FilecacheSdata
      → Text
      → Option ℕ × Option GError
      → FilecacheSdata × Option GError × StatCache ldb
  unfolding fresh_pdata filecache_pdata_set
  store_new cache path sdata filename (fd, some e) =
      (record sdata { fd = fd; modified = true; writable = true }, some e, cache)
  store_new cache path sdata filename (fd, none) =
      let (error, after) = filecache_pdata_set cache path (fresh_pdata filename) in
      (record sdata { fd = fd; modified = true; writable = true }, error, after)

  unfoldable pub create_file :
      StatCache ldb
      → Text
      → FilecacheSdata
      → NewFile
      → FilecacheSdata × Option GError × StatCache ldb
  unfolding store_new new_cache_file
  create_file cache path sdata file =
      store_new cache path sdata file.cache_file_path (new_cache_file file)

-- What follows the first colon.
unfoldable pub header_value : Text → Option Text
header_value [] = none
header_value (c ∷ s) = if c == b':' then some s else header_value s

unfoldable pub skip_space : Text → Text
skip_space [] = []
skip_space (c ∷ s) = if is_space c then skip_space s else c ∷ s

-- `strncasecmp` against a name in lower case
unfoldable pub is_prefix_nocase : Text → Text → Bool
is_prefix_nocase [] s = true
is_prefix_nocase (c ∷ p) [] = false
is_prefix_nocase (c ∷ p) (d ∷ s) =
    (c == (if leb b'A' d && leb d b'Z' then d + 32 else d)) && is_prefix_nocase p s

-- The value is copied over the text in the buffer, and its last byte is replaced by the end of the
-- text. For an empty value that is the byte before the buffer.
unfoldable pub copy_value : Text → Text → Text × Bool
copy_value etag [] = (etag, false)
copy_value etag (c ∷ value) =
    if ltb 256 (length (c ∷ value)) then (etag, true) else (take (length value) (c ∷ value), true)

unfoldable pub store_value : Text → Text → Option Text → Text × Bool
unfolding copy_value is_prefix_nocase skip_space
store_value header etag none = (etag, true)
store_value header etag (some value) =
    if is_prefix_nocase (codes "etag") header
    then copy_value etag (skip_space value)
    else (etag, true)

-- The text in the buffer after one line of the header, and whether the write was in bounds.
unfoldable pub capture_etag : Text → Text → Text × Bool
unfolding store_value header_value
capture_etag header etag = store_value header etag (header_value header)

-- The lines of one response, from an empty buffer.
unfoldable pub capture_etags : List Text → Text → Text
unfolding capture_etag
capture_etags [] etag = etag
capture_etags (header ∷ headers) etag = capture_etags headers (capture_etag header etag).0
