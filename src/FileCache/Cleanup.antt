-- ===== src/FileCache/Cleanup.antt =====
-- `filecache_cleanup` and `cleanup_orphans` of src/filecache.c.
use fusedav.Prelude.{
  ℕ, ◌+◌, ◌-◌, ◌/◌, ◌%◌, Bool, true, false, ◌&&◌, ◌||◌, not, Option, none, some, List, [], ◌∷◌, ltb,
  ◌==◌, if◌then◌else◌,
}
use fusedav.Text.{Text, codes, str_eq}
use fusedav.LevelDb.{LevelDb, Entries, seek}
use fusedav.Structs.{
  Blob, stat_blob, time_blob, pdata_blob, FilecachePdata, GError, g_error, system,
}
use fusedav.FileCache.{World, OsResult, ok, fails}
use fusedav.FileCache.Entry.{filecache_prefix, key2path}
use fusedav.FileCache.Remove.{filecache_delete}

abbrev pub age_out_threshold : ℕ
age_out_threshold = 691200

-- A file of the directory: its name, `stat` on it (mode and time), and whether it can be unlinked.
pub record DirEntry : Type 0 where
  pub d_name : Text
  pub stat : OsResult (ℕ × ℕ)
  pub unlinks : Bool

-- The four bits of S_IFMT
abbrev file_type : ℕ → ℕ
file_type mode = mode / 4096 % 16

unfoldable pub is_aged_out : Bool → ℕ → FilecachePdata → Bool
is_aged_out first starttime pdata =
    (first && (pdata.last_server_update == 0))
    || (not (pdata.last_server_update == 0)
        && ltb age_out_threshold (starttime - pdata.last_server_update))

-- The number of issues with a regular file, and whether `unlink` is called.
old_file : DirEntry → Bool → ℕ × Bool
old_file e old = if old then (if e.unlinks then 0 else 1, true) else (0, false)

orphan_found : ℕ → DirEntry → ℕ → ℕ → ℕ × Bool
unfolding old_file
orphan_found stamped_time e mode mtime =
    if file_type mode == 4
    then (if str_eq e.d_name (codes ".") || str_eq e.d_name (codes "..") then 0 else 1, false)
    else if file_type mode == 8
    then old_file e (ltb mtime stamped_time)
    else (1, false)

unfoldable pub check_orphan : ℕ → DirEntry → ℕ × Bool
unfolding orphan_found
check_orphan stamped_time e = elim e.stat [
  | fails errno ↦ (1, false)
  | ok (mode, mtime) ↦ orphan_found stamped_time e mode mtime
]

-- The number of issues (the code returns its negation), and the names that were unlinked, or for
-- which that was tried.
unfoldable pub orphans_loop : ℕ → List DirEntry → ℕ × List Text
unfolding check_orphan
orphans_loop stamped_time [] = (0, [])
orphans_loop stamped_time (e ∷ es) =
    let (issue, unlinks) = check_orphan stamped_time e in
    let (issues, names) = orphans_loop stamped_time es in
    (issue + issues, if unlinks then e.d_name ∷ names else names)

unfoldable pub cleanup_orphans : ℕ → OsResult (List DirEntry) → (ℕ × List Text) × Option GError
unfolding orphans_loop
cleanup_orphans stamped_time (fails errno) = ((1, []), g_error system errno)
cleanup_orphans stamped_time (ok es) = (orphans_loop stamped_time es, none)

abbrev pub as_pdata : Blob → Option FilecachePdata
as_pdata (pdata_blob pdata) = some pdata
as_pdata (stat_blob value) = none
as_pdata (time_blob t) = none

module _ (ldb : LevelDb Blob) where
  -- The first argument is `access`: which files are there, behind the calls of `unlink` on the names
  -- of the list, the last one first. The database holds `fc:` entries only as
  -- `struct filecache_pdata`, so that the value is read as one without a look at its length.
  unfoldable pub clean_entry :
      (List Text → Text → Bool)
      → Bool
      → ℕ
      → Text
      → FilecachePdata
      → World ldb
      → Option GError × World ldb
  unfolding filecache_delete is_aged_out
  clean_entry exists first starttime path pdata w =
      if not (exists w.unlinked pdata.filename)
      then filecache_delete ldb w path true
      else if is_aged_out first starttime pdata
      then filecache_delete ldb w path true
      else (none, w)

  unfoldable pub visit_entry :
      (List Text → Text → Bool)
      → Bool
      → ℕ
      → Text
      → Option FilecachePdata
      → World ldb
      → Option GError × World ldb
  unfolding clean_entry
  visit_entry exists first starttime path none w = (none, w)
  visit_entry exists first starttime path (some pdata) w =
      clean_entry exists first starttime path pdata w

  -- The loop ends at the first key of another kind, and at the first error.
  unfoldable pub cleanup_loop :
      (List Text → Text → Bool) → Bool → ℕ → Entries Blob → World ldb → Option GError × World ldb
  unfolding visit_entry key2path
  cleanup_loop exists first starttime [] w = (none, w)
  cleanup_loop exists first starttime ((key, value) ∷ es) w = elim (key2path key) [
    | none ↦ (none, w)
    | some path ↦
        let (error, after) = visit_entry exists first starttime path (as_pdata value) w in
        elim error [
          | some e ↦ (some e, after)
          | none ↦ cleanup_loop exists first starttime es after
        ]
  ]

  unfoldable pub end_cleanup :
      ℕ
      → OsResult (List DirEntry)
      → Option GError × World ldb
      → Option GError × World ldb × List Text
  unfolding cleanup_orphans
  end_cleanup starttime directory (some e, w) = (some e, w, [])
  end_cleanup starttime directory (none, w) =
      let (orphans, error) = cleanup_orphans (starttime - 1) directory in (error, w, orphans.1)

  -- The last component is the orphans that `unlink` was called on. The directory is read behind
  -- the loop, which has touched the files of all entries that stay.
  unfoldable pub filecache_cleanup :
      (List Text → Text → Bool)
      → Bool
      → ℕ
      → OsResult (List DirEntry)
      → World ldb
      → Option GError × World ldb × List Text
  unfolding cleanup_loop end_cleanup
  filecache_cleanup exists first starttime directory w =
      end_cleanup starttime directory
        (cleanup_loop exists first starttime (seek filecache_prefix (ldb.entries w.cache.db)) w)
