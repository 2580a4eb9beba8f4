-- ===== src/FileCache/Keep.antt =====
-- Proofs about `filecache_cleanup` of src/filecache.c and the entries of files in use.
use fusedav.Prelude.{
  ◌≤◌, ◌+◌, ◌≢◌, ℕ, ◌≡◌, ◌⊎◌, inl, inr, refl, sym, ap, ◌∙◌, Bool, true, false, Option, none, some,
  List, [], ◌∷◌, arith, Bool-cases, Option-cases, subst, if◌then◌else◌,
}
use fusedav.Text.{Text, str_lt, str_eq, str_eq_sound, str_eq_refl, starts_with, starts_with_sound}
use fusedav.LevelDb.{LevelDb, Entries, IsLevelDb, IsSorted, AllAbove, lookup, seek}
use fusedav.LevelDb.Sorted.{lookup-AllAbove}
use fusedav.Structs.{Blob, stat_blob, time_blob, pdata_blob, FilecachePdata, GError}
use fusedav.FileCache.{World, OsResult}
use fusedav.FileCache.Entry.{filecache_prefix, path2key, key2path, filecache_pdata_get, check_pdata}
use fusedav.FileCache.Remove.{filecache_delete, delete_found, end_delete}
use fusedav.FileCache.Cleanup.{
  is_aged_out, clean_entry, visit_entry, cleanup_loop, as_pdata, DirEntry, filecache_cleanup,
  end_cleanup,
}

-- The path of a key gives the key back.
path2key-key2path : (key path : Text) → key2path key ≡ some path → key ≡ path2key path
unfolding key2path
path2key-key2path key path h = elim (Bool-cases (starts_with filecache_prefix key)) [
  | inl has ↦ let (rest, e) = starts_with_sound filecache_prefix key has in ground (arith, e)
  | inr lacks ↦ absurd (ground arith)
]

-- What `unlink` leaves of the other files.
pub record IsAccess (exists : List Text → Text → Bool) : Type 0 where
  pub unlink_other :
      (unlinked : List Text) (name other : Text)
      → str_eq name other ≡ false
      → exists (name ∷ unlinked) other ≡ exists unlinked other

-- An entry that is not older than eight days, and in the first cleanup not newer than the server's
-- copy, is not aged out.
young_lem :
    (first : Bool) (starttime : ℕ) (pdata : FilecachePdata)
    → (pdata.last_server_update ≡ 0) ⊎ (starttime ≤ pdata.last_server_update + 691200)
    → (first ≡ false) ⊎ (pdata.last_server_update ≢ 0)
    → is_aged_out first starttime pdata ≡ false
unfolding is_aged_out
young_lem first starttime pdata recent settled = ground arith

module _ (ldb : LevelDb Blob) (laws : IsLevelDb ldb) (path : Text) where
  abbrev entry : World ldb → Option Blob
  entry w = lookup (path2key path) (ldb.entries w.cache.db)

  found-other :
      (w : World ldb) (other : Text) (got : Option FilecachePdata × Option GError)
      → str_eq other path ≡ false
      → entry (delete_found ldb w other true got).1 ≡ entry w
  unfolding delete_found end_delete str_eq
  found-other w other (pdata, some e) h = refl
  found-other w other (none, none) h = refl
  found-other w other (some pdata, none) h =
      laws.delete_other w.cache.db (path2key other) (path2key path) h

  module _ (pdata : FilecachePdata) (exists : List Text → Text → Bool) (access : IsAccess exists)
      (first : Bool) (starttime : ℕ)
      (recent : (pdata.last_server_update ≡ 0) ⊎ (starttime ≤ pdata.last_server_update + 691200))
      (settled : (first ≡ false) ⊎ (pdata.last_server_update ≢ 0)) where
    -- No other path has the file.
    abbrev pub Unshared : World ldb → Type 0
    Unshared w =
        (other : Text) (p : FilecachePdata)
        → str_eq other path ≡ false
        → lookup (path2key other) (ldb.entries w.cache.db) ≡ some (pdata_blob p)
        → str_eq p.filename pdata.filename ≡ false

    -- The file is there, and no other path has it.
    abbrev Safe : World ldb → Type 0
    Safe w = (exists w.unlinked pdata.filename ≡ true) × Unshared w

    Unshared-delete :
        (w : World ldb) (other : Text)
        → Unshared w
        → (ldb.delete w.cache.db (path2key other)).1 ≡ false
        → (name : Text) (p : FilecachePdata) → str_eq name path ≡ false
        → lookup (path2key name) (ldb.entries (ldb.delete w.cache.db (path2key other)).0)
          ≡ some (pdata_blob p)
        → str_eq p.filename pdata.filename ≡ false
    unfolding str_eq
    Unshared-delete w other unshared done name p different found =
        elim (Bool-cases (str_eq other name)) [
          | inr apart ↦
              unshared name p different
                (sym (laws.delete_other w.cache.db (path2key other) (path2key name) apart) ∙ found)
          | inl same ↦
              let e : other ≡ name = str_eq_sound other name same in
              let gone : lookup (path2key name)
                    (ldb.entries (ldb.delete w.cache.db (path2key other)).0)
                  ≡ none =
                subst
                  (λ t.
                    lookup (path2key t) (ldb.entries (ldb.delete w.cache.db (path2key other)).0)
                    ≡ none)
                  e (laws.delete_self w.cache.db (path2key other) done) in
              absurd (ground (arith, sym gone ∙ found))
        ]

    end_delete-Safe :
        (w : World ldb) (other : Text) (p : FilecachePdata)
        → str_eq p.filename pdata.filename ≡ false
        → Safe w
        → (end_delete ldb w true p (ldb.delete w.cache.db (path2key other))).0 ≡ none
        → Safe (end_delete ldb w true p (ldb.delete w.cache.db (path2key other))).1
    unfolding end_delete
    end_delete-Safe w other p apart (there, unshared) =
        elim (Bool-cases (ldb.delete w.cache.db (path2key other)).1) [
          | inl failed ↦ rw (failed, end_delete) (λ h. absurd (ground arith))
          | inr done ↦ λ h. (
            access.unlink_other w.unlinked p.filename pdata.filename apart ∙ there,
            Unshared-delete w other unshared done,
          )
        ]

    -- The deletion of another path's entry, if it is without an error.
    delete-Safe :
        (w : World ldb) (other : Text)
        → str_eq other path ≡ false
        → Safe w
        → (filecache_delete ldb w other true).0 ≡ none
        → Safe (filecache_delete ldb w other true).1
    unfolding filecache_delete filecache_pdata_get delete_found check_pdata
    delete-Safe w other different safe h = go (ldb.get w.cache.db (path2key other)) refl h
      where
        go :
            (r : Option (Option Blob))
            → ldb.get w.cache.db (path2key other) ≡ r
            → (delete_found ldb w other true (check_pdata ldb r)).0 ≡ none
            → Safe (delete_found ldb w other true (check_pdata ldb r)).1
        go none e h = safe
        go (some none) e h = safe
        go (some (some (pdata_blob p))) e h =
            end_delete-Safe w other p
              (safe.1 other p different (laws.get_reads w.cache.db (path2key other) _ e)) safe h
        go (some (some (stat_blob value))) e h = safe
        go (some (some (time_blob t))) e h = safe

    -- The visit of another path's entry leaves the entry alone, and its file, if it goes on.
    abbrev Passes : World ldb → Option GError × World ldb → Type 0
    Passes w r = (entry r.1 ≡ entry w) × (r.0 ≡ none → Safe r.1)

    delete-Passes :
        (w : World ldb) (other : Text)
        → str_eq other path ≡ false
        → Safe w
        → Passes w (filecache_delete ldb w other true)
    delete-Passes w other different safe = (
      unfold filecache_delete in
          found-other w other (filecache_pdata_get ldb w.cache other) different,
      delete-Safe w other different safe,
    )

    visit_other :
        (other : Text) (got : Option FilecachePdata) (w : World ldb)
        → str_eq other path ≡ false
        → Safe w
        → Passes w (visit_entry ldb exists first starttime other got w)
    unfolding visit_entry clean_entry
    visit_other other none w different safe = (refl, λ h. safe)
    visit_other other (some p) w different safe = elim (Bool-cases (exists w.unlinked p.filename)) [
      | inr gone ↦ rw gone (delete-Passes w other different safe)
      | inl there ↦ elim (Bool-cases (is_aged_out first starttime p)) [
        | inl aged ↦ rw (there, aged) (delete-Passes w other different safe)
        | inr young ↦ rw (there, young) (refl, λ h. safe)
      ]
    ]

    -- What the entries still to come say of the path.
    abbrev Ahead : Entries Blob → Type 0
    Ahead es =
        (lookup (path2key path) es ≡ none) ⊎ (lookup (path2key path) es ≡ some (pdata_blob pdata))

    own_kept :
        (value : Blob) (w : World ldb)
        → some value ≡ some (pdata_blob pdata)
        → Safe w
        → visit_entry ldb exists first starttime path (as_pdata value) w ≡ (none, w)
    unfolding visit_entry clean_entry
    own_kept value w e safe =
        let same : value ≡ pdata_blob pdata = ground (arith, e) in
        rw (same, safe.0, young_lem first starttime pdata recent settled, clean_entry) refl

    -- The next entry leaves the path's entry alone.
    visit_keeps :
        (key : Text) (value : Blob) (es : Entries Blob) (other : Text) (w : World ldb)
        → key ≡ path2key other
        → Ahead ((key, value) ∷ es)
        → Safe w
        → Passes w (visit_entry ldb exists first starttime other (as_pdata value) w)
    unfolding lookup str_eq
    visit_keeps key value es other w e ahead safe = elim (Bool-cases (str_eq other path)) [
      | inr different ↦ visit_other other (as_pdata value) w different safe
      | inl same ↦
          let f : other ≡ path = str_eq_sound other path same in
          let own : key ≡ path2key path = e ∙ ap path2key f in
          let here : lookup (path2key path) ((key, value) ∷ es) ≡ some value =
            rw (own, str_eq_refl path) refl in
          let kept : visit_entry ldb exists first starttime other (as_pdata value) w ≡ (none, w) =
            rw f (elim ahead [
              | inl absent ↦ absurd (ground (arith, sym here ∙ absent))
              | inr present ↦ own_kept value w (sym here ∙ present) safe
            ]) in
          subst (Passes w) (sym kept) (refl, λ h. safe)
    ]

    Ahead-rest :
        (key : Text) (value : Blob) (es : Entries Blob)
        → IsSorted ((key, value) ∷ es)
        → Ahead ((key, value) ∷ es)
        → Ahead es
    unfolding lookup
    Ahead-rest key value es sorted ahead = elim (Bool-cases (str_eq key (path2key path))) [
      | inr other ↦
          (subst
            (λ b.
              ((if b then some value else lookup (path2key path) es) ≡ none)
              ⊎ ((if b then some value else lookup (path2key path) es) ≡ some (pdata_blob pdata)))
            other ahead)
      | inl same ↦
          let own : key ≡ path2key path = str_eq_sound key (path2key path) same in
          inl (lookup-AllAbove (path2key path) es (subst (λ k. AllAbove k es) own sorted.0))
    ]

    loop_keeps :
        (es : Entries Blob) (w : World ldb)
        → IsSorted es
        → Ahead es
        → Safe w
        → entry (cleanup_loop ldb exists first starttime es w).1 ≡ entry w
    unfolding cleanup_loop
    loop_keeps [] w sorted ahead safe = refl
    loop_keeps ((key, value) ∷ es) w sorted ahead safe = elim (Option-cases (key2path key)) [
      | inl e ↦ rw (e, cleanup_loop) refl
      | inr (other, e) ↦
          let (kept, still) =
            visit_keeps key value es other w (path2key-key2path key other e) ahead safe in
          let after : World ldb =
            (visit_entry ldb exists first starttime other (as_pdata value) w).1 in
          elim (Option-cases (visit_entry ldb exists first starttime other (as_pdata value) w).0) [
            | inr (x, failed) ↦ rw (e, failed, cleanup_loop) kept
            | inl quiet ↦
                rw (e, quiet, cleanup_loop)
                  (loop_keeps es after sorted.1 (Ahead-rest key value es sorted ahead) (still quiet)
                    ∙ kept)
          ]
    ]

    seek-Ahead :
        (es : Entries Blob)
        → IsSorted es
        → Ahead es
        → IsSorted (seek filecache_prefix es) × Ahead (seek filecache_prefix es)
    unfolding seek
    seek-Ahead [] sorted ahead = (sorted, ahead)
    seek-Ahead ((key, value) ∷ es) sorted ahead = elim (Bool-cases (str_lt key filecache_prefix)) [
      | inl below ↦ rw below (seek-Ahead es sorted.1 (Ahead-rest key value es sorted ahead))
      | inr reached ↦ rw reached (sorted, ahead)
    ]

    end_keeps :
        (directory : OsResult (List DirEntry)) (r : Option GError × World ldb)
        → (end_cleanup ldb starttime directory r).1 ≡ r.1
    unfolding end_cleanup
    end_keeps directory (some e, w) = refl
    end_keeps directory (none, w) = refl

    -- The cleanup of the file cache leaves an entry as it is if its file exists, no other path has
    -- the same file, and the entry is not aged out: not older than eight days, and not newer than the
    -- server's copy when the program has just started. This holds whatever errors other entries lead
    -- to, and whatever files are unlinked with them.
    pub filecache_cleanup-keeps :
        (directory : OsResult (List DirEntry)) (w : World ldb)
        → exists w.unlinked pdata.filename ≡ true
        → Unshared w
        → lookup (path2key path) (ldb.entries w.cache.db) ≡ some (pdata_blob pdata)
        → lookup
            (path2key path)
            (ldb.entries (filecache_cleanup ldb exists first starttime directory w).1.cache.db)
          ≡ some (pdata_blob pdata)
    unfolding filecache_cleanup
    filecache_cleanup-keeps directory w there unshared h =
        let es : Entries Blob = ldb.entries w.cache.db in
        let (sorted, ahead) = seek-Ahead es (laws.entries_sorted w.cache.db) (inr h) in
        let looped = loop_keeps (seek filecache_prefix es) w sorted ahead (there, unshared) in
        ap entry (
          end_keeps directory
            (cleanup_loop ldb exists first starttime (seek filecache_prefix es) w))
        ∙ looped
        ∙ h
