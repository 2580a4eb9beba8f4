-- ===== src/FileCache/Tests/Cleaning.antt =====
-- A run of `filecache_cleanup` that deletes one of two entries.
use fusedav.Prelude.{
  ◌≡◌, refl, sym, ap, ◌∙◌, Bool, true, false, ◌&&◌, not, List, Option, none, some, [], ◌∷◌, arith,
  inl, inr, Bool-cases,
}
use fusedav.Text.{Text, codes, str_eq, str_eq_sound, str_lt}
use fusedav.LevelDb.{Entries, IsSorted, lookup}
use fusedav.LevelDb.Memory.{memory, memory-IsLevelDb}
use fusedav.Structs.{Blob, stat_blob, time_blob, pdata_blob, FilecachePdata}
use fusedav.FileCache.{World, ok}
use fusedav.FileCache.Entry.{path2key}
use fusedav.FileCache.Cleanup.{filecache_cleanup}
use fusedav.FileCache.Keep.{IsAccess, filecache_cleanup-keeps}
use fusedav.FileCache.Tests.{world}

abbrev young : FilecachePdata
young = record { filename = codes "f1"; etag = codes "e"; last_server_update = 800000 }

abbrev old : FilecachePdata
old = record { filename = codes "f2"; etag = codes "e"; last_server_update = 100 }

abbrev two_items : Entries Blob
two_items = (codes "fc:/a", pdata_blob young) ∷ (codes "fc:/b", pdata_blob old) ∷ []

two_items-IsSorted : IsSorted two_items
unfolding str_lt
two_items-IsSorted = ((refl, tt), (tt, tt))

abbrev two_files : World (memory Blob)
unfolding memory
two_files = record world {
  cache = record {
    db = record { items = two_items; sorted = two_items-IsSorted; broken = false };
    counter = 0;
    terminated = false;
  };
}

-- All files are there but those that were unlinked.
abbrev present : List Text → Text → Bool
present [] name = true
present (gone ∷ unlinked) name = not (str_eq gone name) && present unlinked name

present-IsAccess : IsAccess present
present-IsAccess = record { unlink_other = λ unlinked name other h. rw h refl }

abbrev file_of : Option Blob → Text
file_of none = []
file_of (some (pdata_blob p)) = p.filename
file_of (some (stat_blob value)) = []
file_of (some (time_blob t)) = []

b_only :
    (other : Text) (p : FilecachePdata)
    → str_eq other (codes "/a") ≡ false
    → lookup (path2key other) ((memory Blob).entries two_files.cache.db) ≡ some (pdata_blob p)
    → str_eq p.filename young.filename ≡ false
unfolding memory lookup str_eq
b_only other p different found = elim (Bool-cases (str_eq (codes "/a") other)) [
  | inl same ↦
      let e : codes "/a" ≡ other = str_eq_sound (codes "/a") other same in
      absurd (ground (arith, ap (λ t. str_eq t (codes "/a")) e ∙ different))
  | inr other_key ↦ elim (Bool-cases (str_eq (codes "/b") other)) [
    | inl same ↦
        let entry : lookup (path2key other) two_items ≡ some (pdata_blob old) =
          rw (other_key, same, lookup) refl in
        ap (λ o. str_eq (file_of o) (codes "f1")) (sym found ∙ entry)
    | inr different_key ↦
        let nothing : lookup (path2key other) two_items ≡ none =
          rw (other_key, different_key, lookup) refl in
        absurd (ground (arith, sym nothing ∙ found))
  ]
]

filecache_cleanup-keeps_example :
    lookup (path2key (codes "/a")) (
      (memory Blob).entries
        (filecache_cleanup (memory Blob) present true 800000 (ok []) two_files).1.cache.db)
    ≡ some (pdata_blob young)
unfolding memory lookup str_eq
filecache_cleanup-keeps_example =
    filecache_cleanup-keeps (memory Blob) (memory-IsLevelDb Blob) (codes "/a") young present
      present-IsAccess true 800000 (inr (omega arith)) (inr (omega arith)) (ok []) two_files refl
      b_only refl
