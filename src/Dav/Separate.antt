-- ===== src/Dav/Separate.antt =====
-- The attributes and the files of src/statcache.c and src/filecache.c in one database: what is done
-- for the ones leaves the others alone.
use fusedav.Prelude.{
  ◌≡◌, refl, sym, ap, subst, ◌∙◌, true, false, Option, none, some, [], ◌∷◌, ◌++◌, arith, inl, inr,
  Bool-cases,
}
use fusedav.Text.{Text, str_eq, str_eq_sound, str_eq_refl}
use fusedav.Text.Decimal.{DigitFirst, utoa, utoa-DigitFirst, is_digit}
use fusedav.LevelDb.{LevelDb, IsLevelDb, lookup}
use fusedav.Structs.{Blob, stat_blob, time_blob, pdata_blob, FilecachePdata, GError}
use fusedav.StatCache as Stats
use fusedav.StatCache.{
  StatCache, Reply, stat_cache_value_get, check_value, stat_cache_value_set, set_value, fatal_write,
  stat_cache_delete, end_delete, stat_cache_get_local_generation,
}
use fusedav.StatCache.Key.Shape.{path2key-own, slashes, IsAbsolute, path2key-injective}
use fusedav.FileCache.{World}
use fusedav.FileCache.Entry as Files
use fusedav.FileCache.Entry.{filecache_pdata_get, filecache_pdata_set, check_pdata, end_set}
use fusedav.FileCache.Remove as Remove
use fusedav.FileCache.Remove.{filecache_pdata_move, filecache_delete, delete_found, end_move}

DigitFirst-differs : (k s : Text) → DigitFirst k → str_eq (Files.path2key s) k ≡ false
unfolding str_eq is_digit
DigitFirst-differs [] s h = absurd h
DigitFirst-differs (c ∷ k) s h = ground arith

differs-DigitFirst : (k s : Text) → DigitFirst k → str_eq k (Files.path2key s) ≡ false
unfolding str_eq is_digit
differs-DigitFirst [] s h = absurd h
differs-DigitFirst (c ∷ k) s h = ground arith

file_differs : (s path : Text) → str_eq (Files.path2key s) (Stats.path2key path false) ≡ false
file_differs s path =
    rw (path2key-own path)
      (DigitFirst-differs (utoa (slashes path) ++ path) s (utoa-DigitFirst (slashes path) path))

pub stat_differs : (path s : Text) → str_eq (Stats.path2key path false) (Files.path2key s) ≡ false
stat_differs path s =
    rw (path2key-own path)
      (differs-DigitFirst (utoa (slashes path) ++ path) s (utoa-DigitFirst (slashes path) path))

pub stat_keys_differ :
    (p q : Text)
    → IsAbsolute p
    → IsAbsolute q
    → str_eq p q ≡ false
    → str_eq (Stats.path2key p false) (Stats.path2key q false) ≡ false
stat_keys_differ p q hp hq different =
    elim (Bool-cases (str_eq (Stats.path2key p false) (Stats.path2key q false))) [
      | inr other ↦ other
      | inl same ↦
          let e : p ≡ q = path2key-injective p q hp hq (str_eq_sound _ _ same) in
          let equal : str_eq p q ≡ true = subst (λ t. str_eq p t ≡ true) e (str_eq_refl p) in
          absurd (ground (arith, sym equal ∙ different))
    ]

module _ (ldb : LevelDb Blob) where
  abbrev pub at : World ldb → Text → Option Blob
  at w key = lookup key (ldb.entries w.cache.db)

module _ (ldb : LevelDb Blob) (laws : IsLevelDb ldb) where
  abbrev file_entry : Option FilecachePdata → Option Blob
  file_entry none = none
  file_entry (some p) = some (pdata_blob p)

  -- A read of an entry that finds one.
  pub pdata_get-lookup :
      (cache : StatCache ldb) (path : Text) (pdata : FilecachePdata)
      → filecache_pdata_get ldb cache path ≡ (some pdata, none)
      → lookup (Files.path2key path) (ldb.entries cache.db) ≡ some (pdata_blob pdata)
  unfolding filecache_pdata_get check_pdata
  pdata_get-lookup cache path pdata h = go (ldb.get cache.db (Files.path2key path)) refl h
    where
      go :
          (r : Option (Option Blob))
          → ldb.get cache.db (Files.path2key path) ≡ r
          → check_pdata ldb r ≡ (some pdata, none)
          → lookup (Files.path2key path) (ldb.entries cache.db) ≡ some (pdata_blob pdata)
      go none e f = absurd (ground arith)
      go (some none) e f = absurd (ground arith)
      go (some (some (pdata_blob p))) e f =
          laws.get_reads cache.db (Files.path2key path) _ e ∙ ap file_entry (ap (λ x. x.0) f)
      go (some (some (stat_blob value))) e f = absurd (ground arith)
      go (some (some (time_blob t))) e f = absurd (ground arith)

  -- A move in the file cache leaves the attributes of all paths alone.
  delete_found-stat :
      (w : World ldb) (old path : Text) (got : Option FilecachePdata × Option GError)
      → at ldb (delete_found ldb w old false got).1 (Stats.path2key path false)
        ≡ at ldb w (Stats.path2key path false)
  unfolding delete_found Remove.end_delete
  delete_found-stat w old path (pdata, some e) = refl
  delete_found-stat w old path (none, none) = refl
  delete_found-stat w old path (some pdata, none) =
      laws.delete_other w.cache.db (Files.path2key old) (Stats.path2key path false)
        (file_differs old path)

  end_move-stat :
      (w : World ldb) (old new path : Text) (pdata : FilecachePdata)
      → at ldb
          (end_move ldb w old (filecache_pdata_set ldb w.cache new pdata)).1
          (Stats.path2key path false)
        ≡ at ldb w (Stats.path2key path false)
  unfolding end_move filecache_pdata_set end_set filecache_delete
  end_move-stat w old new path pdata =
      let key = Stats.path2key path false in
      let written = ldb.put w.cache.db (Files.path2key new) (pdata_blob pdata) in
      let stored : World ldb = record w { cache = record (w.cache) { db = written.0 } } in
      let kept : lookup key (ldb.entries written.0) ≡ lookup key (ldb.entries w.cache.db) =
        laws.put_other w.cache.db (Files.path2key new) (pdata_blob pdata) key
          (file_differs new path) in
      elim (Bool-cases written.1) [
        | inl e ↦ rw (e, end_move) kept
        | inr e ↦
            rw (e, end_move)
              (delete_found-stat stored old path (filecache_pdata_get ldb stored.cache old) ∙ kept)
      ]

  pub move_found-stat :
      (w : World ldb) (old new path : Text) (got : Option FilecachePdata × Option GError)
      → at ldb (Remove.move_found ldb w old new got).1 (Stats.path2key path false)
        ≡ at ldb w (Stats.path2key path false)
  unfolding Remove.move_found
  move_found-stat w old new path (pdata, some e) = refl
  move_found-stat w old new path (none, none) = refl
  move_found-stat w old new path (some pdata, none) = end_move-stat w old new path pdata
