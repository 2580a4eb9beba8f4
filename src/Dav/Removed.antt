-- ===== src/Dav/Removed.antt =====
-- What `dav_rmdir` of src/fusedav.c has found, and what it leaves in the attribute cache.
use fusedav.Prelude.{
  if◌then◌else◌, ℕ, ◌≡◌, refl, ap, sym, subst, ◌∙◌, true, false, Option, none, some, [], ◌∷◌, ◌++◌,
  arith, inl, inr, Bool-cases,
}
use mathlib.Core.Option.{some-injective}
use fusedav.Text.{Text, str_eq, starts_with, starts_with_append}
use fusedav.Text.Decimal.{DigitFirst, utoa, utoa-DigitFirst, is_digit}
use fusedav.LevelDb.{LevelDb, Entries, IsLevelDb, lookup}
use fusedav.Structs.{Blob, GError, s_isdir}
use fusedav.StatCache.{
  StatCache, path2key, updated_children_key, stat_cache_delete, end_delete,
  stat_cache_updated_children, fatal_write,
}
use fusedav.StatCache.Iter.{iterate}
use fusedav.StatCache.Iter.Range.{with_prefix, iter_entries-seek}
use fusedav.StatCache.Children.Aged.{lookup-with_prefix}
use fusedav.StatCache.Children.{stat_cache_dir_has_child}
use fusedav.StatCache.Key.Shape.{path2key-own, slashes}
use fusedav.FileCache.{World}
use fusedav.Dav.{
  Config, returns, refused, RequestAttempt, Requested, no_session, bad, answered, request,
}
use fusedav.Dav.Update.{Server}
use fusedav.Dav.GetStat.{GotStat, get_stat}
use fusedav.Dav.Names.{NameCalls, rmdir_local, rmdir_answered, rmdir_found, dav_rmdir}

updated-DigitFirst :
    (path key : Text) → DigitFirst key → str_eq (updated_children_key path) key ≡ false
unfolding str_eq is_digit
updated-DigitFirst path [] h = absurd h
updated-DigitFirst path (c ∷ key) h = ground arith

no_entries : (es : Entries Blob) → (elim es [ [] ↦ false | e ∷ more ↦ true ]) ≡ false → es ≡ []
no_entries [] h = refl
no_entries (e ∷ es) h = absurd (ground arith)

-- A directory's key is not that of the time at which it was listed.
updated-path2key : (path : Text) → str_eq (updated_children_key path) (path2key path false) ≡ false
updated-path2key path =
    rw (path2key-own path)
      (updated-DigitFirst path (utoa (slashes path) ++ path) (utoa-DigitFirst (slashes path) path))

module _ (ldb : LevelDb Blob) (path : Text) where
  -- Neither the directory's entry nor the time of its listing is there.
  abbrev Unlisted : World ldb → Type 0
  Unlisted w =
      (lookup (path2key path false) (ldb.entries w.cache.db) ≡ none)
      × (lookup (updated_children_key path) (ldb.entries w.cache.db) ≡ none)

  -- The attributes that were found are a directory's, and no key began with the prefix that its
  -- children's keys have.
  abbrev Empty : GotStat ldb → Type 0
  Empty r =
      (r.error ≡ none)
      × (s_isdir r.st.st_mode ≡ true)
      × ((name : Text) → lookup (path2key path true ++ name) (ldb.entries r.world.cache.db) ≡ none)

  abbrev pub Removes : Option (GotStat ldb) → World ldb → Type 0
  Removes got after = (r : GotStat ldb) × (got ≡ some r) × Empty r × Unlisted after

module _ (ldb : LevelDb Blob) (laws : IsLevelDb ldb) (server : Server) (path : Text) where
  rmdir_local-Unlisted :
      (w : World ldb)
      → (rmdir_local ldb server w path).0 ≡ returns 0
      → Unlisted ldb path (rmdir_local ldb server w path).1
  unfolding rmdir_local stat_cache_delete end_delete stat_cache_updated_children fatal_write
  rmdir_local-Unlisted w =
      let key = path2key path false in
      let time_key = updated_children_key path in
      let db = (ldb.delete w.cache.db key).0 in
      elim (Bool-cases (ldb.delete w.cache.db key).1) [
        | inl failed ↦ rw (failed, rmdir_local) (λ h. absurd (refused h))
        | inr done ↦
            rw (done, rmdir_local)
              (elim (Bool-cases (ldb.delete db time_key).1) [
                | inl failed ↦ rw (failed, rmdir_local) (λ h. absurd (refused h))
                | inr gone ↦
                    rw (gone, rmdir_local)
                      (λ h. (
                        laws.delete_other db time_key key (updated-path2key path)
                            ∙ laws.delete_self w.cache.db key done,
                        laws.delete_self db time_key gone,
                      ))
              ])
      ]

  -- No child is seen only if there is no key with the children's prefix.
  childless :
      (cache : StatCache ldb) (name : Text)
      → stat_cache_dir_has_child ldb cache path ≡ false
      → lookup (path2key path true ++ name) (ldb.entries cache.db) ≡ none
  unfolding stat_cache_dir_has_child iterate
  childless cache name h =
      let prefix = path2key path true in
      let all : iterate ldb cache path ≡ with_prefix prefix (ldb.entries cache.db) =
        iter_entries-seek prefix (ldb.entries cache.db) (laws.entries_sorted cache.db) in
      let nothing : with_prefix prefix (ldb.entries cache.db) ≡ [] =
        sym all ∙ no_entries (iterate ldb cache path) h in
      let found : (if starts_with prefix (prefix ++ name)
            then lookup (prefix ++ name) (ldb.entries cache.db)
            else none)
          ≡ none =
        sym (lookup-with_prefix prefix (prefix ++ name) (ldb.entries cache.db))
        ∙ ap (lookup (prefix ++ name)) nothing
        ∙ (unfold lookup in refl) in
      subst (λ b. (if b then lookup (prefix ++ name) (ldb.entries cache.db) else none) ≡ none)
        (starts_with_append prefix name) found

  answered-Unlisted :
      (w : World ldb) (a : Requested)
      → (rmdir_answered ldb server w path a).0 ≡ returns 0
      → Unlisted ldb path (rmdir_answered ldb server w path a).1
  unfolding rmdir_answered
  answered-Unlisted w no_session h = absurd (refused h)
  answered-Unlisted w bad h = absurd (refused h)
  answered-Unlisted w (answered code) h = rmdir_local-Unlisted w h

  found-Empty :
      (attempts : ℕ → RequestAttempt) (r : GotStat ldb) (error : Option GError)
      → (rmdir_found ldb server path attempts (record r { error = error })).0 ≡ returns 0
      → Empty ldb path (record r { error = error })
        × Unlisted ldb path (rmdir_found ldb server path attempts (record r { error = error })).1
  unfolding rmdir_found
  found-Empty attempts r (some e) = λ h. absurd (refused h)
  found-Empty attempts r none = elim (Bool-cases (s_isdir r.st.st_mode)) [
    | inr file ↦ rw file (λ h. absurd (refused h))
    | inl dir ↦ rw dir (elim (Bool-cases (stat_cache_dir_has_child ldb r.world.cache path)) [
      | inl child ↦ rw child (λ h. absurd (refused h))
      | inr alone ↦ rw alone (λ h. (
        (refl, refl, λ name. childless r.world.cache name alone),
        answered-Unlisted r.world (request server.nodes attempts) h,
      ))
    ])
  ]

  -- An rmdir that returns 0 has found a directory, with no key of a child in the cache, and leaves neither its entry
  -- nor the time at which it was listed.
  pub dav_rmdir-Removes :
      (config : Config) (w after : World ldb) (calls : NameCalls)
      → dav_rmdir ldb server config w path calls ≡ some (returns 0, after)
      → Removes ldb path (get_stat ldb server config w path calls.stat) after
  unfolding dav_rmdir
  dav_rmdir-Removes config w after calls h = go (get_stat ldb server config w path calls.stat) h
    where
      go :
          (o : Option (GotStat ldb))
          → (elim o [ none ↦ none | some r ↦ some (rmdir_found ldb server path calls.attempts r) ])
            ≡ some (returns 0, after)
          → Removes ldb path o after
      go none e = absurd (ground arith)
      go (some r) e =
          let same = some-injective _ _ e in
          let (empty, unlisted) = found-Empty calls.attempts r r.error (ap (λ y. y.0) same) in
          (r, refl, empty, subst (Unlisted ldb path) (ap (λ y. y.1) same) unlisted)
