-- ===== src/Dav/Unlinked.antt =====
-- What `dav_unlink` of src/fusedav.c leaves in the caches.
use fusedav.Prelude.{
  ℕ, ◌≡◌, refl, ap, subst, ◌∙◌, Bool, true, false, Option, none, some, arith, inl, inr,
  if◌then◌else◌, Bool-cases,
}
use mathlib.Core.Option.{some-injective}
use fusedav.Text.{Text}
use fusedav.LevelDb.{LevelDb, IsLevelDb, lookup}
use fusedav.Structs.{Blob, GError, g_error, leveldb, eio, s_isreg}
use fusedav.StatCache as Stats
use fusedav.StatCache.{stat_cache_delete, end_delete}
use fusedav.FileCache.{World, first_error}
use fusedav.FileCache.Entry as Files
use fusedav.FileCache.Remove.{filecache_delete}
use fusedav.FileCache.Move.{filecache_delete-gone}
use fusedav.Dav.{
  Config, returns, refused, RequestAttempt, Requested, no_session, bad, answered, request,
}
use fusedav.Dav.Separate.{stat_differs}
use fusedav.Dav.Update.{Server}
use fusedav.Dav.GetStat.{GotStat, get_stat}
use fusedav.Dav.Names.{
  NameCalls, unlink_local, unlink_answered, unlink_found, common_unlink, unlink_ret, dav_unlink,
}

no_errors :
    (error : Option GError) (failed : Bool)
    → first_error error (if failed then g_error leveldb eio else none) ≡ none
    → (error ≡ none) × (failed ≡ false)
unfolding first_error
no_errors none true h = absurd (ground arith)
no_errors none false h = (refl, refl)
no_errors (some e) failed h = absurd (ground arith)

module _ (ldb : LevelDb Blob) (path : Text) where
  -- Neither cache has an entry of the path.
  abbrev pub Gone : World ldb → Type 0
  Gone w =
      (lookup (Files.path2key path) (ldb.entries w.cache.db) ≡ none)
      × (lookup (Stats.path2key path false) (ldb.entries w.cache.db) ≡ none)

module _ (ldb : LevelDb Blob) (laws : IsLevelDb ldb) (server : Server) (path : Text) where
  unlink_local-Gone :
      (w : World ldb)
      → (unlink_local ldb server w path).0 ≡ none
      → Gone ldb path (unlink_local ldb server w path).1
  unfolding unlink_local stat_cache_delete end_delete first_error
  unlink_local-Gone w h =
      let deleted = filecache_delete ldb w path true in
      let db = deleted.1.cache.db in
      let key = Stats.path2key path false in
      let fine : (deleted.0 ≡ none) × ((ldb.delete db key).1 ≡ false) =
        no_errors deleted.0 (ldb.delete db key).1 h in
      (
        laws.delete_other db key (Files.path2key path) (stat_differs path path)
            ∙ filecache_delete-gone ldb laws w path true fine.0,
        laws.delete_self db key fine.1,
      )

  unlink_found-Gone :
      (attempts : ℕ → RequestAttempt) (r : GotStat ldb)
      → (unlink_found ldb server path true attempts r).0 ≡ none
      → Gone ldb path (unlink_found ldb server path true attempts r).1
  unfolding unlink_found unlink_answered
  unlink_found-Gone attempts r = go r.error
    where
      answer :
          (a : Requested)
          → (unlink_answered ldb server r.world path a).0 ≡ none
          → Gone ldb path (unlink_answered ldb server r.world path a).1
      answer no_session h = absurd (ground arith)
      answer bad h = absurd (ground arith)
      answer (answered code) h = unlink_local-Gone r.world h

      go :
          (error : Option GError)
          → (unlink_found ldb server path true attempts (record r { error = error })).0 ≡ none
          → Gone ldb path
              (unlink_found ldb server path true attempts (record r { error = error })).1
      go (some e) = λ h. absurd (ground arith)
      go none = elim (Bool-cases (s_isreg r.st.st_mode)) [
        | inr t ↦ rw t (λ h. absurd (ground arith))
        | inl t ↦ rw t (answer (request server.nodes attempts))
      ]

  -- An unlink that returns 0 leaves an entry of the path in neither cache.
  pub dav_unlink-Gone :
      (config : Config) (w after : World ldb) (calls : NameCalls)
      → dav_unlink ldb server config w path calls ≡ some (returns 0, after)
      → Gone ldb path after
  unfolding dav_unlink common_unlink unlink_ret
  dav_unlink-Gone config w after calls h = go (get_stat ldb server config w path calls.stat) h
    where
      ended :
          (x : Option GError × World ldb)
          → (x.0 ≡ none → Gone ldb path x.1)
          → unlink_ret ldb server (some x) ≡ some (returns 0, after)
          → Gone ldb path after
      ended (none, v) gone e =
          subst (Gone ldb path) (ap (λ y. y.1) (some-injective _ _ e)) (gone refl)
      ended (some x, v) gone e = absurd (refused (ap (λ y. y.0) (some-injective _ _ e)))

      go :
          (o : Option (GotStat ldb))
          → unlink_ret ldb server (elim o [
            | none ↦ none
            | some r ↦ some (unlink_found ldb server path true calls.attempts r)
          ])
            ≡ some (returns 0, after)
          → Gone ldb path after
      go none e = absurd (ground arith)
      go (some r) e =
          ended (unlink_found ldb server path true calls.attempts r)
            (unlink_found-Gone calls.attempts r) e
