-- ===== src/Dav/Listed.antt =====
-- `update_directory` of src/fusedav.c.
use fusedav.Prelude.{
  if◌then◌else◌, true, ℕ, zero, suc, ◌≡◌, refl, sym, ap, subst, ◌∙◌, Bool, false, ◌&&◌, Option,
  none, some, ◌==◌, arith, inl, inr, Bool-cases,
}
use mathlib.Core.Option.{some-injective, none-ne-some}
use fusedav.Text.{Text}
use fusedav.LevelDb.{LevelDb, IsLevelDb, lookup}
use fusedav.Structs.{Blob, GError, g_error, time_blob, fusedav_domain, enetdown}
use fusedav.StatCache.{
  StatCache, Reply, fatal_write, stat_cache_updated_children, stat_cache_read_updated_children,
  read_updated, updated_children_key, as_time,
}
use fusedav.StatCache.Children.{stat_cache_delete_older}
use fusedav.FileCache.{World, first_error}
use fusedav.Props.Request.{PropfindResult, PropfindRet, success, failed, stale}
use fusedav.Dav.{Config}
use fusedav.Dav.Update.{
  Server, UpdateCalls, update_directory, mark_updated, older_deleted, complete_listed,
  complete_update, progressive_listed, progressive_update, world_after, list_directory,
}

module _ (ldb : LevelDb Blob) (laws : IsLevelDb ldb) where
  delete-time :
      (cache : StatCache ldb) (path : Text) (r : Option Blob)
      → (stat_cache_updated_children ldb cache path 0).error ≡ none
      → lookup
          (updated_children_key path)
          (ldb.entries (stat_cache_updated_children ldb cache path 0).cache.db)
        ≡ r
      → (read_updated ldb (some r) (stat_cache_updated_children ldb cache path 0).cache).result ≡ 0
  unfolding stat_cache_updated_children fatal_write read_updated
  delete-time cache path r = elim (Bool-cases (ldb.delete cache.db (updated_children_key path)).1) [
    | inl e ↦ rw e (λ h. absurd (ground arith))
    | inr e ↦ rw e (λ h entry.
        subst
          (λ o.
            (read_updated ldb (some o)
              (record cache { db = (ldb.delete cache.db (updated_children_key path)).0 })).result
            ≡ 0)
          (sym (laws.delete_self cache.db (updated_children_key path) e) ∙ entry) refl)
  ]

  put-time :
      (cache : StatCache ldb) (path : Text) (timestamp : ℕ) (r : Option Blob)
      → (timestamp == 0) ≡ false
      → (stat_cache_updated_children ldb cache path timestamp).error ≡ none
      → lookup
          (updated_children_key path)
          (ldb.entries (stat_cache_updated_children ldb cache path timestamp).cache.db)
        ≡ r
      → (read_updated ldb
          (some r)
          (stat_cache_updated_children ldb cache path timestamp).cache).result
        ≡ timestamp
  unfolding stat_cache_updated_children fatal_write read_updated as_time
  put-time cache path timestamp r other =
      elim (Bool-cases (ldb.put cache.db (updated_children_key path) (time_blob timestamp)).1) [
        | inl e ↦ rw (other, e) (λ h. absurd (ground arith))
        | inr e ↦
            rw (other, e)
              (λ h entry.
                subst
                  (λ o.
                    (read_updated ldb (some o) (record cache {
                      db = (ldb.put cache.db (updated_children_key path) (time_blob timestamp)).0;
                    })).result
                    ≡ timestamp)
                  (sym (laws.put_self cache.db (updated_children_key path) (time_blob timestamp) e)
                    ∙ entry)
                  refl)
      ]

  blob-time :
      (cache : StatCache ldb) (path : Text) (timestamp : ℕ) (r : Option Blob)
      → (stat_cache_updated_children ldb cache path timestamp).error ≡ none
      → lookup
          (updated_children_key path)
          (ldb.entries (stat_cache_updated_children ldb cache path timestamp).cache.db)
        ≡ r
      → (read_updated ldb
          (some r)
          (stat_cache_updated_children ldb cache path timestamp).cache).result
        ≡ timestamp
  blob-time cache path zero r h entry = delete-time cache path r h entry
  blob-time cache path (suc n) r h entry = put-time cache path (suc n) r (ground arith) h entry

  mark_updated-read :
      (server : Server) (w after : World ldb) (path : Text) (timestamp : ℕ) (r : Option Blob)
      → mark_updated ldb server w path timestamp ≡ (none, after)
      → ldb.get after.cache.db (updated_children_key path) ≡ some r
      → (stat_cache_read_updated_children ldb after.cache path).result ≡ timestamp
  unfolding mark_updated stat_cache_read_updated_children
  mark_updated-read server w after path timestamp r h reads =
      let same : (stat_cache_updated_children ldb w.cache path timestamp).cache ≡ after.cache =
        ap (λ x. x.1.cache) h in
      rw reads (
        subst (λ c. (read_updated ldb (some r) c).result ≡ timestamp) same
          (blob-time w.cache path timestamp r (ap (λ x. x.0) h) (
            ap (λ c. lookup (updated_children_key path) (ldb.entries c.db)) same
            ∙ laws.get_reads after.cache.db (updated_children_key path) r reads)))

module _ (ldb : LevelDb Blob) (server : Server) (path : Text) (calls : UpdateCalls) where
  -- The last step of an update marks the directory with a time.
  abbrev Marks : ℕ → Option (Option GError × World ldb) → Type 0
  Marks timestamp o =
      (after : World ldb)
      → o ≡ some (none, after)
      → (w : World ldb) × (mark_updated ldb server w path timestamp ≡ (none, after))

  error-Marks : (timestamp : ℕ) (e : GError) (w : World ldb) → Marks timestamp (some (some e, w))
  error-Marks timestamp e w after h =
      absurd (none-ne-some _ (ap (λ x. x.0) (sym (some-injective _ _ h))))

  first_error-Marks :
      (timestamp : ℕ) (error : Option GError) (code : ℕ) (w : World ldb)
      → Marks timestamp (some (first_error error (g_error fusedav_domain code), w))
  unfolding first_error
  first_error-Marks timestamp none code w = error-Marks timestamp _ w
  first_error-Marks timestamp (some e) code w = error-Marks timestamp e w

  older_deleted-Marks :
      (w : World ldb) (r : Option (Reply ldb (Unit {0})))
      → Marks calls.complete_now (older_deleted ldb server w path calls.complete_now r)
  unfolding older_deleted
  older_deleted-Marks w none = λ after h. absurd (ground arith)
  older_deleted-Marks w (some r) = go r.error
    where
      go :
          (error : Option GError)
          → Marks calls.complete_now (
              older_deleted ldb server w path calls.complete_now
                (some (record r { error = error })))
      go none = λ after h. (record w { cache = r.cache }, some-injective _ _ h)
      go (some e) = error-Marks calls.complete_now e (record w { cache = r.cache })

  complete_listed-Marks :
      (min_generation : ℕ) (r : PropfindResult (World ldb))
      → Marks calls.complete_now
          (complete_listed ldb server path calls.complete_now min_generation calls.env r)
  unfolding complete_listed
  complete_listed-Marks min_generation r = go r.error r.ret
    where
      go :
          (error : Option GError) (ret : PropfindRet)
          → Marks calls.complete_now (
              complete_listed ldb server path calls.complete_now min_generation calls.env
                (record r { error = error; ret = ret }))
      go (some e) ret = error-Marks calls.complete_now e _
      go none success =
          older_deleted-Marks (world_after ldb server (record r { error = none; ret = success }))
            (stat_cache_delete_older ldb calls.env r.userdata.cache path min_generation)
      go none failed = error-Marks calls.complete_now _ _
      go none stale = error-Marks calls.complete_now _ _

  elim-Marks :
      (o : Option (PropfindResult (World ldb)))
      (f : PropfindResult (World ldb) → Option (Option GError × World ldb))
      → ((r : PropfindResult (World ldb)) → Marks calls.complete_now (f r))
      → Marks calls.complete_now (elim o [ none ↦ none | some r ↦ f r ])
  elim-Marks none f marks = λ after h. absurd (ground arith)
  elim-Marks (some r) f marks = marks r

  complete_update-Marks :
      (w : World ldb) → Marks calls.complete_now (complete_update ldb server w path calls)
  unfolding complete_update
  complete_update-Marks w = elim-Marks _ _ (λ r. complete_listed-Marks _ r)

  abbrev is_success : PropfindRet → Bool
  is_success success = true
  is_success failed = false
  is_success stale = false

  abbrev lists : Option (PropfindResult (World ldb)) → Bool
  lists none = false
  lists (some r) = is_success r.ret

  -- Whether the update is attempted progressively, and the server can list what has changed since
  -- the last one.
  abbrev pub progresses : Config → World ldb → Bool → Bool
  progresses config w attempt =
      attempt
      && (config.progressive_propfind
          && lists (
              list_directory ldb server
                (record w { cache = (stat_cache_read_updated_children ldb w.cache path).cache })
                path calls.progressive))

  abbrev time_of : Bool → ℕ
  time_of progressive = if progressive then calls.progressive_now else calls.complete_now

  progressive_listed-Marks :
      (r : PropfindResult (World ldb))
      → Marks (time_of (is_success r.ret)) (progressive_listed ldb server path calls r)
  unfolding progressive_listed
  progressive_listed-Marks r = go r.ret
    where
      go :
          (ret : PropfindRet)
          → Marks
              (time_of (is_success ret))
              (progressive_listed ldb server path calls (record r { ret = ret }))
      go success = λ after h. (_, some-injective _ _ h)
      go failed = first_error-Marks calls.complete_now r.error enetdown _
      go stale = complete_update-Marks _

  progressive_update-Marks :
      (w : World ldb) (last_updated : Reply ldb ℕ)
      → Marks
          (time_of (
            lists (
              list_directory ldb server
                (record w { cache = last_updated.cache })
                path
                calls.progressive)))
          (progressive_update ldb server w path calls last_updated)
  unfolding progressive_update
  progressive_update-Marks w last_updated =
      go last_updated.error
        (list_directory ldb server (record w { cache = last_updated.cache }) path calls.progressive)
    where
      listing :
          (o : Option (PropfindResult (World ldb)))
          → Marks
              (time_of (lists o))
              (elim o [ none ↦ none | some r ↦ progressive_listed ldb server path calls r ])
      listing none = λ after h. absurd (ground arith)
      listing (some r) = progressive_listed-Marks r

      go :
          (error : Option GError) (o : Option (PropfindResult (World ldb)))
          → Marks (time_of (lists o)) (elim error [
            | some e ↦ some (some e, record w { cache = last_updated.cache })
            | none ↦ elim o [ none ↦ none | some r ↦ progressive_listed ldb server path calls r ]
          ])
      go (some e) o = error-Marks (time_of (lists o)) e _
      go none o = listing o

  update_directory-Marks :
      (config : Config) (w : World ldb) (attempt : Bool)
      → Marks
          (time_of (progresses config w attempt))
          (update_directory ldb server config w path attempt calls)
  unfolding update_directory
  update_directory-Marks config w false = complete_update-Marks w
  update_directory-Marks config w true = elim (Bool-cases config.progressive_propfind) [
    | inl e ↦ rw e (progressive_update-Marks w (stat_cache_read_updated_children ldb w.cache path))
    | inr e ↦ rw e (complete_update-Marks w)
  ]

  -- A directory that was updated without an error is read as updated at the time that was taken for
  -- the progressive listing, if there was one and the server could give it, and otherwise at the
  -- time that was taken for the complete one.
  pub update_directory-read :
      (laws : IsLevelDb ldb) (config : Config) (w after : World ldb) (attempt : Bool)
      (r : Option Blob)
      → update_directory ldb server config w path attempt calls ≡ some (none, after)
      → ldb.get after.cache.db (updated_children_key path) ≡ some r
      → (stat_cache_read_updated_children ldb after.cache path).result
        ≡ (if progresses config w attempt then calls.progressive_now else calls.complete_now)
  update_directory-read laws config w after attempt r h reads =
      let (u, marked) = update_directory-Marks config w attempt after h in
      mark_updated-read ldb laws server u after path (time_of (progresses config w attempt)) r
        marked reads
