-- ===== src/Dav/Requests.antt =====
-- The loops of src/fusedav.c over the servers, against their description.
use fusedav.Prelude.{
  ℕ, zero, suc, ◌≡◌, refl, ap, inl, inr, Bool, true, false, Option, none, some, leb, if◌then◌else◌,
  Bool-cases,
}
use fusedav.Text.{Text}
use fusedav.LevelDb.{LevelDb}
use fusedav.Structs.{Blob, GError, s_isreg, s_isdir}
use fusedav.StatCache.Children.{stat_cache_dir_has_child}
use fusedav.FileCache.{World}
use fusedav.Dav.{Config}
use fusedav.Dav.Update.{Server}
use fusedav.Dav.GetStat.{GetStatCalls, GotStat, get_stat}
use fusedav.Dav.Handles.{RefreshCalls}
use fusedav.Dav.Names.{
  common_unlink, dav_unlink, unlink_ret, unlink_found, unlink_answered, dav_rmdir, rmdir_found,
  rmdir_answered, dav_mkdir, mkdir_answered,
}
use fusedav.FileCache.Fetch.{is_bad}
use fusedav.Dav.{RequestAttempt, Requested, no_session, bad, answered, request, request_loop}

-- What one attempt settles: nothing if the server fails.
abbrev settled : Option ℕ → Option Requested
settled none = none
settled (some code) = if leb 500 code then none else some (answered code)

-- The first attempt that settles the request.
unfoldable pub first_settled : (ℕ → RequestAttempt) → ℕ → ℕ → Requested
first_settled attempts zero idx = bad
first_settled attempts (suc nodes) idx =
    if (attempts idx).session
    then (elim (settled (attempts idx).performed) [
      | none ↦ first_settled attempts nodes (suc idx)
      | some r ↦ r
    ])
    else no_session

request_loop-good :
    (attempts : ℕ → RequestAttempt) (nodes idx code : ℕ)
    → leb 500 code ≡ false
    → request_loop attempts nodes idx true code ≡ answered code
unfolding request_loop is_bad
request_loop-good attempts zero idx code h = rw h refl
request_loop-good attempts (suc nodes) idx code h = rw h refl

request_loop-first :
    (attempts : ℕ → RequestAttempt) (nodes idx : ℕ) (res_ok : Bool) (code : ℕ)
    → is_bad res_ok code ≡ true
    → request_loop attempts nodes idx res_ok code ≡ first_settled attempts nodes idx
unfolding request_loop first_settled
request_loop-first attempts zero idx res_ok code h = rw h refl
request_loop-first attempts (suc nodes) idx res_ok code h =
    rw h (elim (Bool-cases (attempts idx).session) [
      | inr e ↦ rw e refl
      | inl e ↦ rw e (go (request_loop-first attempts nodes (suc idx)) (attempts idx).performed)
    ])
  where
    go :
        ((ok : Bool) (c : ℕ)
          → is_bad ok c ≡ true
          → request_loop attempts nodes (suc idx) ok c ≡ first_settled attempts nodes (suc idx))
        → (p : Option ℕ)
        → (elim p [
          | none ↦ request_loop attempts nodes (suc idx) false code
          | some c ↦ request_loop attempts nodes (suc idx) true c
        ])
          ≡ (elim (settled p) [ none ↦ first_settled attempts nodes (suc idx) | some r ↦ r ])
    go rest none = rest false code (unfold is_bad in refl)
    go rest (some c) = elim (Bool-cases (leb 500 c)) [
      | inl e ↦ rw e (rest true c (unfold is_bad in e))
      | inr e ↦ rw e (request_loop-good attempts nodes (suc idx) c e)
    ]

-- A request takes the answer of the first server that gives one below 500: it is bad if all fail,
-- and it stops where there is no session.
pub request-first :
    (nodes : ℕ) (attempts : ℕ → RequestAttempt)
    → request nodes attempts ≡ first_settled attempts nodes 0
unfolding request
request-first nodes attempts = request_loop-first attempts nodes 0 true 500 (unfold is_bad in refl)

module _ (ldb : LevelDb Blob) (server : Server) where
  unlink_found-answer :
      (path : Text) (attempts others : ℕ → RequestAttempt) (code other : ℕ) (r : GotStat ldb)
      → request server.nodes attempts ≡ answered code
      → request server.nodes others ≡ answered other
      → unlink_found ldb server path true attempts r ≡ unlink_found ldb server path true others r
  unfolding unlink_found unlink_answered
  unlink_found-answer path attempts others code other r e f = go r.error
    where
      go :
          (error : Option GError)
          → unlink_found ldb server path true attempts (record r { error = error })
            ≡ unlink_found ldb server path true others (record r { error = error })
      go (some x) = refl
      go none = elim (Bool-cases (s_isreg r.st.st_mode)) [
        | inl t ↦ rw (t, e, f) refl
        | inr t ↦ rw t refl
      ]

  rmdir_found-answer :
      (path : Text) (attempts others : ℕ → RequestAttempt) (code other : ℕ) (r : GotStat ldb)
      → request server.nodes attempts ≡ answered code
      → request server.nodes others ≡ answered other
      → rmdir_found ldb server path attempts r ≡ rmdir_found ldb server path others r
  unfolding rmdir_found rmdir_answered
  rmdir_found-answer path attempts others code other r e f = go r.error
    where
      go :
          (error : Option GError)
          → rmdir_found ldb server path attempts (record r { error = error })
            ≡ rmdir_found ldb server path others (record r { error = error })
      go (some x) = refl
      go none = elim (Bool-cases (s_isdir r.st.st_mode)) [
        | inr t ↦ rw t refl
        | inl t ↦ elim (Bool-cases (stat_cache_dir_has_child ldb r.world.cache path)) [
          | inl c ↦ rw (t, c) refl
          | inr c ↦ rw (t, c, e, f) refl
        ]
      ]

  -- Whether a server carried out a DELETE or MKCOL makes no difference to unlink, rmdir and mkdir:
  -- any two codes below 500 have the same result.
  pub request-any_code :
      (config : Config) (w : World ldb) (path : Text) (mode : ℕ) (stat : GetStatCalls)
      (set : RefreshCalls) (attempts others : ℕ → RequestAttempt) (code other : ℕ)
      → request server.nodes attempts ≡ answered code
      → request server.nodes others ≡ answered other
      → (dav_unlink ldb server config w path (record { stat = stat; attempts = attempts })
          ≡ dav_unlink ldb server config w path (record { stat = stat; attempts = others }))
        × (dav_rmdir ldb server config w path (record { stat = stat; attempts = attempts })
            ≡ dav_rmdir ldb server config w path (record { stat = stat; attempts = others }))
        × (dav_mkdir ldb server w path mode attempts set
            ≡ dav_mkdir ldb server w path mode others set)
  unfolding dav_unlink unlink_ret common_unlink dav_rmdir dav_mkdir mkdir_answered
  request-any_code config w path mode stat set attempts others code other e f = (
    unlinked (get_stat ldb server config w path stat),
    removed (get_stat ldb server config w path stat),
    rw (e, f) refl,
  )
    where
      unlinked :
          (o : Option (GotStat ldb))
          → unlink_ret ldb server (elim o [
            | none ↦ none
            | some r ↦ some (unlink_found ldb server path true attempts r)
          ])
            ≡ unlink_ret ldb server (elim o [
              | none ↦ none
              | some r ↦ some (unlink_found ldb server path true others r)
            ])
      unlinked none = refl
      unlinked (some r) =
          ap (λ x. unlink_ret ldb server (some x))
            (unlink_found-answer path attempts others code other r e f)

      removed :
          (o : Option (GotStat ldb))
          → (elim o [ none ↦ none | some r ↦ some (rmdir_found ldb server path attempts r) ])
            ≡ (elim o [ none ↦ none | some r ↦ some (rmdir_found ldb server path others r) ])
      removed none = refl
      removed (some r) = ap some (rmdir_found-answer path attempts others code other r e f)
