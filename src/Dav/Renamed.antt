-- ===== src/Dav/Renamed.antt =====
-- What `dav_rename` of src/fusedav.c returns.
use fusedav.Prelude.{
  ℕ, ◌<◌, ◌≡◌, ◌↔◌, ◌⊎◌, refl, sym, ap, subst, Option, Bool, true, false, ◌||◌, none, some, [], ◌∷◌,
  ◌++◌, leb, ◌==◌, arith, inl, inr, if◌then◌else◌, Bool-cases,
}
use mathlib.Core.Bool.{true≢false}
use fusedav.Text.{Text, slash, str_eq}
use fusedav.LevelDb.{LevelDb, IsLevelDb}
use fusedav.Structs.{Blob, s_isdir, eio}
use fusedav.FileCache.{World}
use fusedav.Dav.{
  Config, Ret, returns, refused, errno, SetCalls, Requested, no_session, bad, answered, request,
}
use fusedav.Dav.Update.{Server}
use fusedav.Dav.GetStat.{GotStat, get_stat}
use fusedav.Dav.Moved.{CachesMoved, local_move-CachesMoved}
use fusedav.StatCache.Key.Shape.{IsAbsolute}
use fusedav.Dav.Names.{
  NameCalls, dav_rename, rename_found, rename_answered, either_ret, server_ret, local_move, is_zero,
  is_request_bad,
}

-- The server moved the file, or it does not know it and the caches moved it.
abbrev pub Succeeds : Requested → Ret → Type 0
Succeeds answer moved =
    (code : ℕ) × (answer ≡ answered code) × ((code < 400) ⊎ ((code ≡ 404) × (moved ≡ returns 0)))

abbrev code_of : Requested → ℕ
code_of no_session = 0
code_of bad = 0
code_of (answered code) = code

abbrev is_answered : Requested → Bool
is_answered no_session = false
is_answered bad = false
is_answered (answered code) = true

is_zero_iff : (ret : Ret) → (is_zero ret ≡ true) ↔ (ret ≡ returns 0)
unfolding is_zero
is_zero_iff (returns n) = (λ h. ap returns (ground arith), λ e. ap is_zero e)
is_zero_iff (errno code) = (λ h. absurd (ground arith), λ e. ap is_zero e)

-- A directory's path has a slash behind it.
abbrev pub moved_from : Bool → Text → Text
moved_from is_dir from = if is_dir then from ++ slash ∷ [] else from

moved_from-IsAbsolute :
    (is_dir : Bool) (from : Text) → IsAbsolute from → IsAbsolute (moved_from is_dir from)
moved_from-IsAbsolute is_dir [] h = absurd h
moved_from-IsAbsolute true (c ∷ s) h = h
moved_from-IsAbsolute false (c ∷ s) h = h

module _ (ldb : LevelDb Blob) (server : Server) where
  either_ret-zero :
      (remote : Ret) (r : Ret × World ldb)
      → ((either_ret ldb server remote r).0 ≡ returns 0)
        ↔ ((is_zero remote ≡ true) ⊎ (r.0 ≡ returns 0))
  unfolding either_ret
  either_ret-zero remote (moved, w) = ground (arith, is_zero_iff remote, is_zero_iff moved)

  missing_moved :
      (w : World ldb) (from to : Text) (calls : SetCalls)
      → (either_ret ldb server (errno eio) (local_move ldb server w from to calls)).0 ≡ returns 0
      → (local_move ldb server w from to calls).0 ≡ returns 0
  missing_moved w from to calls h =
      elim ((either_ret-zero (errno eio) (local_move ldb server w from to calls)).0 h) [
        | inl e ↦ absurd (unfold is_zero in ground arith)
        | inr e ↦ e
      ]

  rename_answered-Succeeds :
      (w : World ldb) (from to : Text) (calls : SetCalls) (answer : Requested)
      → ((rename_answered ldb server w from to calls (server_ret answer)).0 ≡ returns 0)
        ↔ Succeeds answer (local_move ldb server w from to calls).0
  unfolding rename_answered server_ret
  rename_answered-Succeeds w from to calls no_session =
      (λ h. absurd (ground arith), λ (code, e, rest). absurd (true≢false (sym (ap is_answered e))))
  rename_answered-Succeeds w from to calls bad =
      (λ h. absurd (ground arith), λ (code, e, rest). absurd (true≢false (sym (ap is_answered e))))
  rename_answered-Succeeds w from to calls (answered code) = elim (Bool-cases (leb 400 code)) [
    | inr small ↦ rw small (
      λ h. (code, refl, inl (ground arith)),
      λ x.
          (either_ret-zero (returns 0) (local_move ldb server w from to calls)).1
            (inl (unfold is_zero in refl)),
    )
    | inl large ↦ elim (Bool-cases (code == 404)) [
      | inr other ↦
          rw (large, other)
            (
              λ h. absurd (ground arith),
              λ (c, e, rest). let same : code ≡ c = ap code_of e in absurd (ground arith),
            )
      | inl missing ↦
          rw (large, missing)
            (
              λ h. (code, refl, inr (ground arith, missing_moved w from to calls h)),
              λ (c, e, rest).
                  let same : code ≡ c = ap code_of e in
                  (either_ret-zero (errno eio) (local_move ldb server w from to calls)).1
                    (inr (ground arith)),
            )
    ]
  ]

  -- A rename that returns 0 leaves what the local move leaves.
  renamed-world :
      (w : World ldb) (from to : Text) (calls : SetCalls) (remote : Option Ret)
      → (rename_answered ldb server w from to calls remote).0 ≡ returns 0
      → (rename_answered ldb server w from to calls remote).1
        ≡ (local_move ldb server w from to calls).1
  unfolding rename_answered either_ret
  renamed-world w from to calls none h = absurd (refused h)
  renamed-world w from to calls (some remote) h = refl

  -- The world that the local move begins with.
  abbrev pub asked : NameCalls → GotStat ldb → World ldb
  asked calls r = record (r.world) {
    saint = r.world.saint || is_request_bad (request server.nodes calls.attempts);
  }

  -- A rename of a file or directory that is there returns 0 exactly if a server answered the MOVE
  -- with a code below 400, or with 404 and the local move returned 0. It always returns. If both
  -- returned 0, then the attributes and the file that the old path (a directory's with a slash
  -- behind it) had in the caches are the new path's, and nothing is left there of the old one.
  pub dav_rename-Succeeds :
      (laws : IsLevelDb ldb) (config : Config) (w : World ldb) (from to : Text) (calls : NameCalls)
      (set : SetCalls) (r : GotStat ldb)
      → IsAbsolute from
      → IsAbsolute to
      → str_eq (moved_from (s_isdir r.st.st_mode) from) to ≡ false
      → get_stat ldb server config w from calls.stat ≡ some r
      → r.error ≡ none
      → (x : Ret × World ldb) × (dav_rename ldb server config w from to calls set ≡ some x)
        × ((x.0 ≡ returns 0)
            ↔ Succeeds
                (request server.nodes calls.attempts)
                (local_move ldb server
                  (asked calls r)
                  (moved_from (s_isdir r.st.st_mode) from)
                  to
                  set).0)
        × (x.0 ≡ returns 0
            → (local_move ldb server
                (asked calls r)
                (moved_from (s_isdir r.st.st_mode) from)
                to
                set).0
              ≡ returns 0
            → CachesMoved ldb (moved_from (s_isdir r.st.st_mode) from) to set (asked calls r) x.1)
  unfolding dav_rename rename_found
  dav_rename-Succeeds laws config w from to calls set r absolute_from absolute_to different got
        fine =
      let path = moved_from (s_isdir r.st.st_mode) from in
      let remote = server_ret (request server.nodes calls.attempts) in
      (
        rename_answered ldb server (asked calls r) path to set remote,
        rw (dav_rename, got) (rw (fine, rename_found) refl),
        rename_answered-Succeeds (asked calls r) path to set (request server.nodes calls.attempts),
        λ ended moved.
            subst (CachesMoved ldb path to set (asked calls r))
              (sym (renamed-world (asked calls r) path to set remote ended))
              (local_move-CachesMoved ldb laws server path to
                (moved_from-IsAbsolute (s_isdir r.st.st_mode) from absolute_from) absolute_to
                different (asked calls r) set moved),
      )
