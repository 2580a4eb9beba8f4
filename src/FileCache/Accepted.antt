-- ===== src/FileCache/Accepted.antt =====
-- A PUT that `put_return_etag` reports as a success.
use fusedav.Prelude.{
  ℕ, zero, suc, ◌+◌, ◌≤◌, ◌<◌, ◌≡◌, ◌⊎◌, inl, inr, refl, true, false, Option, none, some, [], arith,
  Bool-cases, Option-cases,
}
use fusedav.Text.{Text}
use fusedav.Structs.{GError, g_error, system}
use fusedav.FileCache.{OsResult, ok, fails, first_error}
use fusedav.FileCache.Entry.{capture_etags}
use fusedav.FileCache.Io.{errno_error}
use fusedav.FileCache.Fetch.{is_bad}
use fusedav.FileCache.Put.{
  Put, PutAttempt, PutCalls, PutResult, put_perform, put_once, put_loop, put_error, put_locked,
  put_return_etag,
}

error_none :
    (r : Put × Option GError)
    → (put_error r).0 ≡ none
    → (r.1 ≡ none)
      × (is_bad r.0.res_ok r.0.response_code ≡ false)
      × (200 ≤ r.0.response_code)
      × (r.0.response_code < 300)
unfolding put_error is_bad
error_none (s, some e) h = absurd (ground arith)
error_none (s, none) h = ground arith

first_error-none : (a b : Option GError) → first_error a b ≡ none → a ≡ none
unfolding first_error
first_error-none none b h = refl
first_error-none (some e) b h = h

module _ (attempts : ℕ → PutAttempt) (nodes : ℕ) where
  -- A server answered with this code, and its header gave this etag.
  pub record Answered (code : ℕ) (etag : Text) : Type 0 where
    pub node : ℕ
    pub asked : node < nodes
    pub performed : (attempts node).performed ≡ some code
    pub captured : etag ≡ capture_etags (attempts node).headers []

  abbrev Outcome : Put → Type 0
  Outcome s = (is_bad s.res_ok s.response_code ≡ true) ⊎ Answered s.response_code s.etag

  perform-Outcome :
      (s : Put) (i : ℕ) (r : Option ℕ)
      → i < nodes
      → (attempts i).performed ≡ r
      → Outcome (put_perform s (attempts i))
  unfolding put_perform is_bad
  perform-Outcome s i none l e = inl (rw (e, put_perform) refl)
  perform-Outcome s i (some code) l e =
      inr (rw (e, put_perform) (record { node = i; asked = l; performed = e; captured = refl }))

  once-Outcome :
      (s : Put) (i : ℕ)
      → i < nodes
      → (put_once s (attempts i)).1 ≡ none
      → Outcome (put_once s (attempts i)).0
  unfolding put_once
  once-Outcome s i l = go (attempts i).fdopen (attempts i).fseek refl refl
    where
      go :
          (a b : OsResult (Unit {0}))
          → (attempts i).fdopen ≡ a
          → (attempts i).fseek ≡ b
          → (put_once s (attempts i)).1 ≡ none
          → Outcome (put_once s (attempts i)).0
      go (fails errno) b e f = rw (e, put_once) (λ h. absurd (ground arith))
      go (ok u) (fails errno) e f = rw (e, f, put_once) (λ h. absurd (ground arith))
      go (ok u) (ok v) e f =
          rw (e, f, put_once) (λ h. perform-Outcome s i (attempts i).performed l refl)

  loop-Outcome :
      (left idx : ℕ) (s : Put)
      → idx + left ≤ nodes
      → Outcome s
      → (put_loop attempts left idx s).1 ≡ none
      → Outcome (put_loop attempts left idx s).0
  unfolding put_loop
  loop-Outcome zero idx s l o = λ h. o
  loop-Outcome (suc left) idx s l o = elim (Bool-cases (is_bad s.res_ok s.response_code)) [
    | inr good ↦ rw (good, put_loop) (λ h. o)
    | inl bad ↦ elim (Option-cases (put_once s (attempts idx)).1) [
      | inr (x, e) ↦ rw (bad, e, put_loop) (λ h. absurd (ground arith))
      | inl e ↦
          rw (bad, e, put_loop)
            (loop-Outcome left (suc idx) (put_once s (attempts idx)).0 (omega arith)
              (once-Outcome s idx (omega arith) e))
    ]
  ]

-- One of the servers answered with a code from 200 to 299, and the etag is the one of that response.
pub record Accepted (attempts : ℕ → PutAttempt) (nodes : ℕ) (result : PutResult) : Type 0 where
  pub code : ℕ
  pub ok_code : (200 ≤ code) × (code < 300)
  pub answered : Answered attempts nodes code result.etag

module _ (nodes : ℕ) (etag : Text) (calls : PutCalls) where
  locked-Accepted :
      (put_locked nodes etag calls).error ≡ none
      → Accepted calls.attempts nodes (put_locked nodes etag calls)
  unfolding put_locked
  locked-Accepted = go calls.fstat refl
    where
      start : Put
      start = record { res_ok = true; response_code = 500; etag = etag }

      go :
          (f : OsResult (Unit {0}))
          → calls.fstat ≡ f
          → (put_locked nodes etag calls).error ≡ none
          → Accepted calls.attempts nodes (put_locked nodes etag calls)
      go (fails errno) e =
          rw (e, put_locked)
            (λ h. absurd (
              ground (arith, first_error-none (g_error system errno) (errno_error calls.unlock) h)))
      go (ok u) e =
          rw (e, put_locked)
            (λ h.
              let (quiet, good, low, high) = error_none (put_loop calls.attempts nodes 0 start) (
                first_error-none (put_error (put_loop calls.attempts nodes 0 start)).0
                  (errno_error calls.unlock) h) in
              elim (loop-Outcome calls.attempts nodes nodes 0 start (omega arith)
                (inl (unfold is_bad in refl)) quiet) [
                  | inl bad ↦ absurd (ground (arith, bad, good))
                  | inr answered ↦ record {
                    code = (put_loop calls.attempts nodes 0 start).0.response_code;
                    ok_code = (low, high);
                    answered = answered;
                  }
                ])

  -- A PUT that is reported without an error was answered by one of the servers with a code from 200
  -- to 299, and the etag that is returned is the one of that response.
  pub put_return_etag-Accepted :
      (put_return_etag nodes etag calls).error ≡ none
      → Accepted calls.attempts nodes (put_return_etag nodes etag calls)
  unfolding put_return_etag
  put_return_etag-Accepted = go calls.lock refl
    where
      go :
          (l : OsResult (Unit {0}))
          → calls.lock ≡ l
          → (put_return_etag nodes etag calls).error ≡ none
          → Accepted calls.attempts nodes (put_return_etag nodes etag calls)
      go (fails errno) e = rw (e, put_return_etag) (λ h. absurd (ground arith))
      go (ok u) e = rw (e, put_return_etag) locked-Accepted
