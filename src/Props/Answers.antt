-- ===== src/Props/Answers.antt =====
-- The answers that a success of `simple_propfind` of src/props.c rests on.
use fusedav.Prelude.{
  ℕ, ◌+◌, sym, ap, ◌∙◌, subst, zero, suc, ◌<◌, ◌≤◌, ◌≡◌, ◌⊎◌, refl, inl, inr, Bool, true, false,
  not, Option, none, some, arith, ◌==◌, Bool-cases, Option-cases,
}
use mathlib.Core.Bool.{true≢false}
use mathlib.Core.Option.{some-injective}
use fusedav.Text.{Text}
use fusedav.FileCache.Fetch.{is_bad}
use fusedav.Props.{Libraries, PropfindState, Callback, run_events}
use fusedav.Props.Request.{
  PropfindAttempt, PropfindCalls, success, Propfind, PropfindResult, propfind_once, propfind_loop,
  propfind_response, propfind_end, simple_propfind, blank_state, perform,
}

-- A success rests on a server's answer.
abbrev pub Supported : PropfindCalls → ℕ → Type 0
Supported calls nodes =
    (i : ℕ) × (i < nodes)
    × ((((calls.attempts i).performed ≡ some 207)
          × ((calls.attempts i).parsed ≡ true)
          × (calls.final ≡ true))
        ⊎ ((calls.attempts i).performed ≡ some 404))

module _ {S : Type 0} (lib : Libraries) (base_url : Text) (callback : Callback S) where
  -- An attempt that answered with a code, and what that leaves.
  abbrev Answered : PropfindCalls → ℕ → Propfind S → Type 0
  Answered calls i s =
      ((calls.attempts i).performed ≡ some s.response_code)
      × (s.state.failure ≡ not (calls.attempts i).parsed)

  abbrev Answer : PropfindCalls → ℕ → Propfind S → Type 0
  Answer calls bound s =
      is_bad s.res_ok s.response_code ≡ false → (i : ℕ) × (i < bound) × Answered calls i s

  perform-Answered :
      (s : Propfind S) (attempt : PropfindAttempt) (state : PropfindState S)
      → is_bad
          (perform lib base_url callback s attempt state).res_ok
          (perform lib base_url callback s attempt state).response_code
        ≡ false
      → (attempt.performed ≡ some (perform lib base_url callback s attempt state).response_code)
        × ((perform lib base_url callback s attempt state).state.failure ≡ not attempt.parsed)
  unfolding perform is_bad
  perform-Answered s attempt state = go attempt.performed
    where
      go :
          (p : Option ℕ)
          → (let t : Propfind S =
                perform lib base_url callback s (record attempt { performed = p }) state in
              is_bad t.res_ok t.response_code ≡ false
              → (p ≡ some t.response_code) × (t.state.failure ≡ not attempt.parsed))
      go none h = absurd (ground arith)
      go (some code) h = (refl, refl)

  once-Answered :
      (calls : PropfindCalls) (idx : ℕ) (s t : Propfind S)
      → propfind_once lib base_url callback (calls.now idx) s (calls.attempts idx) ≡ some t
      → is_bad t.res_ok t.response_code ≡ false
      → Answered calls idx t
  unfolding propfind_once
  once-Answered calls idx s t h good =
      go
        (run_events lib base_url callback (calls.now idx)
          (blank_state lib base_url callback s.state.userdata) (calls.attempts idx).events)
        h
    where
      go :
          (o : Option (PropfindState S))
          → (elim o [
            | none ↦ none
            | some state ↦ some (perform lib base_url callback s (calls.attempts idx) state)
          ])
            ≡ some t
          → Answered calls idx t
      go none e = absurd (ground arith)
      go (some state) e =
          let same = some-injective _ _ e in
          rw (sym same) (perform-Answered s (calls.attempts idx) state (rw same good))

  Answer-more :
      (calls : PropfindCalls) (b c : ℕ) (s t : Propfind S)
      → s ≡ t
      → b ≤ c
      → Answer calls b s
      → Answer calls c t
  Answer-more calls b c s t e le answer =
      subst (Answer calls c) e
        (λ good. let (i, lt, rest) = answer good in (i, omega (arith, lt, le), rest))

  -- What the loop ends with, if it did not end without a session.
  Ends : PropfindCalls → ℕ → ℕ → Propfind S → Propfind S → Type 0
  Ends calls nodes idx s t =
      propfind_loop lib base_url callback calls nodes idx s ≡ some (t, false)
      → Answer calls idx s
      → Answer calls (idx + nodes) t

  propfind_loop-next :
      (calls : PropfindCalls) (nodes idx : ℕ) (s t : Propfind S)
      → is_bad s.res_ok s.response_code ≡ true
      → (calls.attempts idx).session ≡ true
      → ((u : Propfind S) → Ends calls nodes (suc idx) u t)
      → Ends calls (suc nodes) idx s t
  unfolding propfind_loop Ends
  propfind_loop-next calls nodes idx s t e f ih =
      elim (Option-cases
        (propfind_once lib base_url callback (calls.now idx) s (calls.attempts idx))) [
          | inl g ↦ rw (e, f, g) (λ h. absurd (ground arith))
          | inr (u, g) ↦
              rw (e, f, g)
                (λ h before.
                  Answer-more calls (suc idx + nodes) (idx + suc nodes) t t refl (omega arith)
                    (ih u h (λ good. (idx, omega arith, once-Answered calls idx s u g good))))
        ]

  propfind_loop-Answer :
      (calls : PropfindCalls) (nodes idx : ℕ) (s t : Propfind S) → Ends calls nodes idx s t
  unfolding propfind_loop Ends
  propfind_loop-Answer calls zero idx s t = λ h.
      Answer-more calls idx (idx + zero) s t (ap (λ p. p.0) (some-injective _ _ h)) (omega arith)
  propfind_loop-Answer calls (suc nodes) idx s t =
      elim (Bool-cases (is_bad s.res_ok s.response_code)) [
        | inr e ↦
            let stop : propfind_loop lib base_url callback calls (suc nodes) idx s
                ≡ some (s, false) =
              rw e refl in
            λ h.
              Answer-more calls idx (idx + suc nodes) s t
                (ap (λ p. p.0) (some-injective _ _ (sym stop ∙ h))) (omega arith)
        | inl e ↦ elim (Bool-cases (calls.attempts idx).session) [
          | inr f ↦ rw (e, f) (λ h. absurd (true≢false (ap (λ p. p.1) (some-injective _ _ h))))
          | inl f ↦
              propfind_loop-next calls nodes idx s t e f
                (λ u. propfind_loop-Answer calls nodes (suc idx) u t)
        ]
      ]

  response-Supported :
      (calls : PropfindCalls) (nodes : ℕ) (path : Text) (t : Propfind S)
      → Answer calls nodes t
      → (propfind_response lib base_url callback calls path t).ret ≡ success
      → Supported calls nodes
  unfolding propfind_response
  response-Supported calls nodes path t answer =
      elim (Bool-cases (is_bad t.res_ok t.response_code)) [
        | inl e ↦ rw e (λ h. absurd (ground arith))
        | inr e ↦
            let (i, lt, (code, failure)) = answer e in
            elim (Bool-cases (t.response_code == 207)) [
              | inl f ↦
                  rw (e, f, failure)
                    (elim (Bool-cases (calls.attempts i).parsed) [
                      | inr p ↦ rw p (λ h. absurd (ground arith))
                      | inl p ↦ rw p (elim (Bool-cases calls.final) [
                        | inr q ↦ rw q (λ h. absurd (ground arith))
                        | inl q ↦ λ h. (i, lt, inl (code ∙ ap some (ground arith), p, q))
                      ])
                    ])
              | inr f ↦
                  rw (e, f)
                    (elim (Bool-cases (t.response_code == 404)) [
                      | inl g ↦ λ h. (i, lt, inr (code ∙ ap some (ground arith)))
                      | inr g ↦ rw g (λ h. absurd (ground arith))
                    ])
            ]
      ]

  end-Supported :
      (calls : PropfindCalls) (nodes : ℕ) (path : Text) (x : Propfind S × Bool)
      → (x.1 ≡ false → Answer calls nodes x.0)
      → (propfind_end lib base_url callback calls path x).ret ≡ success
      → Supported calls nodes
  unfolding propfind_end
  end-Supported calls nodes path (t, true) answer h = absurd (ground arith)
  end-Supported calls nodes path (t, false) answer h =
      response-Supported calls nodes path t (answer refl) h

  -- A PROPFIND that succeeds has an attempt that a server answered: with a 207 whose document was
  -- parsed to its end, or with a 404.
  pub simple_propfind-Supported :
      (nodes : ℕ) (calls : PropfindCalls) (path : Text) (userdata : S) (r : PropfindResult S)
      → simple_propfind lib base_url callback nodes calls path userdata ≡ some r
      → r.ret ≡ success
      → Supported calls nodes
  unfolding simple_propfind Ends
  simple_propfind-Supported nodes calls path userdata r h ret =
      go (propfind_loop lib base_url callback calls nodes 0 first)
        (λ t e answer.
          Answer-more calls (0 + nodes) nodes t t refl (omega arith)
            (propfind_loop-Answer calls nodes 0 first t e answer))
        h
    where
      first : Propfind S
      first = record {
        res_ok = true;
        response_code = 500;
        state = blank_state lib base_url callback userdata;
      }

      go :
          (o : Option (Propfind S × Bool))
          → ((t : Propfind S) → o ≡ some (t, false) → Answer calls 0 first → Answer calls nodes t)
          → (elim o [
            | none ↦ none
            | some x ↦ some (propfind_end lib base_url callback calls path x)
          ])
            ≡ some r
          → Supported calls nodes
      go none answer e = absurd (ground arith)
      go (some (t, b)) answer e =
          end-Supported calls nodes path (t, b)
            (λ good. answer t (ap (λ c. some (t, c)) good) (λ bad. absurd (true≢false bad)))
            (ap (λ x. x.ret) (some-injective _ _ e) ∙ ret)
