-- ===== src/Props/Down.antt =====
-- `simple_propfind` of src/props.c with servers that all fail.
use fusedav.Prelude.{
  ℕ, sym, subst, zero, suc, ◌≤◌, ◌≡◌, ◌⊎◌, refl, inl, inr, Bool, true, false, Option, none, some,
  arith,
}
use fusedav.Text.{Text}
use fusedav.Structs.{g_error, props_domain, enetdown}
use fusedav.FileCache.Fetch.{is_bad}
use fusedav.Props.{Libraries, PropfindState, Callback, run_events}
use fusedav.Props.Request.{
  PropfindAttempt, PropfindCalls, failed, Propfind, PropfindResult, propfind_once, propfind_loop,
  propfind_response, propfind_end, simple_propfind, blank_state, perform,
}

-- A server that fails: an error of curl, or a code from 500 on, whatever came in before that.
abbrev pub Fails : PropfindAttempt → Type 0
Fails attempt =
    (attempt.performed ≡ none) ⊎ ((code : ℕ) × (attempt.performed ≡ some code) × (500 ≤ code))

module _ {S : Type 0} (lib : Libraries) (base_url : Text) (callback : Callback S) where
  -- The events of an attempt leave the parser with a state.
  abbrev pub Parses : ℕ → PropfindAttempt → Type 0
  Parses now attempt =
      (userdata : S)
      → (state : PropfindState S) × (run_events lib base_url callback now
            (blank_state lib base_url callback userdata) attempt.events
          ≡ some state)

  perform-Fails :
      (s : Propfind S) (attempt : PropfindAttempt) (state : PropfindState S)
      → Fails attempt
      → is_bad
          (perform lib base_url callback s attempt state).res_ok
          (perform lib base_url callback s attempt state).response_code
        ≡ true
  unfolding perform is_bad
  perform-Fails s attempt state (inl e) = rw e refl
  perform-Fails s attempt state (inr (code, e, le)) = rw e (ground arith)

  -- The loop over servers that fail ends with a bad answer.
  abbrev Bad : Option (Propfind S × Bool) → Type 0
  Bad o = (t : Propfind S) × (o ≡ some (t, false)) × (is_bad t.res_ok t.response_code ≡ true)

  propfind_loop-Bad :
      (calls : PropfindCalls) (nodes idx : ℕ) (s : Propfind S)
      → ((i : ℕ)
          → ((calls.attempts i).session ≡ true)
            × Fails (calls.attempts i)
            × Parses (calls.now i) (calls.attempts i))
      → is_bad s.res_ok s.response_code ≡ true
      → Bad (propfind_loop lib base_url callback calls nodes idx s)
  unfolding propfind_loop propfind_once
  propfind_loop-Bad calls zero idx s all bad = (s, refl, bad)
  propfind_loop-Bad calls (suc nodes) idx s all bad =
      let (session, down, parses) = all idx in
      let (state, parsed) = parses s.state.userdata in
      rw (bad, session, parsed)
        (propfind_loop-Bad calls nodes (suc idx)
          (perform lib base_url callback s (calls.attempts idx) state) all
          (perform-Fails s (calls.attempts idx) state down))

  Down : PropfindCalls → Text → Option (Propfind S × Bool) → Type 0
  Down calls path o =
      (r : PropfindResult S) × ((elim o [
        | none ↦ none
        | some x ↦ some (propfind_end lib base_url callback calls path x)
      ])
        ≡ some r)
      × (r.ret ≡ failed)
      × (r.error ≡ g_error props_domain enetdown)
      × (r.saint ≡ true)

  end-Down :
      (calls : PropfindCalls) (path : Text) (t : Propfind S)
      → is_bad t.res_ok t.response_code ≡ true
      → Down calls path (some (t, false))
  unfolding Down propfind_end propfind_response
  end-Down calls path t bad = (
    propfind_end lib base_url callback calls path (t, false),
    refl,
    rw bad refl,
    rw bad refl,
    rw bad refl,
  )

  -- If all servers fail, so does the PROPFIND, with ENETDOWN, and saint mode begins.
  pub simple_propfind-down :
      (nodes : ℕ) (calls : PropfindCalls) (path : Text) (userdata : S)
      → ((i : ℕ)
          → ((calls.attempts i).session ≡ true)
            × Fails (calls.attempts i)
            × Parses (calls.now i) (calls.attempts i))
      → (r : PropfindResult S) × (simple_propfind lib base_url callback nodes calls path userdata
          ≡ some r)
        × (r.ret ≡ failed)
        × (r.error ≡ g_error props_domain enetdown)
        × (r.saint ≡ true)
  unfolding simple_propfind Down
  simple_propfind-down nodes calls path userdata all =
      let first : Propfind S = record {
        res_ok = true;
        response_code = 500;
        state = blank_state lib base_url callback userdata;
      } in
      let (t, e, bad) = propfind_loop-Bad calls nodes 0 first all (unfold is_bad in refl) in
      subst (Down calls path) (sym e) (end-Down calls path t bad)
