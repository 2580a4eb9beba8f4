-- ===== src/Props/Request.antt =====
-- `simple_propfind` of src/props.c. What the servers answer is a parameter, and so is what expat
-- makes of it.
use fusedav.Prelude.{
  ℕ, zero, suc, Bool, true, false, not, Option, none, some, List, ◌==◌, if◌then◌else◌,
}
use fusedav.Text.{Text}
use fusedav.Structs.{GError, g_error, props_domain, enetdown, eio}
use fusedav.FileCache.Fetch.{is_bad}
use fusedav.Props.{
  Libraries, PropfindState, zero_response, zero_stat, XmlEvent, Callback, run_events,
}

-- One PROPFIND: whether there is a session, the events of what was parsed, whether all of it was
-- parsed, and the code of the response (`none` where curl fails).
pub record PropfindAttempt : Type 0 where
  pub session : Bool
  pub events : List XmlEvent
  pub parsed : Bool
  pub performed : Option ℕ

-- The attempts, whether the last call of the parser succeeds, and the time of day for an attempt's
-- responses.
pub record PropfindCalls : Type 0 where
  pub attempts : ℕ → PropfindAttempt
  pub final : Bool
  pub now : ℕ → ℕ

-- 0, -1, and -ESTALE
pub data PropfindRet : Type 0 where
  success failed stale : PropfindRet

pub record Propfind (S : Type 0) : Type 0 where
  pub res_ok : Bool
  pub response_code : ℕ
  pub state : PropfindState S

pub record PropfindResult (S : Type 0) : Type 0 where
  pub userdata : S
  pub ret : PropfindRet
  pub error : Option GError
  pub saint : Bool

module _ {S : Type 0} (lib : Libraries) (base_url : Text) (callback : Callback S) where
  abbrev pub blank_state : S → PropfindState S
  blank_state userdata = record {
    userdata = userdata;
    rstate = zero_response;
    current_data = none;
    failure = false;
  }

  unfoldable pub perform : Propfind S → PropfindAttempt → PropfindState S → Propfind S
  perform s attempt state = elim attempt.performed [
    | none ↦ record s { res_ok = false; state = record state { failure = not attempt.parsed } }
    | some code ↦ record {
      res_ok = true;
      response_code = code;
      state = record state { failure = not attempt.parsed };
    }
  ]

  -- The callback is called while the response comes in, also if the request fails in the end.
  unfoldable pub propfind_once : ℕ → Propfind S → PropfindAttempt → Option (Propfind S)
  unfolding perform
  propfind_once now s attempt =
      elim (run_events lib base_url callback now (blank_state s.state.userdata) attempt.events) [
        | none ↦ none
        | some state ↦ some (perform s attempt state)
      ]

  -- The variables at the end, and whether the loop ended without a session.
  unfoldable pub propfind_loop : PropfindCalls → ℕ → ℕ → Propfind S → Option (Propfind S × Bool)
  unfolding propfind_once is_bad
  propfind_loop calls zero idx s = some (s, false)
  propfind_loop calls (suc nodes) idx s =
      if is_bad s.res_ok s.response_code
      then (if (calls.attempts idx).session
          then (elim (propfind_once (calls.now idx) s (calls.attempts idx)) [
            | none ↦ none
            | some t ↦ propfind_loop calls nodes (suc idx) t
          ])
          else some (s, true))
      else some (s, false)

  abbrev fails : S → ℕ → Bool → PropfindResult S
  fails userdata code saint = record {
    userdata = userdata;
    ret = failed;
    error = g_error props_domain code;
    saint = saint;
  }

  abbrev succeeds : S → PropfindResult S
  succeeds userdata = record { userdata = userdata; ret = success; error = none; saint = false }

  -- The callback is told that the path is gone.
  unfoldable pub gone : S × Option GError → PropfindResult S
  gone (userdata, none) = succeeds userdata
  gone (userdata, some e) = record {
    userdata = userdata;
    ret = failed;
    error = some e;
    saint = false;
  }

  unfoldable pub propfind_response : PropfindCalls → Text → Propfind S → PropfindResult S
  unfolding gone is_bad
  propfind_response calls path s =
      if is_bad s.res_ok s.response_code
      then fails s.state.userdata enetdown true
      else if s.response_code == 207
      then (if s.state.failure
          then fails s.state.userdata eio false
          else if calls.final
          then succeeds s.state.userdata
          else fails s.state.userdata eio false)
      else if s.response_code == 404
      then gone (callback s.state.userdata path zero_stat 410)
      else if s.response_code == 412
      then record { userdata = s.state.userdata; ret = stale; error = none; saint = false }
      else fails s.state.userdata eio false

  unfoldable pub propfind_end : PropfindCalls → Text → Propfind S × Bool → PropfindResult S
  unfolding propfind_response
  propfind_end calls path (s, true) = fails s.state.userdata enetdown false
  propfind_end calls path (s, false) = propfind_response calls path s

  -- `nodes` is `num_filesystem_server_nodes`. Depth and `last_updated` only go into the request.
  unfoldable pub simple_propfind : ℕ → PropfindCalls → Text → S → Option (PropfindResult S)
  unfolding propfind_loop propfind_end
  simple_propfind nodes calls path userdata =
      elim (propfind_loop calls nodes 0
        (record { res_ok = true; response_code = 500; state = blank_state userdata })) [
          | none ↦ none
          | some r ↦ some (propfind_end calls path r)
        ]
