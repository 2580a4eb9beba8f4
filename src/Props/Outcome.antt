-- ===== src/Props/Outcome.antt =====
-- The return value of `simple_propfind` of src/props.c and its error.
use fusedav.Prelude.{
  ℕ, sym, ◌≡◌, refl, Bool, true, false, Option, none, some, arith, ◌==◌, if◌then◌else◌,
}
use mathlib.Core.Option.{some-injective}
use fusedav.Text.{Text}
use fusedav.Structs.{GError}
use fusedav.FileCache.Fetch.{is_bad}
use fusedav.Props.{Libraries, zero_stat, Callback}
use fusedav.Props.Request.{
  PropfindCalls, PropfindRet, success, failed, stale, Propfind, PropfindResult, propfind_loop,
  propfind_response, propfind_end, simple_propfind, blank_state, gone,
}

-- The return value and the error belong together.
abbrev pub Reported : PropfindRet → Option GError → Type 0
Reported success error = error ≡ none
Reported failed error = (e : GError) × (error ≡ some e)
Reported stale error = error ≡ none

module _ {S : Type 0} (lib : Libraries) (base_url : Text) (callback : Callback S) where
  gone-Reported :
      (r : S × Option GError)
      → Reported (gone lib base_url callback r).ret (gone lib base_url callback r).error
  unfolding gone
  gone-Reported (userdata, none) = refl
  gone-Reported (userdata, some e) = (e, refl)

  abbrev ReportedResult : PropfindResult S → Type 0
  ReportedResult r = Reported r.ret r.error

  if-Reported :
      (b : Bool) (x y : PropfindResult S)
      → ReportedResult x
      → ReportedResult y
      → ReportedResult (if b then x else y)
  if-Reported true x y p q = p
  if-Reported false x y p q = q

  propfind_response-Reported :
      (calls : PropfindCalls) (path : Text) (s : Propfind S)
      → ReportedResult (propfind_response lib base_url callback calls path s)
  unfolding propfind_response
  propfind_response-Reported calls path s =
      if-Reported (is_bad s.res_ok s.response_code) _ _ (_, refl)
        (if-Reported (s.response_code == 207) _ _
          (if-Reported s.state.failure _ _ (_, refl) (if-Reported calls.final _ _ refl (_, refl)))
          (if-Reported (s.response_code == 404) _ _
            (gone-Reported (callback s.state.userdata path zero_stat 410))
            (if-Reported (s.response_code == 412) _ _ refl (_, refl))))

  propfind_end-Reported :
      (calls : PropfindCalls) (path : Text) (r : Propfind S × Bool)
      → ReportedResult (propfind_end lib base_url callback calls path r)
  unfolding propfind_end
  propfind_end-Reported calls path (s, true) = (_, refl)
  propfind_end-Reported calls path (s, false) = propfind_response-Reported calls path s

  -- A PROPFIND that fails sets an error, one that succeeds or finds its last update too old sets
  -- none.
  pub simple_propfind-Reported :
      (nodes : ℕ) (calls : PropfindCalls) (path : Text) (userdata : S) (r : PropfindResult S)
      → simple_propfind lib base_url callback nodes calls path userdata ≡ some r
      → Reported r.ret r.error
  unfolding simple_propfind
  simple_propfind-Reported nodes calls path userdata r h =
      go
        (propfind_loop lib base_url callback calls nodes 0 (record {
          res_ok = true;
          response_code = 500;
          state = blank_state lib base_url callback userdata;
        }))
        h
    where
      go :
          (o : Option (Propfind S × Bool))
          → (elim o [
            | none ↦ none
            | some x ↦ some (propfind_end lib base_url callback calls path x)
          ])
            ≡ some r
          → Reported r.ret r.error
      go none e = absurd (ground arith)
      go (some x) e = rw (sym (some-injective _ _ e)) (propfind_end-Reported calls path x)
