-- ===== src/Props/Elements.antt =====
-- The elements of a response, as the handlers of src/props.c take them.
use fusedav.Prelude.{ℕ, ◌≡◌, refl, ap, ◌∙◌, Option, none, some, List, [], ◌∷◌, ◌++◌, map, arith}
use mathlib.Core.Option.{some-injective}
use mathlib.Core.List.{append-nil, append_assoc}
use fusedav.Text.{Text, codes, str_eq}
use fusedav.Text.Decimal.{utoa, strtol}
use fusedav.Structs.{Stat}
use fusedav.Props.Status.{status_line, second_token-status_line, as_unsigned-utoa}
use fusedav.Props.{
  Libraries, PropfindState, XmlEvent, characters, end, Callback, run_events, handle, start_element,
  character_data_handler, end_element, end_branch, end_text, end_status, end_href, end_length,
  end_modified, href_path, as_length, as_unsigned, second_token,
}
use fusedav.Props.Entries.{whole, text_element}

module _ {S : Type 0} (lib : Libraries) (base_url : Text) (callback : Callback S) (now : ℕ) where
  abbrev pub run : PropfindState S → List XmlEvent → Option (PropfindState S)
  run = run_events lib base_url callback now

  abbrev pub go_on : Option (PropfindState S) → List XmlEvent → Option (PropfindState S)
  go_on none es = none
  go_on (some state) es = run state es

  run-end :
      (state : PropfindState S) (name : Text) (es : List XmlEvent)
      → run state (end name ∷ es) ≡ go_on (end_element lib base_url callback now state name) es
  unfolding run_events handle
  run-end state name es = go (end_element lib base_url callback now state name)
    where
      go :
          (o : Option (PropfindState S))
          → (elim o [ none ↦ none | some after ↦ run after es ]) ≡ go_on o es
      go none = refl
      go (some after) = refl

  characters_lem :
      (state : PropfindState S) (text : Text) (pieces : List Text) (es : List XmlEvent)
      → run (record state { current_data = some text }) (map characters pieces ++ es)
        ≡ run (record state { current_data = some (text ++ whole pieces) }) es
  unfolding run_events handle character_data_handler whole
  characters_lem state text [] es = rw (append-nil text) refl
  characters_lem state text (piece ∷ pieces) es =
      characters_lem state (text ++ piece) pieces es
      ∙ ap (λ t. run (record state { current_data = some t }) es)
          (append_assoc text piece (whole pieces))

  -- An element with a text ends with that text, however it was cut.
  text_element_lem :
      (state : PropfindState S) (name : Text) (pieces : List Text) (es : List XmlEvent)
      → run state (text_element name pieces es)
        ≡ go_on
            (end_element lib base_url callback now
              (record state { current_data = some (whole pieces) })
              name)
            es
  text_element_lem state name pieces es =
      unfold text_element run_events handle start_element in
      (characters_lem state [] pieces (end name ∷ es)
        ∙ run-end (record state { current_data = some (whole pieces) }) name es)

  -- The state behind the elements of an entry.
  abbrev pub with_stat : PropfindState S → Stat → PropfindState S
  with_stat state st = record state {
    rstate = record (state.rstate) { st = st };
    current_data = none;
  }

  -- The end of an element of which a state is left.
  abbrev closed : Option (PropfindState S) → Option (PropfindState S)
  closed none = none
  closed (some after) = some (record after { current_data = none })

  abbrev with_path : PropfindState S → Option Text → Option (PropfindState S)
  with_path state none = none
  with_path state (some path) =
      some (record state { rstate = record (state.rstate) { path = path } })

  end-href :
      (state : PropfindState S) (text : Text)
      → end_element lib base_url callback now
          (record state { current_data = some text })
          (codes "DAV:href")
        ≡ closed (
            with_path
              (record state { current_data = some text })
              (href_path lib base_url callback now text))
  unfolding end_element end_branch end_text end_href str_eq
  end-href state text = refl

  pub href_lem :
      (state : PropfindState S) (pieces : List Text) (path : Text) (es : List XmlEvent)
      → href_path lib base_url callback now (whole pieces) ≡ some path
      → run state (text_element (codes "DAV:href") pieces es)
        ≡ run
            (record state { rstate = record (state.rstate) { path = path }; current_data = none })
            es
  href_lem state pieces path es e =
      text_element_lem state (codes "DAV:href") pieces es
      ∙ ap (λ o. go_on o es)
          (end-href state (whole pieces)
            ∙ ap (λ o. closed (with_path (record state { current_data = some (whole pieces) }) o))
                e)

  pub contentlength_lem :
      (state : PropfindState S) (pieces : List Text) (es : List XmlEvent)
      → run state (text_element (codes "DAV:getcontentlength") pieces es)
        ≡ run
            (with_stat state
              (record (state.rstate.st) { st_size = as_length (strtol (whole pieces)) }))
            es
  contentlength_lem state pieces es =
      text_element_lem state (codes "DAV:getcontentlength") pieces es
      ∙ unfold end_element end_branch end_text end_length str_eq in refl

  pub lastmodified_lem :
      (state : PropfindState S) (pieces : List Text) (es : List XmlEvent)
      → run state (text_element (codes "DAV:getlastmodified") pieces es)
        ≡ run
            (with_stat state (record (state.rstate.st) {
              st_mtime = lib.getdate (whole pieces);
              st_atime = lib.getdate (whole pieces);
            }))
            es
  lastmodified_lem state pieces es =
      text_element_lem state (codes "DAV:getlastmodified") pieces es
      ∙ unfold end_element end_branch end_text end_modified str_eq in refl

  end_status_lem :
      (state : PropfindState S) (text : Text) (code : ℕ) (reason : Text)
      → text ≡ status_line code reason
      → end_status lib base_url callback now state text
        ≡ some (record state { rstate = record (state.rstate) { status_code = code } })
  unfolding end_status
  end_status_lem state text code reason e =
      go (second_token text) (ap second_token e ∙ second_token-status_line code reason)
    where
      go :
          (o : Option Text)
          → o ≡ some (utoa code ++ 32 ∷ reason)
          → (elim o [
            | none ↦ none
            | some token ↦ some (record state {
              rstate = record (state.rstate) { status_code = as_unsigned (strtol token) };
            })
          ])
            ≡ some (record state { rstate = record (state.rstate) { status_code = code } })
      go none f = absurd (ground arith)
      go (some token) f =
          ap (λ n. some (record state { rstate = record (state.rstate) { status_code = n } }))
            (ap (λ t. as_unsigned (strtol t)) (some-injective _ _ f) ∙ as_unsigned-utoa code reason)

  end-status :
      (state : PropfindState S) (text : Text)
      → end_element lib base_url callback now
          (record state { current_data = some text })
          (codes "DAV:status")
        ≡ closed
            (end_status lib base_url callback now (record state { current_data = some text }) text)
  unfolding end_element end_branch end_text str_eq
  end-status state text = refl

  pub status_lem :
      (state : PropfindState S) (pieces : List Text) (code : ℕ) (reason : Text) (es : List XmlEvent)
      → whole pieces ≡ status_line code reason
      → run state (text_element (codes "DAV:status") pieces es)
        ≡ run
            (record state {
              rstate = record (state.rstate) { status_code = code };
              current_data = none;
            })
            es
  status_lem state pieces code reason es e =
      text_element_lem state (codes "DAV:status") pieces es
      ∙ ap (λ o. go_on o es)
          (end-status state (whole pieces)
            ∙ ap closed (end_status_lem _ (whole pieces) code reason e))
