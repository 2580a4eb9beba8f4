-- ===== src/Props/Tests.antt =====
-- Concrete inputs for the theorems on src/props.c.
use fusedav.Prelude.{
  ◌≡◌, refl, inr, true, false, Option, none, some, List, [], ◌∷◌, ◌++◌, ◌↔◌, arith, if◌then◌else◌,
}
use fusedav.Text.{Text, codes, str_eq}
use fusedav.Text.Decimal.{utoa}
use fusedav.Structs.{g_error, props_domain, enetdown}
use fusedav.Props.{
  Libraries, zero_response, Callback, run_events, end_element, character_data_handler,
}
use fusedav.Props.Relative.{get_relative_path, get_relative_path_iff, slashed}
use fusedav.Props.Request.{
  PropfindCalls, PropfindResult, simple_propfind, blank_state, success, failed,
}
use fusedav.Props.Entries.{Entry, document, whole}
use fusedav.Props.Located.{AllNames}
use fusedav.Props.Listing.{all_listed, run_events-document}
use fusedav.Props.Outcome.{Reported, simple_propfind-Reported}
use fusedav.Props.Answers.{Supported, simple_propfind-Supported}
use fusedav.Props.Down.{simple_propfind-down}
use fusedav.Props.Gaps.{end_element-characters}

abbrev segments : Text → Option (List Text)
segments url =
    if str_eq url (codes "/base")
    then some (codes "base" ∷ [])
    else if str_eq url (codes "/base/dir/")
    then some (codes "base" ∷ codes "dir" ∷ [] ∷ [])
    else some (codes "base" ∷ codes "dir" ∷ codes "f" ∷ [])

abbrev texts : Libraries
texts = record {
  uri_segments = segments;
  unescape = λ t. t;
  getdate = λ t. 7;
  creation_time = λ t. 7;
}

-- The callback notes the paths.
abbrev note_path : Callback (List Text)
note_path seen path st code = (path ∷ seen, none)

abbrev file_entry : Entry
file_entry = record {
  href = codes "/ba" ∷ codes "se/dir/f" ∷ [];
  names = codes "dir" ∷ codes "f" ∷ [];
  slash_end = false;
  is_dir = false;
  contentlength = codes "1" ∷ codes "2" ∷ [];
  lastmodified = codes "Sun" ∷ [];
  status = codes "HTTP/1.1 20" ∷ codes "0 OK" ∷ [];
  code = 200;
  reason = codes "OK";
}

abbrev dir_entry : Entry
dir_entry = record {
  href = codes "/base/dir/" ∷ [];
  names = codes "dir" ∷ [];
  slash_end = true;
  is_dir = true;
  contentlength = [];
  lastmodified = codes "Sun" ∷ [];
  status = codes "HTTP/1.1 200 OK" ∷ [];
  code = 200;
  reason = codes "OK";
}

abbrev answering : PropfindCalls
answering = record {
  attempts = λ i. record { session = true; events = []; parsed = true; performed = some 207 };
  final = true;
  now = λ i. 9;
}

abbrev failing : PropfindCalls
failing = record {
  attempts = λ i. record { session = true; events = []; parsed = true; performed = some 503 };
  final = true;
  now = λ i. 9;
}

abbrev base : Text
base = codes "/base"

get_relative_path_iff_example :
    (get_relative_path (codes "base" ∷ []) (codes "base" ∷ codes "dir" ∷ codes "f" ∷ [])
      ≡ some (codes "dir/f"))
    ↔ ((s : Text) × (rest : List Text) × (codes "base" ∷ codes "dir" ∷ codes "f" ∷ []
          ≡ (codes "base" ∷ []) ++ s ∷ rest)
        × (codes "dir/f" ≡ s ++ slashed rest))
get_relative_path_iff_example =
    get_relative_path_iff (codes "base" ∷ []) (codes "base" ∷ codes "dir" ∷ codes "f" ∷ [])
      (codes "dir/f")

dir_names : AllNames (codes "dir" ∷ [])
dir_names = ((omega arith, (omega arith, (omega arith, tt))), tt)

file_names : AllNames (codes "dir" ∷ codes "f" ∷ [])
file_names = ((omega arith, (omega arith, (omega arith, tt))), ((omega arith, tt), tt))

run_events-document_example :
    run_events texts base note_path 9
      (record { userdata = []; rstate = zero_response; current_data = none; failure = false })
      (document (dir_entry ∷ file_entry ∷ []))
    ≡ some (record {
      userdata = codes "/dir/f" ∷ codes "/dir" ∷ [];
      rstate = zero_response;
      current_data = none;
      failure = false;
    })
unfolding whole utoa all_listed str_eq
run_events-document_example =
    run_events-document texts base note_path 9 [] false (dir_entry ∷ file_entry ∷ [])
      (refl, (refl, tt))
      (
        (codes "base" ∷ [], refl, refl, dir_names, tt),
        ((codes "base" ∷ [], refl, refl, file_names, tt), tt),
      )

simple_propfind-Reported_example : Reported success none
unfolding simple_propfind run_events
simple_propfind-Reported_example =
    simple_propfind-Reported texts base note_path 2 answering (codes "/dir") []
      (record { userdata = []; ret = success; error = none; saint = false }) refl

simple_propfind-Supported_example : Supported answering 2
unfolding simple_propfind run_events
simple_propfind-Supported_example =
    simple_propfind-Supported texts base note_path 2 answering (codes "/dir") []
      (record { userdata = []; ret = success; error = none; saint = false }) refl refl

simple_propfind-down_example :
    (r : PropfindResult (List Text)) × (simple_propfind texts base note_path 2 failing
        (codes "/dir")
        []
      ≡ some r)
    × (r.ret ≡ failed)
    × (r.error ≡ g_error props_domain enetdown)
    × (r.saint ≡ true)
unfolding run_events
simple_propfind-down_example =
    simple_propfind-down texts base note_path 2 failing (codes "/dir") [] (λ i.
      (refl, inr (503, refl, omega arith), λ seen. (blank_state texts base note_path seen, refl)))

end_element-characters_example :
    character_data_handler texts base note_path 9 (blank_state texts base note_path []) (codes " ")
    ≡ none
unfolding end_element str_eq
end_element-characters_example =
    end_element-characters texts base note_path 9
      (record (blank_state texts base note_path []) { current_data = some [] })
      (blank_state texts base note_path []) (codes "DAV:prop") (codes " ") refl
