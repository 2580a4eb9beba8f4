-- ===== src/Props.antt =====
-- src/props.c: the elements of a PROPFIND's response, one handler of the expat parser after the
-- other. What C leaves undefined, a write out of bounds or the use of a null pointer, is `none`. The
-- libraries that are called on texts are a parameter, and so is the callback.
pub mod Relative
pub mod Request
pub mod Status
pub mod Entries
pub mod Elements
pub mod Located
pub mod Listing
pub mod Outcome
pub mod Answers
pub mod Down
pub mod Gaps
mod Tests
use Prim.Native.Nat.{bit_and, bit_or}
use fusedav.Prelude.{
  ℕ, ◌+◌, ◌-◌, ◌*◌, ◌/◌, ◌%◌, ◌^◌, Bool, true, false, ◌&&◌, ◌||◌, not, Option, none, some, List, [],
  ◌∷◌, ◌++◌, ltb, ◌==◌, if◌then◌else◌, take,
}
use fusedav.Text.{Text, codes, slash, str_eq}
use fusedav.Text.Decimal.{Long, strtol}
use fusedav.Structs.{Stat, GError}
use fusedav.Props.Relative.{get_path_beyond_base}

-- uriparser (the segments of a URL's normalized path), curl_easy_unescape, curl_getdate, and
-- strptime with mktime. No date is before 1970.
pub record Libraries : Type 0 where
  pub uri_segments : Text → Option (List Text)
  pub unescape : Text → Text
  pub getdate : Text → ℕ
  pub creation_time : Text → ℕ

abbrev pub s_ifdir : ℕ
s_ifdir = 16384

abbrev pub s_ifreg : ℕ
s_ifreg = 32768

-- `memset (&st, 0, sizeof (struct stat))`
abbrev pub zero_stat : Stat
zero_stat = record {
  st_mode = 0;
  st_nlink = 0;
  st_size = 0;
  st_blksize = 0;
  st_blocks = 0;
  st_atime = 0;
  st_mtime = 0;
  st_ctime = 0;
}

-- `struct response_state`
pub record ResponseState : Type 0 where
  pub path : Text
  pub status_code : ℕ
  pub st : Stat

abbrev pub zero_response : ResponseState
zero_response = record { path = []; status_code = 0; st = zero_stat }

-- `struct propfind_state`: the callback's user data, the response, the text of the element (`none`
-- for a null pointer), and whether the parser has failed.
pub record PropfindState (S : Type 0) : Type 0 where
  pub userdata : S
  pub rstate : ResponseState
  pub current_data : Option Text
  pub failure : Bool

-- What expat calls, in the order of the document.
pub data XmlEvent : Type 0 where
  start : Text → XmlEvent
  characters : Text → XmlEvent
  end : Text → XmlEvent

-- What `props_result_callback` does to its user data, and its error.
abbrev pub Callback : Type 0 → Type 0
Callback S = S → Text → Stat → ℕ → S × Option GError

unfoldable pub skip_spaces : Text → Text
skip_spaces [] = []
skip_spaces (c ∷ s) = if c == 32 then skip_spaces s else c ∷ s

unfoldable pub skip_token : Text → Text
skip_token [] = []
skip_token (c ∷ s) = if c == 32 then s else skip_token s

-- The first space behind a token is overwritten, so that `atol` stops there in any case.
unfoldable pub some_text : Text → Option Text
some_text [] = none
some_text (c ∷ s) = some (c ∷ s)

-- What the second `strtok_r (…, " ", …)` returns.
unfoldable pub second_token : Text → Option Text
unfolding skip_spaces skip_token some_text
second_token s = some_text (skip_spaces (skip_token (skip_spaces s)))

-- `(unsigned long) atol`
unfoldable pub as_unsigned : Long → ℕ
as_unsigned l = if l.negative then (2 ^ 64 - l.magnitude) % 2 ^ 64 else l.magnitude

-- `atol` for a length. One below 0, which no file has, counts as 0.
unfoldable pub as_length : Long → ℕ
as_length l = if l.negative then 0 else l.magnitude

unfoldable pub or_default : ℕ → ℕ → ℕ
or_default n d = if n == 0 then d else n

set_mode : Stat → Stat
set_mode st =
    if not (bit_and st.st_mode s_ifdir == 0)
    then record st { st_mode = bit_or st.st_mode 504; st_nlink = 3 }
    else record st { st_mode = bit_or st.st_mode (s_ifreg + 432); st_nlink = 1 }

set_blocks : Stat → Stat
set_blocks st =
    if st.st_blocks == 0 && ltb 0 st.st_size
    then record st { st_blocks = (st.st_size + 511) / 512 }
    else st

-- `now` is the time if the response does not give one.
set_times : ℕ → Stat → Stat
unfolding or_default
set_times now st =
    let mtime = or_default st.st_mtime now in
    record st {
      st_mtime = mtime;
      st_atime = or_default st.st_atime mtime;
      st_ctime = or_default st.st_ctime mtime;
    }

-- What the end of a response fills in. The owner is left out.
unfoldable pub complete_stat : ℕ → Stat → Stat
unfolding set_mode set_blocks set_times
complete_stat now st = set_times now (set_blocks (record (set_mode st) { st_blksize = 4096 }))

module _ {S : Type 0} (lib : Libraries) (base_url : Text) (callback : Callback S) (now : ℕ) where
  -- The memory of an element that the new one is in is lost.
  unfoldable pub start_element : PropfindState S → PropfindState S
  start_element state = record state { current_data = some [] }

  -- With no element open, the length is 0, and the first byte goes before the allocation.
  unfoldable pub character_data_handler : PropfindState S → Text → Option (PropfindState S)
  character_data_handler state s = elim state.current_data [
    | none ↦ none
    | some text ↦ some (record state { current_data = some (text ++ s) })
  ]

  abbrev set_stat : PropfindState S → Stat → PropfindState S
  set_stat state st = record state { rstate = record (state.rstate) { st = st } }

  unfoldable pub end_status : PropfindState S → Text → Option (PropfindState S)
  unfolding second_token as_unsigned
  end_status state text = elim (second_token text) [
    | none ↦ none
    | some token ↦ some (record state {
      rstate = record (state.rstate) { status_code = as_unsigned (strtol token) };
    })
  ]

  -- glibc prints a null pointer as `(null)`. A path is cut off at PATH_MAX.
  unfoldable pub href_path : Text → Option Text
  href_path text = elim (get_path_beyond_base lib.uri_segments base_url text) [
    | none ↦ none
    | some none ↦ some (take 4095 (lib.unescape (slash ∷ codes "(null)")))
    | some (some path) ↦ some (take 4095 (lib.unescape (slash ∷ path)))
  ]

  unfoldable pub end_href : PropfindState S → Text → Option (PropfindState S)
  unfolding href_path
  end_href state text = elim (href_path text) [
    | none ↦ none
    | some path ↦ some (record state { rstate = record (state.rstate) { path = path } })
  ]

  unfoldable pub end_length : PropfindState S → Text → PropfindState S
  unfolding as_length
  end_length state text =
      set_stat state (record (state.rstate.st) { st_size = as_length (strtol text) })

  unfoldable pub end_modified : PropfindState S → Text → PropfindState S
  end_modified state text =
      let mtime = lib.getdate text in
      set_stat state (record (state.rstate.st) { st_mtime = mtime; st_atime = mtime })

  unfoldable pub end_created : PropfindState S → Text → PropfindState S
  end_created state text =
      set_stat state (record (state.rstate.st) { st_ctime = lib.creation_time text })

  unfoldable pub end_collection : PropfindState S → PropfindState S
  end_collection state =
      set_stat state (record (state.rstate.st) { st_mode = bit_or state.rstate.st.st_mode s_ifdir })

  -- An error of the callback is only logged.
  unfoldable pub end_response : PropfindState S → PropfindState S
  unfolding complete_stat
  end_response state = record state {
    userdata =
        (callback state.userdata state.rstate.path (complete_stat now state.rstate.st)
          state.rstate.status_code).0;
    rstate = zero_response;
  }

  -- The elements whose text is read, with that text.
  unfoldable pub end_text : PropfindState S → Text → Text → Option (PropfindState S)
  unfolding end_status end_href end_length end_modified end_created
  end_text state name text =
      if str_eq name (codes "DAV:status")
      then end_status state text
      else if str_eq name (codes "DAV:href")
      then end_href state text
      else if str_eq name (codes "DAV:getcontentlength")
      then some (end_length state text)
      else if str_eq name (codes "DAV:getlastmodified")
      then some (end_modified state text)
      else if str_eq name (codes "DAV:creationdate")
      then some (end_created state text)
      else some state

  unfoldable pub reads_text : Text → Bool
  reads_text name =
      str_eq name (codes "DAV:status")
      || (str_eq name (codes "DAV:href")
          || (str_eq name (codes "DAV:getcontentlength")
              || (str_eq name (codes "DAV:getlastmodified")
                  || str_eq name (codes "DAV:creationdate"))))

  -- An element that has children has lost its text.
  unfoldable pub end_branch : PropfindState S → Text → Option (PropfindState S)
  unfolding end_text reads_text end_collection end_response
  end_branch state name =
      if str_eq name (codes "DAV:collection")
      then some (end_collection state)
      else if str_eq name (codes "DAV:response")
      then some (end_response state)
      else elim state.current_data [
        | some text ↦ end_text state name text
        | none ↦ if reads_text name then none else some state
      ]

  unfoldable pub end_element : PropfindState S → Text → Option (PropfindState S)
  unfolding end_branch
  end_element state name = elim (end_branch state name) [
    | none ↦ none
    | some after ↦ some (record after { current_data = none })
  ]

  unfoldable pub handle : PropfindState S → XmlEvent → Option (PropfindState S)
  unfolding end_element start_element character_data_handler
  handle state (start name) = some (start_element state)
  handle state (characters s) = character_data_handler state s
  handle state (end name) = end_element state name

  -- The events of a document, or of what was parsed of it.
  unfoldable pub run_events : PropfindState S → List XmlEvent → Option (PropfindState S)
  unfolding handle
  run_events state [] = some state
  run_events state (e ∷ es) = elim (handle state e) [
    | none ↦ none
    | some after ↦ run_events after es
  ]
