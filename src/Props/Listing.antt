-- ===== src/Props/Listing.antt =====
-- A whole listing in src/props.c: one response for each entry.
use fusedav.Prelude.{
  ◌+◌, ◌/◌, ◌==◌, ltb, take, ap, arith, inl, inr, Bool-cases, ℕ, ◌≡◌, refl, ◌∙◌, Bool, true, false,
  Option, none, some, List, [], ◌∷◌, if◌then◌else◌,
}
use fusedav.Text.{Text, codes, slash, str_eq}
use fusedav.Text.Decimal.{strtol}
use fusedav.Structs.{Stat}
use fusedav.Props.Status.{status_line}
use fusedav.Props.{
  Libraries, PropfindState, zero_response, zero_stat, XmlEvent, end, Callback, run_events, handle,
  start_element, end_element, end_branch, end_text, end_collection, end_response, reads_text,
  href_path, as_length, complete_stat, or_default, s_ifdir,
}
use fusedav.Props.Entries.{
  whole, text_element, Entry, Announced, resource_type, properties, response, responses, document,
}
use fusedav.Props.Located.{
  Located, AllLocated, entry_path, get_path_beyond_base-Located, slash-below,
}
use fusedav.Props.Elements.{run, href_lem, contentlength_lem, lastmodified_lem, status_lem}

module _ {S : Type 0} (lib : Libraries) (base_url : Text) (callback : Callback S) (now : ℕ) where
  -- What the stat structure of an entry is before it is completed.
  abbrev listed_stat : Entry → Stat
  listed_stat e = record zero_stat {
    st_mode = if e.is_dir then s_ifdir else 0;
    st_size = as_length (strtol (whole e.contentlength));
    st_mtime = lib.getdate (whole e.lastmodified);
    st_atime = lib.getdate (whole e.lastmodified);
  }

  -- What the stat structure of an entry is: a directory's or a file's, with the time of the last
  -- change, or else the present one.
  abbrev entry_stat : Entry → Stat
  entry_stat e =
      let size = as_length (strtol (whole e.contentlength)) in
      let date = lib.getdate (whole e.lastmodified) in
      let time = if date == 0 then now else date in
      record {
        st_mode = if e.is_dir then 16888 else 33200;
        st_nlink = if e.is_dir then 3 else 1;
        st_size = size;
        st_blksize = 4096;
        st_blocks = (size + 511) / 512;
        st_atime = time;
        st_mtime = time;
        st_ctime = time;
      }

  abbrev completed : Bool → ℕ → ℕ → ℕ → Stat
  completed is_dir size blocks time = record {
    st_mode = if is_dir then 16888 else 33200;
    st_nlink = if is_dir then 3 else 1;
    st_size = size;
    st_blksize = 4096;
    st_blocks = blocks;
    st_atime = time;
    st_mtime = time;
    st_ctime = time;
  }

  abbrev blocks_of : ℕ → ℕ
  blocks_of size = if ltb 0 size then (size + 511) / 512 else 0

  blocks_of_lem : (size : ℕ) → blocks_of size ≡ (size + 511) / 512
  blocks_of_lem size = ground arith

  abbrev time_of : ℕ → ℕ
  time_of date = if date == 0 then now else date

  at_time :
      (st : Stat) (date : ℕ)
      → record st { st_atime = if date == 0 then time_of date else date }
        ≡ record st { st_atime = time_of date }
  at_time st date = ap (λ t. record st { st_atime = t }) (ground arith)

  complete_raw :
      (is_dir : Bool) (size date : ℕ)
      → complete_stat now (record zero_stat {
        st_mode = if is_dir then s_ifdir else 0;
        st_size = size;
        st_mtime = date;
        st_atime = date;
      })
        ≡ completed is_dir size (blocks_of size) (if date == 0 then now else date)
  unfolding complete_stat or_default
  complete_raw true size date = elim (Bool-cases (ltb 0 size)) [
    | inl l ↦ rw l (at_time (completed true size ((size + 511) / 512) (time_of date)) date)
    | inr l ↦ rw l (at_time (completed true size 0 (time_of date)) date)
  ]
  complete_raw false size date = elim (Bool-cases (ltb 0 size)) [
    | inl l ↦ rw l (at_time (completed false size ((size + 511) / 512) (time_of date)) date)
    | inr l ↦ rw l (at_time (completed false size 0 (time_of date)) date)
  ]

  complete_stat-listed : (e : Entry) → complete_stat now (listed_stat e) ≡ entry_stat e
  complete_stat-listed e =
      complete_raw e.is_dir (as_length (strtol (whole e.contentlength)))
        (lib.getdate (whole e.lastmodified))
      ∙ ap
          (λ blocks. completed e.is_dir (as_length (strtol (whole e.contentlength))) blocks (
            if lib.getdate (whole e.lastmodified) == 0
            then now
            else lib.getdate (whole e.lastmodified)))
          (blocks_of_lem (as_length (strtol (whole e.contentlength))))

  resource_type_lem :
      (userdata : S) (path : Text) (text : Option Text) (failure is_dir : Bool) (es : List XmlEvent)
      → run lib base_url callback now
          (record {
            userdata = userdata;
            rstate = record zero_response { path = path };
            current_data = text;
            failure = failure;
          })
          (resource_type is_dir es)
        ≡ run lib base_url callback now
            (record {
              userdata = userdata;
              rstate = record zero_response {
                path = path;
                st = record zero_stat { st_mode = if is_dir then s_ifdir else 0 };
              };
              current_data = if is_dir then none else text;
              failure = failure;
            })
            es
  unfolding resource_type run_events handle start_element end_element end_branch end_text
      end_collection reads_text str_eq
  resource_type_lem userdata path text failure true es = refl
  resource_type_lem userdata path text failure false es = refl

  abbrev path_of : Option (Option Text) → Option Text
  path_of none = none
  path_of (some none) = some (take 4095 (lib.unescape (slash ∷ codes "(null)")))
  path_of (some (some path)) = some (take 4095 (lib.unescape (slash ∷ path)))

  href_path-Located :
      (e : Entry)
      → Located lib base_url e
      → href_path lib base_url callback now (whole e.href) ≡ some (entry_path lib e)
  unfolding href_path
  href_path-Located e located =
      ap path_of (get_path_beyond_base-Located lib base_url e located)
      ∙ ap (λ t. some (take 4095 (lib.unescape t))) (slash-below e.names)

  abbrev blank : S → Option Text → Bool → PropfindState S
  blank userdata text failure = record {
    userdata = userdata;
    rstate = zero_response;
    current_data = text;
    failure = failure;
  }

  abbrev after_href : S → Entry → Bool → Option Text → Stat → PropfindState S
  after_href userdata e failure text st = record {
    userdata = userdata;
    rstate = record zero_response { path = entry_path lib e; st = st };
    current_data = text;
    failure = failure;
  }

  -- What the callback does with an entry.
  unfoldable pub listed : S → Entry → S
  listed userdata e = (callback userdata (entry_path lib e) (entry_stat e) e.code).0

  unfoldable pub all_listed : S → List Entry → S
  unfolding listed
  all_listed userdata [] = userdata
  all_listed userdata (e ∷ entries) = all_listed (listed userdata e) entries

  properties_lem :
      (userdata : S) (e : Entry) (failure : Bool) (es : List XmlEvent)
      → run lib base_url callback now
          (after_href userdata e failure (some []) zero_stat)
          (properties e es)
        ≡ run lib base_url callback now (after_href userdata e failure none (listed_stat e)) es
  unfolding properties
  properties_lem userdata e failure es =
      resource_type_lem userdata (entry_path lib e) (some []) failure e.is_dir _
      ∙ contentlength_lem lib base_url callback now _ e.contentlength _
      ∙ lastmodified_lem lib base_url callback now _ e.lastmodified es

  skip_prop :
      (userdata : S) (e : Entry) (failure : Bool) (es : List XmlEvent)
      → run lib base_url callback now
          (after_href userdata e failure none (listed_stat e))
          (end (codes "DAV:prop") ∷ es)
        ≡ run lib base_url callback now (after_href userdata e failure none (listed_stat e)) es
  unfolding run_events handle end_element end_branch reads_text str_eq
  skip_prop userdata e failure es = refl

  end_response_lem :
      (userdata : S) (e : Entry) (failure : Bool) (es : List XmlEvent)
      → run lib base_url callback now
          (record (after_href userdata e failure none (listed_stat e)) {
            rstate = record zero_response {
              path = entry_path lib e;
              status_code = e.code;
              st = listed_stat e;
            };
          })
          (end (codes "DAV:propstat") ∷ end (codes "DAV:response") ∷ es)
        ≡ run lib base_url callback now (blank (listed userdata e) none failure) es
  unfolding run_events handle end_element end_branch end_response reads_text str_eq listed
  end_response_lem userdata e failure es =
      ap
        (λ st.
          run lib base_url callback now
            (blank (callback userdata (entry_path lib e) st e.code).0 none failure) es)
        (complete_stat-listed e)

  response_lem :
      (userdata : S) (text : Option Text) (failure : Bool) (e : Entry) (es : List XmlEvent)
      → whole e.status ≡ status_line e.code e.reason
      → Located lib base_url e
      → run lib base_url callback now (blank userdata text failure) (response e es)
        ≡ run lib base_url callback now (blank (listed userdata e) none failure) es
  unfolding response run_events handle start_element
  response_lem userdata text failure e es h located =
      let ends = end (codes "DAV:propstat") ∷ end (codes "DAV:response") ∷ es in
      let status = text_element (codes "DAV:status") e.status ends in
      href_lem lib base_url callback now (blank userdata (some []) failure) e.href
        (entry_path lib e) _ (href_path-Located e located)
      ∙ properties_lem userdata e failure (end (codes "DAV:prop") ∷ status)
      ∙ skip_prop userdata e failure status
      ∙ status_lem lib base_url callback now (after_href userdata e failure none (listed_stat e))
          e.status e.code e.reason ends h
      ∙ end_response_lem userdata e failure es

  responses_lem :
      (userdata : S) (text : Option Text) (failure : Bool) (entries : List Entry)
      → Announced entries
      → AllLocated lib base_url entries
      → run lib base_url callback now
          (blank userdata text failure)
          (responses entries (end (codes "DAV:multistatus") ∷ []))
        ≡ some (blank (all_listed userdata entries) none failure)
  unfolding responses all_listed
  responses_lem userdata none failure [] h all =
      unfold run_events handle end_element end_branch end_text reads_text str_eq in refl
  responses_lem userdata (some text) failure [] h all =
      unfold run_events handle end_element end_branch end_text reads_text str_eq in refl
  responses_lem userdata text failure (e ∷ entries) (h, more) (located, all) =
      response_lem userdata text failure e _ h located
      ∙ responses_lem (listed userdata e) none failure entries more all

  -- A document with a response for each entry, with a status line and an href that continues the
  -- base, calls the callback once for each of them, in order, with the path of its names, its stat
  -- structure and its code, however the texts were cut.
  pub run_events-document :
      (userdata : S) (failure : Bool) (entries : List Entry)
      → Announced entries
      → AllLocated lib base_url entries
      → run_events lib base_url callback now (blank userdata none failure) (document entries)
        ≡ some (blank (all_listed userdata entries) none failure)
  unfolding document
  run_events-document userdata failure entries h all =
      unfold run_events handle start_element in
      responses_lem userdata (some []) failure entries h all
