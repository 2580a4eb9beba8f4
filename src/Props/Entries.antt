-- ===== src/Props/Entries.antt =====
-- The responses of a PROPFIND in src/props.c: a document with one response for each entry, in which
-- expat may cut the text of an element into pieces of any length.
use fusedav.Prelude.{ℕ, ◌≡◌, Bool, true, false, List, [], ◌∷◌, ◌++◌, map}
use fusedav.Text.{Text, codes}
use fusedav.Props.Status.{status_line}
use fusedav.Props.{XmlEvent, start, characters, end}

-- The pieces of a text.
unfoldable pub whole : List Text → Text
whole [] = []
whole (piece ∷ pieces) = piece ++ whole pieces

-- An element with a text, in front of the events that follow it.
unfoldable pub text_element : Text → List Text → List XmlEvent → List XmlEvent
text_element name pieces es = start name ∷ map characters pieces ++ end name ∷ es

-- What a server says of a file or directory. The texts are in pieces.
pub record Entry : Type 0 where
  pub href : List Text
  -- the path below the base, and whether the href has a slash behind it
  pub names : List Text
  pub slash_end : Bool
  pub is_dir : Bool
  pub contentlength : List Text
  pub lastmodified : List Text
  pub status : List Text
  pub code : ℕ
  pub reason : Text

-- Each status is a status line with the entry's code.
abbrev pub Announced : List Entry → Type 0
Announced [] = Unit {0}
Announced (e ∷ entries) = (whole e.status ≡ status_line e.code e.reason) × Announced entries

unfoldable pub resource_type : Bool → List XmlEvent → List XmlEvent
resource_type false es = es
resource_type true es =
    start (codes "DAV:resourcetype")
    ∷ start (codes "DAV:collection")
    ∷ end (codes "DAV:collection")
    ∷ end (codes "DAV:resourcetype")
    ∷ es

-- What is known of a file or directory.
unfoldable pub properties : Entry → List XmlEvent → List XmlEvent
unfolding text_element resource_type
properties e es = resource_type e.is_dir (
    text_element (codes "DAV:getcontentlength") e.contentlength
      (text_element (codes "DAV:getlastmodified") e.lastmodified es))

-- The response of one entry.
unfoldable pub response : Entry → List XmlEvent → List XmlEvent
unfolding text_element properties
response e es =
    start (codes "DAV:response")
    ∷ text_element (codes "DAV:href") e.href (
        start (codes "DAV:propstat")
        ∷ start (codes "DAV:prop")
        ∷ properties e (
            end (codes "DAV:prop")
            ∷ text_element (codes "DAV:status") e.status
                (end (codes "DAV:propstat") ∷ end (codes "DAV:response") ∷ es)))

unfoldable pub responses : List Entry → List XmlEvent → List XmlEvent
unfolding response
responses [] es = es
responses (e ∷ entries) es = response e (responses entries es)

unfoldable pub document : List Entry → List XmlEvent
unfolding responses
document entries =
    start (codes "DAV:multistatus") ∷ responses entries (end (codes "DAV:multistatus") ∷ [])
