-- ===== src/Props/Located.antt =====
-- Where the entries of a listing are, for `get_path_beyond_base` of src/props.c.
use fusedav.Prelude.{
  ℕ, ◌≡◌, refl, sym, ap, ◌∙◌, Bool, true, false, Option, none, some, List, [], ◌∷◌, ◌++◌, ◌==◌,
  take, arith,
}
use mathlib.Core.List.{append-nil, append_assoc}
use fusedav.Text.{Text, slash, str_eq_refl}
use fusedav.Path.Parent.{IsName}
use fusedav.Props.{Libraries}
use fusedav.Props.Relative.{
  unique_part, get_relative_path, get_relative_path_iff, slashed, drop_last_slash,
  drop_trailing_slash, beyond, relative_to, get_path_beyond_base,
}
use fusedav.Props.Entries.{whole, Entry}

-- No name is empty or has a slash.
abbrev pub AllNames : List Text → Type 0
AllNames [] = Unit {0}
AllNames ([] ∷ names) = ⊥
AllNames ((c ∷ s) ∷ names) = IsName (c ∷ s) × AllNames names

-- A slash at the end of a URL's path is an empty last segment.
abbrev pub closing : Bool → List Text
closing true = [] ∷ []
closing false = []

-- The base itself comes without a slash at its end.
abbrev HasNames : List Text → Bool → Type 0
HasNames [] slash_end = slash_end ≡ false
HasNames (name ∷ names) slash_end = Unit {0}

-- The segments of the href are those of the base and the names of the entry, and maybe a slash.
abbrev pub Located : Libraries → Text → Entry → Type 0
Located lib base_url e =
    (base : List Text) × (lib.uri_segments base_url ≡ some base)
    × (lib.uri_segments (whole e.href) ≡ some (base ++ (e.names ++ closing e.slash_end)))
    × AllNames e.names
    × HasNames e.names e.slash_end

abbrev pub AllLocated : Libraries → Text → List Entry → Type 0
AllLocated lib base_url [] = Unit {0}
AllLocated lib base_url (e ∷ entries) = Located lib base_url e × AllLocated lib base_url entries

abbrev url_path : List Text → Text
url_path [] = slash ∷ []
url_path (name ∷ names) = slashed (name ∷ names)

-- The path of an entry: its names, unescaped, each behind a slash.
abbrev pub entry_path : Libraries → Entry → Text
entry_path lib e = take 4095 (lib.unescape (url_path e.names))

abbrev last_slash : ℕ → Text → Bool
last_slash c [] = c == slash
last_slash c (d ∷ s) = last_slash d s

last_slash-append : (c d : ℕ) (p s : Text) → last_slash c (p ++ d ∷ s) ≡ last_slash d s
last_slash-append c d [] s = refl
last_slash-append c d (x ∷ p) s = last_slash-append x d p s

last_slash-name : (c : ℕ) (s : Text) → IsName (c ∷ s) → last_slash c s ≡ false
last_slash-name c [] h = ground (arith, h.0)
last_slash-name c (d ∷ s) h = last_slash-name d s h.1

last_slash-names :
    (c : ℕ) (s : Text) (names : List Text)
    → IsName (c ∷ s)
    → AllNames names
    → last_slash c (s ++ slashed names) ≡ false
last_slash-names c s [] h all = rw (append-nil s) (last_slash-name c s h)
last_slash-names c s ([] ∷ names) h all = absurd all
last_slash-names c s ((d ∷ t) ∷ names) h all =
    last_slash-append c slash s (d ∷ t ++ slashed names) ∙ last_slash-names d t names all.0 all.1

drop_last_slash-kept : (c : ℕ) (s : Text) → last_slash c s ≡ false → drop_last_slash c s ≡ c ∷ s
unfolding drop_last_slash
drop_last_slash-kept c [] h = rw h refl
drop_last_slash-kept c (d ∷ s) h = ap (λ t. c ∷ t) (drop_last_slash-kept d s h)

drop_last_slash-append : (c : ℕ) (s : Text) → drop_last_slash c (s ++ slash ∷ []) ≡ c ∷ s
unfolding drop_last_slash
drop_last_slash-append c [] = refl
drop_last_slash-append c (d ∷ s) = ap (λ t. c ∷ t) (drop_last_slash-append d s)

slashed-closing : (names : List Text) → slashed (names ++ [] ∷ []) ≡ slashed names ++ slash ∷ []
slashed-closing [] = refl
slashed-closing (name ∷ names) =
    ap (λ t. (slash ∷ name) ++ t) (slashed-closing names)
    ∙ sym (append_assoc (slash ∷ name) (slashed names) (slash ∷ []))

beyond-closing :
    (c : ℕ) (s : Text) (names : List Text) (slash_end : Bool)
    → IsName (c ∷ s)
    → AllNames names
    → beyond (some ((c ∷ s) ++ slashed (names ++ closing slash_end)))
      ≡ some ((c ∷ s) ++ slashed names)
unfolding beyond drop_trailing_slash
beyond-closing c s names true h all =
    ap (λ t. some (drop_last_slash c t))
      (ap (λ t. s ++ t) (slashed-closing names) ∙ sym (append_assoc s (slashed names) (slash ∷ [])))
    ∙ ap some (drop_last_slash-append c (s ++ slashed names))
beyond-closing c s names false h all =
    ap (λ t. some (drop_last_slash c (s ++ slashed t))) (append-nil names)
    ∙ ap some (drop_last_slash-kept c (s ++ slashed names) (last_slash-names c s names h all))

unique_part-base : (base : List Text) → unique_part base (base ++ []) ≡ none
unfolding unique_part
unique_part-base [] = refl
unique_part-base (b ∷ base) = rw (str_eq_refl b) (unique_part-base base)

-- Nothing is beyond the base itself.
get_relative_path-base : (base : List Text) → get_relative_path base (base ++ []) ≡ none
unfolding get_relative_path
get_relative_path-base base = rw (unique_part-base base) refl

abbrev below : List Text → Text
below [] = []
below (name ∷ names) = name ++ slashed names

abbrev given : Option Text → Option (Option Text)
given none = none
given (some path) = some (some path)

relative_to-below :
    (uri_segments : Text → Option (List Text)) (base names : List Text) (slash_end : Bool)
    → AllNames names
    → HasNames names slash_end
    → relative_to uri_segments (some base) (some (base ++ (names ++ closing slash_end)))
      ≡ some (some (below names))
unfolding relative_to beyond get_relative_path
relative_to-below uri_segments base [] true all has = absurd (ground arith)
relative_to-below uri_segments base [] false all has =
    ap (λ p. given (beyond p)) (get_relative_path-base base)
relative_to-below uri_segments base ([] ∷ names) slash_end all has = absurd all
relative_to-below uri_segments base ((c ∷ s) ∷ names) slash_end all has =
    let made : get_relative_path base (base ++ (c ∷ s) ∷ (names ++ closing slash_end))
        ≡ some ((c ∷ s) ++ slashed (names ++ closing slash_end)) =
      (get_relative_path_iff base (base ++ (c ∷ s) ∷ (names ++ closing slash_end))
          ((c ∷ s) ++ slashed (names ++ closing slash_end))).1
        (c ∷ s, names ++ closing slash_end, refl, refl) in
    ap (λ p. given (beyond p)) made ∙ ap given (beyond-closing c s names slash_end all.0 all.1)

pub get_path_beyond_base-Located :
    (lib : Libraries) (base_url : Text) (e : Entry)
    → Located lib base_url e
    → get_path_beyond_base lib.uri_segments base_url (whole e.href) ≡ some (some (below e.names))
unfolding get_path_beyond_base
get_path_beyond_base-Located lib base_url e (base, of_base, of_href, all, has) =
    rw (of_base, of_href) (relative_to-below lib.uri_segments base e.names e.slash_end all has)

pub slash-below : (names : List Text) → slash ∷ below names ≡ url_path names
slash-below [] = refl
slash-below (name ∷ names) = refl
