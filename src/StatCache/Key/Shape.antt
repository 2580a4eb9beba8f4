-- ===== src/StatCache/Key/Shape.antt =====
-- What keys look like: which paths have them, and whose children begin with which key.
use fusedav.Prelude.{
  ℕ, ◌/◌, ◌%◌, zero, suc, ◌+◌, ◌-◌, ◌<◌, ◌≡◌, ◌↔◌, refl, sym, ap, ◌∙◌, Bool, true, false, ◌&&◌,
  some, [], ◌∷◌, ◌++◌, arith, ◌==◌, if◌then◌else◌, drop, length, drop-length_append,
}
use mathlib.Core.List.{append_assoc}
use fusedav.Text.{Text, slash}
use fusedav.Text.Decimal.{utoa, utoa_onto, utoa_onto-append, is_digit, strtol, strtol-utoa, Long}
use fusedav.Path.Parent.{IsName, IsDirectory, directory_path}
use fusedav.StatCache.Key.{Scan, scan_char, scan_path, scan_start, path2key, key2path}

abbrev pub slashes : Text → ℕ
slashes [] = 0
slashes (c ∷ s) = if c == slash then suc (slashes s) else slashes s

abbrev pub ends_in_slash : Text → Bool
ends_in_slash [] = false
ends_in_slash (c ∷ []) = c == slash
ends_in_slash (c ∷ d ∷ s) = ends_in_slash (d ∷ s)

scan_path-depth : (path : Text) (s : Scan) → (scan_path path s).depth ≡ s.depth + slashes path
unfolding scan_path
scan_path-depth [] s = omega arith
scan_path-depth (c ∷ path) s = ground (arith, scan_path-depth path (scan_char c s))

-- The test for a slash in the last place.
abbrev at_slash : Scan → Bool
at_slash s = s.slash_found && (s.last_slash_pos == s.pos - 1)

abbrev SlashBehind : Scan → Type 0
SlashBehind s = s.slash_found ≡ true → s.last_slash_pos < s.pos

scan_path-at_slash :
    (c : ℕ) (path : Text) (s : Scan)
    → SlashBehind s
    → at_slash (scan_path (c ∷ path) s) ≡ ends_in_slash (c ∷ path)
unfolding scan_path
scan_path-at_slash c [] s h = ground arith
scan_path-at_slash c (d ∷ path) s h = scan_path-at_slash d path (scan_char c s) (λ f. ground arith)

-- The key of a path is its number of slashes and the path.
pub path2key-own : (path : Text) → path2key path false ≡ utoa (slashes path) ++ path
unfolding path2key
path2key-own path = ap (λ d. utoa d ++ path) (scan_path-depth path (scan_start false) ∙ omega arith)

-- The prefix of the keys of a directory's children.
pub path2key-children :
    (dir : Text)
    → ends_in_slash dir ≡ false
    → path2key (directory_path dir) true ≡ utoa (slashes dir + 1) ++ dir ++ slash ∷ []
unfolding path2key utoa
path2key-children [] h = refl
path2key-children (c ∷ dir) h =
    let inner : at_slash (scan_path (c ∷ dir) (scan_start true)) ≡ false =
      scan_path-at_slash c dir (scan_start true) (λ f. ground arith) ∙ h in
    let depth : (scan_path (c ∷ dir) (scan_start true)).depth ≡ slashes (c ∷ dir) + 1 =
      scan_path-depth (c ∷ dir) (scan_start true) ∙ omega arith in
    ground (arith, ap (λ d. utoa d ++ c ∷ (dir ++ slash ∷ [])) depth)

-- The leading digits hold no slash, so the first slash of a key is the path's.
key2path-utoa_onto : (f n : ℕ) (out : Text) → key2path (utoa_onto f n out) ≡ key2path out
unfolding key2path utoa_onto
key2path-utoa_onto zero n out = refl
key2path-utoa_onto (suc f) n out =
    ground (arith, key2path-utoa_onto f (n / 10) ((48 + n % 10) ∷ out))

key2path-utoa : (n : ℕ) (s : Text) → key2path (utoa n ++ s) ≡ key2path s
unfolding utoa
key2path-utoa n s = rw (utoa_onto-append (suc n) n [] s) (key2path-utoa_onto (suc n) n s)

-- An absolute path begins with a slash.
abbrev pub IsAbsolute : Text → Type 0
IsAbsolute [] = ⊥
IsAbsolute (c ∷ s) = c ≡ slash

-- The path of an absolute path's key is that path.
pub key2path-path2key : (path : Text) → IsAbsolute path → key2path (path2key path false) ≡ some path
key2path-path2key [] h = absurd h
key2path-path2key (c ∷ path) h =
    rw (path2key-own (c ∷ path), key2path-utoa) (unfold key2path in ground arith)

-- Different absolute paths have different keys.
pub path2key-injective :
    (p q : Text) → IsAbsolute p → IsAbsolute q → path2key p false ≡ path2key q false → p ≡ q
path2key-injective p q hp hq e = cc (key2path-path2key p hp, key2path-path2key q hq, ap key2path e)

pub slashes-append : (s t : Text) → slashes (s ++ t) ≡ slashes s + slashes t
slashes-append [] t = omega arith
slashes-append (c ∷ s) t = ground (arith, slashes-append s t)

pub IsName-slashes : (s : Text) → (slashes s ≡ 0) ↔ IsName s
IsName-slashes [] = (λ e. tt, λ u. refl)
IsName-slashes (c ∷ s) =
    (λ e. ground (arith, (IsName-slashes s).0), λ h. ground (arith, (IsName-slashes s).1 h.1))

-- A child's key is the directory's prefix and the child's name.
pub path2key-child :
    (dir name : Text)
    → ends_in_slash dir ≡ false
    → IsName name
    → path2key (dir ++ slash ∷ name) false ≡ path2key (directory_path dir) true ++ name
path2key-child dir name h n =
    let depth : slashes (dir ++ slash ∷ name) ≡ slashes dir + 1 =
      omega (arith, slashes-append dir (slash ∷ name), (IsName-slashes name).1 n) in
    rw (path2key-own (dir ++ slash ∷ name), depth, path2key-children dir h) (simp append_assoc)

-- Two keys that agree agree in their depths and in their paths.
key_split : (m n : ℕ) (s t : Text) → utoa m ++ slash ∷ s ≡ utoa n ++ slash ∷ t → (m ≡ n) × (s ≡ t)
key_split m n s t e =
    let stops : is_digit slash ≡ false = unfold is_digit in refl in
    let read : strtol (utoa m ++ slash ∷ s) ≡ strtol (utoa n ++ slash ∷ t) = ap strtol e in
    let depths : m ≡ n =
      ap (λ (l : Long). l.magnitude)
        (sym (strtol-utoa m slash s stops) ∙ read ∙ strtol-utoa n slash t stops) in
    let moved : utoa m ++ slash ∷ s ≡ utoa m ++ slash ∷ t =
      e ∙ ap (λ k. utoa k ++ slash ∷ t) (sym depths) in
    let rests : slash ∷ s ≡ slash ∷ t =
      sym (drop-length_append (utoa m) (slash ∷ s))
      ∙ ap (drop (length (utoa m))) moved
      ∙ drop-length_append (utoa m) (slash ∷ t) in
    (depths, cc)

regroup :
    (n : ℕ) (dir rest : Text)
    → (utoa n ++ dir ++ slash ∷ []) ++ rest ≡ utoa n ++ (dir ++ slash ∷ rest)
regroup n dir rest = simp append_assoc

-- Only children of a directory have keys with its prefix, and what follows is the child's name.
pub path2key-children_only :
    (dir path rest : Text)
    → ends_in_slash dir ≡ false
    → IsDirectory dir
    → IsAbsolute path
    → path2key path false ≡ path2key (directory_path dir) true ++ rest
    → (path ≡ dir ++ slash ∷ rest) × IsName rest
path2key-children_only dir [] rest h d a e = absurd a
path2key-children_only dir (c ∷ path) rest h d a e = go dir whole d
  where
    whole : utoa (slashes (c ∷ path)) ++ c ∷ path ≡ utoa (slashes dir + 1) ++ (dir ++ slash ∷ rest)
    whole =
        sym (path2key-own (c ∷ path))
        ∙ e
        ∙ ap (λ k. k ++ rest) (path2key-children dir h)
        ∙ regroup (slashes dir + 1) dir rest

    go :
        (s : Text)
        → utoa (slashes (c ∷ path)) ++ c ∷ path ≡ utoa (slashes s + 1) ++ (s ++ slash ∷ rest)
        → IsDirectory s
        → (c ∷ path ≡ s ++ slash ∷ rest) × IsName rest
    go [] w b =
        let (depths, rests) =
          key_split (slashes (c ∷ path)) 1 path rest
            (ap (λ x. utoa (slashes (c ∷ path)) ++ x ∷ path) (sym a) ∙ w) in
        (ground arith, (IsName-slashes rest).0 (ground (arith, ap slashes rests)))
    go (b ∷ s) w first =
        let (depths, rests) =
          key_split (slashes (c ∷ path)) (slashes (b ∷ s) + 1) path (s ++ slash ∷ rest) (
            ap (λ x. utoa (slashes (c ∷ path)) ++ x ∷ path) (sym a)
            ∙ w
            ∙ ap (λ x. utoa (slashes (b ∷ s) + 1) ++ x ∷ (s ++ slash ∷ rest)) first) in
        (
          ground arith,
          (IsName-slashes rest).0
              (ground (arith, ap slashes rests, slashes-append s (slash ∷ rest))),
        )
