-- ===== src/StatCache/Prune/Order.antt =====
-- Proofs about the order of the entries in the passes of `stat_cache_prune`. Paths are at most 9999 deep, more than PATH_MAX allows.
use fusedav.Prelude.{
  ℕ, suc, ◌≤◌, ◌≡◌, ◌⊎◌, inl, inr, sym, ap, ◌∙◌, subst, true, false, some, [], ◌∷◌, arith, leb,
  if◌then◌else◌,
}
use fusedav.Text.{Text, slash, str_lt}
use fusedav.Text.Decimal.{strtol, strtol-utoa, is_digit}
use fusedav.Text.Decimal.Digits.{utoa_lt-one, utoa_lt-two, utoa_lt-three, utoa_lt-four}
use fusedav.Path.{path_parent}
use fusedav.Path.Parent.{IsName, directory_path, path_parent-child, split_absolute}
use fusedav.StatCache.{path2key}
use fusedav.StatCache.Key.Shape.{slashes, slashes-append, IsName-slashes, IsAbsolute, path2key-own}
use fusedav.StatCache.Prune.{in_pass, base_directory}

-- The pass that takes the entries of a depth.
abbrev pub pass_of : ℕ → ℕ
pass_of d = if leb d 9 then 0 else if leb d 99 then 1 else if leb d 999 then 2 else 3

pub in_pass-pass_of :
    (pass d : ℕ)
    → in_pass pass (record { negative = false; magnitude = d }) ≡ true
    → pass ≡ pass_of d
unfolding in_pass
in_pass-pass_of pass d h = ground arith

pub pass_of-in_pass :
    (d : ℕ) → in_pass (pass_of d) (record { negative = false; magnitude = d }) ≡ true
unfolding in_pass
pass_of-in_pass d = ground arith

-- The depth that is read from the key of an absolute path.
pub strtol-path2key :
    (path : Text)
    → IsAbsolute path
    → strtol (path2key path false) ≡ record { negative = false; magnitude = slashes path }
strtol-path2key [] h = absurd h
strtol-path2key (c ∷ path) h =
    rw (path2key-own (c ∷ path))
      (strtol-utoa (slashes (c ∷ path)) c path (unfold is_digit in ground arith))

-- A parent is the base directory, or one step less deep.
pub parent_depth :
    (path parent : Text)
    → IsAbsolute path
    → path_parent path ≡ some parent
    → (parent ≡ base_directory) ⊎ (IsAbsolute parent × (slashes path ≡ suc (slashes parent)))
parent_depth [] parent h e = absurd h
parent_depth (c ∷ path) parent h e =
    let (dir, name, split, d, n) = split_absolute c path h in
    let found : path_parent (c ∷ path) ≡ some (directory_path dir) =
      ap path_parent split ∙ path_parent-child dir name d n in
    let depth : slashes (c ∷ path) ≡ suc (slashes dir) =
      ap slashes split
      ∙ omega (arith, slashes-append dir (slash ∷ name), (IsName-slashes name).1 n) in
    go dir d depth (cc)
  where
    go :
        (s : Text)
        → fusedav.Path.Parent.IsDirectory s
        → slashes (c ∷ path) ≡ suc (slashes s)
        → parent ≡ directory_path s
        → (parent ≡ base_directory)
          ⊎ (IsAbsolute parent × (slashes (c ∷ path) ≡ suc (slashes parent)))
    go [] d depth p = inl p
    go (b ∷ s) d depth p =
        inr (subst IsAbsolute (sym p) d, depth ∙ ap (λ t. suc (slashes t)) (sym p))

pub deeper_later : (d : ℕ) → pass_of d ≤ pass_of (suc d)
deeper_later d = ground arith

-- In one pass the parent's key comes first.
pub parent_first :
    (path parent : Text)
    → slashes path ≡ suc (slashes parent)
    → slashes path ≤ 9999
    → pass_of (slashes parent) ≡ pass_of (slashes path)
    → str_lt (path2key parent false) (path2key path false) ≡ true
parent_first path parent depth most same =
    rw (path2key-own parent, path2key-own path, depth)
      (ground (
        arith,
        utoa_lt-one parent path (slashes parent),
        utoa_lt-two parent path (slashes parent),
        utoa_lt-three parent path (slashes parent),
        utoa_lt-four parent path (slashes parent),
      ))
