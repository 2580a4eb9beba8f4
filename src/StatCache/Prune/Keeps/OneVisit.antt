-- ===== src/StatCache/Prune/Keeps/OneVisit.antt =====
-- Proofs about one visit of the loop of `stat_cache_prune`, with the invariant of the loop.
use fusedav.Prelude.{
  ℕ, ◌≤◌, ◌<◌, ◌≡◌, ◌⊎◌, inl, inr, refl, sym, ap, ◌∙◌, subst, true, false, none, some, [], ◌∷◌,
  arith, Bool-cases, ◌==◌,
}
use fusedav.Text.{Text, str_eq, str_lt, str_eq_sound, str_eq_iff}
use fusedav.Text.Decimal.{strtol}
use fusedav.Path.{path_parent}
use fusedav.Bloom.{bloomfilter_exists}
use fusedav.Bloom.Member.{IsWellFormed}
use fusedav.LevelDb.{LevelDb, Entries, AllAbove, IsSorted, lookup, IsLevelDb}
use fusedav.LevelDb.Sorted.{AllAbove-trans, lookup-AllAbove}
use fusedav.Structs.{Blob}
use fusedav.StatCache.{path2key, key2path}
use fusedav.StatCache.Key.Shape.{slashes, IsAbsolute, key2path-path2key}
use fusedav.StatCache.Prune.{
  PruneState, continue, break, base_directory, is_directory, in_pass, grow_long, visit_path, visit,
  delete_key,
}
use fusedav.StatCache.Prune.Rooted.{IsRooted, base, under, HasRootedParent, IsLate}
use fusedav.StatCache.Prune.Order.{
  pass_of, in_pass-pass_of, pass_of-in_pass, strtol-path2key, parent_depth, deeper_later,
  parent_first,
}
use fusedav.StatCache.Prune.Steps.{keep_entry-Step, prune_entry-base, prune_entry-held}

module _ (ldb : LevelDb Blob) (laws : IsLevelDb ldb) (es : Entries Blob) where
  abbrev pub Holds : PruneState ldb → Text → Type 0
  Holds s path = bloomfilter_exists s.filter path ≡ some true

  -- The directory's own entry is still to come.
  abbrev pub Pending : ℕ → Entries Blob → Text → Type 0
  Pending pass rest path =
      (pass < pass_of (slashes path))
      ⊎ ((pass ≡ pass_of (slashes path))
          × (lookup (path2key path false) rest ≡ lookup (path2key path false) es))

  -- Each rooted directory is in the filter, or comes later in the walk.
  pub record Inv (pass : ℕ) (rest : Entries Blob) (s : PruneState ldb) : Type 0 where
    pub wf : IsWellFormed s.filter
    pub base_held : Holds s base_directory
    pub rooted : (path : Text) → IsRooted es path → Holds s path ⊎ Pending pass rest path

  some_value :
      (path : Text)
      → IsRooted es path
      → (path ≡ base_directory)
        ⊎ (IsAbsolute path
            × ((v : Blob) × (lookup (path2key path false) es ≡ some v) × (is_directory v ≡ true)))
  some_value path (base _ e) = inl e
  some_value path (under _ parent v a d e r l dir) = inr (a, (v, l, dir))

  -- The entries that are left are above a key: then they do not have it.
  pub not-Pending :
      (pass : ℕ) (rest : Entries Blob) (path : Text) (v : Blob)
      → pass_of (slashes path) ≤ pass
      → AllAbove (path2key path false) rest
      → lookup (path2key path false) es ≡ some v
      → ¬ Pending pass rest path
  not-Pending pass rest path v most above l (inl later) = omega arith
  not-Pending pass rest path v most above l (inr (now, left)) =
      cc (lookup-AllAbove (path2key path false) rest above)

  -- When an entry is visited in its pass, its rooted parent is in the filter.
  parent_held :
      (pass : ℕ) (value : Blob) (rest : Entries Blob) (s : PruneState ldb) (path parent : Text)
      → Inv pass ((path2key path false, value) ∷ rest) s
      → IsSorted ((path2key path false, value) ∷ rest)
      → IsAbsolute path
      → slashes path ≤ 9999
      → pass ≡ pass_of (slashes path)
      → path_parent path ≡ some parent
      → IsRooted es parent
      → Holds s parent
  parent_held pass value rest s path parent inv sorted a most now e rooted =
      elim (inv.rooted parent rooted) [
        | inl held ↦ held
        | inr pending ↦ elim (parent_depth path parent a e) [
          | inl root ↦ subst (Holds s) (sym root) inv.base_held
          | inr (b, depth) ↦ elim (some_value parent rooted) [
            | inl root ↦ subst (Holds s) (sym root) inv.base_held
            | inr (c, (v, l, dir)) ↦ elim (Bool-cases (pass_of (slashes parent) == pass)) [
              | inl same ↦
                  let first : str_lt (path2key parent false) (path2key path false) ≡ true =
                    parent_first path parent depth most (ground arith) in
                  absurd (
                    not-Pending pass ((path2key path false, value) ∷ rest) parent v (ground arith)
                      (first, AllAbove-trans _ _ rest first sorted.0) l pending)
              | inr earlier ↦
                  absurd (ground (arith, deeper_later (slashes parent), ap pass_of depth))
            ]
          ]
        ]
      ]

  pub slashes_pos : (path : Text) → IsAbsolute path → (slashes path == 0) ≡ false
  slashes_pos [] a = absurd a
  slashes_pos (c ∷ path) a = ground arith

  pub visit-eq :
      (pass : ℕ) (s : PruneState ldb) (key path : Text) (value : Blob)
      → key2path key ≡ some path
      → visit ldb pass s key value ≡ visit_path ldb pass s path (strtol key) (is_directory value)
  unfolding visit
  visit-eq pass s key path value e = rw (e, visit)

  pub visit-malformed :
      (pass : ℕ) (s : PruneState ldb) (key : Text) (value : Blob)
      → key2path key ≡ none
      → visit ldb pass s key value
        ≡ some (continue (record s { cache = delete_key ldb s.cache key }))
  unfolding visit
  visit-malformed pass s key value e = rw (e, visit)

  -- The body of the loop at the key of a path.
  pub visit-path2key :
      (pass : ℕ) (s : PruneState ldb) (path : Text) (value : Blob)
      → IsAbsolute path
      → visit ldb pass s (path2key path false) value
        ≡ visit_path ldb pass s path
            (record { negative = false; magnitude = slashes path })
            (is_directory value)
  visit-path2key pass s path value a =
      visit-eq pass s (path2key path false) path value (key2path-path2key path a)
      ∙ ap (λ d. visit_path ldb pass s path d (is_directory value)) (strtol-path2key path a)

  abbrev seen : PruneState ldb → Text → PruneState ldb
  seen s path = record s {
    depths = grow_long (record { negative = false; magnitude = slashes path }) s.depths;
  }

  -- What the visit of an entry that must stay does.
  pub record Kept (pass : ℕ) (s : PruneState ldb) (path : Text) (value : Blob) (t : PruneState ldb)
      : Type 0 where
    pub visited : visit ldb pass s (path2key path false) value ≡ some (continue t)
    pub cache : t.cache ≡ s.cache
    pub joins : pass ≡ pass_of (slashes path) → is_directory value ≡ true → Holds t path

  module _ (pass : ℕ) (value : Blob) (s : PruneState ldb) (path : Text) (a : IsAbsolute path)
      (wf : IsWellFormed s.filter) where
    -- Out of its pass.
    visit_later :
        in_pass pass (record { negative = false; magnitude = slashes path }) ≡ false
        → Kept pass s path value (seen s path)
    visit_later later = record {
      visited =
          visit-path2key pass s path value a
          ∙ (unfold visit_path in rw (slashes_pos path a, later));
      cache = refl;
      joins = λ now dir. cc (
        later,
        ap (λ p. in_pass p (record { negative = false; magnitude = slashes path })) now,
        pass_of-in_pass (slashes path),
      );
    }

    visit_base :
        in_pass pass (record { negative = false; magnitude = slashes path }) ≡ true
        → Holds s base_directory
        → str_eq path base_directory ≡ true
        → Kept pass s path value (seen s path)
    visit_base now held root = record {
      visited =
          visit-path2key pass s path value a
          ∙ (unfold visit_path in
              rw (
                slashes_pos path a,
                now,
                prune_entry-base ldb laws (seen s path) path wf (is_directory value) root,
              ));
      cache = refl;
      joins = λ n dir. subst (Holds s) (sym (str_eq_sound path base_directory root)) held;
    }

    visit_held :
        {parent : Text}
        → in_pass pass (record { negative = false; magnitude = slashes path }) ≡ true
        → str_eq path base_directory ≡ false
        → path_parent path ≡ some parent
        → Holds s parent
        → (t : PruneState ldb) × Kept pass s path value t
    visit_held now other e held =
        let (t, kept, step, same, joined) =
          keep_entry-Step ldb laws (seen s path) path wf (is_directory value) in
        (
          t,
          record {
            visited =
                visit-path2key pass s path value a
                ∙ (unfold visit_path in
                    rw (
                      slashes_pos path a,
                      now,
                      prune_entry-held ldb laws (seen s path) path wf (is_directory value) other e
                          held,
                      kept,
                    ));
            cache = same;
            joins = λ n dir. joined dir;
          },
        )

  -- The visit of an entry that must stay leaves the cache alone; in its pass, a directory joins.
  pub visit_own :
      (pass : ℕ) (value : Blob) (rest : Entries Blob) (s : PruneState ldb) (path : Text)
      → Inv pass ((path2key path false, value) ∷ rest) s
      → IsSorted ((path2key path false, value) ∷ rest)
      → IsAbsolute path
      → slashes path ≤ 9999
      → HasRootedParent es path
      → (t : PruneState ldb) × Kept pass s path value t
  visit_own pass value rest s path inv sorted a most parents =
      elim (Bool-cases (in_pass pass (record { negative = false; magnitude = slashes path }))) [
        | inr later ↦ (seen s path, visit_later pass value s path a inv.wf later)
        | inl now ↦ elim (Bool-cases (str_eq path base_directory)) [
          | inl root ↦ (seen s path, visit_base pass value s path a inv.wf now inv.base_held root)
          | inr other ↦ elim parents [
            | inl root ↦ absurd (ground (arith, (str_eq_iff path base_directory).1 root))
            | inr (parent, e, rooted) ↦ visit_held pass value s path a inv.wf now other e (
                parent_held pass value rest s path parent inv sorted a most
                  (in_pass-pass_of pass (slashes path) now) e rooted)
          ]
        ]
      ]

  pub visit_late :
      (pass : ℕ) (s : PruneState ldb) (key q : Text) (value : Blob)
      → IsLate key
      → key2path key ≡ some q
      → visit ldb pass s key value ≡ some (break s)
  visit_late pass s key q value late e =
      visit-eq pass s key q value e ∙ (unfold visit_path in rw late.no_depth)
