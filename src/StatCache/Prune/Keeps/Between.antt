-- ===== src/StatCache/Prune/Keeps/Between.antt =====
-- Proofs about the visits of the loop of `stat_cache_prune`, one after the other: what they leave of
-- the entries of others, and of the invariant of the loop.
use fusedav.Prelude.{
  ℕ, suc, ◌≤◌, ◌≡◌, ◌⊎◌, inl, inr, refl, sym, ap, ◌∙◌, subst, true, false, some, ◌∷◌, arith, ltb,
  Bool-cases, Option-cases, ◌==◌,
}
use fusedav.Text.{Text, str_eq, str_eq_sound, str_eq_refl}
use fusedav.LevelDb.{LevelDb, Entries, AllAbove, IsSorted, lookup, IsLevelDb}
use fusedav.Structs.{Blob}
use fusedav.StatCache.{path2key, key2path}
use fusedav.StatCache.Key.Shape.{slashes, IsAbsolute, key2path-path2key}
use fusedav.StatCache.Prune.{
  PruneState, Visit, continue, break, base_directory, is_directory, visit,
}
use fusedav.StatCache.Prune.Rooted.{IsRooted, base, under, HasRootedParent, KeyKind}
use fusedav.StatCache.Prune.Order.{pass_of}
use fusedav.StatCache.Prune.Steps.{Grows, Visited, after, value_at}
use fusedav.StatCache.Prune.Keeps.OneVisit.{Holds, Inv, not-Pending, visit_own, visit_late}

module _ (ldb : LevelDb Blob) (laws : IsLevelDb ldb) (es : Entries Blob) where
  -- The key of a path is foreign to every entry but its own.
  pub foreign :
      (key path : Text)
      → IsAbsolute path
      → KeyKind key
      → str_eq key (path2key path false) ≡ false
      → (v : Visit ldb) (pass : ℕ) (s : PruneState ldb) (value : Blob)
      → visit ldb pass s key value ≡ some v
      → Visited ldb laws s key v
      → value_at ldb laws (after ldb laws v) (path2key path false)
        ≡ value_at ldb laws s (path2key path false)
  foreign key path a (inl (p, b, e)) other v pass s value went visited =
      visited.others (path2key path false) (
        other,
        λ q found.
            let same : q ≡ p = cc (ap key2path e, key2path-path2key p b) in
            ap (λ t. str_eq (path2key t false) (path2key path false)) same
            ∙ ap (λ k. str_eq k (path2key path false)) (sym e)
            ∙ other,
      )
  foreign key path a (inr late) other v pass s value went visited =
      elim (Option-cases (key2path key)) [
        | inl malformed ↦ visited.others (path2key path false) (other, λ q found. cc)
        | inr (q, e) ↦
            let past : v ≡ break s = cc (visit_late ldb laws es pass s key q value late e) in
            ap (λ w. value_at ldb laws (after ldb laws w) (path2key path false)) past
      ]

  rooted_cases :
      (path : Text)
      → IsRooted es path
      → (path ≡ base_directory)
        ⊎ (IsAbsolute path
            × (slashes path ≤ 9999)
            × HasRootedParent es path
            × ((v : Blob) × (lookup (path2key path false) es ≡ some v) × (is_directory v ≡ true)))
  rooted_cases path (base _ e) = inl e
  rooted_cases path (under _ parent v a d e r l dir) = inr (a, d, inr (parent, e, r), (v, l, dir))

  -- A directory whose own entry has just been visited in its pass is in the filter.
  joined_own :
      (pass : ℕ) (value : Blob) (rest : Entries Blob) (s t : PruneState ldb) (path : Text)
      → Inv ldb laws es pass ((path2key path false, value) ∷ rest) s
      → IsSorted ((path2key path false, value) ∷ rest)
      → visit ldb pass s (path2key path false) value ≡ some (continue t)
      → Grows s.filter t.filter
      → IsRooted es path
      → pass ≡ pass_of (slashes path)
      → lookup (path2key path false) ((path2key path false, value) ∷ rest)
        ≡ lookup (path2key path false) es
      → Holds ldb laws es t path
  unfolding lookup
  joined_own pass value rest s t path inv sorted went grows r now left =
      elim (rooted_cases path r) [
        | inl root ↦
            subst (Holds ldb laws es t) (sym root) (grows.keeps base_directory inv.base_held)
        | inr (a, most, parents, (v, l, dir)) ↦
            let (u, kept) =
              visit_own ldb laws es pass value rest s path inv sorted a most parents in
            let same : u ≡ t = cc (went, kept.visited) in
            let own : value ≡ v = ground (arith, str_eq_refl (path2key path false)) in
            subst (λ w. Holds ldb laws es w path) same (kept.joins now (ap is_directory own ∙ dir))
      ]

  -- The invariant behind a visit that goes on.
  pub Inv-continue :
      (pass : ℕ) (key : Text) (value : Blob) (rest : Entries Blob) (s t : PruneState ldb)
      → Inv ldb laws es pass ((key, value) ∷ rest) s
      → IsSorted ((key, value) ∷ rest)
      → visit ldb pass s key value ≡ some (continue t)
      → Grows s.filter t.filter
      → Inv ldb laws es pass rest t
  Inv-continue pass key value rest s t inv sorted went grows = record {
    wf = grows.wf;
    base_held = grows.keeps base_directory inv.base_held;
    rooted = λ path r. elim (inv.rooted path r) [
      | inl held ↦ inl (grows.keeps path held)
      | inr (inl later) ↦ inr (inl later)
      | inr (inr (now, left)) ↦ elim (Bool-cases (str_eq key (path2key path false))) [
        | inr other ↦ inr (inr (now, unfold lookup in ground arith))
        | inl same ↦
            let e : key ≡ path2key path false = str_eq_sound key (path2key path false) same in
            inl (
              joined_own pass value rest s t path
                (subst (λ k. Inv ldb laws es pass ((k, value) ∷ rest) s) e inv)
                (subst (λ k. IsSorted ((k, value) ∷ rest)) e sorted)
                (subst (λ k. visit ldb pass s k value ≡ some (continue t)) e went) grows r now
                (subst
                  (λ k.
                    lookup (path2key path false) ((k, value) ∷ rest)
                    ≡ lookup (path2key path false) es)
                  e left))
      ]
    ];
  }

  -- What is left of a pass is above all paths: every directory of the pass is in the filter.
  pub Inv-next :
      (pass : ℕ) (rest : Entries Blob) (s : PruneState ldb)
      → Inv ldb laws es pass rest s
      → ((path : Text) → IsAbsolute path → AllAbove (path2key path false) rest)
      → Inv ldb laws es (suc pass) es s
  Inv-next pass rest s inv above = record {
    wf = inv.wf;
    base_held = inv.base_held;
    rooted = λ path r. elim (inv.rooted path r) [
      | inl held ↦ inl held
      | inr pending ↦ elim (rooted_cases path r) [
        | inl root ↦ inl (subst (Holds ldb laws es s) (sym root) inv.base_held)
        | inr (a, most, parents, (v, l, dir)) ↦
            elim (Bool-cases (pass_of (slashes path) == suc pass)) [
              | inl next ↦ inr (inr (ground arith, refl))
              | inr far ↦ elim (Bool-cases (ltb (suc pass) (pass_of (slashes path)))) [
                | inl later ↦ inr (inl (ground arith))
                | inr done ↦ absurd (
                    not-Pending ldb laws es pass rest path v (ground arith) (above path a) l
                      pending)
              ]
            ]
      ]
    ];
  }
