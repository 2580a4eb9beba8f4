-- ===== src/StatCache/Prune/Keeps.antt =====
-- Proofs about the passes of `stat_cache_prune`: the entry of one path through all of them.
pub mod OneVisit
pub mod Between
use fusedav.Prelude.{
  ℕ, zero, suc, ◌≤◌, ◌<◌, ◌≡◌, ◌⊎◌, inl, inr, refl, sym, ap, ◌∙◌, subst, Bool, true, false, Option,
  none, some, [], ◌∷◌, arith, ltb, Bool-cases, Option-cases, ◌==◌, if◌then◌else◌,
}
use fusedav.Text.{Text, str_eq, str_eq_sound, str_eq_refl, starts_with}
use fusedav.Bloom.{Bloomfilter, bloomfilter_exists}
use fusedav.Bloom.Member.{IsWellFormed, bloomfilter_exists-defined}
use fusedav.LevelDb.{LevelDb, Entries, AllAbove, IsSorted, lookup, IsLevelDb}
use fusedav.LevelDb.Sorted.{AllAbove-trans}
use fusedav.Structs.{Blob}
use fusedav.StatCache.{StatCache, path2key, key2path, updated_children_prefix}
use fusedav.StatCache.Key.Shape.{slashes, IsAbsolute}
use fusedav.StatCache.Prune.{
  PruneState, Visit, continue, break, is_directory, visit_path, visit, prune_pass, prune_passes,
  in_pass, prune_entry,
}
use fusedav.StatCache.Prune.Rooted.{HasRootedParent, IsLate, KeyKind, WellKeyed}
use fusedav.StatCache.Prune.Steps.{Grows, Visited, after, value_at, visit-Visited}
use OneVisit.{Inv, visit-malformed, Kept, visit_own, visit_late, visit-path2key, slashes_pos}
use Between.{foreign, Inv-continue, Inv-next}

module _ (ldb : LevelDb Blob) (laws : IsLevelDb ldb) (es : Entries Blob) where
  no_break :
      (pass : ℕ) (s t : PruneState ldb) (path : Text) (is_dir : Bool)
      → IsAbsolute path
      → ¬ (
          visit_path ldb pass s path (record { negative = false; magnitude = slashes path }) is_dir
          ≡ some (break t))
  unfolding visit_path
  no_break pass s t path is_dir a h = ground (arith, slashes_pos ldb laws es path a)

  -- The loop is left only at a key behind those of all paths, and nothing is changed.
  visit_break :
      (pass : ℕ) (s t : PruneState ldb) (key : Text) (value : Blob)
      → KeyKind key
      → visit ldb pass s key value ≡ some (break t)
      → IsLate key × (t ≡ s)
  visit_break pass s t key value (inl (p, b, e)) went = absurd (
      no_break pass s t p (is_directory value) b (
        sym (visit-path2key ldb laws es pass s p value b)
        ∙ subst (λ k. visit ldb pass s k value ≡ some (break t)) e went))
  visit_break pass s t key value (inr late) went = (
    late,
    elim (Option-cases (key2path key)) [
      | inl malformed ↦ cc (visit-malformed ldb laws es pass s key value malformed)
      | inr (q, e) ↦ cc (visit_late ldb laws es pass s key q value late e)
    ],
  )

  module _ (path : Text) (a : IsAbsolute path) (most : slashes path ≤ 9999)
      (parents : HasRootedParent es path) where
    abbrev own_value : PruneState ldb → Option Blob
    own_value s = value_at ldb laws s (path2key path false)

    -- No visit changes the entry.
    visit-own_value :
        (pass : ℕ) (key : Text) (value : Blob) (rest : Entries Blob) (s : PruneState ldb)
        (v : Visit ldb)
        → Inv ldb laws es pass ((key, value) ∷ rest) s
        → IsSorted ((key, value) ∷ rest)
        → KeyKind key
        → visit ldb pass s key value ≡ some v
        → Visited ldb laws s key v
        → own_value (after ldb laws v) ≡ own_value s
    visit-own_value pass key value rest s v inv sorted kind went visited =
        elim (Bool-cases (str_eq key (path2key path false))) [
          | inr other ↦ foreign ldb laws es key path a kind other v pass s value went visited
          | inl same ↦
              let e : key ≡ path2key path false = str_eq_sound key (path2key path false) same in
              let (u, kept) =
                visit_own ldb laws es pass value rest s path
                  (subst (λ k. Inv ldb laws es pass ((k, value) ∷ rest) s) e inv)
                  (subst (λ k. IsSorted ((k, value) ∷ rest)) e sorted) a most parents in
              let went' : visit ldb pass s (path2key path false) value ≡ some v =
                subst (λ k. visit ldb pass s k value ≡ some v) e went in
              let result : v ≡ continue u = cc (went', kept.visited) in
              ap (λ w. own_value (after ldb laws w)) result
              ∙ ap (λ c. lookup (path2key path false) (ldb.entries (c.db))) kept.cache
        ]

    -- What a pass leaves.
    record Passed (pass : ℕ) (rest : Entries Blob) (s t : PruneState ldb) : Type 0 where
      ran : prune_pass ldb pass rest s ≡ some t
      inv : Inv ldb laws es (suc pass) es t
      own : own_value t ≡ own_value s

    prune_pass-Passed :
        (pass : ℕ) (rest : Entries Blob) (s : PruneState ldb)
        → Inv ldb laws es pass rest s
        → IsSorted rest
        → WellKeyed rest
        → (t : PruneState ldb) × Passed pass rest s t
    prune_pass-Passed pass [] s inv sorted keyed = (
      s,
      record {
        ran = unfold prune_pass in refl;
        inv = Inv-next ldb laws es pass [] s inv (λ p b. tt);
        own = refl;
      },
    )
    prune_pass-Passed pass ((key, value) ∷ rest) s inv sorted keyed =
        let (v, went, visited) = visit-Visited ldb laws pass s key value inv.wf in
        go v went visited (λ t i. prune_pass-Passed pass rest t i sorted.1 keyed.1)
      where
        go :
            (v : Visit ldb)
            → visit ldb pass s key value ≡ some v
            → Visited ldb laws s key v
            → ((t : PruneState ldb)
                → Inv ldb laws es pass rest t
                → (u : PruneState ldb) × Passed pass rest t u)
            → (u : PruneState ldb) × Passed pass ((key, value) ∷ rest) s u
        go (continue t) went visited on =
            let (u, passed) =
              on t
                (Inv-continue ldb laws es pass key value rest s t inv sorted went visited.grows) in
            (
              u,
              record {
                ran = unfold prune_pass in rw (went, prune_pass) passed.ran;
                inv = passed.inv;
                own =
                    passed.own
                    ∙ visit-own_value pass key value rest s (continue t) inv sorted keyed.0 went
                        visited;
              },
            )
        go (break t) went visited on =
            let (late, same) = visit_break pass s t key value keyed.0 went in
            (
              t,
              record {
                ran = unfold prune_pass in rw (went, prune_pass);
                inv = subst (Inv ldb laws es (suc pass) es) (sym same) (
                    Inv-next ldb laws es pass ((key, value) ∷ rest) s inv (λ p b.
                      (late.behind p b, AllAbove-trans _ _ rest (late.behind p b) sorted.0)));
                own = ap own_value same;
              },
            )

    pub prune_passes-own :
        (fuel pass : ℕ) (s : PruneState ldb)
        → Inv ldb laws es pass es s
        → IsSorted es
        → WellKeyed es
        → (t : PruneState ldb) × (prune_passes ldb fuel pass es s ≡ some t)
          × IsWellFormed t.filter
          × (own_value t ≡ own_value s)
    unfolding prune_passes
    prune_passes-own zero pass s inv sorted keyed = (s, refl, inv.wf, refl)
    prune_passes-own (suc fuel) pass s inv sorted keyed =
        elim (Bool-cases (ltb pass s.depths.passes)) [
          | inr done ↦ (s, rw done, inv.wf, refl)
          | inl more ↦
              let (t, passed) = prune_pass-Passed pass es s inv sorted keyed in
              let (u, ran, wf, own) = prune_passes-own fuel (suc pass) t passed.inv sorted keyed in
              (u, rw (more, passed.ran) ran, wf, own ∙ passed.own)
        ]
