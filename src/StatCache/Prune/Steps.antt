-- ===== src/StatCache/Prune/Steps.antt =====
-- Proofs about one step of the loop of `stat_cache_prune`: the filter and the entry it visits.
use fusedav.Prelude.{
  ℕ, ◌≡◌, inl, inr, refl, Bool, true, false, Option, some, arith, Bool-cases, Option-cases, ◌==◌,
}
use fusedav.Text.{Text, str_eq}
use fusedav.Text.Decimal.{strtol}
use fusedav.Path.{path_parent}
use fusedav.Bloom.{Bloomfilter, bloomfilter_exists}
use fusedav.Bloom.Member.{IsWellFormed, bloomfilter_add-Added, bloomfilter_exists-defined}
use fusedav.LevelDb.{LevelDb, lookup, IsLevelDb}
use fusedav.Structs.{Blob}
use fusedav.StatCache.{path2key, key2path, stat_cache_delete}
use fusedav.StatCache.Prune.{
  PruneState, Visit, continue, break, base_directory, is_directory, in_pass, grow_long, delete_key,
  keep_entry, check_entry, prune_entry, visit_path, visit,
}

-- The filter is well-formed, and holds what it held.
pub record Grows (f g : Bloomfilter) : Type 0 where
  pub wf : IsWellFormed g
  pub keeps : (x : Text) → bloomfilter_exists f x ≡ some true → bloomfilter_exists g x ≡ some true

pub Grows-refl : (f : Bloomfilter) → IsWellFormed f → Grows f f
Grows-refl f wf = record { wf = wf; keeps = λ x h. h }

pub Grows-trans : {f g h : Bloomfilter} → Grows f g → Grows g h → Grows f h
Grows-trans p q = record { wf = q.wf; keeps = λ x e. q.keeps x (p.keeps x e) }

module _ (ldb : LevelDb Blob) (laws : IsLevelDb ldb) where
  abbrev pub value_at : PruneState ldb → Text → Option Blob
  value_at s j = lookup j (ldb.entries s.cache.db)

  -- The step may change the value under one key only.
  pub record Step (key : Text) (s t : PruneState ldb) : Type 0 where
    pub grows : Grows s.filter t.filter
    pub others : (j : Text) → str_eq key j ≡ false → value_at t j ≡ value_at s j

  module _ (s : PruneState ldb) (path : Text) (wf : IsWellFormed s.filter) where
    stays : Step (path2key path false) s s
    stays = record { grows = Grows-refl s.filter wf; others = λ j h. refl }

    pub keep_entry-Step :
        (is_dir : Bool)
        → (t : PruneState ldb) × (keep_entry ldb s path is_dir ≡ some t)
          × Step (path2key path false) s t
          × (t.cache ≡ s.cache)
          × (is_dir ≡ true → bloomfilter_exists t.filter path ≡ some true)
    unfolding keep_entry
    keep_entry-Step false = (s, refl, stays, refl, λ h. absurd (ground arith))
    keep_entry-Step true =
        let (filter, e, added) = bloomfilter_add-Added s.filter path wf in
        (
          record s { filter = filter },
          rw e,
          record { grows = record { wf = added.wf; keeps = added.keeps }; others = λ j h. refl },
          refl,
          λ h. added.holds,
        )

    check_entry-Step :
        (is_dir found : Bool)
        → (t : PruneState ldb) × (check_entry ldb s path is_dir (some found) ≡ some t)
          × Step (path2key path false) s t
    unfolding check_entry
    check_entry-Step is_dir true =
        let (t, e, step, same, held) = keep_entry-Step is_dir in (t, e, step)
    check_entry-Step is_dir false = (
      record s { cache = (stat_cache_delete ldb s.cache path).cache },
      refl,
      record {
        grows = Grows-refl s.filter wf;
        others = λ j h.
            unfold stat_cache_delete in laws.delete_other s.cache.db (path2key path false) j h;
      },
    )

    prune_entry-Step :
        (is_dir : Bool)
        → (t : PruneState ldb) × (prune_entry ldb s path is_dir ≡ some t)
          × Step (path2key path false) s t
    unfolding prune_entry
    prune_entry-Step is_dir = elim (Bool-cases (str_eq path base_directory)) [
      | inl base ↦ (s, rw base, stays)
      | inr other ↦ elim (Option-cases (path_parent path)) [
        | inl orphan ↦ (s, rw (other, orphan), stays)
        | inr (parent, e) ↦
            let (found, look) = bloomfilter_exists-defined s.filter parent wf in
            let (t, checked, step) = check_entry-Step is_dir found in
            (t, rw (other, e, look) checked, step)
      ]
    ]

    -- The base directory is left alone.
    pub prune_entry-base :
        (is_dir : Bool) → str_eq path base_directory ≡ true → prune_entry ldb s path is_dir ≡ some s
    unfolding prune_entry
    prune_entry-base is_dir base = rw base

    -- An entry whose parent is in the filter is kept, and a directory joins the filter.
    pub prune_entry-held :
        (is_dir : Bool) {parent : Text}
        → str_eq path base_directory ≡ false
        → path_parent path ≡ some parent
        → bloomfilter_exists s.filter parent ≡ some true
        → prune_entry ldb s path is_dir ≡ keep_entry ldb s path is_dir
    unfolding prune_entry check_entry
    prune_entry-held is_dir other e held = rw (other, e, held)

  -- The state that a visit leaves.
  abbrev pub after : Visit ldb → PruneState ldb
  after (continue t) = t
  after (break t) = t

  -- What a visit may touch: the entry's own key, and the key of its path.
  abbrev pub IsForeign : Text → Text → Type 0
  IsForeign key j =
      (str_eq key j ≡ false)
      × ((path : Text) → key2path key ≡ some path → str_eq (path2key path false) j ≡ false)

  pub record Visited (s : PruneState ldb) (key : Text) (v : Visit ldb) : Type 0 where
    pub grows : Grows s.filter (after v).filter
    pub others : (j : Text) → IsForeign key j → value_at (after v) j ≡ value_at s j

  -- A visit never fails, whatever the entry.
  pub visit-Visited :
      (pass : ℕ) (s : PruneState ldb) (key : Text) (value : Blob)
      → IsWellFormed s.filter
      → (v : Visit ldb) × (visit ldb pass s key value ≡ some v) × Visited s key v
  unfolding visit visit_path
  visit-Visited pass s key value wf = elim (Option-cases (key2path key)) [
    | inl malformed ↦ (
      continue (record s { cache = delete_key ldb s.cache key }),
      rw (malformed, visit),
      record {
        grows = Grows-refl s.filter wf;
        others = λ j f. unfold delete_key in laws.delete_other s.cache.db key j f.0;
      },
    )
    | inr (path, e) ↦ elim (Bool-cases ((strtol key).magnitude == 0)) [
      | inl past ↦ (
        break s,
        rw (e, visit, past),
        record { grows = Grows-refl s.filter wf; others = λ j f. refl },
      )
      | inr at ↦
          let seen : PruneState ldb = record s { depths = grow_long (strtol key) s.depths } in
          elim (Bool-cases (in_pass pass (strtol key))) [
            | inl now ↦
                let (t, pruned, step) = prune_entry-Step seen path wf (is_directory value) in
                (
                  continue t,
                  rw (e, visit, at, now, pruned),
                  record { grows = step.grows; others = λ j f. step.others j (f.1 path e) },
                )
            | inr later ↦ (
              continue seen,
              rw (e, visit, at, later),
              record { grows = Grows-refl s.filter wf; others = λ j f. refl },
            )
          ]
    ]
  ]
