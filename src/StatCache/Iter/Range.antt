-- ===== src/StatCache/Iter/Range.antt =====
-- Proofs about the iterator of src/statcache.c: the entries with its prefix.
use fusedav.Prelude.{
  ◌≡◌, refl, sym, ap, ◌∙◌, false, [], ◌∷◌, arith, inl, inr, Bool-cases, if◌then◌else◌,
}
use fusedav.Text.{Text, starts_with, str_lt}
use fusedav.Text.Order.{str_lt_trans, starts_with-str_lt, starts_with_passed}
use fusedav.LevelDb.{Entries, AllAbove, IsSorted, seek}
use fusedav.Structs.{Blob}
use fusedav.StatCache.Iter.{iter_entries}

-- The entries whose keys have a prefix, wherever they stand.
abbrev pub with_prefix : Text → Entries Blob → Entries Blob
with_prefix p [] = []
with_prefix p ((k, v) ∷ es) =
    if starts_with p k then (k, v) ∷ with_prefix p es else with_prefix p es

with_prefix_passed :
    (p k : Text) (es : Entries Blob)
    → str_lt k p ≡ false
    → starts_with p k ≡ false
    → AllAbove k es
    → with_prefix p es ≡ []
with_prefix_passed p k [] below other above = refl
with_prefix_passed p k ((j, v) ∷ es) below other above =
    rw (starts_with_passed p k j below other above.0)
      (with_prefix_passed p k es below other above.1)

-- The first entry is not below the prefix.
abbrev StartsAt : Text → Entries Blob → Type 0
StartsAt p [] = Unit
StartsAt p ((k, v) ∷ es) = str_lt k p ≡ false

StartsAt-tail :
    (p k : Text) (es : Entries Blob) → str_lt k p ≡ false → AllAbove k es → StartsAt p es
StartsAt-tail p k [] h above = tt
StartsAt-tail p k ((j, v) ∷ es) h above = elim (Bool-cases (str_lt j p)) [
  | inl below ↦ cc (h, str_lt_trans k j p above.0 below)
  | inr notbelow ↦ notbelow
]

iter_entries-eq :
    (p : Text) (es : Entries Blob)
    → IsSorted es
    → StartsAt p es
    → iter_entries p es ≡ with_prefix p es
unfolding iter_entries
iter_entries-eq p [] s h = refl
iter_entries-eq p ((k, v) ∷ es) s h = elim (Bool-cases (starts_with p k)) [
  | inl has ↦ rw has (ap (λ l. (k, v) ∷ l) (iter_entries-eq p es s.1 (StartsAt-tail p k es h s.0)))
  | inr other ↦ rw other (sym (with_prefix_passed p k es h other s.0))
]

seek-IsSorted : (p : Text) (es : Entries Blob) → IsSorted es → IsSorted (seek p es)
unfolding seek
seek-IsSorted p [] s = tt
seek-IsSorted p ((k, v) ∷ es) s = ground (arith, seek-IsSorted p es s.1)

seek-StartsAt : (p : Text) (es : Entries Blob) → StartsAt p (seek p es)
unfolding seek
seek-StartsAt p [] = tt
seek-StartsAt p ((k, v) ∷ es) = elim (Bool-cases (str_lt k p)) [
  | inl below ↦ rw below (seek-StartsAt p es)
  | inr at ↦ rw at at
]

with_prefix-seek : (p : Text) (es : Entries Blob) → with_prefix p (seek p es) ≡ with_prefix p es
unfolding seek
with_prefix-seek p [] = refl
with_prefix-seek p ((k, v) ∷ es) = ground (arith, with_prefix-seek p es, starts_with-str_lt p k)

-- The loop from the seek on comes to exactly the entries with the prefix, in their order.
pub iter_entries-seek :
    (p : Text) (es : Entries Blob) → IsSorted es → iter_entries p (seek p es) ≡ with_prefix p es
iter_entries-seek p es s =
    iter_entries-eq p (seek p es) (seek-IsSorted p es s) (seek-StartsAt p es)
    ∙ with_prefix-seek p es
