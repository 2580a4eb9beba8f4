-- ===== src/LevelDb/Sorted.antt =====
-- Entries in the order of their keys.
use fusedav.Prelude.{◌≡◌, refl, subst, inl, inr, Bool-cases, true, none, [], ◌∷◌}
use fusedav.Text.{Text, str_eq, str_lt, str_eq_sound}
use fusedav.Text.Order.{str_lt_irrefl, str_lt_trans}
use fusedav.LevelDb.{Entries, lookup, AllAbove}

module _ {V : Type 0} where
  pub AllAbove-trans :
      (k j : Text) (es : Entries V) → str_lt k j ≡ true → AllAbove j es → AllAbove k es
  AllAbove-trans k j [] l h = tt
  AllAbove-trans k j ((i, v) ∷ es) l h = (str_lt_trans k j i l h.0, AllAbove-trans k j es l h.1)

  -- A key below all entries is not among them.
  pub lookup-AllAbove : (k : Text) (es : Entries V) → AllAbove k es → lookup k es ≡ none
  unfolding lookup
  lookup-AllAbove k [] h = refl
  lookup-AllAbove k ((j, w) ∷ es) h = elim (Bool-cases (str_eq j k)) [
    | inl same ↦
        let e : j ≡ k = str_eq_sound j k same in
        let below : str_lt k k ≡ true = subst (λ t. str_lt k t ≡ true) e h.0 in
        cc (str_lt_irrefl k, below)
    | inr other ↦ rw other (lookup-AllAbove k es h.1)
  ]
