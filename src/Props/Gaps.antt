-- ===== src/Props/Gaps.antt =====
-- What src/props.c does with the text between two elements.
use fusedav.Prelude.{ℕ, sym, ◌≡◌, refl, Option, none, some, arith}
use mathlib.Core.Option.{some-injective}
use fusedav.Text.{Text}
use fusedav.Props.{
  Libraries, PropfindState, Callback, end_element, end_branch, character_data_handler,
}

module _ {S : Type 0} (lib : Libraries) (base_url : Text) (callback : Callback S) where
  -- Character data right behind the end of an element, as between two elements on two lines, is
  -- written out of bounds.
  pub end_element-characters :
      (now : ℕ) (state after : PropfindState S) (name s : Text)
      → end_element lib base_url callback now state name ≡ some after
      → character_data_handler lib base_url callback now after s ≡ none
  unfolding end_element
  end_element-characters now state after name s h =
      go (end_branch lib base_url callback now state name) h
    where
      go :
          (o : Option (PropfindState S))
          → (elim o [ none ↦ none | some t ↦ some (record t { current_data = none }) ]) ≡ some after
          → character_data_handler lib base_url callback now after s ≡ none
      go none e = absurd (ground arith)
      go (some t) e = rw (sym (some-injective _ _ e)) (unfold character_data_handler in refl)
