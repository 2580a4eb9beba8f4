-- ===== src/Text/Decimal/Digits.antt =====
-- Proofs about the decimal digits of small numbers, and their order.
use fusedav.Prelude.{ℕ, zero, suc, ◌+◌, ◌/◌, ◌%◌, ◌≤◌, ◌≡◌, true, [], ◌∷◌, ◌++◌, List, arith}
use fusedav.Text.{str_lt}
use fusedav.Text.Decimal.{utoa_onto, utoa}

one_digit : (f n : ℕ) (out : List ℕ) → n ≤ 9 → utoa_onto (suc f) n out ≡ (48 + n) ∷ out
unfolding utoa_onto
one_digit f n out h = ground arith

more_digits :
    (f n : ℕ) (out : List ℕ)
    → 10 ≤ n
    → utoa_onto (suc f) n out ≡ utoa_onto f (n / 10) ((48 + n % 10) ∷ out)
unfolding utoa_onto
more_digits f n out h = ground arith

pub utoa-one : (n : ℕ) → n ≤ 9 → utoa n ≡ (48 + n) ∷ []
unfolding utoa
utoa-one n h = one_digit n n [] h

pub utoa-two :
    (k : ℕ) → let n = suc k in 10 ≤ n → n ≤ 99 → utoa n ≡ (48 + n / 10) ∷ (48 + n % 10) ∷ []
unfolding utoa
utoa-two k lo hi = rw (more_digits (suc k) (suc k) [] lo) (one_digit k (suc k / 10) _ (omega arith))

pub utoa-three :
    (k : ℕ)
    → let n = suc (suc k) in
      100 ≤ n → n ≤ 999 → utoa n ≡ (48 + n / 10 / 10) ∷ (48 + n / 10 % 10) ∷ (48 + n % 10) ∷ []
unfolding utoa
utoa-three k lo hi =
    let n = suc (suc k) in
    rw (more_digits n n [] (omega arith), more_digits (suc k) (n / 10) _ (omega arith))
      (one_digit k (n / 10 / 10) _ (omega arith))

pub utoa-four :
    (k : ℕ)
    → let n = suc (suc (suc k)) in
      1000 ≤ n
      → n ≤ 9999
      → utoa n
        ≡ (48 + n / 10 / 10 / 10)
          ∷ (48 + n / 10 / 10 % 10)
          ∷ (48 + n / 10 % 10)
          ∷ (48 + n % 10)
          ∷ []
unfolding utoa
utoa-four k lo hi =
    let n = suc (suc (suc k)) in
    rw
      (
        more_digits n n [] (omega arith),
        more_digits (suc (suc k)) (n / 10) _ (omega arith),
        more_digits (suc k) (n / 10 / 10) _ (omega arith),
      )
      (one_digit k (n / 10 / 10 / 10) _ (omega arith))

module _ (x y : List ℕ) where
  pub utoa_lt-one : (m : ℕ) → suc m ≤ 9 → str_lt (utoa m ++ x) (utoa (suc m) ++ y) ≡ true
  unfolding str_lt
  utoa_lt-one m h = rw (utoa-one m (omega arith), utoa-one (suc m) h) (ground arith)

  pub utoa_lt-two : (m : ℕ) → 10 ≤ m → suc m ≤ 99 → str_lt (utoa m ++ x) (utoa (suc m) ++ y) ≡ true
  unfolding str_lt
  utoa_lt-two zero lo hi = absurd (omega arith)
  utoa_lt-two (suc k) lo hi =
      rw (utoa-two k lo (omega arith), utoa-two (suc k) (omega arith) hi) (ground arith)

  pub utoa_lt-three :
      (m : ℕ) → 100 ≤ m → suc m ≤ 999 → str_lt (utoa m ++ x) (utoa (suc m) ++ y) ≡ true
  unfolding str_lt
  utoa_lt-three zero lo hi = absurd (omega arith)
  utoa_lt-three (suc zero) lo hi = absurd (omega arith)
  utoa_lt-three (suc (suc k)) lo hi =
      rw (utoa-three k lo (omega arith), utoa-three (suc k) (omega arith) hi) (ground arith)

  pub utoa_lt-four :
      (m : ℕ) → 1000 ≤ m → suc m ≤ 9999 → str_lt (utoa m ++ x) (utoa (suc m) ++ y) ≡ true
  unfolding str_lt
  utoa_lt-four zero lo hi = absurd (omega arith)
  utoa_lt-four (suc zero) lo hi = absurd (omega arith)
  utoa_lt-four (suc (suc zero)) lo hi = absurd (omega arith)
  utoa_lt-four (suc (suc (suc k))) lo hi =
      rw (utoa-four k lo (omega arith), utoa-four (suc k) (omega arith) hi) (ground arith)
