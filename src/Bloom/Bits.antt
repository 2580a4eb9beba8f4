-- ===== src/Bloom/Bits.antt =====
-- Setting one bit of a byte, checked over all bytes.
use Prim.Native.Nat.{bit_and, bit_or}
use fusedav.Prelude.{
  ℕ, zero, suc, ◌+◌, ◌^◌, ◌<◌, ◌≡◌, refl, Bool, true, false, ◌&&◌, ◌||◌, not, arith, ltb, ◌==◌, inl,
  inr, ◌≤◌, subst, Bool-cases,
}

-- The test passes at `count` numbers, from `first` on.
passes : (ℕ → Bool) → ℕ → ℕ → Bool
passes test first zero = true
passes test first (suc count) = test first && passes test (suc first) count

passes_at :
    (test : ℕ → Bool) (first count i : ℕ)
    → first ≤ i
    → i < first + count
    → passes test first count ≡ true
    → test i ≡ true
unfolding passes
passes_at test first zero i low high h = absurd (omega arith)
passes_at test first (suc count) i low high h = elim (Bool-cases (first == i)) [
  | inl here ↦
      let same : first ≡ i = ground (arith, here) in subst (λ n. test n ≡ true) same (ground arith)
  | inr later ↦
      passes_at test (suc first) count i (ground (arith, later)) (omega arith) (ground arith)
]

abbrev stays_byte : ℕ → ℕ → Bool
stays_byte a j = ltb (bit_or a (2 ^ j)) 256

abbrev sets_bit : ℕ → ℕ → Bool
sets_bit a j = not (bit_and (bit_or a (2 ^ j)) (2 ^ j) == 0)

abbrev keeps_bit : ℕ → ℕ → ℕ → Bool
keeps_bit a j k = (bit_and a (2 ^ k) == 0) || not (bit_and (bit_or a (2 ^ j)) (2 ^ k) == 0)

abbrev checks : ℕ → ℕ → Bool
checks a j = stays_byte a j && (sets_bit a j && passes (keeps_bit a j) 0 8)

table : passes (λ a. passes (checks a) 0 8) 0 256 ≡ true
unfolding passes
table = refl

check : (a j : ℕ) → a < 256 → j < 8 → checks a j ≡ true
check a j ha hj =
    passes_at (checks a) 0 8 j (omega arith) hj
      (passes_at (λ b. passes (checks b) 0 8) 0 256 a (omega arith) ha table)

pub bit_or-lt : (a j : ℕ) → a < 256 → j < 8 → bit_or a (2 ^ j) < 256
bit_or-lt a j ha hj = ground (arith, check a j ha hj)

pub bit_or_sets : (a j : ℕ) → a < 256 → j < 8 → (bit_and (bit_or a (2 ^ j)) (2 ^ j) == 0) ≡ false
bit_or_sets a j ha hj = ground (arith, check a j ha hj)

pub bit_or_keeps :
    (a j k : ℕ)
    → a < 256
    → j < 8
    → k < 8
    → (bit_and a (2 ^ k) == 0) ≡ false
    → (bit_and (bit_or a (2 ^ j)) (2 ^ k) == 0) ≡ false
bit_or_keeps a j k ha hj hk h =
    let every : passes (keeps_bit a j) 0 8 ≡ true = ground (arith, check a j ha hj) in
    ground (arith, passes_at (keeps_bit a j) 0 8 k (omega arith) hk every)
