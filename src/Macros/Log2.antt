-- ===== src/Macros/Log2.antt =====
-- `LOG2`: one more than the floor of the binary logarithm.
use ces.Prelude.{
  ℕ, suc, ◌+◌, ◌-◌, ◌*◌, ◌/◌, ◌^◌, ◌≤◌, ◌<◌, ◌≡◌, bit_and, ◌==◌, if◌then◌else◌, arith, Bool-cases,
  inl, inr, bit_and_upper, two-pow_pos, pow-add, ◌∙◌,
}
use ces.Macros.{nbits2, nbits4, nbits8, nbits16, nbits32, log2}

-- `p` is the position of the highest bit of `n`.
abbrev pub IsTop : ℕ → ℕ → Type 0
IsTop n p = (2 ^ p ≤ n) × (n < 2 ^ suc p)

upper_test :
    (k n : ℕ) → n / 2 ^ k < 2 ^ k → (bit_and n ((2 ^ k - 1) * 2 ^ k) == 0) ≡ (n / 2 ^ k == 0)
upper_test k n fits = grind (arith, bit_and_upper k n fits, two-pow_pos k)

IsTop-shift : (k n p : ℕ) → IsTop (n / 2 ^ k) p → IsTop n (k + p)
IsTop-shift k n p h = (rw (pow-add 2 k p) low, rw (e ∙ pow-add 2 k (suc p)) high)
  where
    e : 2 ^ suc (k + p) ≡ 2 ^ (k + suc p)
    e = let d : suc (k + p) ≡ k + suc p = omega arith in rw d

    low : 2 ^ k * 2 ^ p ≤ n
    low = grind (arith, two-pow_pos k)

    high : n < 2 ^ k * 2 ^ suc p
    high = grind (arith, two-pow_pos k)

-- One doubling of the width: the highest bit of an upper half that is not 0 decides, shifted.
halving :
    (f : ℕ → ℕ) (k n : ℕ)
    → ((m : ℕ) → 0 < m → m < 2 ^ k → IsTop m (f m))
    → 0 < n
    → n / 2 ^ k < 2 ^ k
    → IsTop n (if bit_and n ((2 ^ k - 1) * 2 ^ k) == 0 then f n else (k + f (n / 2 ^ k)))
halving f k n half pos fits = elim (Bool-cases (n / 2 ^ k == 0)) [
  | inl low ↦ rw (upper_test k n fits, low) (half n pos (ground (arith, two-pow_pos k)))
  | inr high ↦
      rw (upper_test k n fits, high)
        (IsTop-shift k n (f (n / 2 ^ k)) (half (n / 2 ^ k) (ground arith) fits))
]

nbits2-IsTop : (n : ℕ) → 0 < n → n < 2 ^ 2 → IsTop n (nbits2 n)
unfolding nbits2
nbits2-IsTop n pos fits = halving (λ _. 0) 1 n (λ m p q. ground arith) pos (omega arith)

nbits4-IsTop : (n : ℕ) → 0 < n → n < 2 ^ 4 → IsTop n (nbits4 n)
unfolding nbits4
nbits4-IsTop n pos fits = halving nbits2 2 n nbits2-IsTop pos (omega arith)

nbits8-IsTop : (n : ℕ) → 0 < n → n < 2 ^ 8 → IsTop n (nbits8 n)
unfolding nbits8
nbits8-IsTop n pos fits = halving nbits4 4 n nbits4-IsTop pos (omega arith)

nbits16-IsTop : (n : ℕ) → 0 < n → n < 2 ^ 16 → IsTop n (nbits16 n)
unfolding nbits16
nbits16-IsTop n pos fits = halving nbits8 8 n nbits8-IsTop pos (omega arith)

nbits32-IsTop : (n : ℕ) → 0 < n → n < 2 ^ 32 → IsTop n (nbits32 n)
unfolding nbits32
nbits32-IsTop n pos fits = halving nbits16 16 n nbits16-IsTop pos (omega arith)

-- For a 32-bit number that is not 0, LOG2 is one more than the position p of its highest bit:
-- 2 ^ p ≤ n < 2 ^ (p + 1).
pub log2_bounds : (n : ℕ) → 0 < n → n < 2 ^ 32 → (p : ℕ) × (log2 n ≡ p + 1) × IsTop n p
unfolding log2
log2_bounds n pos fits = (nbits32 n, ground arith, nbits32-IsTop n pos fits)
