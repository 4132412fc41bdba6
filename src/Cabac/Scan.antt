-- ===== src/Cabac/Scan.antt =====
-- The scans of src/Cabac.cpp visit each place of a block once.
pub mod Tables
pub mod Largest
use ces.Prelude.{
  ℕ, zero, suc, ◌+◌, ◌*◌, ◌<◌, ◌≡◌, refl, ap, Bool, true, false, ◌&&◌, ◌||◌, List, [], ◌∷◌, length,
  get_or, arith, ◌==◌, ==_iff, all_below, all_below_sound, Bool-cases, ◌⊎◌, inl, inr,
}
use Largest.{scan_idx_32}
use Tables.{
  scan_idx_2, scan_idx_4, scan_idx_8, scan_idx_16, sig_last_scan_8x8, sig_last_scan_cg_32x32,
}

visits : ℕ → List ℕ → Bool
visits p [] = false
visits p (x ∷ xs) = (x == p) || visits p xs

visits_sound :
    (p : ℕ) (xs : List ℕ) → visits p xs ≡ true → (k : ℕ) × (k < length xs) × (get_or xs k 0 ≡ p)
unfolding visits
visits_sound p [] h = cc
visits_sound p (x ∷ xs) h = elim (Bool-cases (x == p)) [
  | inl here ↦ (0, omega arith, (==_iff x p).0 here)
  | inr other ↦
      let (k, inside, found) = visits_sound p xs (ground arith) in (suc k, omega arith, found)
]

-- A scan of `n` places in which every place below `n` occurs: so each occurs once.
abbrev pub IsScan : ℕ → List ℕ → Type 0
IsScan n xs = (length xs ≡ n) × ((p : ℕ) → p < n → (k : ℕ) × (k < n) × (get_or xs k 0 ≡ p))

scan_test : ℕ → List ℕ → Bool
scan_test n xs = (length xs == n) && all_below n (λ p. visits p xs)

scan_test-IsScan : (n : ℕ) (xs : List ℕ) → scan_test n xs ≡ true → IsScan n xs
unfolding scan_test
scan_test-IsScan n xs h = (
  size,
  λ p hp.
      let (k, inside, found) =
        visits_sound p xs (all_below_sound n (λ p. visits p xs) p (ground arith) hp) in
      (k, omega (arith, size), found),
)
  where
    size : length xs ≡ n
    size = ground arith

scans_2 : all_below 4 (λ i. scan_test 4 (scan_idx_2 i)) ≡ true
unfolding all_below scan_test visits scan_idx_2
scans_2 = refl

scans_4 : all_below 4 (λ i. scan_test 16 (scan_idx_4 i)) ≡ true
unfolding all_below scan_test visits scan_idx_4
scans_4 = refl

scans_8 : all_below 4 (λ i. scan_test 64 (scan_idx_8 i)) ≡ true
unfolding all_below scan_test visits scan_idx_8
scans_8 = refl

scans_16 : all_below 4 (λ i. scan_test 256 (scan_idx_16 i)) ≡ true
unfolding all_below scan_test visits scan_idx_16
scans_16 = refl

scans_32 : all_below 4 (λ i. scan_test 1024 (scan_idx_32 i)) ≡ true
unfolding all_below scan_test visits scan_idx_32
scans_32 = refl

last_scans : all_below 4 (λ i. scan_test 4 (sig_last_scan_8x8 i)) ≡ true
unfolding all_below scan_test visits sig_last_scan_8x8
last_scans = refl

cg_scan : scan_test 64 sig_last_scan_cg_32x32 ≡ true
unfolding all_below scan_test visits sig_last_scan_cg_32x32
cg_scan = refl

-- For each of the four scan indices, the scans of the blocks of 2, 4, 8, 16 and 32 rows, and those of the coefficient
-- groups of a block of 8 and of 32 rows, visit every place of the block, in as many steps as it has places.
pub scans_visit_all :
    (i : ℕ)
    → i < 4
    → IsScan (2 * 2) (scan_idx_2 i)
      × IsScan (4 * 4) (scan_idx_4 i)
      × IsScan (8 * 8) (scan_idx_8 i)
      × IsScan (16 * 16) (scan_idx_16 i)
      × IsScan (32 * 32) (scan_idx_32 i)
      × IsScan (2 * 2) (sig_last_scan_8x8 i)
      × IsScan (8 * 8) sig_last_scan_cg_32x32
scans_visit_all i h = (
  scan_test-IsScan 4 (scan_idx_2 i)
      (all_below_sound 4 (λ i. scan_test 4 (scan_idx_2 i)) i scans_2 h),
  scan_test-IsScan 16 (scan_idx_4 i)
      (all_below_sound 4 (λ i. scan_test 16 (scan_idx_4 i)) i scans_4 h),
  scan_test-IsScan 64 (scan_idx_8 i)
      (all_below_sound 4 (λ i. scan_test 64 (scan_idx_8 i)) i scans_8 h),
  scan_test-IsScan 256 (scan_idx_16 i)
      (all_below_sound 4 (λ i. scan_test 256 (scan_idx_16 i)) i scans_16 h),
  scan_test-IsScan 1024 (scan_idx_32 i)
      (all_below_sound 4 (λ i. scan_test 1024 (scan_idx_32 i)) i scans_32 h),
  scan_test-IsScan 4 (sig_last_scan_8x8 i)
      (all_below_sound 4 (λ i. scan_test 4 (sig_last_scan_8x8 i)) i last_scans h),
  scan_test-IsScan 64 sig_last_scan_cg_32x32 cg_scan,
)
