-- ===== src/Syntax/Coeff/Whole/Scans.antt =====
-- The scans that EncodeCoeffNxN of src/Cabac.cpp takes for a block.
use ces.Prelude.{
  zero, suc, ℕ, ◌+◌, ◌-◌, ◌*◌, ◌/◌, ◌^◌, ◌≤◌, ◌<◌, ◌≡◌, refl, sym, subst, Bool, true, false, ◌&&◌,
  ◌||◌, List, [], ◌∷◌, ltb, ◌==◌, if◌then◌else◌, arith, Bool-cases, inl, inr, all_below,
  all_below_sound, AllBelow, two-pow_pos,
}
use ces.Cabac.Scan.Tables.{scan_idx_2, scan_idx_4, scan_idx_8, scan_idx_16}
use ces.Cabac.Scan.Largest.{scan_idx_32}
use ces.Syntax.Modes.{get_coeff_scan_idx}
use ces.Syntax.Modes.Reading.{get_coeff_scan_idx-scan_of_mode, scan_of_mode}
use ces.Syntax.Coeff.{scan_table, diagonal_for_zigzag}
use ces.Cabac.Scan.{IsScan, scans_visit_all}
use native.Mathlib.Nat.{div-add-mod', mod-lt}

all_lt : ℕ → List ℕ → Bool
all_lt bound [] = true
all_lt bound (x ∷ xs) = ltb x bound && all_lt bound xs

all_lt-AllBelow : (bound : ℕ) (xs : List ℕ) → all_lt bound xs ≡ true → AllBelow bound xs
unfolding all_lt
all_lt-AllBelow bound [] h = tt
all_lt-AllBelow bound (x ∷ xs) h = (ground arith, all_lt-AllBelow bound xs (ground arith))

-- The places of the scans lie in their blocks.
scans_test : ℕ → Bool
scans_test n = all_below 4 (λ i. all_lt (2 ^ n * 2 ^ n) (scan_table i (n - 1)))

scans_inside : all_below 6 (λ n. ltb n 2 || scans_test n) ≡ true
unfolding all_below scans_test all_lt scan_table scan_idx_2 scan_idx_4 scan_idx_8 scan_idx_16
    scan_idx_32
scans_inside = refl

pub scan_table-AllBelow :
    (n i : ℕ) → 2 ≤ n → n ≤ 5 → i < 4 → AllBelow (2 ^ n * 2 ^ n) (scan_table i (n - 1))
unfolding scans_test
scan_table-AllBelow n i lo hi h =
    let tested : scans_test n ≡ true =
      ground
        (arith, all_below_sound 6 (λ n. ltb n 2 || scans_test n) n scans_inside (omega arith)) in
    all_lt-AllBelow (2 ^ n * 2 ^ n) (scan_table i (n - 1))
      (all_below_sound 4 (λ i. all_lt (2 ^ n * 2 ^ n) (scan_table i (n - 1))) i tested h)

pub scan_idx-lt :
    (size mode : ℕ) (is_luma : Bool)
    → diagonal_for_zigzag (get_coeff_scan_idx size mode is_luma) < 4
unfolding scan_of_mode
scan_idx-lt size mode is_luma = ground (arith, get_coeff_scan_idx-scan_of_mode size mode is_luma)

chroma_8 : (mode : ℕ) → diagonal_for_zigzag (get_coeff_scan_idx 8 mode false) ≡ 3
unfolding scan_of_mode
chroma_8 mode = rw (get_coeff_scan_idx-scan_of_mode 8 mode false) refl

pub chroma_scan :
    (n mode : ℕ) (is_luma : Bool)
    → if (n == 3) && (if is_luma then false else true)
      then diagonal_for_zigzag (get_coeff_scan_idx (2 ^ n) mode is_luma) ≡ 3
      else Unit {0}
chroma_scan n mode is_luma = elim (Bool-cases (n == 3)) [
  | inr other ↦ rw other tt
  | inl eight ↦ rw eight (by_component n mode is_luma (ground arith))
]
  where
    by_component :
        (n mode : ℕ) (is_luma : Bool)
        → n ≡ 3
        → if true && (if is_luma then false else true)
          then diagonal_for_zigzag (get_coeff_scan_idx (2 ^ n) mode is_luma) ≡ 3
          else Unit {0}
    by_component n mode true e = tt
    by_component n mode false e =
        subst (λ (m : ℕ). diagonal_for_zigzag (get_coeff_scan_idx (2 ^ m) mode false) ≡ 3) (sym e)
          (chroma_8 mode)

pub column_small : (place n : ℕ) → place - place / 2 ^ n * 2 ^ n < 2 ^ n
column_small place n = omega (arith, div-add-mod' place (2 ^ n), mod-lt place (two-pow_pos n))

pub row_small : (place n : ℕ) → place < 2 ^ n * 2 ^ n → place / 2 ^ n < 2 ^ n
row_small place n h = grind (arith, div-add-mod' place (2 ^ n), two-pow_pos n)

-- The scans of blocks of 4 to 32 rows visit every place once.
pub scan_table-IsScan :
    (k i : ℕ) → k < 4 → i < 4 → IsScan (2 ^ (k + 2) * 2 ^ (k + 2)) (scan_table i (k + 2 - 1))
unfolding scan_table
scan_table-IsScan zero i hk h = (scans_visit_all i h).1
scan_table-IsScan (suc zero) i hk h = (scans_visit_all i h).2
scan_table-IsScan (suc (suc zero)) i hk h = (scans_visit_all i h).3
scan_table-IsScan (suc (suc (suc zero))) i hk h = (scans_visit_all i h).4
scan_table-IsScan (suc (suc (suc (suc k)))) i hk h = absurd (omega arith)
