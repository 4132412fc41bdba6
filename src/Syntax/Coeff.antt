-- ===== src/Syntax/Coeff.antt =====
-- EncodeCoeffNxN of src/Cabac.cpp: the block of coefficients, its scans, and the search for the last coefficient.
pub mod Significance
pub mod Levels
pub mod Whole
pub mod Search
mod Tests
use ces.Prelude.{
  ℕ, zero, suc, ◌+◌, ◌-◌, ◌*◌, ◌/◌, ◌%◌, ◌^◌, Bool, true, false, List, [], ◌∷◌, ltb, ◌==◌,
  if◌then◌else◌, get_or, set, Outcome, ok, fault, past_scan,
}
use ces.Prelude.Int.{ℤ, pos, negsuc}
use ces.Macros.{log2}
use ces.ImageParameters.{ctu_width}
use ces.Cabac.Scan.Tables.{
  scan_idx_2, scan_idx_4, scan_idx_8, scan_idx_16, sig_last_scan_8x8, sig_last_scan_cg_32x32,
}
use ces.Cabac.Scan.Largest.{scan_idx_32}
use ces.Syntax.Modes.{get_coeff_scan_idx}

-- MLS_GRP_NUM
abbrev pub mls_grp_num : ℕ
mls_grp_num = 64

-- The rows of g_puiScanIdx.
unfoldable pub scan_table : ℕ → ℕ → List ℕ
scan_table scan_idx row =
    if row == 0
    then scan_idx_2 scan_idx
    else if row == 1
    then scan_idx_4 scan_idx
    else if row == 2
    then scan_idx_8 scan_idx
    else if row == 3
    then scan_idx_16 scan_idx
    else scan_idx_32 scan_idx

-- What EncodeCoeffNxN sets up before its loops.
pub record Block : Type 0 where
  pub coeffs : List ℤ  -- i16, in rows of `stride`; behind its end the array holds 0
  pub size : ℕ
  pub is_luma : Bool
  pub scan_idx : ℕ
  pub log2_size : ℕ
  pub stride : ℕ
  pub scan : List ℕ
  pub scan_cg : List ℕ

abbrev pub diagonal_for_zigzag : ℕ → ℕ
diagonal_for_zigzag scan_idx = if scan_idx == 0 then 3 else scan_idx

unfoldable pub block_of : List ℤ → ℕ → ℕ → Bool → Block
block_of coeffs size mode is_luma =
    let log2_size = log2 (size - 1) in
    let scan_idx = diagonal_for_zigzag (get_coeff_scan_idx size mode is_luma) in
    record {
      coeffs = coeffs;
      size = size;
      is_luma = is_luma;
      scan_idx = scan_idx;
      log2_size = log2_size;
      stride = ctu_width / 2 ^ (if is_luma then 0 else 1);
      scan = scan_table scan_idx (log2_size - 1);
      scan_cg =
          if log2_size == 3
          then sig_last_scan_8x8 scan_idx
          else if log2_size == 5
          then sig_last_scan_cg_32x32
          else scan_table scan_idx (if ltb log2_size 3 then 0 else 1);
    }

-- The row and the column of a place of the scan.
abbrev pub row_of : Block → ℕ → ℕ
row_of b place = place / 2 ^ b.log2_size

abbrev pub column_of : Block → ℕ → ℕ
column_of b place = place - row_of b place * 2 ^ b.log2_size

abbrev pub coeff_at : Block → ℕ → ℤ
coeff_at b place = get_or b.coeffs (row_of b place * b.stride + column_of b place) (pos 0)

abbrev pub is_nonzero : ℤ → Bool
is_nonzero (pos n) = ltb 0 n
is_nonzero (negsuc n) = true

-- The two loops that count the coefficients that are not 0, with the rounds that are left.
pub count_row : ℕ → Block → ℕ → ℕ → ℕ
count_row zero b i j = 0
count_row (suc rounds) b i j =
    (if is_nonzero (get_or b.coeffs (i * b.stride + j) (pos 0)) then 1 else 0)
    + count_row rounds b i (j + 1)

pub count_rows : ℕ → Block → ℕ → ℕ
count_rows zero b i = 0
count_rows (suc rounds) b i = count_row b.size b i 0 + count_rows rounds b (i + 1)

-- uiBlkIdx: the coefficient group of a place.
abbrev pub group_of : Block → ℕ → ℕ
group_of b place = b.size / 2 ^ 2 * (row_of b place / 2 ^ 2) + column_of b place / 2 ^ 2

-- The search for the last coefficient, over the places of the scan that are left: the result is iScanPosLast and the
-- flags of the groups. Where no place is left the source reads behind the table.
pub find_last : List ℕ → Block → ℕ → ℕ → List ℕ → Outcome (ℕ × List ℕ)
find_last [] b num_sig scan_pos flags = fault past_scan
find_last (place ∷ places) b num_sig scan_pos flags =
    let hit = is_nonzero (coeff_at b place) in
    let num_sig' = if hit then (num_sig + 2 ^ 32 - 1) % 2 ^ 32 else num_sig in
    let flags' = if hit then set flags (group_of b place) 1 else flags in
    elim (ltb 0 num_sig') [
      | true ↦ find_last places b num_sig' (scan_pos + 1) flags'
      | false ↦ ok (scan_pos, flags')
    ]
