-- ===== src/Syntax/Coeff/Significance.antt =====
-- The significance of the coefficients of a group in EncodeCoeffNxN of src/Cabac.cpp.
pub mod Good
use ces.Prelude.{
  ℕ, zero, suc, ◌+◌, ◌*◌, ◌%◌, ◌^◌, Bool, true, false, ◌&&◌, ◌||◌, List, [], ◌∷◌, ◌++◌, ltb, ◌==◌,
  if◌then◌else◌, length, get_or,
}
use ces.Prelude.Int.{ℤ, pos, negsuc}
use ces.Macros.{abs}
use ces.Cabac.Offsets.{off_sig_flag_ctx, num_sig_flag_ctx_luma}
use ces.Cabac.Symbols.{Symbol, context_bin}
use ces.Syntax.Increments.{get_sig_ctx_inc}
use ces.Syntax.Coeff.{Block, row_of, column_of, coeff_at, is_nonzero}

-- iAbsCoeff, as a list, and uiSignCoeff. iNumNonZero is the length of the list.
pub record Levels : Type 0 where
  pub abs_coeff : List ℤ
  pub sign_coeff : ℕ

-- The store of ABS in an `i16`: the absolute value of -32768 wraps around.
abbrev pub to_i16_abs : ℤ → ℤ
to_i16_abs (pos n) = pos n
to_i16_abs (negsuc n) = if n == 32767 then negsuc 32767 else pos (suc n)

abbrev pub is_negative : ℤ → ℕ
is_negative (pos n) = 0
is_negative (negsuc n) = 1

unfoldable pub add_level : ℤ → Levels → Levels
add_level coeff lv = record {
  abs_coeff = lv.abs_coeff ++ to_i16_abs coeff ∷ [];
  sign_coeff = (lv.sign_coeff * 2 + is_negative coeff) % 2 ^ 32;
}

-- uiBaseCtx
abbrev pub base_ctx : Bool → ℕ
base_ctx is_luma = off_sig_flag_ctx + (if is_luma then 0 else num_sig_flag_ctx_luma)

-- Is the significance of the place coded? That of the first place of a group is inferred where it has to be 1.
abbrev pub is_coded : ℕ → ℕ → ℕ → Bool
is_coded rounds sub_set num_non_zero = ltb 0 rounds || ((sub_set == 0) || ltb 0 num_non_zero)

-- The loop over iScanPosSig down to iSubPos, with the rounds that are left.
unfoldable pub sig_loop : ℕ → Block → ℤ → ℕ → Levels → List Symbol × Levels
sig_loop zero b pattern_sig_ctx sub_set lv = ([], lv)
sig_loop (suc rounds) b pattern_sig_ctx sub_set lv =
    let place = get_or b.scan (sub_set * 2 ^ 4 + rounds) 0 in
    let coeff = coeff_at b place in
    let ctx_sig =
      get_sig_ctx_inc pattern_sig_ctx b.scan_idx (column_of b place) (row_of b place) b.log2_size
        b.is_luma in
    let here =
      if is_coded rounds sub_set (length lv.abs_coeff)
      then context_bin (if is_nonzero coeff then 1 else 0) (base_ctx b.is_luma + ctx_sig) ∷ []
      else [] in
    let rest =
      sig_loop rounds b pattern_sig_ctx sub_set
        (if is_nonzero coeff then add_level coeff lv else lv) in
    (here ++ rest.0, rest.1)
