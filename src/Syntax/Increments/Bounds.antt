-- ===== src/Syntax/Increments/Bounds.antt =====
-- The context increments of src/Cabac.cpp stay within the contexts of their syntax elements.
use ces.Prelude.{
  ℕ, ◌+◌, ◌-◌, ◌*◌, ◌/◌, ◌^◌, ◌≤◌, ◌<◌, ◌≡◌, Bool, true, false, ◌&&◌, List, ◌==◌, if◌then◌else◌,
  arith, AllBelow-get_or,
}
use ces.Prelude.Int.{ℤ, pos, negsuc}
use ces.Syntax.Increments.{get_sig_coeff_group_ctx_inc, get_sig_ctx_inc, pattern_count, ctx_ind_map}

pub get_sig_coeff_group_ctx_inc-lt :
    (flags : List ℕ) (cg_x cg_y size : ℕ) → get_sig_coeff_group_ctx_inc flags cg_x cg_y size < 2
unfolding get_sig_coeff_group_ctx_inc
get_sig_coeff_group_ctx_inc-lt flags cg_x cg_y size = ground arith

pattern_count-le : (pattern : ℤ) (x y : ℕ) → pattern_count pattern x y ≤ 2
unfolding pattern_count
pattern_count-le (negsuc n) x y = omega arith
pattern_count-le (pos n) x y = ground arith

-- For luma the increment of a place is below 27, and for chroma below 15: in a block of 8 rows of chroma, which is
-- scanned diagonally, too.
pub get_sig_ctx_inc-lt :
    (pattern : ℤ) (scan_idx pos_x pos_y blk_type : ℕ) (is_luma : Bool)
    → (if (blk_type == 3) && (if is_luma then false else true) then scan_idx ≡ 3 else Unit {0})
    → get_sig_ctx_inc pattern scan_idx pos_x pos_y blk_type is_luma < (if is_luma then 27 else 15)
unfolding get_sig_ctx_inc
get_sig_ctx_inc-lt pattern scan_idx pos_x pos_y blk_type true h =
    let x = pos_x - pos_x / 2 ^ 2 * 2 ^ 2 in
    let y = pos_y - pos_y / 2 ^ 2 * 2 ^ 2 in
    ground (
      arith,
      AllBelow-get_or 9 ctx_ind_map (4 * pos_y + pos_x) 0 (omega arith) (omega arith),
      pattern_count-le pattern x y,
    )
get_sig_ctx_inc-lt pattern scan_idx pos_x pos_y blk_type false h =
    let x = pos_x - pos_x / 2 ^ 2 * 2 ^ 2 in
    let y = pos_y - pos_y / 2 ^ 2 * 2 ^ 2 in
    ground (
      arith,
      AllBelow-get_or 9 ctx_ind_map (4 * pos_y + pos_x) 0 (omega arith) (omega arith),
      pattern_count-le pattern x y,
    )
