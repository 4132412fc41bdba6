-- ===== src/Syntax/Increments.antt =====
-- The context increments of the coefficients in src/Cabac.cpp.
pub mod Bounds
use ces.Prelude.{
  ℕ, zero, suc, ◌+◌, ◌-◌, ◌*◌, ◌/◌, ◌^◌, Bool, true, false, ◌&&◌, ◌||◌, List, [], ◌∷◌, ltb, leb,
  ◌==◌, not, if◌then◌else◌, get_or,
}
use ces.Prelude.Int.{ℤ, pos, negsuc}

-- A flag of a neighbouring coefficient group, 0 outside the block: `cg` is uiSize >> 2.
abbrev pub right_flag : List ℕ → ℕ → ℕ → ℕ → ℕ
right_flag flags cg_x cg_y cg =
    if ltb (cg_x + 1) cg then (if get_or flags (cg_y * cg + cg_x + 1) 0 == 0 then 0 else 1) else 0

abbrev pub lower_flag : List ℕ → ℕ → ℕ → ℕ → ℕ
lower_flag flags cg_x cg_y cg =
    if ltb (cg_y + 1) cg then (if get_or flags ((cg_y + 1) * cg + cg_x) 0 == 0 then 0 else 1) else 0

-- GetSigCoeffGroupCtxInc
unfoldable pub get_sig_coeff_group_ctx_inc : List ℕ → ℕ → ℕ → ℕ → ℕ
get_sig_coeff_group_ctx_inc flags cg_x cg_y size =
    let right = right_flag flags cg_x cg_y (size / 2 ^ 2) in
    let lower = lower_flag flags cg_x cg_y (size / 2 ^ 2) in
    if (right == 0) && (lower == 0) then 0 else 1

-- CalcPatternSigCtx: -1 for a block of one group.
unfoldable pub calc_pattern_sig_ctx : List ℕ → ℕ → ℕ → ℕ → ℤ
calc_pattern_sig_ctx flags cg_x cg_y size =
    if size == 4
    then negsuc 0
    else (let right = right_flag flags cg_x cg_y (size / 2 ^ 2) in
        let lower = lower_flag flags cg_x cg_y (size / 2 ^ 2) in pos (right + lower * 2))

-- piCtxIndMap
abbrev pub ctx_ind_map : List ℕ
ctx_ind_map = 0 ∷ 1 ∷ 4 ∷ 5 ∷ 2 ∷ 3 ∷ 4 ∷ 5 ∷ 6 ∷ 6 ∷ 8 ∷ 8 ∷ 7 ∷ 7 ∷ 8 ∷ 8 ∷ []

-- iCnt, for a place in a group.
unfoldable pub pattern_count : ℤ → ℕ → ℕ → ℕ
pattern_count (negsuc n) x y = 2
pattern_count (pos n) x y =
    if n == 0
    then (if leb (x + y) 2 then (if x + y == 0 then 2 else 1) else 0)
    else if n == 1
    then (if leb y 1 then (if y == 0 then 2 else 1) else 0)
    else if n == 2
    then (if leb x 1 then (if x == 0 then 2 else 1) else 0)
    else 2

-- GetSigCtxInc
unfoldable pub get_sig_ctx_inc : ℤ → ℕ → ℕ → ℕ → ℕ → Bool → ℕ
unfolding pattern_count
get_sig_ctx_inc pattern_sig_ctx scan_idx pos_x pos_y blk_type is_luma =
    if pos_x + pos_y == 0
    then 0
    else if blk_type == 2
    then get_or ctx_ind_map (4 * pos_y + pos_x) 0
    else (let offset =
          if blk_type == 3 then (if scan_idx == 3 then 9 else 15) else if is_luma then 21 else 12 in
        let x = pos_x - pos_x / 2 ^ 2 * 2 ^ 2 in
        let y = pos_y - pos_y / 2 ^ 2 * 2 ^ 2 in
        let count = pattern_count pattern_sig_ctx x y in
        (if is_luma && ltb 0 (pos_x / 2 ^ 2 + pos_y / 2 ^ 2) then 3 else 0) + offset + count)
