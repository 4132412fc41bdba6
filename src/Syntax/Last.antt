-- ===== src/Syntax/Last.antt =====
-- CodeLastSignifXY of src/Cabac.cpp: the position of the last coefficient that is not 0.
pub mod Groups
pub mod Reading
pub mod Contexts
use ces.Prelude.{
  ℕ, zero, suc, ◌+◌, ◌-◌, ◌*◌, ◌/◌, ◌^◌, Bool, true, false, List, [], ◌∷◌, ◌++◌, ltb, ◌==◌,
  if◌then◌else◌, get_or,
}
use ces.Macros.{log2}
use ces.Cabac.Offsets.{off_last_x_ctx, off_last_y_ctx, num_last_flag_xy_ctx}
use ces.Cabac.Symbols.{Symbol, bypass_bins, context_bin}

-- g_pbGroupIdx
abbrev pub group_idx : List ℕ
group_idx =
    0 ∷ 1 ∷ 2 ∷ 3 ∷ 4 ∷ 4 ∷ 5 ∷ 5 ∷ 6 ∷ 6 ∷ 6 ∷ 6 ∷ 7 ∷ 7 ∷ 7 ∷ 7 ∷ 8 ∷ 8 ∷ 8 ∷ 8 ∷ 8 ∷ 8 ∷ 8 ∷ 8
    ∷ 9 ∷ 9 ∷ 9 ∷ 9 ∷ 9 ∷ 9 ∷ 9 ∷ 9 ∷ []

-- g_pbMinInGroup
abbrev pub min_in_group : List ℕ
min_in_group = 0 ∷ 1 ∷ 2 ∷ 3 ∷ 4 ∷ 6 ∷ 8 ∷ 12 ∷ 16 ∷ 24 ∷ []

-- iBlkSizeOffsetXY, for blocks of at least 4 rows.
abbrev pub blk_size_offset : Bool → ℕ → ℕ
blk_size_offset is_luma log2_size =
    if is_luma then (log2_size - 2) * 3 + (log2_size - 1) / 2 ^ 2 else 0

-- iShiftXY
abbrev pub last_shift : Bool → ℕ → ℕ
last_shift is_luma log2_size = if is_luma then (log2_size + 1) / 2 ^ 2 else log2_size - 2

-- The loop over uiCtxLast, with the rounds that are left. `first` is the first context of the block size.
pub prefix_ones : ℕ → ℕ → ℕ → ℕ → List Symbol
prefix_ones zero first shift ctx_last = []
prefix_ones (suc rounds) first shift ctx_last =
    context_bin 1 (first + ctx_last / 2 ^ shift) ∷ prefix_ones rounds first shift (ctx_last + 1)

-- A prefix is ended by a bin 0 unless it has the greatest length.
unfoldable pub last_prefix : ℕ → ℕ → ℕ → ℕ → List Symbol
unfolding prefix_ones
last_prefix group largest first shift =
    prefix_ones group first shift 0
    ++ (if ltb group largest then context_bin 0 (first + group / 2 ^ shift) ∷ [] else [])

-- The place in the group.
unfoldable pub last_suffix : ℕ → List Symbol
last_suffix pos =
    let group = get_or group_idx pos 0 in
    if ltb 3 group
    then bypass_bins (pos - get_or min_in_group group 0) ((group - 2) / 2) ∷ []
    else []

-- A coordinate is swapped with the other for the vertical scan, SCAN_VER.
abbrev pub swapped : ℕ → ℕ → ℕ → ℕ
swapped scan_idx pos other = if scan_idx == 2 then other else pos

-- CodeLastSignifXY
unfoldable pub code_last_signif_xy : ℕ → ℕ → ℕ → ℕ → Bool → List Symbol
unfolding last_prefix last_suffix
code_last_signif_xy pos_x pos_y size scan_idx is_luma =
    let log2_size = log2 (size - 1) in
    let x = swapped scan_idx pos_x pos_y in
    let y = swapped scan_idx pos_y pos_x in
    let chroma = if is_luma then 0 else num_last_flag_xy_ctx in
    let offset = blk_size_offset is_luma log2_size in
    let shift = last_shift is_luma log2_size in
    let largest = get_or group_idx (size - 1) 0 in
    last_prefix (get_or group_idx x 0) largest (off_last_x_ctx + chroma + offset) shift
    ++ (last_prefix (get_or group_idx y 0) largest (off_last_y_ctx + chroma + offset) shift
        ++ (last_suffix x ++ last_suffix y))
