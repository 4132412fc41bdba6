-- ===== src/Syntax/Last/Contexts.antt =====
-- CodeLastSignifXY of src/Cabac.cpp codes bins that the coder takes, in the contexts of its syntax elements.
use ces.Prelude.{
  ℕ, zero, suc, ◌+◌, ◌-◌, ◌*◌, ◌/◌, ◌^◌, ◌≤◌, ◌<◌, ◌≡◌, refl, Bool, true, false, ◌&&◌, ◌||◌, [],
  ◌∷◌, ltb, leb, if◌then◌else◌, arith, get_or, Bool-cases, inl, inr, all_below, all_below_sound,
  two-pow_mono, two-pow_pos, append-nil,
}
use ces.Cabac.Offsets.{off_last_x_ctx, off_last_y_ctx, num_last_flag_xy_ctx, off_one_flag_ctx}
use ces.Cabac.Symbols.{context_bin}
use ces.Syntax.Bins.{Good, Good-append, Good-wider}
use ces.Syntax.Last.Groups.{group_large, block_groups}
use ces.Syntax.Last.{
  group_idx, prefix_ones, last_prefix, last_suffix, swapped, code_last_signif_xy, blk_size_offset,
  last_shift,
}
use native.Mathlib.Nat.{div-add-mod'}

shifted_lt : (k shift width : ℕ) → k < width * 2 ^ shift → k / 2 ^ shift < width
shifted_lt k shift width h = grind (arith, div-add-mod' k (2 ^ shift), two-pow_pos shift)

prefix_ones-Good :
    (rounds first shift k width : ℕ)
    → rounds + k ≤ width * 2 ^ shift
    → Good first (first + width) (prefix_ones rounds first shift k)
unfolding prefix_ones
prefix_ones-Good zero first shift k width h = (tt, tt)
prefix_ones-Good (suc rounds) first shift k width h =
    let here : k / 2 ^ shift < width = shifted_lt k shift width (omega arith) in
    let (codable, within) = prefix_ones-Good rounds first shift (k + 1) width (omega arith) in
    ((omega arith, codable), ((omega arith, omega arith), within))

last_prefix-Good :
    (g largest first shift width : ℕ)
    → g ≤ largest
    → largest ≤ width * 2 ^ shift
    → Good first (first + width) (last_prefix g largest first shift)
unfolding last_prefix
last_prefix-Good g largest first shift width h k = elim (Bool-cases (ltb g largest)) [
  | inl less ↦
      let here : g / 2 ^ shift < width = shifted_lt g shift width (ground arith) in
      rw less (
        Good-append first (first + width) (prefix_ones g first shift 0)
          (context_bin 0 (first + g / 2 ^ shift) ∷ [])
          (prefix_ones-Good g first shift 0 width (omega arith))
          ((omega arith, tt), ((omega arith, omega arith), tt)))
  | inr full ↦
      rw (full, append-nil (prefix_ones g first shift 0))
        (prefix_ones-Good g first shift 0 width (omega arith))
]

last_suffix-Good : (lo hi p : ℕ) → p < 32 → get_or group_idx p 0 ≤ 9 → Good lo hi (last_suffix p)
unfolding last_suffix
last_suffix-Good lo hi p h k = elim (Bool-cases (ltb 3 (get_or group_idx p 0))) [
  | inr few ↦ rw few (tt, tt)
  | inl many ↦
      let g = get_or group_idx p 0 in
      let count : (g - 2) / 2 ≡ g / 2 - 1 = omega arith in
      rw (many, count) (((omega arith, (group_large p h many).2), tt), tt)
]

room_test : ℕ → Bool → Bool
room_test n is_luma =
    leb (2 * n - 1) ((15 - blk_size_offset is_luma n) * 2 ^ last_shift is_luma n)
    && leb (blk_size_offset is_luma n) 15

room_enough : all_below 6 (λ n. ltb n 2 || (room_test n true && room_test n false)) ≡ true
unfolding all_below room_test
room_enough = refl

block_room :
    (n : ℕ) (is_luma : Bool)
    → 2 ≤ n
    → n ≤ 5
    → (2 * n - 1 ≤ (15 - blk_size_offset is_luma n) * 2 ^ last_shift is_luma n)
      × (blk_size_offset is_luma n ≤ 15)
unfolding room_test
block_room n true lo hi = ground (
  arith,
  all_below_sound 6 (λ n. ltb n 2 || (room_test n true && room_test n false)) n room_enough,
)
block_room n false lo hi = ground (
  arith,
  all_below_sound 6 (λ n. ltb n 2 || (room_test n true && room_test n false)) n room_enough,
)

-- For a block of 4, 8, 16 or 32 rows and a place in it: the coder takes all bins, and the contexts are those of
-- last_significant_coeff_x_prefix and last_significant_coeff_y_prefix, which stand before off_one_flag_ctx.
pub code_last_signif_xy-Good :
    (n pos_x pos_y scan_idx : ℕ) (is_luma : Bool)
    → 2 ≤ n
    → n ≤ 5
    → pos_x < 2 ^ n
    → pos_y < 2 ^ n
    → Good off_last_x_ctx off_one_flag_ctx
        (code_last_signif_xy pos_x pos_y (2 ^ n) scan_idx is_luma)
unfolding code_last_signif_xy
code_last_signif_xy-Good n pos_x pos_y scan_idx is_luma lo hi hx hy =
    let x = swapped scan_idx pos_x pos_y in
    let y = swapped scan_idx pos_y pos_x in
    let (gx, largest, log) = block_groups n x lo hi (ground arith) in
    let gy = (block_groups n y lo hi (ground arith)).0 in
    let small = two-pow_mono n 5 hi in
    let chroma = (if is_luma then 0 else num_last_flag_xy_ctx) in
    let offset = blk_size_offset is_luma n in
    let shift = last_shift is_luma n in
    let (room, offset_le) = block_room n is_luma lo hi in
    let few : chroma ≤ 15 = ground arith in
    let join = Good-append off_last_x_ctx off_one_flag_ctx in
    rw (largest, log)
      (join
        (last_prefix (get_or group_idx x 0) (2 * n - 1) (off_last_x_ctx + chroma + offset) shift) _
        (Good-wider _ off_last_x_ctx _ off_one_flag_ctx _ (omega arith) (omega arith) (
          last_prefix-Good (get_or group_idx x 0) (2 * n - 1) (off_last_x_ctx + chroma + offset)
            shift (15 - offset) gx room))
        (join
          (last_prefix (get_or group_idx y 0) (2 * n - 1) (off_last_y_ctx + chroma + offset) shift)
          _
          (Good-wider _ off_last_x_ctx _ off_one_flag_ctx _ (omega arith) (omega arith) (
            last_prefix-Good (get_or group_idx y 0) (2 * n - 1) (off_last_y_ctx + chroma + offset)
              shift (15 - offset) gy room))
          (join (last_suffix x) (last_suffix y)
            (last_suffix-Good off_last_x_ctx off_one_flag_ctx x (ground arith) (omega arith))
            (last_suffix-Good off_last_x_ctx off_one_flag_ctx y (ground arith) (omega arith)))))
