-- ===== src/Syntax/Coeff/Levels/Good.antt =====
-- The bins of the levels in src/Cabac.cpp: the coder takes them, in the contexts of their syntax elements.
use ces.Prelude.{
  ℕ, ◌+◌, ◌-◌, ◌*◌, ◌^◌, ◌≤◌, ◌<◌, Bool, true, false, ◌&&◌, ◌||◌, List, [], ◌∷◌, ◌++◌, ltb, ◌==◌,
  min, if◌then◌else◌, length, take, arith, Bool-cases, inl, inr,
}
use ces.Prelude.Int.{ℤ, pos, ltb_ℤ, pos_part}
use ces.Cabac.Offsets.{off_one_flag_ctx, num_one_flag_ctx_luma, off_abs_flag_ctx, off_mvp_idx_ctx}
use ces.Cabac.Symbols.{bypass_bins}
use ces.Syntax.Bins.{Good, Good-append, Good-if}
use ces.Syntax.Remain.{write_coeff_remain_ex_golomb}
use ces.Syntax.Remain.Binarization.{write_coeff_remain_ex_golomb-Good}
use ces.Syntax.Coeff.Levels.{
  c1flag_number, greater1_loop, greater2_flag, remain_levels, encode_levels, ctx_set_of,
}

greater1_loop-Good :
    (levels : List ℤ) (base idx c1 first lo hi : ℕ)
    → c1 ≤ 3
    → lo ≤ base
    → base + 3 < hi
    → Good lo hi (greater1_loop levels base idx c1 first).0
unfolding greater1_loop
greater1_loop-Good [] base idx c1 first lo hi h l k = (tt, tt)
greater1_loop-Good (level ∷ levels) base idx c1 first lo hi h l k =
    let symbol = ltb_ℤ (pos 1) level in
    let c1' = if symbol then 0 else if c1 == 0 then 0 else min (c1 + 1) 3 in
    let first' = if symbol then min first idx else first in
    let rest = greater1_loop-Good levels base (idx + 1) c1' first' lo hi (ground arith) l k in
    ((ground arith, rest.0), ((omega arith, omega arith), rest.1))

greater2_flag-Good :
    (levels : List ℤ) (ctx_set : ℕ) (is_luma : Bool) (c1 first lo : ℕ)
    → ctx_set ≤ (if is_luma then 3 else 1)
    → lo ≤ off_abs_flag_ctx
    → Good lo off_mvp_idx_ctx (greater2_flag levels ctx_set is_luma c1 first)
unfolding greater2_flag
greater2_flag-Good levels ctx_set is_luma c1 first lo h l =
    elim (Bool-cases ((c1 == 0) && (if first == 16 then false else true))) [
      | inl present ↦ rw present ((ground arith, tt), ((omega arith, ground arith), tt))
      | inr absent ↦ rw absent (tt, tt)
    ]

-- Levels as an i16 holds them.
abbrev pub AllSmall : List ℤ → Type 0
AllSmall [] = Unit {0}
AllSmall (level ∷ levels) = (pos_part level < 2 ^ 15) × AllSmall levels

remain_levels-Good :
    (levels : List ℤ) (idx first_coeff2 rice lo hi : ℕ)
    → AllSmall levels
    → rice ≤ 4
    → Good lo hi (remain_levels levels idx first_coeff2 rice)
unfolding remain_levels
remain_levels-Good [] idx first_coeff2 rice lo hi h k = (tt, tt)
remain_levels-Good (level ∷ levels) idx first_coeff2 rice lo hi h k =
    let base_level = if ltb idx c1flag_number then 2 + first_coeff2 else 1 in
    let coded = if ltb_ℤ level (pos base_level) then false else true in
    let rice' = if coded && ltb_ℤ (pos (3 * 2 ^ rice)) level then min (rice + 1) 4 else rice in
    let first_coeff2' = if ltb_ℤ level (pos 2) then first_coeff2 else 0 in
    let small : pos_part level - base_level < 2 ^ 27 = ground (arith, h.0) in
    let here =
      write_coeff_remain_ex_golomb-Good lo hi (pos_part level - base_level) rice small
        (omega arith) in
    let rest = remain_levels-Good levels (idx + 1) first_coeff2' rice' lo hi h.1 (ground arith) in
    Good-append lo hi
      (if coded then write_coeff_remain_ex_golomb (pos_part level - base_level) rice else [])
      (remain_levels levels (idx + 1) first_coeff2' rice')
      (Good-if lo hi coded (write_coeff_remain_ex_golomb (pos_part level - base_level) rice) here)
      rest

-- The bins of a group with its levels, of which there are 16 at most, and their signs.
pub encode_levels-Good :
    (levels : List ℤ) (sign_coeff sub_set : ℕ) (is_luma : Bool) (c1 : ℕ)
    → AllSmall levels
    → length levels ≤ 16
    → sign_coeff < 2 ^ length levels
    → Good off_one_flag_ctx off_mvp_idx_ctx (encode_levels levels sign_coeff sub_set is_luma c1).0
unfolding encode_levels
encode_levels-Good levels sign_coeff sub_set is_luma c1 h few fits =
    let lo = off_one_flag_ctx in
    let hi = off_mvp_idx_ctx in
    let ctx_set = ctx_set_of sub_set is_luma c1 in
    let base =
      off_one_flag_ctx + ctx_set * 2 ^ 2 + (if is_luma then 0 else num_one_flag_ctx_luma) in
    let start = take (min (length levels) c1flag_number) levels in
    let flags = greater1_loop start base 0 1 16 in
    let set_le : ctx_set ≤ (if is_luma then 3 else 1) = ground arith in
    let more = (flags.1 == 0) || ltb c1flag_number (length levels) in
    let remain = if more then remain_levels levels 0 1 0 else [] in
    let tail =
      Good-if lo hi more (remain_levels levels 0 1 0)
        (remain_levels-Good levels 0 1 0 lo hi h (omega arith)) in
    let flag2 = greater2_flag levels ctx_set is_luma flags.1 flags.2 in
    Good-append lo hi flags.0 (flag2 ++ (bypass_bins sign_coeff (length levels) ∷ remain))
      (greater1_loop-Good start base 0 1 16 lo hi (omega arith) (omega arith) (ground arith))
      (Good-append lo hi flag2 (bypass_bins sign_coeff (length levels) ∷ remain)
        (greater2_flag-Good levels ctx_set is_luma flags.1 flags.2 lo set_le (omega arith))
        (((omega arith, fits), tail.0), tail.1))
