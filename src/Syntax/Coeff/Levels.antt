-- ===== src/Syntax/Coeff/Levels.antt =====
-- The levels of a coefficient group in EncodeCoeffNxN of src/Cabac.cpp.
pub mod Good
use ces.Prelude.{
  ℕ, zero, suc, ◌+◌, ◌-◌, ◌*◌, ◌^◌, Bool, true, false, ◌&&◌, ◌||◌, List, [], ◌∷◌, ◌++◌, ltb, leb,
  ◌==◌, min, if◌then◌else◌, length, get_or, take,
}
use ces.Prelude.Int.{ℤ, pos, negsuc, ltb_ℤ, pos_part}
use ces.Cabac.Offsets.{
  off_one_flag_ctx, num_one_flag_ctx_luma, off_abs_flag_ctx, num_abs_flag_ctx_luma,
}
use ces.Cabac.Symbols.{Symbol, bypass_bins, context_bin}
use ces.Syntax.Remain.{write_coeff_remain_ex_golomb}

-- C1FLAG_NUMBER
abbrev pub c1flag_number : ℕ
c1flag_number = 8

-- The loop of the flags "greater than 1": the symbols, c1 and iFirstC2FlagIdx after it.
pub greater1_loop : List ℤ → ℕ → ℕ → ℕ → ℕ → List Symbol × ℕ × ℕ
greater1_loop [] base idx c1 first = ([], c1, first)
greater1_loop (level ∷ levels) base idx c1 first =
    let symbol = ltb_ℤ (pos 1) level in
    let c1' = if symbol then 0 else if c1 == 0 then 0 else min (c1 + 1) 3 in
    let first' = if symbol then min first idx else first in
    let rest = greater1_loop levels base (idx + 1) c1' first' in
    (context_bin (if symbol then 1 else 0) (base + c1) ∷ rest.0, rest.1, rest.2)

-- uiCtxSet, from c1 of the group before.
abbrev pub ctx_set_of : ℕ → Bool → ℕ → ℕ
ctx_set_of sub_set is_luma c1 =
    (if ltb 0 sub_set && is_luma then 2 else 0) + (if c1 == 0 then 1 else 0)

-- The flag "greater than 2".
unfoldable pub greater2_flag : List ℤ → ℕ → Bool → ℕ → ℕ → List Symbol
greater2_flag levels ctx_set is_luma c1 first =
    if (c1 == 0) && (if first == 16 then false else true)
    then context_bin (if ltb_ℤ (pos 2) (get_or levels first (pos 0)) then 1 else 0)
        (off_abs_flag_ctx + ctx_set + (if is_luma then 0 else num_abs_flag_ctx_luma))
      ∷ []
    else []

-- The loop of the remaining levels.
pub remain_levels : List ℤ → ℕ → ℕ → ℕ → List Symbol
remain_levels [] idx first_coeff2 rice = []
remain_levels (level ∷ levels) idx first_coeff2 rice =
    let base_level = if ltb idx c1flag_number then 2 + first_coeff2 else 1 in
    let coded = if ltb_ℤ level (pos base_level) then false else true in
    let rice' = if coded && ltb_ℤ (pos (3 * 2 ^ rice)) level then min (rice + 1) 4 else rice in
    let first_coeff2' = if ltb_ℤ level (pos 2) then first_coeff2 else 0 in
    (if coded then write_coeff_remain_ex_golomb (pos_part level - base_level) rice else [])
    ++ remain_levels levels (idx + 1) first_coeff2' rice'

-- The part of the loop over the groups for iNumNonZero > 0: the symbols, and c1 after it.
unfoldable pub encode_levels : List ℤ → ℕ → ℕ → Bool → ℕ → List Symbol × ℕ
unfolding greater1_loop greater2_flag remain_levels
encode_levels levels sign_coeff sub_set is_luma c1 =
    let num_non_zero = length levels in
    let ctx_set = ctx_set_of sub_set is_luma c1 in
    let base =
      off_one_flag_ctx + ctx_set * 2 ^ 2 + (if is_luma then 0 else num_one_flag_ctx_luma) in
    let flags = greater1_loop (take (min num_non_zero c1flag_number) levels) base 0 1 16 in
    (
      flags.0
          ++ (greater2_flag levels ctx_set is_luma flags.1 flags.2
              ++ (bypass_bins sign_coeff num_non_zero
                  ∷ (if (flags.1 == 0) || ltb c1flag_number num_non_zero
                      then remain_levels levels 0 1 0
                      else []))),
      flags.1,
    )
