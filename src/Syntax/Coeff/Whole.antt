-- ===== src/Syntax/Coeff/Whole.antt =====
-- The loop over the coefficient groups, and EncodeCoeffNxN of src/Cabac.cpp as a whole.
pub mod Good
pub mod Scans
pub mod Coded
use ces.Prelude.{
  ℕ, zero, suc, ◌+◌, ◌-◌, ◌*◌, ◌/◌, ◌^◌, Bool, true, false, ◌&&◌, ◌||◌, List, [], ◌∷◌, ◌++◌, ltb,
  leb, ◌==◌, if◌then◌else◌, length, get_or, set, replicate, Outcome, ok, ◌>>=◌, ◌>>◌, make_sure,
}
use ces.Prelude.{bad_size}
use ces.Prelude.Int.{ℤ, pos}
use ces.ImageParameters.{ctu_width}
use ces.Cabac.Offsets.{off_sig_cg_flag_ctx, num_sig_cg_flag_ctx}
use ces.Cabac.Symbols.{Symbol, context_bin}
use ces.Syntax.Last.{code_last_signif_xy}
use ces.Syntax.Increments.{get_sig_coeff_group_ctx_inc, calc_pattern_sig_ctx}
use ces.Syntax.Coeff.{
  Block, mls_grp_num, block_of, row_of, column_of, coeff_at, count_rows, find_last,
}
use ces.Syntax.Coeff.Significance.{Levels, add_level, sig_loop}
use ces.Syntax.Coeff.Levels.{encode_levels}

-- What the loop over the groups carries on. `next` is iScanPosSig + 1.
pub record Groups : Type 0 where
  pub flags : List ℕ
  pub c1 : ℕ
  pub next : ℕ

abbrev pub no_levels : Levels
no_levels = record { abs_coeff = []; sign_coeff = 0 }

-- The levels before the loop over the places: the last coefficient is in them at the start of the search.
abbrev pub first_levels : Block → ℕ → ℕ → Levels
unfolding add_level
first_levels b scan_pos_last next =
    if next == scan_pos_last + 1
    then add_level (coeff_at b (get_or b.scan scan_pos_last 0)) no_levels
    else no_levels

-- One round of the loop over the groups.
unfoldable pub encode_group : Block → ℕ → ℕ → Groups → List Symbol × Groups
unfolding sig_loop encode_levels
encode_group b scan_pos_last sub_set g =
    let lv = first_levels b scan_pos_last g.next in
    let next = if g.next == scan_pos_last + 1 then scan_pos_last else g.next in
    let side = b.size / 2 ^ 2 in
    let cg = get_or b.scan_cg sub_set 0 in
    let cg_y = cg / side in
    let cg_x = cg - cg_y * side in
    let inferred = (sub_set == scan_pos_last / 2 ^ 4) || (sub_set == 0) in
    let flags = if inferred then set g.flags cg 1 else g.flags in
    let significant = if get_or flags cg 0 == 0 then false else true in
    let flag =
      if inferred
      then []
      else (context_bin (if significant then 1 else 0) (
            off_sig_cg_flag_ctx
            + (if b.is_luma then 0 else num_sig_cg_flag_ctx)
            + get_sig_coeff_group_ctx_inc flags cg_x cg_y b.size)
          ∷ []) in
    let places =
      if significant
      then sig_loop (next - sub_set * 2 ^ 4) b (calc_pattern_sig_ctx flags cg_x cg_y b.size) sub_set
          lv
      else ([], lv) in
    let levels =
      if ltb 0 (length places.1.abs_coeff)
      then encode_levels places.1.abs_coeff places.1.sign_coeff sub_set b.is_luma g.c1
      else ([], g.c1) in
    (
      flag ++ (places.0 ++ levels.0),
      record { flags = flags; c1 = levels.1; next = sub_set * 2 ^ 4 },
    )

-- The loop over the groups: `groups` of them are left.
pub encode_groups : ℕ → Block → ℕ → Groups → List Symbol
encode_groups zero b scan_pos_last g = []
encode_groups (suc groups) b scan_pos_last g =
    let here = encode_group b scan_pos_last groups g in
    here.0 ++ encode_groups groups b scan_pos_last here.1

-- EncodeCoeffNxN behind its assertion.
unfoldable pub encode_block : Block → Outcome (List Symbol)
unfolding encode_groups find_last count_rows
encode_block b = do
  found ← find_last b.scan b (count_rows b.size b 0) 0 (replicate mls_grp_num 0)
  let place_last = get_or b.scan found.0 0
  ok (
      code_last_signif_xy (column_of b place_last) (row_of b place_last) b.size b.scan_idx b.is_luma
      ++ encode_groups (found.0 / 2 ^ 4 + 1) b found.0
          (record { flags = found.1; c1 = 1; next = found.0 + 1 }))

-- EncodeCoeffNxN, with the symbols that it codes.
unfoldable pub encode_coeff_nxn : List ℤ → ℕ → ℕ → Bool → Outcome (List Symbol)
unfolding encode_block
encode_coeff_nxn coeffs size mode is_luma = do
  make_sure (leb size ctu_width) bad_size
  encode_block (block_of coeffs size mode is_luma)
