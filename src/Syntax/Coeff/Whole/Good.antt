-- ===== src/Syntax/Coeff/Whole/Good.antt =====
-- What EncodeCoeffNxN of src/Cabac.cpp codes: the coder takes every bin, in the contexts of the residual syntax.
use ces.Prelude.{
  ℕ, zero, suc, ◌+◌, ◌-◌, ◌*◌, ◌/◌, ◌^◌, ◌≤◌, Bool, true, false, ◌||◌, List, [], ◌∷◌, ◌++◌, ltb,
  ◌==◌, if◌then◌else◌, length, get_or, set, arith, Bool-cases, inl, inr,
}
use ces.Cabac.Offsets.{
  off_sig_cg_flag_ctx, num_sig_cg_flag_ctx, off_sig_flag_ctx, off_last_x_ctx, off_one_flag_ctx,
  off_mvp_idx_ctx,
}
use ces.Cabac.Symbols.{Symbol, context_bin}
use ces.Syntax.Bins.{Good, Good-append, Good-wider}
use ces.Syntax.Increments.{get_sig_coeff_group_ctx_inc, calc_pattern_sig_ctx}
use ces.Syntax.Increments.Bounds.{get_sig_coeff_group_ctx_inc-lt}
use ces.Syntax.Coeff.{Block, coeff_at}
use ces.Syntax.Coeff.Significance.{Levels, sig_loop}
use ces.Syntax.Coeff.Significance.Good.{
  AllI16, get_or-i16, LevelsFit, add_level-LevelsFit, ScansChroma, sig_loop-Good,
}
use ces.Syntax.Coeff.Levels.{encode_levels}
use ces.Syntax.Coeff.Levels.Good.{encode_levels-Good}
use ces.Syntax.Coeff.Whole.{Groups, no_levels, first_levels, encode_group, encode_groups}

no_levels-LevelsFit : LevelsFit no_levels 0
no_levels-LevelsFit = record { small = tt; few = omega arith; signs = omega arith }

flag-Good :
    (inferred : Bool) (s : Symbol) (lo hi : ℕ)
    → Good lo hi (s ∷ [])
    → Good lo hi (if inferred then [] else (s ∷ []))
flag-Good true s lo hi h = (tt, tt)
flag-Good false s lo hi h = h

places-Good :
    (significant : Bool) (places : List Symbol × Levels) (lv : Levels) (lo hi bound bound' : ℕ)
    → Good lo hi places.0
    → LevelsFit places.1 bound'
    → LevelsFit lv bound
    → bound ≤ bound'
    → Good lo hi (if significant then places else ([], lv)).0
      × LevelsFit (if significant then places else ([], lv)).1 bound'
places-Good true places lv lo hi bound bound' h k l m = (h, k)
places-Good false places lv lo hi bound bound' h k l m =
    ((tt, tt), record { small = l.small; few = omega (arith, l.few); signs = l.signs })

levels-Good :
    (present : Bool) (levels : List Symbol × ℕ) (c1 lo hi : ℕ)
    → Good lo hi levels.0
    → Good lo hi (if present then levels else ([], c1)).0
levels-Good true levels c1 lo hi h = h
levels-Good false levels c1 lo hi h = (tt, tt)

-- What a group starts with: the last coefficient, where the search starts in it.
module _ (b : Block) (last sub_set : ℕ) (g : Groups) (i16 : AllI16 b.coeffs)
    (h : g.next ≤ (sub_set + 1) * 16) where
  pub start-LevelsFit :
      (bound : ℕ) × LevelsFit (first_levels b last g.next) bound
      × (bound + ((if g.next == last + 1 then last else g.next) - sub_set * 2 ^ 4) ≤ 16)
  unfolding first_levels
  start-LevelsFit = elim (Bool-cases (g.next == last + 1)) [
    | inl first ↦ rw first (
      1,
      add_level-LevelsFit (coeff_at b (get_or b.scan last 0)) no_levels 0 no_levels-LevelsFit
          (get_or-i16 b.coeffs _ i16),
      ground arith,
    )
    | inr other ↦ rw other (0, no_levels-LevelsFit, omega arith)
  ]

encode_group-Good :
    (b : Block) (last sub_set : ℕ) (g : Groups)
    → AllI16 b.coeffs
    → ScansChroma b
    → g.next ≤ (sub_set + 1) * 16
    → Good off_sig_cg_flag_ctx off_mvp_idx_ctx (encode_group b last sub_set g).0
unfolding encode_group
encode_group-Good b last sub_set g i16 scans h =
    let lo = off_sig_cg_flag_ctx in
    let hi = off_mvp_idx_ctx in
    let lv = first_levels b last g.next in
    let next = if g.next == last + 1 then last else g.next in
    let side = b.size / 2 ^ 2 in
    let cg = get_or b.scan_cg sub_set 0 in
    let cg_y = cg / side in
    let cg_x = cg - cg_y * side in
    let inferred = (sub_set == last / 2 ^ 4) || (sub_set == 0) in
    let flags = if inferred then set g.flags cg 1 else g.flags in
    let significant = if get_or flags cg 0 == 0 then false else true in
    let symbol = context_bin (if significant then 1 else 0) (
      off_sig_cg_flag_ctx
      + (if b.is_luma then 0 else num_sig_cg_flag_ctx)
      + get_sig_coeff_group_ctx_inc flags cg_x cg_y b.size) in
    let inc = get_sig_coeff_group_ctx_inc-lt flags cg_x cg_y b.size in
    let chroma : (if b.is_luma then 0 else num_sig_cg_flag_ctx) ≤ 2 = ground arith in
    let (bound, started, room) = start-LevelsFit b last sub_set g i16 h in
    let pattern = calc_pattern_sig_ctx flags cg_x cg_y b.size in
    let found = sig_loop (next - sub_set * 2 ^ 4) b pattern sub_set lv in
    let (good, fit) =
      sig_loop-Good (next - sub_set * 2 ^ 4) b pattern sub_set bound lv i16 scans started in
    let places = if significant then found else ([], lv) in
    let (good', fit') =
      places-Good significant found lv lo hi bound (bound + (next - sub_set * 2 ^ 4))
        (Good-wider off_sig_flag_ctx lo off_last_x_ctx hi found.0 (omega arith) (omega arith) good)
        fit started (omega arith) in
    let levels = encode_levels places.1.abs_coeff places.1.sign_coeff sub_set b.is_luma g.c1 in
    let good'' =
      encode_levels-Good places.1.abs_coeff places.1.sign_coeff sub_set b.is_luma g.c1 fit'.small
        (omega (arith, fit'.few, room)) fit'.signs in
    let present = ltb 0 (length places.1.abs_coeff) in
    Good-append lo hi (if inferred then [] else (symbol ∷ []))
      (places.0 ++ (if present then levels else ([], g.c1)).0)
      (flag-Good inferred symbol lo hi
        ((ground arith, tt), ((omega arith, omega (arith, inc, chroma)), tt)))
      (Good-append lo hi places.0 (if present then levels else ([], g.c1)).0 good' (
        levels-Good present levels g.c1 lo hi (
          Good-wider off_one_flag_ctx lo off_mvp_idx_ctx hi levels.0 (omega arith) (omega arith)
            good'')))

-- The loop over the groups, from the one of the last coefficient down.
pub encode_groups-Good :
    (groups : ℕ) (b : Block) (last : ℕ) (g : Groups)
    → AllI16 b.coeffs
    → ScansChroma b
    → g.next ≤ groups * 16
    → Good off_sig_cg_flag_ctx off_mvp_idx_ctx (encode_groups groups b last g)
unfolding encode_groups encode_group
encode_groups-Good zero b last g i16 scans h = (tt, tt)
encode_groups-Good (suc groups) b last g i16 scans h =
    Good-append off_sig_cg_flag_ctx off_mvp_idx_ctx (encode_group b last groups g).0
      (encode_groups groups b last (encode_group b last groups g).1)
      (encode_group-Good b last groups g i16 scans (omega arith))
      (encode_groups-Good groups b last (encode_group b last groups g).1 i16 scans (omega arith))
