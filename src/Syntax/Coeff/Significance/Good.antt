-- ===== src/Syntax/Coeff/Significance/Good.antt =====
-- The significance flags in src/Cabac.cpp: the coder takes them, in their contexts, and the levels fit their variables.
use ces.Prelude.{
  ℕ, zero, suc, ◌+◌, ◌*◌, ◌^◌, ◌≤◌, ◌<◌, ◌≡◌, Bool, true, false, ◌&&◌, List, [], ◌∷◌, ◌++◌, ◌==◌,
  if◌then◌else◌, length, length-append, get_or, arith, two-pow-suc,
}
use ces.Prelude.Int.{ℤ, pos, pos_part, neg_part}
use ces.Cabac.Offsets.{off_sig_flag_ctx, off_last_x_ctx}
use ces.Cabac.Symbols.{context_bin}
use ces.Syntax.Bins.{Good, Good-append, Good-if}
use ces.Syntax.Increments.{get_sig_ctx_inc}
use ces.Syntax.Increments.Bounds.{get_sig_ctx_inc-lt}
use ces.Syntax.Coeff.{Block, row_of, column_of, coeff_at, is_nonzero}
use ces.Syntax.Coeff.Levels.Good.{AllSmall}
use ces.Syntax.Coeff.Significance.{
  Levels, to_i16_abs, is_negative, add_level, base_ctx, is_coded, sig_loop,
}
use native.Mathlib.Nat.{mod-le}

-- The coefficients are i16.
abbrev pub AllI16 : List ℤ → Type 0
AllI16 [] = Unit {0}
AllI16 (c ∷ cs) = ((pos_part c < 2 ^ 15) × (neg_part c ≤ 2 ^ 15)) × AllI16 cs

pub get_or-i16 :
    (cs : List ℤ) (i : ℕ)
    → AllI16 cs
    → (pos_part (get_or cs i (pos 0)) < 2 ^ 15) × (neg_part (get_or cs i (pos 0)) ≤ 2 ^ 15)
get_or-i16 [] i h = omega arith
get_or-i16 (c ∷ cs) zero h = h.0
get_or-i16 (c ∷ cs) (suc i) h = get_or-i16 cs i h.1

-- The levels so far: as many as were visited at most, and a sign for each.
pub record LevelsFit (lv : Levels) (bound : ℕ) : Type 0 where
  pub small : AllSmall lv.abs_coeff
  pub few : length lv.abs_coeff ≤ bound
  pub signs : lv.sign_coeff < 2 ^ length lv.abs_coeff

AllSmall-snoc : (xs : List ℤ) (x : ℤ) → AllSmall xs → pos_part x < 2 ^ 15 → AllSmall (xs ++ x ∷ [])
AllSmall-snoc [] x h k = (k, tt)
AllSmall-snoc (y ∷ ys) x h k = (h.0, AllSmall-snoc ys x h.1 k)

pub add_level-LevelsFit :
    (coeff : ℤ) (lv : Levels) (bound : ℕ)
    → LevelsFit lv bound
    → (pos_part coeff < 2 ^ 15) × (neg_part coeff ≤ 2 ^ 15)
    → LevelsFit (add_level coeff lv) (bound + 1)
unfolding add_level
add_level-LevelsFit coeff lv bound h k =
    let longer : length (lv.abs_coeff ++ to_i16_abs coeff ∷ []) ≡ suc (length lv.abs_coeff) =
      omega (arith, length-append lv.abs_coeff (to_i16_abs coeff ∷ [])) in
    let bit : is_negative coeff < 2 = ground arith in
    record {
      small = AllSmall-snoc lv.abs_coeff (to_i16_abs coeff) h.small (ground (arith, k.0, k.1));
      few = omega (arith, h.few);
      signs = rw longer (
          omega (
            arith,
            h.signs,
            two-pow-suc (length lv.abs_coeff),
            mod-le (lv.sign_coeff * 2 + is_negative coeff) (2 ^ 32),
          ));
    }

if-LevelsFit :
    (hit : Bool) (coeff : ℤ) (lv : Levels) (bound : ℕ)
    → LevelsFit lv bound
    → (pos_part coeff < 2 ^ 15) × (neg_part coeff ≤ 2 ^ 15)
    → LevelsFit (if hit then add_level coeff lv else lv) (bound + 1)
if-LevelsFit true coeff lv bound h k = add_level-LevelsFit coeff lv bound h k
if-LevelsFit false coeff lv bound h k = record {
  small = h.small;
  few = omega (arith, h.few);
  signs = h.signs;
}

-- A block of 8 rows of chroma is scanned diagonally.
abbrev pub ScansChroma : Block → Type 0
ScansChroma b =
    if (b.log2_size == 3) && (if b.is_luma then false else true) then b.scan_idx ≡ 3 else Unit {0}

-- The loop over the places of a group.
pub sig_loop-Good :
    (rounds : ℕ) (b : Block) (pattern : ℤ) (sub_set bound : ℕ) (lv : Levels)
    → AllI16 b.coeffs
    → ScansChroma b
    → LevelsFit lv bound
    → Good off_sig_flag_ctx off_last_x_ctx (sig_loop rounds b pattern sub_set lv).0
      × LevelsFit (sig_loop rounds b pattern sub_set lv).1 (bound + rounds)
unfolding sig_loop
sig_loop-Good zero b pattern sub_set bound lv i16 scans h =
    ((tt, tt), record { small = h.small; few = omega (arith, h.few); signs = h.signs })
sig_loop-Good (suc rounds) b pattern sub_set bound lv i16 scans h =
    let place = get_or b.scan (sub_set * 2 ^ 4 + rounds) 0 in
    let coeff = coeff_at b place in
    let ctx =
      base_ctx b.is_luma
      + get_sig_ctx_inc pattern b.scan_idx (column_of b place) (row_of b place) b.log2_size
          b.is_luma in
    let inc =
      get_sig_ctx_inc-lt pattern b.scan_idx (column_of b place) (row_of b place) b.log2_size
        b.is_luma scans in
    let here = context_bin (if is_nonzero coeff then 1 else 0) ctx ∷ [] in
    let lv' = if is_nonzero coeff then add_level coeff lv else lv in
    let fit = get_or-i16 b.coeffs (row_of b place * b.stride + column_of b place) i16 in
    let next : LevelsFit lv' (bound + 1) = if-LevelsFit (is_nonzero coeff) coeff lv bound h fit in
    let (good, last) = sig_loop-Good rounds b pattern sub_set (bound + 1) lv' i16 scans next in
    let one_more : bound + 1 + rounds ≡ bound + suc rounds = omega arith in
    (
      Good-append off_sig_flag_ctx off_last_x_ctx
          (if is_coded rounds sub_set (length lv.abs_coeff) then here else [])
          (sig_loop rounds b pattern sub_set lv').0
          (Good-if off_sig_flag_ctx off_last_x_ctx (is_coded rounds sub_set (length lv.abs_coeff))
            here ((ground arith, tt), ((omega arith, ground arith), tt)))
          good,
      rw one_more at last,
    )
