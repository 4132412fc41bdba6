-- ===== src/Syntax/Last/Reading.antt =====
-- The position of the last coefficient is read back from the bins that CodeLastSignifXY of src/Cabac.cpp writes.
use ces.Prelude.{
  ℕ, zero, suc, ◌+◌, ◌-◌, ◌*◌, ◌/◌, ◌%◌, ◌^◌, ◌≤◌, ◌<◌, ◌≡◌, refl, ap, ◌∙◌, Bool, List, [], ◌∷◌,
  ◌++◌, Option, none, some, ltb, ◌==◌, if◌then◌else◌, arith, bits, replicate, append_assoc,
  append-nil, get_or, lt→ltb, le→ltb_false, dec_lt, Bool-cases, inl, inr, two-pow_mono,
}
use ces.BitStream.Reader.{◌>>=◌, read_bits, read_bits-bits}
use ces.Cabac.Offsets.{off_last_x_ctx, off_last_y_ctx, num_last_flag_xy_ctx}
use ces.Cabac.Symbols.{context_bin}
use ces.Syntax.Bins.{bins_of, bins_of-append}
use ces.Syntax.Last.Groups.{group_small, group_large, block_groups}
use ces.Syntax.Last.{
  group_idx, min_in_group, prefix_ones, last_prefix, last_suffix, swapped, code_last_signif_xy,
  blk_size_offset, last_shift,
}

-- Truncated unary, with at most so many bins.
unfoldable pub read_unary : ℕ → List ℕ → Option (ℕ × List ℕ)
read_unary zero r = some (0, r)
read_unary (suc n) [] = none
read_unary (suc n) (b ∷ r) =
    if b == 0 then some (0, r) else (read_unary n r >>= λ p. some (suc p.0, p.1))

-- A coordinate from its prefix and the bins of the suffix (7.4.9.11 of the standard).
pub read_coordinate : ℕ → List ℕ → Option (ℕ × List ℕ)
read_coordinate prefix r =
    if ltb 3 prefix
    then (read_bits (prefix / 2 - 1) r >>= λ p.
        some (2 ^ (prefix / 2 - 1) * (2 + prefix % 2) + p.0, p.1))
    else some (prefix, r)

-- Both coordinates of a block of 2 ^ `n` rows, swapped for the vertical scan.
pub read_last : ℕ → ℕ → List ℕ → Option ((ℕ × ℕ) × List ℕ)
read_last n scan_idx r = do
  px ← read_unary (2 * n - 1) r
  py ← read_unary (2 * n - 1) px.1
  x ← read_coordinate px.0 py.1
  y ← read_coordinate py.0 x.1
  some ((swapped scan_idx x.0 y.0, swapped scan_idx y.0 x.0), y.1)

prefix_ones-bins : (g first shift k : ℕ) → bins_of (prefix_ones g first shift k) ≡ replicate g 1
unfolding prefix_ones
prefix_ones-bins zero first shift k = refl
prefix_ones-bins (suc g) first shift k = ap (λ l. 1 ∷ l) (prefix_ones-bins g first shift (k + 1))

read_unary-replicate :
    (g n : ℕ) (rest : List ℕ) → g < n → read_unary n (replicate g 1 ++ 0 ∷ rest) ≡ some (g, rest)
unfolding read_unary
read_unary-replicate zero (suc n) rest h = refl
read_unary-replicate (suc g) (suc n) rest h = rw (read_unary-replicate g n rest (omega arith))
read_unary-replicate g zero rest h = absurd (omega arith)

read_unary_full : (n : ℕ) (rest : List ℕ) → read_unary n (replicate n 1 ++ rest) ≡ some (n, rest)
unfolding read_unary
read_unary_full zero rest = refl
read_unary_full (suc n) rest = rw (read_unary_full n rest)

read_unary-last_prefix :
    (g n first shift : ℕ) (rest : List ℕ)
    → g ≤ n
    → read_unary n (bins_of (last_prefix g n first shift) ++ rest) ≡ some (g, rest)
unfolding last_prefix
read_unary-last_prefix g n first shift rest h = elim (dec_lt g n) [
  | yes lt ↦
      rw
        (
          lt→ltb g n lt,
          bins_of-append (prefix_ones g first shift 0) (context_bin 0 (first + g / 2 ^ shift) ∷ []),
          prefix_ones-bins g first shift 0,
          append_assoc (replicate g 1) (0 ∷ []) rest,
        )
        (read_unary-replicate g n rest lt)
  | no ge ↦
      let same : g ≡ n = omega arith in
      rw
        (
          le→ltb_false g n (omega arith),
          append-nil (prefix_ones g first shift 0),
          prefix_ones-bins g first shift 0,
          same,
        )
        (read_unary_full n rest)
]

read_coordinate-last_suffix :
    (p : ℕ) (rest : List ℕ)
    → p < 32
    → read_coordinate (get_or group_idx p 0) (bins_of (last_suffix p) ++ rest) ≡ some (p, rest)
unfolding read_coordinate last_suffix
read_coordinate-last_suffix p rest h = elim (Bool-cases (ltb 3 (get_or group_idx p 0))) [
  | inr few ↦ rw (few, group_small p h few) refl
  | inl many ↦
      let g = get_or group_idx p 0 in
      let least = get_or min_in_group g 0 in
      let (le, power, fits) = group_large p h many in
      let count : (g - 2) / 2 ≡ g / 2 - 1 = omega arith in
      let sum : least + (p - least) ≡ p = omega arith in
      rw
        (
          many,
          count,
          append-nil (bits (g / 2 - 1) (p - least)),
          read_bits-bits (g / 2 - 1) (p - least) rest fits,
          power,
          sum,
        )
        refl
]

read_last-steps :
    (n scan_idx x y first_x first_y shift : ℕ) (rest : List ℕ)
    → x < 32
    → y < 32
    → get_or group_idx x 0 ≤ 2 * n - 1
    → get_or group_idx y 0 ≤ 2 * n - 1
    → read_last n scan_idx (
        bins_of (
          last_prefix (get_or group_idx x 0) (2 * n - 1) first_x shift
          ++ (last_prefix (get_or group_idx y 0) (2 * n - 1) first_y shift
              ++ (last_suffix x ++ last_suffix y)))
        ++ rest)
      ≡ some ((swapped scan_idx x y, swapped scan_idx y x), rest)
unfolding read_last
read_last-steps n scan_idx x y first_x first_y shift rest hx hy gx gy =
    let a = last_prefix (get_or group_idx x 0) (2 * n - 1) first_x shift in
    let b = last_prefix (get_or group_idx y 0) (2 * n - 1) first_y shift in
    rw
      (
        bins_of-append a (b ++ (last_suffix x ++ last_suffix y)),
        bins_of-append b (last_suffix x ++ last_suffix y),
        bins_of-append (last_suffix x) (last_suffix y),
        append_assoc (bins_of a) (bins_of b ++ (bins_of (last_suffix x) ++ bins_of (last_suffix y)))
            rest,
        append_assoc (bins_of b) (bins_of (last_suffix x) ++ bins_of (last_suffix y)) rest,
        append_assoc (bins_of (last_suffix x)) (bins_of (last_suffix y)) rest,
        read_unary-last_prefix (get_or group_idx x 0) (2 * n - 1) first_x shift
            (bins_of b ++ (bins_of (last_suffix x) ++ (bins_of (last_suffix y) ++ rest))) gx,
        read_unary-last_prefix (get_or group_idx y 0) (2 * n - 1) first_y shift
            (bins_of (last_suffix x) ++ (bins_of (last_suffix y) ++ rest)) gy,
        read_coordinate-last_suffix x (bins_of (last_suffix y) ++ rest) hx,
        read_coordinate-last_suffix y rest hy,
      )
      refl

swap_twice :
    (scan_idx x y : ℕ)
    → ◌≡◌ {A = ℕ × ℕ}
        (
          swapped scan_idx (swapped scan_idx x y) (swapped scan_idx y x),
          swapped scan_idx (swapped scan_idx y x) (swapped scan_idx x y),
        )
        (x, y)
swap_twice scan_idx x y = ground arith

-- For a block of 4, 8, 16 or 32 rows and a place in it, in each scan, the reader of the standard gets the column and
-- the row back from the bins, whatever follows.
pub code_last_signif_xy-read_last :
    (n pos_x pos_y scan_idx : ℕ) (is_luma : Bool) (rest : List ℕ)
    → 2 ≤ n
    → n ≤ 5
    → pos_x < 2 ^ n
    → pos_y < 2 ^ n
    → read_last n scan_idx
        (bins_of (code_last_signif_xy pos_x pos_y (2 ^ n) scan_idx is_luma) ++ rest)
      ≡ some ((pos_x, pos_y), rest)
unfolding code_last_signif_xy
code_last_signif_xy-read_last n pos_x pos_y scan_idx is_luma rest lo hi hx hy =
    let x = swapped scan_idx pos_x pos_y in
    let y = swapped scan_idx pos_y pos_x in
    let (gx, largest, log) = block_groups n x lo hi (ground arith) in
    let gy = (block_groups n y lo hi (ground arith)).0 in
    let small = two-pow_mono n 5 hi in
    let first = (if is_luma then 0 else num_last_flag_xy_ctx) in
    let offset = blk_size_offset is_luma n in
    rw (largest, log)
      (read_last-steps n scan_idx x y (off_last_x_ctx + first + offset)
          (off_last_y_ctx + first + offset) (last_shift is_luma n) rest (ground arith)
          (ground arith) gx gy
        ∙ ap (λ (p : ℕ × ℕ). some (p, rest)) (swap_twice scan_idx pos_x pos_y))
