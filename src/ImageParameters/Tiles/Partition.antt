-- ===== src/ImageParameters/Tiles/Partition.antt =====
-- The tiles that SetTileStruct of src/ImageParameters.cpp makes cover the frame.
use ces.Prelude.{
  place_unique, place-lt, grid-filled, ℕ, ◌+◌, ◌-◌, ◌*◌, ◌/◌, ◌%◌, ◌^◌, ◌≤◌, ◌<◌, ◌≡◌, refl, sym,
  ap, ◌∙◌, List, length, length-set, get_or, set, for_range, for_range_inv, arith,
}
use ces.ImageParameters.{ctu_width}
use ces.ImageParameters.Tiles.{
  TileStruct, part_size, set_width, set_height, sum_sizes, set_bounds, set_tile_struct,
}
use native.Mathlib.Nat.{le-div_iff_mul-le, div-mul-le_self, div-le_self, zero-div, mod-eq_of_lt}

-- The sizes that SetTileStruct computes: between the places where the parts begin.
abbrev begins : ℕ → ℕ → ℕ → ℕ
begins size parts k = k * size / parts

part_size-begins :
    (size parts k : ℕ)
    → 0 < parts
    → k < parts
    → parts * size < 2 ^ 32
    → part_size size parts k ≡ begins size parts (k + 1) - begins size parts k
unfolding part_size
part_size-begins size parts k pos h small =
    let first : k * size < 2 ^ 32 = grind arith in
    let second : (k + 1) * size < 2 ^ 32 = grind arith in
    let grows : begins size parts k ≤ begins size parts (k + 1) =
      (le-div_iff_mul-le pos).1 (omega (arith, div-mul-le_self (k * size) parts)) in
    let least = div-le_self ((k + 1) * size) parts in
    rw (mod-eq_of_lt first, mod-eq_of_lt second) (omega arith)

begins-le : (size parts k : ℕ) → 0 < parts → begins size parts k ≤ begins size parts (k + 1)
begins-le size parts k pos =
    (le-div_iff_mul-le pos).1 (omega (arith, div-mul-le_self (k * size) parts))

starts : (size parts : ℕ) → 0 ≡ begins size parts 0
starts size parts = let none : 0 * size ≡ 0 = omega arith in rw none (sym (zero-div parts))

-- The sum of the sizes before a part is where it begins.
sum_sizes-begins :
    (sizes : List ℕ) (at step size parts k : ℕ)
    → 0 < parts
    → k ≤ parts
    → parts * size < 2 ^ 32
    → ((m : ℕ) → m < parts → get_or sizes (at + m * step) 0 ≡ part_size size parts m)
    → sum_sizes sizes at step k ≡ begins size parts k
unfolding sum_sizes
sum_sizes-begins sizes at step size parts k pos h small each =
    for_range_inv (λ m total. total ≡ begins size parts m)
      (λ m total. (total + get_or sizes (at + m * step) 0) % 2 ^ 32) k 0 0
      (λ m total _ hm e. next m total (omega arith) e) (starts size parts)
    ∙ ap (begins size parts) (omega arith)
  where
    next :
        (m total : ℕ)
        → m < parts
        → total ≡ begins size parts m
        → (total + get_or sizes (at + m * step) 0) % 2 ^ 32 ≡ begins size parts (m + 1)
    next m total hm e =
        let le = begins-le size parts m pos in
        let bound : (m + 1) * size < 2 ^ 32 = grind arith in
        let least = div-le_self ((m + 1) * size) parts in
        let sum : total + (begins size parts (m + 1) - begins size parts m)
            ≡ begins size parts (m + 1) =
          omega arith in
        rw (each m hm, part_size-begins size parts m pos hm small, sum) (mod-eq_of_lt (omega arith))

-- The arrays of a frame with `n` tiles.
pub record Sized (n : ℕ) (t : TileStruct) : Type 0 where
  pub widths : length t.tile_width ≡ n
  pub heights : length t.tile_height ≡ n
  pub xs : length t.ctu_num_x ≡ n
  pub ys : length t.ctu_num_y ≡ n

module _ (frame_width frame_height columns rows : ℕ) (t : TileStruct)
    (sized : Sized (rows * columns) t) where
  w : ℕ
  w = frame_width / ctu_width

  h : ℕ
  h = frame_height / ctu_width

  with_widths : TileStruct
  with_widths = for_range rows 0 (λ i s. for_range columns 0 (set_width w columns i) s) t

  with_heights : TileStruct
  with_heights =
      for_range columns 0 (λ i s. for_range rows 0 (set_height h columns rows i) s) with_widths

  in_row : (i j : ℕ) → i < rows → j < columns → i * columns + j < rows * columns
  in_row i j hi hj = place-lt columns rows j i hj hi

  row_apart :
      (i j x y : ℕ)
      → i < rows
      → j < columns
      → x < rows
      → y < columns
      → i * columns + j ≡ x * columns + y
      → (x ≡ i) × (y ≡ j)
  row_apart i j x y hi hj hx hy e =
      let (c, r) = place_unique columns j i y x hj hy e in (sym r, sym c)

  column_apart :
      (i j x y : ℕ)
      → i < columns
      → j < rows
      → x < columns
      → y < rows
      → i + j * columns ≡ x + y * columns
      → (x ≡ i) × (y ≡ j)
  column_apart i j x y hi hj hx hy e =
      let (c, r) = place_unique columns i j x y hi hx (omega arith) in (sym c, sym r)

  in_column : (i j : ℕ) → i < columns → j < rows → i + j * columns < rows * columns
  in_column i j hi hj = omega (arith, place-lt columns rows i j hi hj)

  widths_filled :
      Sized (rows * columns) with_widths
      × ((i j : ℕ)
          → i < rows
          → j < columns
          → get_or with_widths.tile_width (i * columns + j) 0 ≡ part_size w columns j)
  unfolding set_width with_widths
  widths_filled =
      let (kept, _, filled) =
        grid-filled 0 rows columns (rows * columns) (λ i j. i * columns + j)
          (λ i j. part_size w columns j) (λ s. s.tile_width) (λ i. set_width w columns i)
          (Sized (rows * columns))
          (λ i j s hi hj k. record {
            widths = length-set s.tile_width (i * columns + j) (part_size w columns j) ∙ k.widths;
            heights = k.heights;
            xs = k.xs;
            ys = k.ys;
          })
          (λ i j s hi hj k. refl) row_apart in_row t sized sized.widths in
      (kept, filled)

  -- What the loop over the heights leaves alone.
  record KeepsWidths (s : TileStruct) : Type 0 where
    fits : Sized (rows * columns) s
    same : s.tile_width ≡ with_widths.tile_width

  heights_filled :
      KeepsWidths with_heights
      × ((i j : ℕ)
          → i < columns
          → j < rows
          → get_or with_heights.tile_height (i + j * columns) 0 ≡ part_size h rows j)
  unfolding set_height with_heights
  heights_filled =
      let (kept, _, filled) =
        grid-filled 0 columns rows (rows * columns) (λ i j. i + j * columns)
          (λ i j. part_size h rows j) (λ s. s.tile_height) (λ i. set_height h columns rows i)
          KeepsWidths
          (λ i j s hi hj k. record {
            fits = record {
              widths = k.fits.widths;
              heights =
                  length-set s.tile_height (i + j * columns) (part_size h rows j) ∙ k.fits.heights;
              xs = k.fits.xs;
              ys = k.fits.ys;
            };
            same = k.same;
          })
          (λ i j s hi hj k. refl) column_apart in_column with_widths
          (record { fits = widths_filled.0; same = refl }) widths_filled.0.heights in
      (kept, filled)

  -- What the loop over the boundaries leaves alone.
  record KeepsSizes (s : TileStruct) : Type 0 where
    fits : Sized (rows * columns) s
    same_widths : s.tile_width ≡ with_widths.tile_width
    same_heights : s.tile_height ≡ with_heights.tile_height

  whole : TileStruct
  whole = for_range rows 0 (λ i s. for_range columns 0 (set_bounds columns i) s) with_heights

  set_bounds-KeepsSizes :
      (i j : ℕ) (s : TileStruct) → KeepsSizes s → KeepsSizes (set_bounds columns i j s)
  unfolding set_bounds
  set_bounds-KeepsSizes i j s k = record {
    fits = record {
      widths = k.fits.widths;
      heights = k.fits.heights;
      xs = length-set s.ctu_num_x _ _ ∙ k.fits.xs;
      ys = length-set s.ctu_num_y _ _ ∙ k.fits.ys;
    };
    same_widths = k.same_widths;
    same_heights = k.same_heights;
  }

  with_heights-KeepsSizes : KeepsSizes with_heights
  with_heights-KeepsSizes = record {
    fits = heights_filled.0.fits;
    same_widths = heights_filled.0.same;
    same_heights = refl;
  }

  xs_filled :
      KeepsSizes whole
      × ((i j : ℕ)
          → i < rows
          → j < columns
          → get_or whole.ctu_num_x (i * columns + j) 0
            ≡ sum_sizes with_widths.tile_width (i * columns) 1 j)
  unfolding set_bounds whole
  xs_filled =
      let (kept, _, filled) =
        grid-filled 0 rows columns (rows * columns) (λ i j. i * columns + j)
          (λ i j. sum_sizes with_widths.tile_width (i * columns) 1 j) (λ s. s.ctu_num_x)
          (λ i. set_bounds columns i) KeepsSizes (λ i j s hi hj k. set_bounds-KeepsSizes i j s k)
          (λ i j s hi hj k.
            ap (λ (l : List ℕ). set s.ctu_num_x (i * columns + j) (sum_sizes l (i * columns) 1 j))
              k.same_widths)
          row_apart in_row with_heights with_heights-KeepsSizes with_heights-KeepsSizes.fits.xs in
      (kept, filled)

  ys_filled :
      (i j : ℕ)
      → i < rows
      → j < columns
      → get_or whole.ctu_num_y (i * columns + j) 0 ≡ sum_sizes with_heights.tile_height j columns i
  unfolding set_bounds whole
  ys_filled =
      let (_, _, filled) =
        grid-filled 0 rows columns (rows * columns) (λ i j. i * columns + j)
          (λ i j. sum_sizes with_heights.tile_height j columns i) (λ s. s.ctu_num_y)
          (λ i. set_bounds columns i) KeepsSizes (λ i j s hi hj k. set_bounds-KeepsSizes i j s k)
          (λ i j s hi hj k.
            ap (λ (l : List ℕ). set s.ctu_num_y (i * columns + j) (sum_sizes l j columns i))
              k.same_heights)
          row_apart in_row with_heights with_heights-KeepsSizes with_heights-KeepsSizes.fits.ys in
      filled

-- Every tile of a frame begins in both directions where the one before it ends. With a frame of w by h CTUs, at least
-- one column and one row of tiles, arrays of one place for each tile, and columns * w and rows * h below 2 ^ 32: the tile
-- in column j and row i begins at CTU j * w / columns and i * h / rows, and its width and height reach exactly to
-- (j + 1) * w / columns and (i + 1) * h / rows. So the first begins at 0 and the last ends with the frame.
pub set_tile_struct-begins :
    (frame_width frame_height columns rows i j : ℕ) (t : TileStruct)
    → Sized (rows * columns) t
    → i < rows
    → j < columns
    → columns * (frame_width / ctu_width) < 2 ^ 32
    → rows * (frame_height / ctu_width) < 2 ^ 32
    → let w = frame_width / ctu_width in
      let h = frame_height / ctu_width in
      let r = set_tile_struct frame_width frame_height columns rows t in
      let at = i * columns + j in
      (get_or r.ctu_num_x at 0 ≡ j * w / columns)
      × (get_or r.ctu_num_x at 0 + get_or r.tile_width at 0 ≡ (j + 1) * w / columns)
      × (get_or r.ctu_num_y at 0 ≡ i * h / rows)
      × (get_or r.ctu_num_y at 0 + get_or r.tile_height at 0 ≡ (i + 1) * h / rows)
unfolding set_tile_struct whole with_widths with_heights w h
set_tile_struct-begins fw fh columns rows i j t sized hi hj small_w small_h =
    let c = columns in
    let pos_c : 0 < c = omega arith in
    let pos_r : 0 < rows = omega arith in
    let widths = (widths_filled fw fh c rows t sized).1 in
    let heights = (heights_filled fw fh c rows t sized).1 in
    let (kept, xs) = xs_filled fw fh c rows t sized in
    let ys = ys_filled fw fh c rows t sized i j hi hj in
    let x =
      xs i j hi hj
      ∙ sum_sizes-begins _ (i * c) 1 (fw / ctu_width) c j pos_c (omega arith) small_w (λ m hm.
        ap (λ (k : ℕ). get_or (with_widths fw fh c rows t sized).tile_width (i * c + k) 0)
          (omega arith)
        ∙ widths i m hi hm) in
    let y =
      ys
      ∙ sum_sizes-begins _ j c (fh / ctu_width) rows i pos_r (omega arith) small_h
          (λ m hm. heights j m hj hm) in
    let wide =
      ap (λ (l : List ℕ). get_or l (i * c + j) 0) kept.same_widths
      ∙ widths i j hi hj
      ∙ part_size-begins (fw / ctu_width) c j pos_c hj small_w in
    let high =
      ap (λ (l : List ℕ). get_or l (i * c + j) 0) kept.same_heights
      ∙ ap (λ (k : ℕ). get_or (with_heights fw fh c rows t sized).tile_height k 0) (omega arith)
      ∙ heights j i hj hi
      ∙ part_size-begins (fh / ctu_width) rows i pos_r hi small_h in
    let grows_w = begins-le (fw / ctu_width) c j pos_c in
    let grows_h = begins-le (fh / ctu_width) rows i pos_r in
    (x, omega (arith, x, wide, grows_w), y, omega (arith, y, high, grows_h))
