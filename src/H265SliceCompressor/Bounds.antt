-- ===== src/H265SliceCompressor/Bounds.antt =====
-- The bounds that GenTileBoundingPixels of src/H265SliceCompressor.cpp finds.
use ces.Prelude.{
  ℕ, ◌+◌, ◌-◌, ◌*◌, ◌/◌, ◌%◌, ◌^◌, ◌≤◌, ◌<◌, ◌≡◌, refl, sym, ap, ap₂, ◌∙◌, List, length, length-set,
  [], lt→ltb, get_or, set, for_range, Outcome, ok, fault, ◌>>=◌, arith, place_unique, place-lt,
  grid-filled,
}
use ces.ImageParameters.{ctu_width, get_ctu_start_pel}
use ces.ImageParameters.Ctu.{get_ctu_start_pel_lem}
use ces.ImageParameters.Tiles.{TileStruct, set_tile_struct}
use ces.ImageParameters.Tiles.Partition.{Sized, set_tile_struct-begins}
use ces.H265SliceCompressor.{
  TileBounds, start_ctu_num, end_ctu_num, set_tile_bounds, gen_tile_bounding_pixels,
}
use native.Mathlib.Nat.{div-lt_iff_lt-mul, le-div_iff_mul-le, div-mul-le_self, mod-eq_of_lt}

-- The tile at a place of the arrays lies in a frame of `w` by `h` CTUs and has at least two of them in each direction.
record TileFits (w h : ℕ) (t : TileStruct) (at : ℕ) : Type 0 where
  wide : 2 ≤ get_or t.tile_width at 0
  high : 2 ≤ get_or t.tile_height at 0
  right : get_or t.ctu_num_x at 0 + get_or t.tile_width at 0 ≤ w
  below : get_or t.ctu_num_y at 0 + get_or t.tile_height at 0 ≤ h

abbrev x : TileStruct → ℕ → ℕ
x t at = get_or t.ctu_num_x at 0

abbrev y : TileStruct → ℕ → ℕ
y t at = get_or t.ctu_num_y at 0

-- The last column and the last row.
abbrev last_x : TileStruct → ℕ → ℕ
last_x t at = x t at + get_or t.tile_width at 0 - 1

abbrev last_y : TileStruct → ℕ → ℕ
last_y t at = y t at + get_or t.tile_height at 0 - 1

module _ (w h : ℕ) (t : TileStruct) (at : ℕ) (fits : TileFits w h t at)
    (small_w : w * ctu_width < 2 ^ 32) (small_h : h * ctu_width < 2 ^ 32)
    (small : h * w < 2 ^ 32) where
  start_ctu_num_lem : start_ctu_num w t at ≡ (y t at) * w + (x t at)
  unfolding start_ctu_num
  start_ctu_num_lem =
      let inside =
        place-lt w h (x t at) (y t at) (omega (arith, fits.right, fits.wide))
          (omega (arith, fits.below, fits.high)) in
      mod-eq_of_lt (omega arith) ∙ omega arith

  -- In rows of `w` a tile of `c + 1` columns and `r + 1` rows ends `r` rows and `c` places after it starts.
  end_place : (x y c r w : ℕ) → y * w + x + c + r * w ≡ (y + r) * w + (x + c)
  end_place x y c r w = grind arith

  end_ctu_num_lem : end_ctu_num w t at ≡ (last_y t at) * w + (last_x t at)
  unfolding end_ctu_num
  end_ctu_num_lem =
      let inside =
        place-lt w h (last_x t at) (last_y t at) (omega (arith, fits.right, fits.wide))
          (omega (arith, fits.below, fits.high)) in
      let c = get_or t.tile_width at 0 - 1 in
      let r = get_or t.tile_height at 0 - 1 in
      let column : (get_or t.tile_width at 0 + 2 ^ 32 - 1) % 2 ^ 32 ≡ c =
        omega (arith, fits.right, fits.wide, small_w) in
      let row : (get_or t.tile_height at 0 + 2 ^ 32 - 1) % 2 ^ 32 ≡ r =
        omega (arith, fits.below, fits.high, small_h) in
      let ex : (x t at) + c ≡ (last_x t at) = omega (arith, fits.wide) in
      let ey : (y t at) + r ≡ (last_y t at) = omega (arith, fits.high) in
      let whole : (y t at) * w + (x t at) + c + r * w ≡ (last_y t at) * w + (last_x t at) =
        end_place (x t at) (y t at) c r w ∙ ap₂ (λ (a b : ℕ). a * w + b) ey ex in
      rw (start_ctu_num_lem, column, row, whole) (mod-eq_of_lt (omega arith))

  start_pel_lem :
      get_ctu_start_pel w (start_ctu_num w t at) ≡ ((x t at) * ctu_width, (y t at) * ctu_width)
  start_pel_lem =
      ap (get_ctu_start_pel w) start_ctu_num_lem
      ∙ get_ctu_start_pel_lem w h (x t at) (y t at) (omega (arith, fits.right, fits.wide))
          (omega (arith, fits.below, fits.high)) small_w small_h

  end_pel_lem :
      get_ctu_start_pel w (end_ctu_num w t at)
      ≡ ((last_x t at) * ctu_width, (last_y t at) * ctu_width)
  end_pel_lem =
      ap (get_ctu_start_pel w) end_ctu_num_lem
      ∙ get_ctu_start_pel_lem w h (last_x t at) (last_y t at) (omega (arith, fits.right, fits.wide))
          (omega (arith, fits.below, fits.high)) small_w small_h

-- What GenTileBoundingPixels sets for the tile at a place.
abbrev start_of : TileStruct → ℕ → ℕ × ℕ
start_of t at = (x t at * ctu_width, y t at * ctu_width)

abbrev end_of : TileStruct → ℕ → ℕ × ℕ
end_of t at = (last_x t at * ctu_width, last_y t at * ctu_width)

set_tile_bounds_lem :
    (w h c : ℕ) (t : TileStruct) (i j : ℕ) (b : TileBounds)
    → TileFits w h t (i * c + j)
    → w * ctu_width < 2 ^ 32
    → h * ctu_width < 2 ^ 32
    → h * w < 2 ^ 32
    → set_tile_bounds w c t i j b
      ≡ ok (record {
        start_pel = set b.start_pel (i * c + j) (start_of t (i * c + j));
        end_pel = set b.end_pel (i * c + j) (end_of t (i * c + j));
      })
unfolding set_tile_bounds
set_tile_bounds_lem w h c t i j b fits small_w small_h small =
    let at = i * c + j in
    let right = lt→ltb (x t at * ctu_width) (last_x t at * ctu_width) (omega (arith, fits.wide)) in
    let below = lt→ltb (y t at * ctu_width) (last_y t at * ctu_width) (omega (arith, fits.high)) in
    rw
      (
        start_pel_lem w h t at fits small_w small_h small,
        end_pel_lem w h t at fits small_w small_h small,
        right,
        below,
      )
      refl

-- A run that got through, with bounds for `n` tiles.
record Through (n : ℕ) (run : Outcome TileBounds) : Type 0 where
  bounds : TileBounds
  through : run ≡ ok bounds
  starts : length bounds.start_pel ≡ n
  ends : length bounds.end_pel ≡ n

starts_of : Outcome TileBounds → List (ℕ × ℕ)
starts_of (ok b) = b.start_pel
starts_of (fault which) = []

ends_of : Outcome TileBounds → List (ℕ × ℕ)
ends_of (ok b) = b.end_pel
ends_of (fault which) = []

module _ (w h c r : ℕ) (t : TileStruct)
    (each : (i j : ℕ) → i < r → j < c → TileFits w h t (i * c + j))
    (small_w : w * ctu_width < 2 ^ 32) (small_h : h * ctu_width < 2 ^ 32)
    (small : h * w < 2 ^ 32) where
  body : ℕ → ℕ → Outcome TileBounds → Outcome TileBounds
  body i j run = run >>= set_tile_bounds w c t i j

  body_lem :
      (i j : ℕ) (run : Outcome TileBounds) (k : Through (r * c) run)
      → i < r
      → j < c
      → body i j run
        ≡ ok (record {
          start_pel = set k.bounds.start_pel (i * c + j) (start_of t (i * c + j));
          end_pel = set k.bounds.end_pel (i * c + j) (end_of t (i * c + j));
        })
  unfolding body
  body_lem i j run k hi hj =
      rw k.through (set_tile_bounds_lem w h c t i j k.bounds (each i j hi hj) small_w small_h small)

  body-Through :
      (i j : ℕ) (run : Outcome TileBounds)
      → i < r
      → j < c
      → Through (r * c) run
      → Through (r * c) (body i j run)
  body-Through i j run hi hj k = record {
    bounds = _;
    through = body_lem i j run k hi hj;
    starts = length-set k.bounds.start_pel _ _ ∙ k.starts;
    ends = length-set k.bounds.end_pel _ _ ∙ k.ends;
  }

  whole_run : TileBounds → Outcome TileBounds
  whole_run b = for_range r 0 (λ i run. for_range c 0 (λ j run. body i j run) run) (ok b)

  apart : (i j x y : ℕ) → i < r → j < c → x < r → y < c → i * c + j ≡ x * c + y → (x ≡ i) × (y ≡ j)
  apart i j x y hi hj hx hy e = let (e₁, e₂) = place_unique c j i y x hj hy e in (sym e₂, sym e₁)

  module _ (b : TileBounds) (starts : length b.start_pel ≡ r * c)
      (ends : length b.end_pel ≡ r * c) where
    at_start : Through (r * c) (ok b)
    at_start = record { bounds = b; through = refl; starts = starts; ends = ends }

    starts_filled :
        Through (r * c) (whole_run b)
        × ((i j : ℕ)
            → i < r
            → j < c
            → get_or (starts_of (whole_run b)) (i * c + j) (0, 0) ≡ start_of t (i * c + j))
    unfolding whole_run starts_of
    starts_filled =
        let (kept, _, filled) =
          grid-filled (0, 0) r c (r * c) (λ i j. i * c + j) (λ i j. start_of t (i * c + j))
            starts_of body (Through (r * c)) body-Through
            (λ i j run hi hj k.
              ap starts_of (body_lem i j run k hi hj)
              ∙ ap (λ run. set (starts_of run) (i * c + j) (start_of t (i * c + j)))
                  (sym k.through))
            apart (λ i j hi hj. place-lt c r j i hj hi) (ok b) at_start starts in
        (kept, filled)

    ends_filled :
        (i j : ℕ)
        → i < r
        → j < c
        → get_or (ends_of (whole_run b)) (i * c + j) (0, 0) ≡ end_of t (i * c + j)
    unfolding whole_run ends_of
    ends_filled =
        let (_, _, filled) =
          grid-filled (0, 0) r c (r * c) (λ i j. i * c + j) (λ i j. end_of t (i * c + j)) ends_of
            body (Through (r * c)) body-Through
            (λ i j run hi hj k.
              ap ends_of (body_lem i j run k hi hj)
              ∙ ap (λ run. set (ends_of run) (i * c + j) (end_of t (i * c + j))) (sym k.through))
            apart (λ i j hi hj. place-lt c r j i hj hi) (ok b) at_start ends in
        filled

-- A size of at least two CTUs for each part leaves every part at least two.
parts_wide :
    (size parts k : ℕ)
    → 0 < parts
    → 2 * parts ≤ size
    → k * size / parts + 2 ≤ (k + 1) * size / parts
parts_wide size parts k pos h =
    (le-div_iff_mul-le pos).1 (omega (arith, div-mul-le_self (k * size) parts))

-- The last part ends with the size.
parts-le : (size parts k : ℕ) → k < parts → (k + 1) * size / parts ≤ size
parts-le size parts k h =
    let most : (k + 1) * size ≤ size * parts = grind arith in
    let pos : 0 < parts = omega arith in
    let over : (k + 1) * size < (size + 1) * parts = omega arith in
    omega (arith, (div-lt_iff_lt-mul pos).1 over)

tiles-TileFits :
    (fw fh c r i j : ℕ) (t : TileStruct)
    → Sized (r * c) t
    → i < r
    → j < c
    → c * (fw / ctu_width) < 2 ^ 32
    → r * (fh / ctu_width) < 2 ^ 32
    → 2 * c ≤ fw / ctu_width
    → 2 * r ≤ fh / ctu_width
    → TileFits (fw / ctu_width) (fh / ctu_width) (set_tile_struct fw fh c r t) (i * c + j)
tiles-TileFits fw fh c r i j t sized hi hj cw rh wide high =
    let (x, wx, y, hy) = set_tile_struct-begins fw fh c r i j t sized hi hj cw rh in
    let w₂ = parts_wide (fw / ctu_width) c j (omega arith) wide in
    let h₂ = parts_wide (fh / ctu_width) r i (omega arith) high in
    let right = parts-le (fw / ctu_width) c j hj in
    let below = parts-le (fh / ctu_width) r i hi in
    record {
      wide = omega (arith, x, wx, w₂);
      high = omega (arith, y, hy, h₂);
      right = omega (arith, wx, right);
      below = omega (arith, hy, below);
    }

-- The tiles that SetTileStruct makes pass the assertions of GenTileBoundingPixels, and every tile gets the samples at
-- which its first and its last CTU start. With a frame of w by h CTUs and at least two CTUs for each column and each row
-- of tiles, arrays of one place for each tile, and sides and products below 2 ^ 32: the run gets through, and the tile
-- in column j and row i starts at (32 * (j * w / columns), 32 * (i * h / rows)), and its last CTU at
-- (32 * ((j + 1) * w / columns - 1), 32 * ((i + 1) * h / rows - 1)).
pub gen_tile_bounding_pixels-set_tile_struct :
    (frame_width frame_height columns rows i j : ℕ) (t : TileStruct) (b : TileBounds)
    → Sized (rows * columns) t
    → length b.start_pel ≡ rows * columns
    → length b.end_pel ≡ rows * columns
    → i < rows
    → j < columns
    → frame_width < 2 ^ 32
    → frame_height < 2 ^ 32
    → columns * (frame_width / ctu_width) < 2 ^ 32
    → rows * (frame_height / ctu_width) < 2 ^ 32
    → frame_height / ctu_width * (frame_width / ctu_width) < 2 ^ 32
    → 2 * columns ≤ frame_width / ctu_width
    → 2 * rows ≤ frame_height / ctu_width
    → let w = frame_width / ctu_width in
      let h = frame_height / ctu_width in
      let tiles = set_tile_struct frame_width frame_height columns rows t in
      let at = i * columns + j in
      (result : TileBounds) × (gen_tile_bounding_pixels w columns rows tiles b ≡ ok result)
      × (get_or result.start_pel at (0, 0)
          ≡ (j * w / columns * ctu_width, i * h / rows * ctu_width))
      × (get_or result.end_pel at (0, 0)
          ≡ (((j + 1) * w / columns - 1) * ctu_width, ((i + 1) * h / rows - 1) * ctu_width))
unfolding gen_tile_bounding_pixels whole_run body starts_of ends_of
gen_tile_bounding_pixels-set_tile_struct fw fh c r i j t b sized starts ends hi hj hw hh cw rh small
      wide high =
    let w = fw / ctu_width in
    let h = fh / ctu_width in
    let tiles = set_tile_struct fw fh c r t in
    let each : (i j : ℕ) → i < r → j < c → TileFits w h tiles (i * c + j) =
      λ i j hi hj. tiles-TileFits fw fh c r i j t sized hi hj cw rh wide high in
    let small_w : w * ctu_width < 2 ^ 32 = omega arith in
    let small_h : h * ctu_width < 2 ^ 32 = omega arith in
    let (kept, filled) = starts_filled w h c r tiles each small_w small_h small b starts ends in
    let last = ends_filled w h c r tiles each small_w small_h small b starts ends i j hi hj in
    let (x, wx, y, hy) = set_tile_struct-begins fw fh c r i j t sized hi hj cw rh in
    (
      kept.bounds,
      kept.through,
      ap (λ run. get_or (starts_of run) (i * c + j) (0, 0)) (sym kept.through)
          ∙ filled i j hi hj
          ∙ ap₂ (λ (a b : ℕ). (a * ctu_width, b * ctu_width)) x y,
      ap (λ run. get_or (ends_of run) (i * c + j) (0, 0)) (sym kept.through)
          ∙ last
          ∙ ap₂ (λ (a b : ℕ). ((a - 1) * ctu_width, (b - 1) * ctu_width)) wx hy,
    )
