-- ===== src/H265SliceCompressor/Tests.antt =====
-- Tests: a frame of 13 by 7 CTUs in three columns and two rows of tiles, and one that is a single CTU wide.
use ces.Prelude.{ℕ, ◌≡◌, refl, List, [], ◌∷◌, get_or, ok, fault, narrow_tile, arith, for_range}
use ces.ImageParameters.{get_ctu_start_pel}
use ces.ImageParameters.Tiles.{TileStruct, set_tile_struct}
use ces.H265SliceCompressor.{
  TileBounds, start_ctu_num, end_ctu_num, set_tile_bounds, gen_tile_bounding_pixels,
}
use ces.H265SliceCompressor.Bounds.{gen_tile_bounding_pixels-set_tile_struct}

abbrev six : List ℕ
six = 0 ∷ 0 ∷ 0 ∷ 0 ∷ 0 ∷ 0 ∷ []

abbrev six_pels : List (ℕ × ℕ)
six_pels = (0, 0) ∷ (0, 0) ∷ (0, 0) ∷ (0, 0) ∷ (0, 0) ∷ (0, 0) ∷ []

abbrev new_tiles : TileStruct
new_tiles = record {
  tile_width = six;
  tile_height = six;
  ctu_num_x = six;
  ctu_num_y = six;
  max_width = 0;
  max_height = 0;
}

abbrev new_bounds : TileBounds
new_bounds = record { start_pel = six_pels; end_pel = six_pels }

gen_tile_bounding_pixels-set_tile_struct_example :
    (result : TileBounds) × (gen_tile_bounding_pixels 13 3 2
        (set_tile_struct 416 240 3 2 new_tiles)
        new_bounds
      ≡ ok result)
    × (get_or result.start_pel 4 (0, 0) ≡ (128, 96))
    × (get_or result.end_pel 4 (0, 0) ≡ (224, 192))
gen_tile_bounding_pixels-set_tile_struct_example =
    gen_tile_bounding_pixels-set_tile_struct 416 240 3 2 1 1 new_tiles new_bounds
      (record { widths = refl; heights = refl; xs = refl; ys = refl }) refl refl (omega arith)
      (omega arith) (omega arith) (omega arith) (omega arith) (omega arith) (omega arith)
      (omega arith) (omega arith)

-- The only tile of a frame of one CTU starts and ends with the same CTU, which the first assertion stops.
abbrev one_ctu : TileStruct
one_ctu = record {
  tile_width = 1 ∷ [];
  tile_height = 1 ∷ [];
  ctu_num_x = 0 ∷ [];
  ctu_num_y = 0 ∷ [];
  max_width = 1;
  max_height = 1;
}

narrow_run : gen_tile_bounding_pixels 1 1 1 one_ctu new_bounds ≡ fault narrow_tile
unfolding gen_tile_bounding_pixels set_tile_bounds get_ctu_start_pel start_ctu_num end_ctu_num
    for_range
narrow_run = refl
