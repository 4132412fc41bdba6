-- ===== src/ImageParameters/Tests.antt =====
-- The theorems at concrete inputs: a frame of 13 by 8 CTUs.
use ces.Prelude.{◌+◌, ◌≡◌, refl, [], ◌∷◌, arith, get_or}
use ces.ImageParameters.{get_ctu_start_pel, get_ctu_num}
use ces.ImageParameters.Tiles.{TileStruct, set_tile_struct}
use ces.ImageParameters.Tiles.Partition.{set_tile_struct-begins}
use ces.ImageParameters.Ctu.{get_ctu_num-get_ctu_start_pel}

start_run : get_ctu_start_pel 13 30 ≡ (128, 64)
unfolding get_ctu_start_pel
start_run = refl

get_ctu_num-get_ctu_start_pel_example :
    get_ctu_num 13 ((get_ctu_start_pel 13 30).0 + 5) ((get_ctu_start_pel 13 30).1 + 31) ≡ 30
get_ctu_num-get_ctu_start_pel_example =
    get_ctu_num-get_ctu_start_pel 13 8 30 5 31 (omega arith) (omega arith) (omega arith)
      (omega arith) (omega arith) (omega arith) (omega arith)

-- Three columns and two rows of tiles.
abbrev six_tiles : TileStruct
six_tiles = record {
  tile_width = 0 ∷ 0 ∷ 0 ∷ 0 ∷ 0 ∷ 0 ∷ [];
  tile_height = 0 ∷ 0 ∷ 0 ∷ 0 ∷ 0 ∷ 0 ∷ [];
  ctu_num_x = 0 ∷ 0 ∷ 0 ∷ 0 ∷ 0 ∷ 0 ∷ [];
  ctu_num_y = 0 ∷ 0 ∷ 0 ∷ 0 ∷ 0 ∷ 0 ∷ [];
  max_width = 0;
  max_height = 0;
}

abbrev tiles_of_frame : TileStruct
tiles_of_frame = set_tile_struct 416 240 3 2 six_tiles

set_tile_struct-begins_example :
    (get_or tiles_of_frame.ctu_num_x 4 0 ≡ 4)
    × (get_or tiles_of_frame.ctu_num_x 4 0 + get_or tiles_of_frame.tile_width 4 0 ≡ 8)
    × (get_or tiles_of_frame.ctu_num_y 4 0 ≡ 3)
    × (get_or tiles_of_frame.ctu_num_y 4 0 + get_or tiles_of_frame.tile_height 4 0 ≡ 7)
set_tile_struct-begins_example =
    set_tile_struct-begins 416 240 3 2 1 1 six_tiles
      (record { widths = refl; heights = refl; xs = refl; ys = refl }) (omega arith) (omega arith)
      (omega arith) (omega arith)
