-- ===== src/ImageParameters/Tiles.antt =====
-- SetTileStruct of src/ImageParameters.cpp: how the frame is divided into tiles, in CTUs.
pub mod Partition
use ces.Prelude.{
  ℕ, zero, suc, ◌+◌, ◌-◌, ◌*◌, ◌/◌, ◌%◌, ◌^◌, List, ltb, if◌then◌else◌, get_or, set, for_range,
}
use ces.ImageParameters.{ctu_width}

-- The arrays of a frame's tiles, in rows of tiles, and the greatest width and height.
pub record TileStruct : Type 0 where
  pub tile_width : List ℕ
  pub tile_height : List ℕ
  pub ctu_num_x : List ℕ
  pub ctu_num_y : List ℕ
  pub max_width : ℕ
  pub max_height : ℕ

-- (k+1)*size/parts - k*size/parts in 32 bits.
pub part_size : ℕ → ℕ → ℕ → ℕ
part_size size parts k =
    ((k + 1) * size % 2 ^ 32 / parts + 2 ^ 32 - k * size % 2 ^ 32 / parts) % 2 ^ 32

-- The bodies of the two loops that set the sizes.
pub set_width : ℕ → ℕ → ℕ → ℕ → TileStruct → TileStruct
set_width frame_width_in_ctus frame_width_in_tiles i j t =
    let size = part_size frame_width_in_ctus frame_width_in_tiles j in
    record t {
      tile_width = set t.tile_width (i * frame_width_in_tiles + j) size;
      max_width = if ltb t.max_width size then size else t.max_width;
    }

pub set_height : ℕ → ℕ → ℕ → ℕ → ℕ → TileStruct → TileStruct
set_height frame_height_in_ctus frame_width_in_tiles frame_height_in_tiles i j t =
    let size = part_size frame_height_in_ctus frame_height_in_tiles j in
    record t {
      tile_height = set t.tile_height (i + j * frame_width_in_tiles) size;
      max_height = if ltb t.max_height size then size else t.max_height;
    }

-- The inner loops of the boundaries: the sum of `k` sizes, from `at` on in steps of `step`.
pub sum_sizes : List ℕ → ℕ → ℕ → ℕ → ℕ
sum_sizes sizes at step k =
    for_range k 0 (λ m total. (total + get_or sizes (at + m * step) 0) % 2 ^ 32) 0

-- The body of the loop that sets the boundaries.
pub set_bounds : ℕ → ℕ → ℕ → TileStruct → TileStruct
set_bounds frame_width_in_tiles i j t =
    let at = i * frame_width_in_tiles + j in
    record t {
      ctu_num_x = set t.ctu_num_x at (sum_sizes t.tile_width (i * frame_width_in_tiles) 1 j);
      ctu_num_y = set t.ctu_num_y at (sum_sizes t.tile_height j frame_width_in_tiles i);
    }

-- SetTileStruct
pub set_tile_struct : ℕ → ℕ → ℕ → ℕ → TileStruct → TileStruct
set_tile_struct frame_width frame_height frame_width_in_tiles frame_height_in_tiles t =
    let w = frame_width / ctu_width in
    let h = frame_height / ctu_width in
    let t₁ =
      for_range frame_height_in_tiles 0
        (λ i s. for_range frame_width_in_tiles 0 (set_width w frame_width_in_tiles i) s) t in
    let t₂ =
      for_range frame_width_in_tiles 0
        (λ i s.
          for_range frame_height_in_tiles 0
            (set_height h frame_width_in_tiles frame_height_in_tiles i) s)
        t₁ in
    for_range frame_height_in_tiles 0
      (λ i s. for_range frame_width_in_tiles 0 (set_bounds frame_width_in_tiles i) s) t₂
