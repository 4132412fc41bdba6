-- ===== src/H265SliceCompressor.antt =====
-- GenTileBoundingPixels of src/H265SliceCompressor.cpp: the samples at which the tiles of a frame start and end.
pub mod Bounds
mod Tests
use ces.Prelude.{
  ℕ, ◌+◌, ◌-◌, ◌*◌, ◌%◌, ◌^◌, List, ltb, get_or, set, for_range, Outcome, ok, ◌>>=◌, ◌>>◌,
  make_sure, narrow_tile, low_tile,
}
use ces.ImageParameters.{get_ctu_start_pel}
use ces.ImageParameters.Tiles.{TileStruct}

-- m_pcTileStartCTUPel and m_pcTileEndCTUPel: x and y for each tile.
pub record TileBounds : Type 0 where
  pub start_pel : List (ℕ × ℕ)
  pub end_pel : List (ℕ × ℕ)

-- uiStartCTUNumForTile
pub start_ctu_num : ℕ → TileStruct → ℕ → ℕ
start_ctu_num frame_width_in_ctus t at =
    (get_or t.ctu_num_x at 0 + get_or t.ctu_num_y at 0 * frame_width_in_ctus) % 2 ^ 32

-- uiEndCTUNumForTile: the last CTU of the tile. The subtractions of 1 wrap around.
pub end_ctu_num : ℕ → TileStruct → ℕ → ℕ
end_ctu_num frame_width_in_ctus t at =
    let last_column = (get_or t.tile_width at 0 + 2 ^ 32 - 1) % 2 ^ 32 in
    let last_row = (get_or t.tile_height at 0 + 2 ^ 32 - 1) % 2 ^ 32 in
    (start_ctu_num frame_width_in_ctus t at + last_column + last_row * frame_width_in_ctus) % 2 ^ 32

-- The body of the loops, for the tile in row `i` and column `j`.
pub set_tile_bounds : ℕ → ℕ → TileStruct → ℕ → ℕ → TileBounds → Outcome TileBounds
set_tile_bounds frame_width_in_ctus frame_width_in_tiles t i j b =
    let at = i * frame_width_in_tiles + j in
    let start = get_ctu_start_pel frame_width_in_ctus (start_ctu_num frame_width_in_ctus t at) in
    let last = get_ctu_start_pel frame_width_in_ctus (end_ctu_num frame_width_in_ctus t at) in
    make_sure (ltb start.0 last.0) narrow_tile
    >> (make_sure (ltb start.1 last.1) low_tile
        >> ok (record { start_pel = set b.start_pel at start; end_pel = set b.end_pel at last }))

-- GenTileBoundingPixels
pub gen_tile_bounding_pixels : ℕ → ℕ → ℕ → TileStruct → TileBounds → Outcome TileBounds
gen_tile_bounding_pixels frame_width_in_ctus frame_width_in_tiles frame_height_in_tiles t b =
    for_range frame_height_in_tiles 0
      (λ i run.
        for_range frame_width_in_tiles 0
          (λ j run. run >>= set_tile_bounds frame_width_in_ctus frame_width_in_tiles t i j) run)
      (ok b)
