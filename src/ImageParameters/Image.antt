-- ===== src/ImageParameters/Image.antt =====
-- The constructor and InitImgProp of src/ImageParameters.cpp, for the members that other parts read.
use ces.Prelude.{
  ℕ, ◌-◌, ◌*◌, ◌/◌, ◌%◌, ◌^◌, ◌==◌, ltb, if◌then◌else◌, replicate, Outcome, ok, ◌>>◌, make_sure,
  ◌≡◌, Bool-cases, inl, inr, ok-injective, ==_iff,
}
use ces.Prelude.{tile_mismatch}
use ces.Macros.{log2}
use ces.ImageParameters.{ctu_width}
use ces.ImageParameters.Tiles.{TileStruct, set_tile_struct}

pub record Image : Type 0 where
  pub frame_width : ℕ
  pub frame_height : ℕ
  pub frame_width_in_ctus : ℕ
  pub frame_height_in_ctus : ℕ
  pub frame_size_in_ctus : ℕ
  pub qp : ℕ
  pub max_cu_size : ℕ
  pub max_cu_depth : ℕ
  pub min_cu_size : ℕ
  pub quad_tree_tu_log2_min_size : ℕ
  pub quad_tree_tu_log2_max_size : ℕ
  pub quad_tree_tu_max_depth_inter : ℕ
  pub quad_tree_tu_max_depth_intra : ℕ
  pub max_num_ref_frames : ℕ
  pub bits_for_poc : ℕ
  pub max_merge_cands : ℕ
  pub frame_size_in_tiles : ℕ
  pub frame_width_in_tiles : ℕ
  pub frame_height_in_tiles : ℕ
  pub tile_coding_sync : ℕ
  pub tiles : TileStruct
  pub total_bytes_per_tile : ℕ

-- What InitImgProp takes of the InputParameters.
pub record Input : Type 0 where
  pub frame_width : ℕ
  pub frame_height : ℕ
  pub qp : ℕ
  pub tiles_per_frame : ℕ
  pub frame_width_in_tiles : ℕ
  pub frame_height_in_tiles : ℕ

-- BYTES_PER_CTU
abbrev pub bytes_per_ctu : ℕ
bytes_per_ctu = 800

abbrev pub no_tiles : ℕ → TileStruct
no_tiles n = record {
  tile_width = replicate n 0;
  tile_height = replicate n 0;
  ctu_num_x = replicate n 0;
  ctu_num_y = replicate n 0;
  max_width = 0;
  max_height = 0;
}

-- The constructor. What it leaves unset is 0 here, and InitImgProp sets it.
unfoldable pub new_image : Image
new_image =
    let max_cu_size = ctu_width in
    let max_cu_depth = log2 (max_cu_size - 1) - 2 in
    record {
      frame_width = 0;
      frame_height = 0;
      frame_width_in_ctus = 0;
      frame_height_in_ctus = 0;
      frame_size_in_ctus = 0;
      qp = 0;
      max_cu_size = max_cu_size;
      max_cu_depth = max_cu_depth;
      min_cu_size = ctu_width / 2 ^ (max_cu_depth - 1);
      quad_tree_tu_log2_min_size = 2;
      quad_tree_tu_log2_max_size = 5;
      quad_tree_tu_max_depth_inter = 1;
      quad_tree_tu_max_depth_intra = 1;
      max_num_ref_frames = 1;
      bits_for_poc = 8;
      max_merge_cands = 5;
      frame_size_in_tiles = 0;
      frame_width_in_tiles = 0;
      frame_height_in_tiles = 0;
      tile_coding_sync = 0;
      tiles = no_tiles 0;
      total_bytes_per_tile = 0;
    }

-- The assignments of InitImgProp.
unfoldable pub set_properties : Input → Image → Image
set_properties p im =
    let tiles =
      set_tile_struct p.frame_width p.frame_height p.frame_width_in_tiles p.frame_height_in_tiles
        (no_tiles p.tiles_per_frame) in
    record im {
      frame_width = p.frame_width;
      frame_height = p.frame_height;
      frame_width_in_ctus = p.frame_width / ctu_width;
      frame_height_in_ctus = p.frame_height / ctu_width;
      frame_size_in_ctus = p.frame_width / ctu_width * (p.frame_height / ctu_width) % 2 ^ 32;
      qp = p.qp;
      frame_size_in_tiles = p.tiles_per_frame;
      frame_width_in_tiles = p.frame_width_in_tiles;
      frame_height_in_tiles = p.frame_height_in_tiles;
      tile_coding_sync = if ltb 1 p.tiles_per_frame then 1 else 0;
      tiles = tiles;
      total_bytes_per_tile = tiles.max_width * tiles.max_height * bytes_per_ctu % 2 ^ 32;
    }

-- InitImgProp, with its assertion.
unfoldable pub init_img_prop : Input → Image → Outcome Image
init_img_prop p im = do
  make_sure (p.frame_width_in_tiles * p.frame_height_in_tiles % 2 ^ 32 == p.tiles_per_frame)
      tile_mismatch
  ok (set_properties p im)

-- If the assertion holds, the tiles are as many as there are places for them in the rows and columns.
pub init_img_prop_lem :
    (p : Input) (im : Image) {im' : Image}
    → init_img_prop p im ≡ ok im'
    → (set_properties p im ≡ im')
      × (p.frame_width_in_tiles * p.frame_height_in_tiles % 2 ^ 32 ≡ p.tiles_per_frame)
unfolding init_img_prop
init_img_prop_lem p im h =
    elim (Bool-cases
      (p.frame_width_in_tiles * p.frame_height_in_tiles % 2 ^ 32 == p.tiles_per_frame)) [
        | inl e ↦ (ok-injective (rw e at h), (==_iff _ _).0 e)
        | inr e ↦ cc (rw e at h)
      ]
