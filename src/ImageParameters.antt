-- ===== src/ImageParameters.antt =====
-- ImageParameters of src/ImageParameters.cpp: the places of the CTUs in a frame, and the size of a CU.
pub mod Ctu
pub mod Tiles
pub mod Image
mod Tests
use ces.Prelude.{
  ℕ, zero, suc, ◌+◌, ◌*◌, ◌/◌, ◌%◌, ◌^◌, Bool, ◌&&◌, ltb, leb, if◌then◌else◌, Outcome, ok, ◌>>=◌,
  ◌>>◌, make_sure, bad_size,
}

-- CTU_WIDTH and CTU_HEIGHT
abbrev pub ctu_width : ℕ
ctu_width = 32

-- GetCTUStartPel: x and y of a CTU, where a row of the frame has `frame_width_in_ctus` of them.
unfoldable pub get_ctu_start_pel : ℕ → ℕ → ℕ × ℕ
get_ctu_start_pel frame_width_in_ctus ctu_num = (
  ctu_num % frame_width_in_ctus * ctu_width % 2 ^ 32,
  ctu_num / frame_width_in_ctus * ctu_width % 2 ^ 32,
)

-- GetCTUNum
pub get_ctu_num : ℕ → ℕ → ℕ → ℕ
get_ctu_num frame_width_in_ctus pel_x pel_y =
    (pel_y / ctu_width * frame_width_in_ctus + pel_x / ctu_width) % 2 ^ 32

-- The loop of GetLog2FromCUSize, with fuel: each round halves the size.
pub size_loop : ℕ → ℕ → ℕ → ℕ
size_loop zero size log2_size = log2_size
size_loop (suc fuel) size log2_size =
    let rest = size_loop fuel (size / 2) (log2_size + 1) in if ltb 0 size then rest else log2_size

-- GetLog2FromCUSize. A size of at most 32 is halved six times.
pub get_log2_from_cu_size : ℕ → Outcome ℕ
get_log2_from_cu_size size = do
  make_sure (leb 4 size && leb size ctu_width) bad_size
  ok (size_loop 6 size 0)
