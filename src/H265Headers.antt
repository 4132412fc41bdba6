-- ===== src/H265Headers.antt =====
-- H265Headers of src/H265Headers.cpp: the parameter sets, the slice header and the entry points, on a stream of
-- BitStreamHandler.
pub mod Reading
pub mod Nal
pub mod Sets
pub mod Slice
pub mod EntryPoints
mod Tests
use ces.Prelude.{
  ℕ, zero, suc, ◌+◌, ◌-◌, ◌*◌, ◌/◌, ◌%◌, ◌^◌, Bool, true, false, List, [], ◌∷◌, ◌++◌, ltb, ◌==◌,
  if◌then◌else◌, replicate, Outcome, ok, ◌>>=◌,
}
use ces.Prelude.Int.{ℤ, pos}
use ces.Macros.{log2}
use ces.ImageParameters.{ctu_width}
use ces.ImageParameters.Image.{Image}
use ces.BitStream.{
  Stream, init_word_level, put_start_code, put_code, put_un, put_uv, put_sv,
  write_rbsp_trailing_bits, flush_rem_bytes,
}

-- A call of PutUNInBitstream, PutUVInBitstream or PutSVInBitstream.
pub data Element : Type 0 where
  fixed_bits : (code len : ℕ) → Element
  unsigned_golomb : (code : ℕ) → Element
  signed_golomb : (code : ℤ) → Element

pub put_element : Element → Stream → Outcome Stream
put_element (fixed_bits code len) s = put_un code len s
put_element (unsigned_golomb code) s = put_uv code s
put_element (signed_golomb code) s = put_sv code s

-- Such calls one after the other.
pub put_elements : List Element → Stream → Outcome Stream
put_elements [] s = ok s
put_elements (e ∷ es) s = do s' ← put_element e s; put_elements es s'

-- What the three parameter sets have in common: the start of a stream, the start code, the header of the NAL unit, the
-- elements, the trailing bits where there are such, and the flush.
unfoldable pub write_set : ℕ → List Element → Bool → Stream → Outcome Stream
write_set nal_header es trailing s = do
  s₁ ← put_start_code (init_word_level true s)
  s₂ ← put_code nal_header 16 true s₁
  s₃ ← put_elements es s₂
  s₄ ← if trailing then write_rbsp_trailing_bits s₃ else ok s₃
  flush_rem_bytes s₄

-- u32 subtraction.
abbrev pub minus32 : ℕ → ℕ → ℕ
minus32 a b = (a + 2 ^ 32 - b) % 2 ^ 32

-- The elements of WriteVPSInBitstream.
abbrev pub vps_elements : List Element
vps_elements =
    fixed_bits 0 3
    ∷ fixed_bits 0 5
    ∷ unsigned_golomb 0
    ∷ fixed_bits 0 1
    ∷ unsigned_golomb 1
    ∷ unsigned_golomb 0
    ∷ unsigned_golomb 0
    ∷ fixed_bits 0 1
    ∷ []

-- WriteVPSInBitstream, and GenVPSNALU, which calls it.
pub write_vps : Stream → Outcome Stream
write_vps s = write_set 0x3201 vps_elements false s

-- uiAMVPNum of WriteSPSInBitstream.
pub amvp_num : Image → ℕ
amvp_num im =
    let split_cu_size = ctu_width / 2 ^ im.max_cu_depth in
    if ltb 2 split_cu_size
    then (im.max_cu_depth + minus32 (log2 (split_cu_size - 1)) (log2 im.quad_tree_tu_log2_min_size))
      % 2 ^ 32
    else im.max_cu_depth

-- The elements of WriteSPSInBitstream.
pub sps_elements : Image → List Element
sps_elements im =
    let log2_min_cu_size = log2 (im.max_cu_size / 2 ^ (im.max_cu_depth - 1) - 1) in
    fixed_bits 0 3
    ∷ fixed_bits 0 5
    ∷ fixed_bits 0 16
    ∷ fixed_bits 0 8
    ∷ fixed_bits 0 32
    ∷ unsigned_golomb 0
    ∷ unsigned_golomb 0
    ∷ unsigned_golomb 1
    ∷ fixed_bits 0 3
    ∷ unsigned_golomb im.frame_width
    ∷ unsigned_golomb im.frame_height
    ∷ fixed_bits 0 1
    ∷ unsigned_golomb 0
    ∷ unsigned_golomb 0
    ∷ fixed_bits 0 1
    ∷ unsigned_golomb (minus32 im.bits_for_poc 4)
    ∷ unsigned_golomb 1
    ∷ unsigned_golomb 0
    ∷ unsigned_golomb 0
    ∷ fixed_bits 1 1
    ∷ fixed_bits 0 1
    ∷ unsigned_golomb (minus32 log2_min_cu_size 3)
    ∷ unsigned_golomb (minus32 im.max_cu_depth 1)
    ∷ unsigned_golomb (minus32 im.quad_tree_tu_log2_min_size 2)
    ∷ unsigned_golomb (minus32 im.quad_tree_tu_log2_max_size 2)
    ∷ unsigned_golomb (minus32 im.quad_tree_tu_max_depth_inter 1)
    ∷ unsigned_golomb (minus32 im.quad_tree_tu_max_depth_intra 1)
    ∷ fixed_bits 0 1
    ∷ fixed_bits 1 1
    ∷ fixed_bits 0 1
    ∷ fixed_bits 0 1
    ∷ unsigned_golomb 1
    ∷ fixed_bits 0 1
    ∷ unsigned_golomb 1
    ∷ unsigned_golomb 0
    ∷ unsigned_golomb 0
    ∷ fixed_bits 1 1
    ∷ fixed_bits 0 1
    ∷ fixed_bits 0 1
    ∷ (replicate (amvp_num im) (fixed_bits 1 1) ++ fixed_bits 0 1 ∷ [])

-- WriteSPSInBitstream, and GenSPSNALU, which calls it.
pub write_sps : Image → Stream → Outcome Stream
write_sps im s = write_set 0x3401 (sps_elements im) true s

-- The part of WritePPSInBitstream that stands there for tiles.
abbrev pub tile_elements : Image → List Element
tile_elements im =
    if im.tile_coding_sync == 1
    then unsigned_golomb (minus32 im.frame_width_in_tiles 1)
      ∷ unsigned_golomb (minus32 im.frame_height_in_tiles 1)
      ∷ fixed_bits 1 1
      ∷ fixed_bits 0 1
      ∷ []
    else []

-- The elements of WritePPSInBitstream.
pub pps_elements : Image → List Element
pps_elements im =
    (unsigned_golomb 0
      ∷ unsigned_golomb 0
      ∷ fixed_bits 0 1
      ∷ fixed_bits 1 1
      ∷ unsigned_golomb (minus32 im.max_num_ref_frames 1)
      ∷ unsigned_golomb 0
      ∷ signed_golomb (pos 0)
      ∷ fixed_bits 0 1
      ∷ fixed_bits 0 1
      ∷ fixed_bits 0 1
      ∷ signed_golomb (pos 0)
      ∷ signed_golomb (pos 0)
      ∷ fixed_bits 0 1
      ∷ fixed_bits 0 1
      ∷ fixed_bits 0 1
      ∷ fixed_bits 0 1
      ∷ fixed_bits 0 1
      ∷ fixed_bits 0 1
      ∷ fixed_bits im.tile_coding_sync 2
      ∷ [])
    ++ (tile_elements im
        ++ (fixed_bits 0 1
            ∷ fixed_bits 1 1
            ∷ fixed_bits 0 1
            ∷ fixed_bits 0 1
            ∷ unsigned_golomb 0
            ∷ fixed_bits 0 1
            ∷ fixed_bits 0 1
            ∷ []))

-- WritePPSInBitstream, and GenPPSNALU, which calls it.
pub write_pps : Image → Stream → Outcome Stream
write_pps im s = write_set 0x3601 (pps_elements im) true s
