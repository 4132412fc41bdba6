-- ===== src/H265Headers/Slice.antt =====
-- WriteSliceHdrInBitstream of src/H265Headers.cpp.
pub mod Read
pub mod Body
pub mod Whole
use ces.Prelude.{
  ℕ, ◌+◌, ◌-◌, ◌%◌, ◌^◌, Bool, true, false, ◌&&◌, ◌||◌, not, List, [], ◌∷◌, ◌++◌, ltb, ◌==◌,
  if◌then◌else◌, Outcome, ok, ◌>>=◌,
}
use ces.Prelude.Int.{ℤ, pos, negsuc}
use ces.ImageParameters.Image.{Image}
use ces.BitStream.{Stream, put_code, write_rbsp_trailing_bits}
use ces.H265Headers.{Element, fixed_bits, unsigned_golomb, signed_golomb, put_elements, minus32}

-- A u32 that is passed as an i32.
abbrev pub to_i32 : ℕ → ℤ
to_i32 v = if ltb v (2 ^ 31) then pos v else negsuc (2 ^ 32 - 1 - v)

-- I_SLICE of eSliceType: P_SLICE is 0 and B_SLICE is 1.
abbrev pub i_slice : ℕ
i_slice = 2

-- The first slice of a sequence.
abbrev pub is_idr : ℕ → ℕ → Bool
is_idr slice_type slice_num = (slice_type == i_slice) && (slice_num == 0)

-- The first 32 bits: a start code of three bytes and the first byte of the NAL unit's header.
pub slice_start : ℕ → ℕ → ℕ
slice_start slice_type slice_num =
    if slice_type == i_slice
    then (if slice_num == 0 then 0x0000_0110 else 0x0000_0102)
    else 0x0000_0102

-- The elements of WriteSliceHdrInBitstream, for a picture order count of fewer than 32 bits: the shift of the source by 32
-- is undefined.
unfoldable pub slice_elements : Image → ℕ → ℕ → List Element
slice_elements im slice_type slice_num =
    fixed_bits 1 1
    ∷ ((if is_idr slice_type slice_num then fixed_bits 0 1 ∷ [] else [])
        ++ ((unsigned_golomb 0 ∷ unsigned_golomb slice_type ∷ fixed_bits 0 1 ∷ [])
            ++ ((if is_idr slice_type slice_num
                  then []
                  else (fixed_bits (slice_num % 2 ^ im.bits_for_poc) im.bits_for_poc
                      ∷ fixed_bits 1 1
                      ∷ unsigned_golomb 0
                      ∷ []))
                ++ ((if slice_type == i_slice
                      then []
                      else (fixed_bits 1 1
                          ∷ unsigned_golomb (minus32 im.max_num_ref_frames 1)
                          ∷ fixed_bits 0 1
                          ∷ []))
                    ++ (signed_golomb (to_i32 (minus32 im.qp 26))
                        ∷ fixed_bits 1 1
                        ∷ unsigned_golomb 0
                        ∷ [])))))

-- WriteSliceHdrInBitstream, and GenSliceHeader, which calls it.
pub write_slice_hdr : Image → ℕ → ℕ → Stream → Outcome Stream
write_slice_hdr im slice_type slice_num s = do
  s₁ ← put_code (slice_start slice_type slice_num) 32 false s
  s₂ ← put_code 1 8 true s₁
  s₃ ← put_elements (slice_elements im slice_type slice_num) s₂
  if im.frame_size_in_tiles == 1 then write_rbsp_trailing_bits s₃ else ok s₃
