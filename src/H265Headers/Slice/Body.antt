-- ===== src/H265Headers/Slice/Body.antt =====
-- The start and the elements of a slice header of src/H265Headers.cpp, on a new buffer.
use ces.Prelude.{
  ℕ, ◌+◌, ◌*◌, ◌≤◌, ◌<◌, ◌≡◌, refl, ap, ◌∙◌, Bool, true, [], ◌++◌, ok, length, arith, bits, ◌==◌,
  if◌then◌else◌,
}
use ces.ImageParameters.Image.{Image}
use ces.BitStream.{Stream, init_word_level, write_rbsp_trailing_bits}
use ces.BitStream.Start.{short_start, put_short_start-Holds}
use ces.H265Headers.Reading.{AllFit, all_bits}
use ces.H265Headers.Nal.{Carries, put_code-Appended, put_elements-Appended, put_elements-within}
use ces.H265Headers.Slice.{is_idr, slice_start, slice_elements, write_slice_hdr}

-- The first byte of the header of the NAL unit: an IDR picture or a slice of another picture.
abbrev pub nal_first : Bool → ℕ
nal_first idr = if idr then 0x10 else 0x02

slice_start-first :
    (slice_type slice_num : ℕ)
    → slice_start slice_type slice_num ≡ 256 + nal_first (is_idr slice_type slice_num)
unfolding slice_start
slice_start-first slice_type slice_num = ground arith

-- The header up to the last element.
pub slice_body :
    (im : Image) (slice_type slice_num : ℕ) (s : Stream)
    → AllFit (slice_elements im slice_type slice_num)
    → length (slice_elements im slice_type slice_num) ≤ 14
    → 236 < s.alloc_bytes
    → let base = short_start (nal_first (is_idr slice_type slice_num)) in
      (t : Stream) × (write_slice_hdr im slice_type slice_num (init_word_level true s)
        ≡ (if im.frame_size_in_tiles == 1 then write_rbsp_trailing_bits t else ok t))
      × Carries base t (bits 8 1 ++ all_bits (slice_elements im slice_type slice_num))
      × (length t.written ≤ 236)
      × (t.alloc_bytes ≡ s.alloc_bytes)
unfolding write_slice_hdr
slice_body im slice_type slice_num s fits few room =
    let first = nal_first (is_idr slice_type slice_num) in
    let small : first < 256 = ground arith in
    let (a, e, placed, kept, held) = put_short_start-Holds first s small (omega arith) in
    let four : length a.written ≡ 4 = ap length placed in
    let empty : Carries (short_start first) a [] = record {
      count = 0;
      number = 0;
      holds = held;
      same = refl;
    } in
    let b = put_code-Appended 1 8 empty (omega arith) (omega arith) (omega arith) in
    let c =
      put_elements-Appended (slice_elements im slice_type slice_num) b.carries fits
        (omega (arith, b.grown, b.kept)) in
    (
      c.after,
      rw (slice_start-first slice_type slice_num, e, b.returned, c.returned),
      c.carries,
      omega (arith, b.grown, c.grown),
      c.kept ∙ b.kept ∙ kept,
    )

-- The same with room for the bits of the elements.
pub slice_body-within :
    (im : Image) (slice_type slice_num : ℕ) (s : Stream)
    → AllFit (slice_elements im slice_type slice_num)
    → length (all_bits (slice_elements im slice_type slice_num)) + 88 < 4 * s.alloc_bytes
    → let base = short_start (nal_first (is_idr slice_type slice_num)) in
      (t : Stream) × (write_slice_hdr im slice_type slice_num (init_word_level true s)
        ≡ (if im.frame_size_in_tiles == 1 then write_rbsp_trailing_bits t else ok t))
      × Carries base t (bits 8 1 ++ all_bits (slice_elements im slice_type slice_num))
      × (t.alloc_bytes ≡ s.alloc_bytes)
unfolding write_slice_hdr
slice_body-within im slice_type slice_num s fits room =
    let first = nal_first (is_idr slice_type slice_num) in
    let small : first < 256 = ground arith in
    let (a, e, placed, kept, held) = put_short_start-Holds first s small (omega arith) in
    let four : length a.written ≡ 4 = ap length placed in
    let empty : Carries (short_start first) a [] = record {
      count = 0;
      number = 0;
      holds = held;
      same = refl;
    } in
    let b = put_code-Appended 1 8 empty (omega arith) (omega arith) (omega arith) in
    let (t, ran, carried, kept') =
      put_elements-within (slice_elements im slice_type slice_num) b.carries fits
        (omega (arith, b.kept)) in
    (
      t,
      rw (slice_start-first slice_type slice_num, e, b.returned, ran),
      carried,
      kept' ∙ b.kept ∙ kept,
    )
