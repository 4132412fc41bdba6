-- ===== src/H265Headers/Tests.antt =====
-- Runs of the header writers, and the theorems at concrete inputs.
use ces.Prelude.{
  ℕ, ◌+◌, ◌*◌, ◌%◌, ◌^◌, ◌≤◌, ◌<◌, ◌≡◌, ◌≢◌, ◌⊎◌, refl, List, [], ◌∷◌, ◌++◌, some, ok, fault,
  wide_offset, length, replicate, arith, true, false, AllBelow, ◌>>=◌,
}
use ces.Prelude.Int.{pos}
use ces.ImageParameters.Image.{Image, Input, new_image, set_properties, init_img_prop}
use ces.BitStream.{Stream, init_word_level}
use ces.BitStream.Start.{short_start}
use ces.BitStream.Finish.{start_code}
use ces.BitStream.Emulation.{read_nal, NoStartCode}
use ces.H265Headers.{write_vps, write_sps, write_pps}
use ces.H265Headers.Nal.{Carries}
use ces.H265Headers.Nal.Whole.{byte_bits}
use ces.H265Headers.Sets.{
  Wrote, vps_syntax, sps_syntax, sps_values, pps_syntax, pps_values, write_vps-read, write_sps-read,
  write_pps-read,
}
use ces.H265Headers.EntryPoints.{max_offset_from, write_tiles_entry_points}
use ces.H265Headers.EntryPoints.Bits.{write_tiles_entry_points_wide}
use ces.Macros.{log2}
use ces.BitStream.{code_of_signed}
use ces.H265Headers.Reading.{all_bits, ue_bits}
use ces.H265Headers.Slice.{write_slice_hdr, slice_elements}
use ces.H265Headers.Slice.Read.{InRange, slice_syntax, slice_values}
use ces.H265Headers.Slice.Whole.{
  read_slice, entry_syntax, entry_values, write_slice_hdr-read,
  write_slice_hdr-write_tiles_entry_points,
}

-- 64 by 64 samples, with one tile and with four.
abbrev plain : Input
plain = record {
  frame_width = 64;
  frame_height = 64;
  qp = 30;
  tiles_per_frame = 1;
  frame_width_in_tiles = 1;
  frame_height_in_tiles = 1;
}

abbrev tiled : Input
tiled = record plain { tiles_per_frame = 4; frame_width_in_tiles = 2; frame_height_in_tiles = 2 }

abbrev plain_image : Image
plain_image = set_properties plain new_image

abbrev tiled_image : Image
tiled_image = set_properties tiled new_image

abbrev room : Stream
room = record {
  curr_word = 0;
  bit_loc = 32;
  alloc_bytes = 1000;
  written = [];
  bytes_per_frame = 0;
  bytes_rbsp = 0;
}

ready : init_img_prop plain new_image ≡ ok plain_image
unfolding init_img_prop
ready = refl

ready_tiles : init_img_prop tiled new_image ≡ ok tiled_image
unfolding init_img_prop
ready_tiles = refl

write_vps-read_example :
    Wrote
      (write_vps room)
      0x3201
      vps_syntax
      (pos 0 ∷ pos 0 ∷ pos 0 ∷ pos 0 ∷ pos 1 ∷ pos 0 ∷ pos 0 ∷ pos 0 ∷ [])
      []
write_vps-read_example = write_vps-read room (omega arith)

write_sps-read_example :
    (m : ℕ) × (m < 8)
    × Wrote (write_sps plain_image room) 0x3401 sps_syntax (sps_values plain) (1 ∷ replicate m 0)
write_sps-read_example =
    write_sps-read plain plain_image room ready (omega arith) (omega arith) (omega arith)

write_pps-read_example :
    (m : ℕ) × (m < 8)
    × Wrote
        (write_pps tiled_image room)
        0x3601
        (pps_syntax true)
        (pps_values true tiled)
        (1 ∷ replicate m 0)
write_pps-read_example =
    write_pps-read tiled tiled_image room ready_tiles (omega arith) (omega arith) (omega arith)
      (omega arith) (omega arith)

plain-InRange : InRange plain_image
unfolding set_properties new_image
plain-InRange = omega arith

tiled-InRange : InRange tiled_image
unfolding set_properties new_image
tiled-InRange = omega arith

one_tile : plain_image.frame_size_in_tiles ≡ 1
unfolding set_properties
one_tile = refl

four_tiles : tiled_image.frame_size_in_tiles ≢ 1
unfolding set_properties
four_tiles = omega arith

-- The third slice of a sequence, an intra slice.
write_slice_hdr-read_example :
    (t : Stream) × (payload : List ℕ) × (m : ℕ) × (write_slice_hdr plain_image 2 2
        (init_word_level true room)
      ≡ ok t)
    × Carries (short_start 2) t payload
    × (length payload % 8 ≡ 0)
    × (m < 8)
    × (read_slice (slice_syntax true false plain_image.bits_for_poc) payload
        ≡ some (1, slice_values true false plain_image 2 2, 1 ∷ replicate m 0))
write_slice_hdr-read_example =
    write_slice_hdr-read plain_image 2 2 room plain-InRange (omega arith) one_tile (omega arith)

abbrev offsets : List ℕ
offsets = 300 ∷ 20 ∷ 1025 ∷ []

-- The buffer that H265SliceCompressor has for the slice header of a frame with several tiles.
abbrev header_room : Stream
header_room = record room { alloc_bytes = 50 }

-- Offsets below 2 ^ 16, in a later slice.
enough_room :
    length (all_bits (slice_elements tiled_image 2 7))
      + length (ue_bits (length offsets))
      + length offsets * (15 + 1)
      + 97
    < 4 * 50
unfolding slice_elements set_properties new_image log2 code_of_signed
enough_room = omega arith

write_slice_hdr-write_tiles_entry_points_example :
    (k : ℕ) × (m : ℕ) × (t : Stream) × (nal : List ℕ) × ((write_slice_hdr tiled_image 2 7
          (init_word_level true header_room)
        >>= write_tiles_entry_points offsets)
      ≡ ok t)
    × (t.written ≡ nal ++ short_start 0x02)
    × NoStartCode nal
    × (k ≤ 15)
    × AllBelow (2 ^ (k + 1)) offsets
    × ((k ≡ 0) ⊎ (2 ^ k ≤ max_offset_from 0 offsets))
    × (m < 8)
    × (read_slice
          (slice_syntax true false tiled_image.bits_for_poc ++ entry_syntax offsets k)
          (byte_bits (read_nal nal).0)
        ≡ some (
          1,
          slice_values true false tiled_image 2 7 ++ entry_values offsets k,
          1 ∷ replicate m 0,
        ))
write_slice_hdr-write_tiles_entry_points_example =
    write_slice_hdr-write_tiles_entry_points tiled_image 2 7 offsets 15 header_room tiled-InRange
      (omega arith) four_tiles (omega arith) (omega arith) (omega arith) enough_room

-- A new stream with a start code, for the payload that is empty.
abbrev started : Stream
started = record {
  curr_word = 0;
  bit_loc = 32;
  alloc_bytes = 1000;
  written = start_code;
  bytes_per_frame = 4;
  bytes_rbsp = 4;
}

started-Carries : Carries start_code started []
started-Carries = record {
  count = 0;
  number = 0;
  holds = record {
    valid = record {
      loc_pos = omega arith;
      loc_le = omega arith;
      cached = 0;
      cached_fits = omega arith;
      word_eq = refl;
    };
    words = [];
    all_words = tt;
    in_buffer = refl;
    bits = refl;
    number = refl;
  };
  same = refl;
}

wide : 2 ^ 31 ≤ max_offset_from 0 (5 ∷ 2 ^ 31 ∷ [])
unfolding max_offset_from
wide = omega arith

write_tiles_entry_points_wide_example :
    write_tiles_entry_points (5 ∷ 2 ^ 31 ∷ []) started ≡ fault wide_offset
write_tiles_entry_points_wide_example =
    write_tiles_entry_points_wide (5 ∷ 2 ^ 31 ∷ []) started-Carries wide (omega arith) (omega arith)
