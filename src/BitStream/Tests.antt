-- ===== src/BitStream/Tests.antt =====
-- Runs of the bitstream handler, and the theorems at concrete inputs.
use ces.Prelude.{
  ℕ, ◌+◌, ◌*◌, ◌%◌, ◌^◌, ◌≤◌, ◌<◌, ◌≡◌, refl, List, [], ◌∷◌, ◌++◌, true, some, ok, arith, ◌==◌,
  if◌then◌else◌, bits, bytes_of, length,
}
use ces.Prelude.Int.{negsuc}
use ces.Macros.{log2}
use ces.Macros.Log2.{IsTop, log2_bounds}
use ces.BitStream.{
  Stream, fresh, put_code, put_start_code, put_uv, code_of_signed, init_word_level, spill,
  fix_zero_termination, behind, flush_byte, flush_bytes, flush_rem_bytes, write_rbsp_trailing_bits,
}
use ces.BitStream.Payload.{Holds, put_code-Holds, put_code-total}
use ces.BitStream.Emulation.{read_nal, NoStartCode, escape, read_nal-escape}
use ces.BitStream.Reader.{read_ue}
use ces.BitStream.Golomb.{put_uv-read_ue, signed_of_code, signed_of_code-code_of_signed}
use ces.BitStream.Finish.{
  start_code, put_start_code-Holds, trailing_bits-Holds, flush_rem_bytes-read_nal,
}
use ces.BitStream.Limits.{put_code_past_end, fix_zero_termination_lem}

-- Behind the start code, in a buffer of 100 bytes.
abbrev started : Stream
started = record {
  curr_word = 0;
  bit_loc = 32;
  alloc_bytes = 100;
  written = start_code;
  bytes_per_frame = 4;
  bytes_rbsp = 4;
}

started-Holds : Holds start_code true started 0 0
started-Holds = record {
  valid = record {
    loc_pos = omega arith;
    loc_le = omega arith;
    cached = 0;
    cached_fits = omega arith;
    word_eq = refl;
  };
  words = [];
  all_words = tt;
  in_buffer = refl;
  bits = refl;
  number = refl;
}

start_code_run : put_start_code (init_word_level true (fresh 100)) ≡ ok started
unfolding put_start_code init_word_level fresh put_code spill flush_bytes flush_byte
start_code_run = refl

-- 00 00 00 00 as payload: a byte 3 goes before the third byte.
escaped_run : flush_bytes 4 0 true start_code ≡ 0 ∷ 0 ∷ 3 ∷ 0 ∷ 0 ∷ start_code
unfolding flush_bytes flush_byte
escaped_run = refl

log2_run : (log2 1 ≡ 1) × (log2 31 ≡ 5) × (log2 32 ≡ 6) × (log2 0 ≡ 0)
unfolding log2
log2_run = (refl, refl, refl, refl)

abbrev five : Stream
five = record started { bit_loc = 24; curr_word = 0x0500_0000 }

five_run : put_code 5 8 true started ≡ ok five
unfolding put_code
five_run = refl

five-Holds : Holds start_code true five 8 5
five-Holds = record {
  valid = record {
    loc_pos = omega arith;
    loc_le = omega arith;
    cached = 5;
    cached_fits = omega arith;
    word_eq = refl;
  };
  words = [];
  all_words = tt;
  in_buffer = refl;
  bits = refl;
  number = refl;
}

put_code-Holds_example : Holds start_code true five (0 + 8) (0 * 2 ^ 8 + 5)
unfolding put_code
put_code-Holds_example = put_code-Holds 5 8 started-Holds (omega arith) (omega arith) refl

put_code-total_example :
    (t : Stream) × (put_code 5 8 true started ≡ ok t)
    × (length t.written ≤ 12)
    × (t.alloc_bytes ≡ 100)
put_code-total_example = put_code-total 5 8 true started (omega arith)

put_uv-read_ue_example :
    (t : Stream) × (m w : ℕ) × (put_uv 6 five ≡ ok t)
    × Holds start_code true t (8 + m) w
    × (bits (8 + m) w ≡ bits 8 5 ++ bits m (6 + 1))
    × (read_ue (bits m (6 + 1) ++ 1 ∷ []) ≡ some (6, 1 ∷ []))
put_uv-read_ue_example = put_uv-read_ue 6 (1 ∷ []) five-Holds (omega arith) (omega arith)

signed_of_code-code_of_signed_example :
    (code_of_signed (negsuc 4) + 1 < 2 ^ 32)
    × (signed_of_code (code_of_signed (negsuc 4)) ≡ negsuc 4)
signed_of_code-code_of_signed_example =
    signed_of_code-code_of_signed (negsuc 4) (omega arith) (omega arith)

log2_bounds_example : (p : ℕ) × (log2 100 ≡ p + 1) × IsTop 100 p
log2_bounds_example = log2_bounds 100 (omega arith) (omega arith)

read_nal-escape_example :
    ((read_nal (escape (2 ∷ 0 ∷ 0 ∷ 7 ∷ []))).0 ≡ 2 ∷ 0 ∷ 0 ∷ 7 ∷ [])
    × NoStartCode (escape (2 ∷ 0 ∷ 0 ∷ 7 ∷ []))
read_nal-escape_example = read_nal-escape (2 ∷ 0 ∷ 0 ∷ 7 ∷ [])

put_start_code-Holds_example :
    (t : Stream) × (put_start_code (init_word_level true five) ≡ ok t)
    × (t.written ≡ start_code)
    × (t.alloc_bytes ≡ 100)
    × Holds start_code true t 0 0
put_start_code-Holds_example = put_start_code-Holds five (omega arith)

trailing_bits-Holds_example :
    (t : Stream) × (m : ℕ) × (write_rbsp_trailing_bits five ≡ ok t)
    × Holds start_code true t (8 + 1 + m) ((5 * 2 + 1) * 2 ^ m)
    × (m < 8)
    × ((8 + 1 + m) % 8 ≡ 0)
trailing_bits-Holds_example = trailing_bits-Holds five-Holds (omega arith)

flush_rem_bytes-read_nal_example :
    (t : Stream) × (nal : List ℕ) × (flush_rem_bytes five ≡ ok t)
    × (t.written ≡ nal ++ start_code)
    × ((read_nal nal).0 ≡ bytes_of 1 5)
    × NoStartCode nal
flush_rem_bytes-read_nal_example = flush_rem_bytes-read_nal five-Holds (omega arith) refl

-- A buffer of 9 bytes that is filled to its end.
abbrev nearly_full : Stream
nearly_full = record started { alloc_bytes = 9 }

put_code_past_end_example :
    (t : Stream) × (put_code 0x0101_0101 32 true nearly_full ≡ ok t)
    × (t.alloc_bytes < length t.written + 2)
unfolding flush_bytes flush_byte
put_code_past_end_example =
    put_code_past_end 0x0101_0101 32 true nearly_full (omega arith) (omega arith)

-- The buffer ends in a byte 0.
abbrev zero_ended : Stream
zero_ended = record started { written = 0 ∷ 7 ∷ start_code }

fix_zero_termination_lem_example :
    (fix_zero_termination zero_ended).written
    ≡ (if behind zero_ended.written 0 == 0 then 0 ∷ zero_ended.written else zero_ended.written)
fix_zero_termination_lem_example = fix_zero_termination_lem zero_ended
