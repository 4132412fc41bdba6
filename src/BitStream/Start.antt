-- ===== src/BitStream/Start.antt =====
-- The first word of a new buffer of src/BitStreamHandler.cpp, where it is written as one code of 32 bits.
use ces.Prelude.{
  ℕ, ◌+◌, ◌*◌, ◌/◌, ◌%◌, ◌^◌, ◌<◌, ◌≡◌, refl, List, [], ◌∷◌, true, false, ok, arith, lt→ltb, bit_or,
  bit_or_fields,
}
use ces.BitStream.{Stream, init_word_level, put_code, spill, flush_bytes, flush_byte}
use ces.BitStream.Payload.{Holds}

-- The bytes of three zeros and ones at the start, and a fourth byte.
abbrev pub short_start : ℕ → List ℕ
short_start first = first ∷ 1 ∷ 0 ∷ 0 ∷ []

-- Behind InitBitStreamWordLevel(true), a start code of three bytes and one byte more stand alone in a buffer with room
-- for more than four, and the payload starts empty.
pub put_short_start-Holds :
    (first : ℕ) (s : Stream)
    → first < 256
    → 4 < s.alloc_bytes
    → (t : Stream) × (put_code (256 + first) 32 false (init_word_level true s) ≡ ok t)
      × (t.written ≡ short_start first)
      × (t.alloc_bytes ≡ s.alloc_bytes)
      × Holds (short_start first) true t 0 0
unfolding init_word_level put_code spill flush_bytes flush_byte
put_short_start-Holds first s small room = (
  started,
  ran,
  refl,
  refl,
  record {
    valid = record {
      loc_pos = omega arith;
      loc_le = omega arith;
      cached = 0;
      cached_fits = omega arith;
      word_eq = refl;
    };
    words = [];
    all_words = tt;
    in_buffer = refl;
    bits = refl;
    number = refl;
  },
)
  where
    started : Stream
    started = record {
      curr_word = 0;
      bit_loc = 32;
      alloc_bytes = s.alloc_bytes;
      written = short_start first;
      bytes_per_frame = 4;
      bytes_rbsp = 4;
    }

    word : bit_or 0 ((256 + first) / 2 ^ 0) ≡ 256 + first
    word =
        let none : (256 + first) / 2 ^ 0 ≡ 256 + first = omega arith in
        rw none (omega (arith, bit_or_fields 32 0 (256 + first) (omega arith)))

    b₀ : (256 + first) / 2 ^ 24 % 256 ≡ 0
    b₀ = omega arith

    b₁ : (256 + first) * 2 ^ 8 % 2 ^ 32 / 2 ^ 24 % 256 ≡ 0
    b₁ = omega arith

    b₂ : (256 + first) * 2 ^ 8 % 2 ^ 32 * 2 ^ 8 % 2 ^ 32 / 2 ^ 24 % 256 ≡ 1
    b₂ = omega arith

    b₃ : (256 + first) * 2 ^ 8 % 2 ^ 32 * 2 ^ 8 % 2 ^ 32 * 2 ^ 8 % 2 ^ 32 / 2 ^ 24 % 256 ≡ first
    b₃ = omega arith

    ran : put_code (256 + first) 32 false (init_word_level true s) ≡ ok started
    ran = rw (word, b₀, b₁, b₂, b₃, lt→ltb 4 s.alloc_bytes room) refl
