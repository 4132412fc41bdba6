-- ===== src/BitStream.antt =====
-- BitStreamHandler of src/BitStreamHandler.cpp: a 32-bit word cache in front of a byte buffer.
pub mod Payload
pub mod Emulation
pub mod Finish
pub mod Start
pub mod Limits
mod Tests
pub mod Reader
pub mod Golomb
use ces.Prelude.{
  ℕ, zero, suc, ◌+◌, ◌-◌, ◌*◌, ◌/◌, ◌%◌, ◌^◌, bit_and, bit_or, Bool, true, false, ◌&&◌, List, [],
  ◌∷◌, ltb, leb, ◌==◌, if◌then◌else◌, length, get_or, Outcome, ok, fault, Fault, ◌>>=◌, ◌>>◌,
  make_sure, arith,
}
use ces.Prelude.{misplaced_start, overflow, bad_length, negative_length, not_byte_aligned}
use ces.Prelude.{wide_alignment}
use ces.Prelude.Int.{ℤ, pos, negsuc, ltb_ℤ}
use ces.Macros.{log2}

-- `m_iBitLocPtr` lies in 1 .. 32 between the calls. `written` holds the bytes from the start of
-- `m_pbRBSPBuffer` up to `m_pbCurrRBSPBuffer`, the last one first.
pub record Stream : Type 0 where
  pub curr_word : ℕ  -- u32
  pub bit_loc : ℕ  -- i32
  pub alloc_bytes : ℕ  -- u64
  pub written : List ℕ
  pub bytes_per_frame : ℕ  -- u64
  pub bytes_rbsp : ℕ  -- u64

-- The constructor. The buffer has two guard bytes 0xFF in front of the payload.
pub fresh : ℕ → Stream
fresh total = record {
  curr_word = 0;
  bit_loc = 32;
  alloc_bytes = total;
  written = [];
  bytes_per_frame = 0;
  bytes_rbsp = 0;
}

-- GetTotalBytesWritten
abbrev pub total_bytes_written : Stream → ℕ
total_bytes_written s = length s.written

-- ResetRBSPBufferSize leaves the word cache and `m_u64AllocBytes` as they are.
pub reset_rbsp_buffer_size : ℕ → Stream → Stream
reset_rbsp_buffer_size total s = record s { written = [] }

pub init_word_level : Bool → Stream → Stream
init_word_level is_new s =
    let s' = record s { curr_word = 0; bit_loc = 32; bytes_rbsp = 0 } in
    if is_new then record s' { written = []; bytes_per_frame = 0 } else s'

-- dst[-k-1]: below the start stand the guard bytes.
abbrev pub behind : List ℕ → ℕ → ℕ
behind out k = get_or out k 0xff

-- One round of the macro FLUSH_BITS.
unfoldable pub flush_byte : Bool → List ℕ → ℕ → List ℕ
flush_byte emu_prev out b =
    if emu_prev && (behind out 1 == 0 && (behind out 0 == 0 && leb b 3))
    then b ∷ 3 ∷ out
    else (b ∷ out)

-- FLUSH_BITS over `n` bytes, from the top of the word.
unfoldable pub flush_bytes : ℕ → ℕ → Bool → List ℕ → List ℕ
flush_bytes zero word emu_prev out = out
flush_bytes (suc n) word emu_prev out =
    flush_bytes n (word * 2 ^ 8 % 2 ^ 32) emu_prev (flush_byte emu_prev out (word / 2 ^ 24 % 256))

abbrev shl32 : ℕ → ℕ → ℕ
shl32 x k = x * 2 ^ k % 2 ^ 32

-- The counters after bytes were flushed.
abbrev count_bytes : Stream → Stream
count_bytes s = record s { bytes_per_frame = length s.written; bytes_rbsp = length s.written }

-- The branch of PutCodeInBitstream for a word that is full: flush it, and keep the rest of the
-- code, of `over` bits.
pub spill : ℕ → ℕ → Bool → Stream → Outcome Stream
spill code over emu_prev s = do
  let word = bit_or s.curr_word (code / 2 ^ over)
  let s' = count_bytes (record s { written = flush_bytes 4 word emu_prev s.written })
  make_sure (ltb s'.bytes_per_frame s'.alloc_bytes) overflow
  ok (record s' {
    bit_loc = 32 - over;
    curr_word = if over == 0 then 0 else shl32 code (32 - over);
  })

-- PutCodeInBitstream. The new location is `bit_loc - len`; where that is not positive, its
-- opposite is the number of bits that do not fit.
pub put_code : ℕ → ℕ → Bool → Stream → Outcome Stream
put_code code len emu_prev s =
    if ltb len s.bit_loc
    then ok (record s {
      bit_loc = s.bit_loc - len;
      curr_word = bit_or s.curr_word (shl32 code (s.bit_loc - len));
    })
    else spill code (len - s.bit_loc) emu_prev s

-- PutStartCodeWordLevel
pub put_start_code : Stream → Outcome Stream
put_start_code s = do
  make_sure (s.bit_loc == 32) misplaced_start
  s' ← put_code 1 32 false s
  ok (count_bytes s')

-- PutUNInBitstream, u(n)
unfoldable pub put_un : ℕ → ℕ → Stream → Outcome Stream
put_un code len s = do make_sure (ltb 0 len) bad_length; put_code code len true s

-- PutUVInBitstream, ue(v). `iLength` is -1 only where LOG2 is 0.
pub put_uv : ℕ → Stream → Outcome Stream
put_uv code s = do
  let loc_code = (code + 1) % 2 ^ 32
  make_sure (ltb 0 (log2 loc_code)) negative_length
  let len = log2 loc_code - 1
  s' ← put_code 0 len true s
  put_code loc_code (len + 1) true s'

-- The conversion of PutSVInBitstream from signed to unsigned. It stays within 32 bits for every
-- `i32` but the least one.
unfoldable pub code_of_signed : ℤ → ℕ
code_of_signed (pos zero) = 0
code_of_signed (pos (suc n)) = suc n * 2 - 1
code_of_signed (negsuc n) = suc n * 2

-- PutSVInBitstream, se(v)
unfoldable pub put_sv : ℤ → Stream → Outcome Stream
put_sv code s = put_uv (code_of_signed code) s

-- FlushRemBytes. The location of the cache stays where it was.
pub flush_rem_bytes : Stream → Outcome Stream
flush_rem_bytes s = do
  make_sure (bit_and s.bit_loc 7 == 0) not_byte_aligned
  let out = flush_bytes ((32 - s.bit_loc) / 2 ^ 3) s.curr_word true s.written
  let s' = count_bytes (record s { written = out })
  ok (record s' { curr_word = 0 })

-- WriteAlignZeroBits: (8 - (32 - loc)) & 7, in 32 bits.
pub write_align_zero_bits : Stream → Outcome Stream
write_align_zero_bits s = do
  let len = bit_and ((2 ^ 32 + 8 - (32 - s.bit_loc)) % 2 ^ 32) 7
  make_sure (ltb len 8) wide_alignment
  put_code 0 len true s

-- WriteRBSPTrailingBits
pub write_rbsp_trailing_bits : Stream → Outcome Stream
write_rbsp_trailing_bits s = do s' ← put_code 1 1 true s; write_align_zero_bits s'

-- FixZeroTermination. FLUSH_BITS takes its byte from the top of the word.
pub fix_zero_termination : Stream → Stream
fix_zero_termination s =
    if behind s.written 0 == 0 then record s { written = flush_bytes 1 3 false s.written } else s
