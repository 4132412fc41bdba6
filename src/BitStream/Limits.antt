-- ===== src/BitStream/Limits.antt =====
-- Two limits of the handler: the guard bytes in the overflow check, and the byte that
-- FixZeroTermination appends.
use ces.Prelude.{
  ℕ, ◌+◌, ◌-◌, ◌≤◌, ◌<◌, ◌≡◌, ◌∙◌, ◌∷◌, Bool, ◌==◌, if◌then◌else◌, ok, arith, lt→ltb, length,
}
use ces.BitStream.{Stream, put_code, fix_zero_termination, flush_byte, flush_bytes, behind}
use ces.BitStream.Payload.{spilled, put_code_full}

-- The check leaves the two guard bytes out. Where the bytes written come to one less than the
-- allocation, PutCodeInBitstream returns, though they and the guard bytes do not fit it.
pub put_code_past_end :
    (code len : ℕ) (emu_prev : Bool) (s : Stream)
    → s.bit_loc ≤ len
    → length (spilled code (len - s.bit_loc) emu_prev s).written + 1 ≡ s.alloc_bytes
    → (t : Stream) × (put_code code len emu_prev s ≡ ok t) × (t.alloc_bytes < length t.written + 2)
put_code_past_end code len emu_prev s full last =
    let t = spilled code (len - s.bit_loc) emu_prev s in
    (
      t,
      put_code_full code len emu_prev s full
          ∙ rw (lt→ltb (length t.written) t.alloc_bytes (omega arith)),
      omega arith,
    )

-- FixZeroTermination appends a byte exactly when the last byte is 0, and that byte is 0, not 3.
pub fix_zero_termination_lem :
    (s : Stream)
    → (fix_zero_termination s).written
      ≡ (if behind s.written 0 == 0 then 0 ∷ s.written else s.written)
unfolding fix_zero_termination flush_bytes flush_byte
fix_zero_termination_lem s = ground arith
