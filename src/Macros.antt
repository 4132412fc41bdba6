-- ===== src/Macros.antt =====
-- The macros of inc/TypeDefs.h: logarithm, saturation, absolute value.
-- A `u32` is a number below 2 ^ 32, an `i32` an integer of `Prelude.Int`.
pub mod Log2
use ces.Prelude.{ℕ, ◌+◌, ◌/◌, ◌^◌, bit_and, ◌==◌, if◌then◌else◌, arith}
use ces.Prelude.Int.{ℤ, pos, ltb_ℤ, ◌-ℤ◌}

-- NBITS2 .. NBITS32: the position of the highest bit that is set.
pub nbits2 : ℕ → ℕ
nbits2 n = if bit_and n 2 == 0 then 0 else 1

pub nbits4 : ℕ → ℕ
nbits4 n = if bit_and n 0xc == 0 then nbits2 n else (2 + nbits2 (n / 2 ^ 2))

pub nbits8 : ℕ → ℕ
nbits8 n = if bit_and n 0xf0 == 0 then nbits4 n else (4 + nbits4 (n / 2 ^ 4))

pub nbits16 : ℕ → ℕ
nbits16 n = if bit_and n 0xff00 == 0 then nbits8 n else (8 + nbits8 (n / 2 ^ 8))

pub nbits32 : ℕ → ℕ
nbits32 n = if bit_and n 0xffff_0000 == 0 then nbits16 n else (16 + nbits16 (n / 2 ^ 16))

-- LOG2(n)
unfoldable pub log2 : ℕ → ℕ
unfolding nbits2 nbits4 nbits8 nbits16 nbits32
log2 n = if n == 0 then 0 else (nbits32 n + 1)

-- ABS(A)
unfoldable pub abs : ℤ → ℤ
abs a = if ltb_ℤ a (pos 0) then pos 0 -ℤ a else a

-- Clip3(min, max, val)
unfoldable pub clip3 : ℤ → ℤ → ℤ → ℤ
clip3 lo hi v = if ltb_ℤ v lo then lo else if ltb_ℤ hi v then hi else v

-- Clip1(a)
unfoldable pub clip1 : ℤ → ℤ
clip1 a = if ltb_ℤ (pos 255) a then pos 255 else if ltb_ℤ a (pos 0) then pos 0 else a
