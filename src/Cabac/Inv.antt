-- ===== src/Cabac/Inv.antt =====
-- The invariant of the registers. `lo` bounds `bits_left` from below: 12 between the calls, 4 where
-- WriteOutputBitstream is called.
use ces.Prelude.{
  ℕ, ◌+◌, ◌-◌, ◌*◌, ◌^◌, ◌≤◌, ◌<◌, ◌≡◌, refl, List, arith, AllBelow, two-pow_split, two-pow_mono,
}
use ces.Cabac.{Engine, reset_cabac}
use native.Mathlib.Nat.{mul-le-mul}

pub record Inv (lo : ℕ) (e : Engine) : Type 0 where
  pub range_lo : 256 ≤ e.range
  pub range_hi : e.range ≤ 510
  pub bits_lo : lo ≤ e.bits_left
  pub bits_hi : e.bits_left ≤ 23
  pub buffer_fits : e.buffer < 256
  pub states : AllBelow 126 e.contexts
  -- one carry at most
  pub room : e.low + e.range ≤ 2 ^ (33 - e.bits_left)
  -- no carry into a byte 0xFF, nor before the first byte
  pub unused : e.num_byte ≡ 0 → e.buffer ≡ 255
  pub full : e.buffer ≡ 255 → e.low + e.range ≤ 2 ^ (32 - e.bits_left)

pub reset_cabac-Inv : (e : Engine) → AllBelow 126 e.contexts → Inv 12 (reset_cabac e)
unfolding reset_cabac
reset_cabac-Inv e h = record {
  range_lo = omega arith;
  range_hi = omega arith;
  bits_lo = omega arith;
  bits_hi = omega arith;
  buffer_fits = omega arith;
  states = h;
  room = omega arith;
  unused = λ _. refl;
  full = λ _. omega arith;
}

-- `low + range` before a shift, and after.
pub low_range-le : {e : Engine} → Inv 12 e → e.low + e.range ≤ 2 ^ 21
low_range-le {e} v =
    omega (arith, v.room, two-pow_mono (33 - e.bits_left) 21 (omega (arith, v.bits_lo)))

pub shifted-lt : (x k : ℕ) → x ≤ 2 ^ 21 → k ≤ 8 → x * 2 ^ k < 2 ^ 32
shifted-lt x k hx hk = omega (arith, mul-le-mul hx (two-pow_mono k 8 hk))

-- An interval inside the one of `e`, shifted by `k`.
abbrev pub narrowed : ℕ → ℕ → ℕ → List ℕ → Engine → Engine
narrowed low range k contexts e = record e {
  low = low;
  range = range;
  bits_left = e.bits_left - k;
  contexts = contexts;
}

pub narrowed-Inv :
    (low range k : ℕ) (contexts : List ℕ) {e : Engine}
    → Inv 12 e
    → k ≤ 8
    → low + range ≤ (e.low + e.range) * 2 ^ k
    → 256 ≤ range
    → range ≤ 510
    → AllBelow 126 contexts
    → Inv 4 (narrowed low range k contexts e)
narrowed-Inv low range k contexts {e} v hk inside lo hi states = record {
  range_lo = lo;
  range_hi = hi;
  bits_lo = omega (arith, v.bits_lo);
  bits_hi = omega (arith, v.bits_hi);
  buffer_fits = v.buffer_fits;
  states = states;
  room = omega (arith, inside, scale 33 v.room (omega arith));
  unused = v.unused;
  full = λ h. omega (arith, inside, scale 32 (v.full h) (omega arith));
}
  where
    scale :
        (top : ℕ)
        → e.low + e.range ≤ 2 ^ (top - e.bits_left)
        → 32 ≤ top
        → (e.low + e.range) * 2 ^ k ≤ 2 ^ (top - (e.bits_left - k))
    scale top h ht = omega (
      arith,
      mul-le-mul h (two-pow_mono k k (omega arith)),
      two-pow_split (top - e.bits_left) k (top - (e.bits_left - k))
          (omega (arith, v.bits_lo, v.bits_hi)),
    )
