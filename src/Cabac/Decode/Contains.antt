-- ===== src/Cabac/Decode/Contains.antt =====
-- Codes inside an interval, and where the decoder stands.
use ces.Prelude.{
  ℕ, zero, suc, ◌+◌, ◌-◌, ◌*◌, ◌^◌, ◌≤◌, ◌<◌, ◌≡◌, refl, ap, arith, lt→ltb, le→ltb_false, dec_lt,
  two-pow_pos, two-pow_split, subst,
}
use ces.Cabac.Interval.{Interval, double, renorm, renorm_stop, renorm-double}
use ces.Cabac.Decode.{Decoder, read_bit, renorm_bits}
use native.Mathlib.Nat.{div-add-mod', mod-lt, mul-le-mul}

-- A code of `bits` bits behind the first nine lies in the interval.
pub record Contains (code bits : ℕ) (i : Interval) : Type 0 where
  pub short : i.shifts ≤ bits
  pub above : i.low * 2 ^ (bits - i.shifts) ≤ code
  pub below : code < (i.low + i.range) * 2 ^ (bits - i.shifts)

-- The decoder has read the code down to the interval.
pub record At (code bits : ℕ) (i : Interval) (d : Decoder) : Type 0 where
  pub same_range : d.range ≡ i.range
  pub same_bits : d.rest + i.shifts ≡ bits
  pub parts : (i.low + d.offset) * 2 ^ d.rest + d.code ≡ code
  pub rest_fits : d.code < 2 ^ d.rest

pub Contains-double :
    (code bits : ℕ) (i : Interval) → Contains code bits (double i) → Contains code bits i
Contains-double code bits i h = record {
  short = omega (arith, h.short);
  above = omega (arith, h.above, ap (λ (u : ℕ). i.low * u) half);
  below = omega (arith, h.below, ap (λ (u : ℕ). (i.low + i.range) * u) half);
}
  where
    half : 2 ^ (bits - i.shifts) ≡ 2 * 2 ^ (bits - (i.shifts + 1))
    half = two-pow_split 1 (bits - (i.shifts + 1)) (bits - i.shifts) (omega (arith, h.short))

-- What lies in the renormed interval lies in the interval.
pub Contains-renorm :
    (f code bits : ℕ) (i : Interval) → Contains code bits (renorm f i) → Contains code bits i
unfolding renorm
Contains-renorm zero code bits i h = h
Contains-renorm (suc f) code bits i h = elim (dec_lt i.range 256) [
  | yes small ↦ Contains-double code bits i (
      Contains-renorm f code bits (double i)
        (subst (λ (j : Interval). Contains code bits j) (renorm-double f i small) h))
  | no large ↦ subst (λ (j : Interval). Contains code bits j) (renorm_stop f i (omega arith)) h
]

pub renorm-shifts : (f : ℕ) (i : Interval) → i.shifts ≤ (renorm f i).shifts
unfolding renorm
renorm-shifts zero i = omega arith
renorm-shifts (suc f) i = elim (dec_lt i.range 256) [
  | yes small ↦ rw (renorm-double f i small) (omega (arith, renorm-shifts f (double i)))
  | no large ↦ rw (renorm_stop f i (omega arith)) (omega arith)
]

-- One more bit, for an interval that is twice as fine.
pub At-read_bit :
    (code bits r : ℕ) (i : Interval) (d : Decoder)
    → At code bits i d
    → i.shifts < bits
    → At code bits
        (record i { low = i.low * 2; range = r; shifts = i.shifts + 1 })
        (record (read_bit d) { range = r })
At-read_bit code bits r i d a h = record {
  same_range = refl;
  same_bits = omega (arith, a.same_bits);
  parts = omega (
    arith,
    a.parts,
    div-add-mod' d.code (2 ^ (d.rest - 1)),
    ap (λ (u : ℕ). (i.low + d.offset) * u) half,
  );
  rest_fits = mod-lt d.code (two-pow_pos (d.rest - 1));
}
  where
    half : 2 ^ d.rest ≡ 2 * 2 ^ (d.rest - 1)
    half = two-pow_split 1 (d.rest - 1) d.rest (omega (arith, a.same_bits))

bits_stop : (f : ℕ) (d : Decoder) → 256 ≤ d.range → renorm_bits (suc f) d ≡ d
unfolding renorm_bits
bits_stop f d h = rw (le→ltb_false d.range 256 h, renorm_bits)

bits_double :
    (f : ℕ) (d : Decoder)
    → d.range < 256
    → renorm_bits (suc f) d ≡ renorm_bits f (record (read_bit d) { range = d.range * 2 })
unfolding renorm_bits
bits_double f d h = rw (lt→ltb d.range 256 h, renorm_bits)

pub At-renorm :
    (f code bits : ℕ) (i : Interval) (d : Decoder)
    → At code bits i d
    → (renorm f i).shifts ≤ bits
    → At code bits (renorm f i) (renorm_bits f d)
unfolding renorm renorm_bits
At-renorm zero code bits i d a h = a
At-renorm (suc f) code bits i d a h = elim (dec_lt i.range 256) [
  | yes small ↦
      rw (renorm-double f i small, bits_double f d (omega (arith, a.same_range)))
        (At-renorm f code bits (double i) (record (read_bit d) { range = d.range * 2 })
          (rw (a.same_range) (At-read_bit code bits (i.range * 2) i d a (room small)))
          (omega (arith, h, ap (λ (j : Interval). j.shifts) (renorm-double f i small))))
  | no large ↦ rw (renorm_stop f i (omega arith), bits_stop f d (omega (arith, a.same_range))) a
]
  where
    room : i.range < 256 → i.shifts < bits
    room small = omega (
      arith,
      h,
      ap (λ (j : Interval). j.shifts) (renorm-double f i small),
      renorm-shifts f (double i),
    )

cancel-lt : (a b d x : ℕ) → a * d ≤ x → x < b * d → a < b
cancel-lt a b d x h k = elim (dec_lt a b) [
  | yes fine ↦ fine
  | no over ↦
      let more : b * d ≤ a * d = mul-le-mul (omega arith) (omega arith) in absurd (omega arith)
]

-- The offset is where the code lies in the interval.
pub offset-lt :
    (code bits part : ℕ) (i : Interval) (d : Decoder)
    → At code bits i d
    → code < (i.low + part) * 2 ^ d.rest
    → d.offset < part
offset-lt code bits part i d a h = omega (
  arith,
  cancel-lt (i.low + d.offset) (i.low + part) (2 ^ d.rest) code (omega (arith, a.parts)) h,
)

pub le-offset :
    (code bits part : ℕ) (i : Interval) (d : Decoder)
    → At code bits i d
    → (i.low + part) * 2 ^ d.rest ≤ code
    → part ≤ d.offset
le-offset code bits part i d a h = omega (
  arith,
  cancel-lt (i.low + part) (i.low + d.offset + 1) (2 ^ d.rest) code h
      (omega (arith, a.parts, a.rest_fits)),
)

-- A lower and an upper part of the interval.
pub Contains-lower :
    (code bits range : ℕ) (i : Interval)
    → range ≤ i.range
    → Contains code bits (record i { range = range })
    → Contains code bits i
Contains-lower code bits range i h c = record {
  short = c.short;
  above = c.above;
  below =
      let more : (i.low + range) * 2 ^ (bits - i.shifts)
          ≤ (i.low + i.range) * 2 ^ (bits - i.shifts) =
        mul-le-mul (omega arith) (omega arith) in
      omega (arith, c.below);
}

pub Contains-upper :
    (code bits range : ℕ) (i : Interval)
    → range ≤ i.range
    → Contains code bits
        (record { low = i.low + (i.range - range); range = range; shifts = i.shifts })
    → Contains code bits i
Contains-upper code bits range i h c = record {
  short = c.short;
  above =
      let more : i.low * 2 ^ (bits - i.shifts)
          ≤ (i.low + (i.range - range)) * 2 ^ (bits - i.shifts) =
        mul-le-mul (omega arith) (omega arith) in
      omega (arith, c.above);
  below =
      let same : i.low + (i.range - range) + range ≡ i.low + i.range = omega arith in
      omega (arith, c.below, ap (λ (u : ℕ). u * 2 ^ (bits - i.shifts)) same);
}
