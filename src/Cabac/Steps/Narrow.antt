-- ===== src/Cabac/Steps/Narrow.antt =====
-- A step of the coder goes to a part of the interval, shifted.
use ces.Prelude.{
  ℕ, ◌+◌, ◌-◌, ◌*◌, ◌^◌, ◌≤◌, ◌≡◌, refl, ap, ◌∙◌, List, ltb, if◌then◌else◌, arith, lt→ltb,
  le→ltb_false, dec_lt, AllBelow, two-pow_split,
}
use ces.Cabac.{Engine, u32}
use ces.Cabac.Inv.{Inv, low_range-le, narrowed, narrowed-Inv}
use ces.Cabac.Interval.{Interval, interval_eq, renorm, renorm_lem}
use ces.Cabac.Value.{prefix, Tracks}
use native.Mathlib.Nat.{mul-le-mul}

-- A part of the interval, shifted.
abbrev pub shifted : ℕ → ℕ → ℕ → Interval → Interval
shifted d range k i = record { low = i.low * 2 ^ k + d; range = range; shifts = i.shifts + k }

pub narrowed-Tracks :
    (d range k : ℕ) (contexts : List ℕ) {b n : ℕ} {e : Engine} {i : Interval}
    → Tracks 12 b n e i
    → k ≤ 8
    → d + range ≤ e.range * 2 ^ k
    → 256 ≤ range
    → range ≤ 510
    → AllBelow 126 contexts
    → Tracks 4 b n (narrowed (e.low * 2 ^ k + d) range k contexts e) (shifted d range k i)
narrowed-Tracks d range k contexts {b} {n} {e} {i} t hk inside lo hi states = record {
  inv =
      narrowed-Inv (e.low * 2 ^ k + d) range k contexts t.inv hk (omega (arith, inside)) lo hi
        states;
  value = omega (
    arith,
    ap (λ (u : ℕ). u * 2 ^ k) t.value,
    ap (λ (u : ℕ). prefix b e.num_byte e.buffer * u)
        (two-pow_split (32 - e.bits_left) k (32 - (e.bits_left - k))
          (omega (arith, t.inv.bits_lo, t.inv.bits_hi))),
  );
  range = refl;
  count = omega (arith, t.count, t.inv.bits_lo, t.inv.bits_hi);
}

pub engine_eq :
    (e e' : Engine)
    → e.low ≡ e'.low
    → e.range ≡ e'.range
    → e.bits_left ≡ e'.bits_left
    → e.buffer ≡ e'.buffer
    → e.num_byte ≡ e'.num_byte
    → e.contexts ≡ e'.contexts
    → e ≡ e'
engine_eq e e' p q r s t u = ground arith

abbrev pub mps_shift : ℕ → ℕ
mps_shift range = if ltb range 256 then 1 else 0

pub mps_shift_facts :
    (range : ℕ)
    → 128 ≤ range
    → range ≤ 510
    → (mps_shift range ≤ 1)
      × (256 ≤ range * 2 ^ mps_shift range)
      × (range * 2 ^ mps_shift range ≤ 510)
mps_shift_facts range lo hi = elim (dec_lt range 256) [
  | yes small ↦ rw (lt→ltb range 256 small) (omega arith, omega arith, omega arith)
  | no big ↦ rw (le→ltb_false range 256 (omega arith)) (omega arith, omega arith, omega arith)
]

-- The lower part of the interval, doubled once at most.
pub lower_part-Tracks :
    (rest : ℕ) (contexts : List ℕ) {b n : ℕ} {e : Engine} {i : Interval}
    → Tracks 12 b n e i
    → 128 ≤ rest
    → rest ≤ e.range
    → AllBelow 126 contexts
    → Tracks 4 b n
        (narrowed
          (e.low * 2 ^ mps_shift rest + 0)
          (rest * 2 ^ mps_shift rest)
          (mps_shift rest)
          contexts
          e)
        (renorm 8 (record i { range = rest }))
lower_part-Tracks rest contexts {e = e} {i} t lo hi states = rw renormed (
    narrowed-Tracks 0 (rest * 2 ^ mps_shift rest) (mps_shift rest) contexts t
      (omega (arith, facts.0))
      (let wider : rest * 2 ^ mps_shift rest ≤ e.range * 2 ^ mps_shift rest =
          mul-le-mul hi (omega arith) in
        omega arith)
      facts.1 facts.2 states)
  where
    facts :
        (mps_shift rest ≤ 1) × (256 ≤ rest * 2 ^ mps_shift rest) × (rest * 2 ^ mps_shift rest ≤ 510)
    facts = mps_shift_facts rest lo (omega (arith, t.inv.range_hi))

    renormed :
        renorm 8 (record i { range = rest })
        ≡ shifted 0 (rest * 2 ^ mps_shift rest) (mps_shift rest) i
    renormed =
        renorm_lem (mps_shift rest) 8 _ (omega (arith, facts.0)) facts.1 (omega (arith, facts.2))
        ∙ interval_eq _ _ (omega arith) refl refl

-- How the code takes the lower part. Nothing wraps.
pub lower_part_exact :
    (rest : ℕ) (contexts : List ℕ) {e : Engine}
    → Inv 12 e
    → (if ltb rest 256
        then record e {
          low = u32 (e.low * 2);
          range = u32 (rest * 2);
          bits_left = e.bits_left - 1;
          contexts = contexts;
        }
        else record e { range = rest; contexts = contexts })
      ≡ narrowed
          (e.low * 2 ^ mps_shift rest + 0)
          (rest * 2 ^ mps_shift rest)
          (mps_shift rest)
          contexts
          e
lower_part_exact rest contexts {e} v = elim (dec_lt rest 256) [
  | yes small ↦
      rw (lt→ltb rest 256 small)
        (engine_eq _ _ (omega (arith, low_range-le v)) (omega arith) refl refl refl refl)
  | no big ↦
      rw (le→ltb_false rest 256 (omega arith))
        (engine_eq _ _ (omega arith) (omega arith) (omega arith) refl refl refl)
]
