-- ===== src/Cabac/Interval.antt =====
-- The arithmetic encoder of the standard (9.3.4.3) with numbers of any size: an interval that is
-- narrowed and doubled, with no output and no carry.
use ces.Prelude.{
  ℕ, zero, suc, ◌+◌, ◌-◌, ◌*◌, ◌/◌, ◌%◌, ◌^◌, ◌≤◌, ◌<◌, ◌≡◌, ap, ◌∙◌, Bool, true, false, ltb, ◌==◌,
  if◌then◌else◌, arith, two-pow-suc, two-pow_pos, lt→ltb, le→ltb_false,
}
use ces.Cabac.{lps_of}

-- The interval from `low` to `low + range`, after `shifts` doublings.
pub record Interval : Type 0 where
  pub low : ℕ
  pub range : ℕ
  pub shifts : ℕ

abbrev pub whole : Interval
whole = record { low = 0; range = 510; shifts = 0 }

abbrev pub double : Interval → Interval
double i = record { low = i.low * 2; range = i.range * 2; shifts = i.shifts + 1 }

-- RenormE: double while the range is below 256. Eight rounds are enough for a range that is not 0.
unfoldable pub renorm : ℕ → Interval → Interval
renorm zero i = i
renorm (suc f) i = elim (ltb i.range 256) [ true ↦ renorm f (double i) | false ↦ i ]

-- The part of the interval that a value takes: the more probable one the lower part.
abbrev pub part : ℕ → ℕ → ℕ → Interval → Interval
part bin mps lps i =
    if bin == mps
    then record i { range = i.range - lps }
    else record i { low = i.low + (i.range - lps); range = lps }

-- EncodeDecision. A state is 2 * pStateIdx + valMps.
unfoldable pub spec_bin : ℕ → ℕ → Interval → Interval
spec_bin bin state i = renorm 8 (part bin (state % 2) (lps_of state i.range) i)

-- EncodeBypass
unfoldable pub spec_bypass : ℕ → Interval → Interval
spec_bypass bin i = record i { low = 2 * i.low + bin * i.range; shifts = i.shifts + 1 }

-- Bypass bins, the highest bit of the number first.
unfoldable pub spec_bypasses : ℕ → ℕ → Interval → Interval
spec_bypasses zero bins i = i
spec_bypasses (suc n) bins i = spec_bypass (bins % 2) (spec_bypasses n (bins / 2) i)

-- EncodeTerminate
unfoldable pub spec_terminate : Bool → Interval → Interval
spec_terminate bin i = renorm 8 (
    if bin
    then record i { low = i.low + (i.range - 2); range = 2 }
    else record i { range = i.range - 2 })

pub interval_eq : (i j : Interval) → i.low ≡ j.low → i.range ≡ j.range → i.shifts ≡ j.shifts → i ≡ j
interval_eq i j p q r = ground arith

pub renorm_stop : (f : ℕ) (i : Interval) → 256 ≤ i.range → renorm (suc f) i ≡ i
unfolding renorm
renorm_stop f i h = rw (le→ltb_false i.range 256 h, renorm)

pub renorm-double : (f : ℕ) (i : Interval) → i.range < 256 → renorm (suc f) i ≡ renorm f (double i)
unfolding renorm
renorm-double f i h = rw (lt→ltb i.range 256 h, renorm)

-- A range whose `k`-th doubling is the first of at least 256 is doubled `k` times.
pub renorm_lem :
    (k f : ℕ) (i : Interval)
    → k ≤ f
    → 256 ≤ i.range * 2 ^ k
    → i.range * 2 ^ k < 512
    → renorm f i ≡ record { low = i.low * 2 ^ k; range = i.range * 2 ^ k; shifts = i.shifts + k }
unfolding renorm
renorm_lem zero zero i h lo hi = interval_eq i _ (omega arith) (omega arith) (omega arith)
renorm_lem zero (suc f) i h lo hi =
    renorm_stop f i (omega arith) ∙ (interval_eq i _ (omega arith) (omega arith) (omega arith))
renorm_lem (suc k) zero i h lo hi = absurd (omega arith)
renorm_lem (suc k) (suc f) i h lo hi =
    rw
      (
        renorm-double f i (omega (arith, two-pow_pos k, grown, small)),
        renorm_lem k f (double i) (omega arith) (omega (arith, grown)) (omega (arith, grown)),
      )
      (interval_eq _ _ (omega (arith, ap (λ (t : ℕ). i.low * t) (two-pow-suc k)))
        (omega (arith, grown)) (omega arith))
  where
    grown : i.range * 2 ^ suc k ≡ i.range * 2 * 2 ^ k
    grown = omega (arith, ap (λ (t : ℕ). i.range * t) (two-pow-suc k))

    small : i.range * 2 ≤ i.range * 2 * 2 ^ k
    small = grind (arith, two-pow_pos k)

-- `n` bypass bins at once.
pub spec_bypasses_lem :
    (n bins : ℕ) (i : Interval)
    → bins < 2 ^ n
    → spec_bypasses n bins i
      ≡ record i { low = i.low * 2 ^ n + bins * i.range; shifts = i.shifts + n }
unfolding spec_bypasses spec_bypass
spec_bypasses_lem zero bins i h =
    let none_left : bins ≡ 0 = omega arith in
    rw none_left (interval_eq i _ (omega arith) (omega arith) (omega arith))
spec_bypasses_lem (suc n) bins i h =
    rw (spec_bypasses_lem n (bins / 2) i (omega (arith, two-pow-suc n))) (
      interval_eq _ _ (omega (arith, ap (λ (t : ℕ). i.low * t) (two-pow-suc n), halves))
        (omega arith) (omega arith))
  where
    halves : bins * i.range ≡ 2 * (bins / 2 * i.range) + bins % 2 * i.range
    halves =
        let e : bins ≡ 2 * (bins / 2) + bins % 2 = omega arith in
        omega (arith, ap (λ (t : ℕ). t * i.range) e)
