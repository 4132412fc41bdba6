-- ===== src/Cabac/Steps/Bypass.antt =====
-- EncodeBinsEP: eight bins a round.
use ces.Prelude.{
  ℕ, suc, zero, ◌+◌, ◌-◌, ◌*◌, ◌/◌, ◌%◌, ◌^◌, ◌≤◌, ◌<◌, ◌≡◌, refl, ap, List, ◌++◌, arith, lt→ltb,
  le→ltb_false, dec_lt, two-pow_split, two-pow_pos,
}
use ces.Cabac.{Call, Engine, u32, shift_in, bins_loop}
use ces.Cabac.Inv.{Inv, low_range-le, shifted-lt, narrowed}
use ces.Cabac.Interval.{Interval, interval_eq}
use ces.Cabac.Calls.{emit, emit_bits}
use ces.Cabac.Value.{quotient-lt, Tracks, Coded, Coded-contexts, write_output-Coded}
use native.Mathlib.Nat.{mod-eq_of_lt, mul-le-mul, div-add-mod', mod-lt}
use ces.Cabac.Steps.Narrow.{shifted, narrowed-Tracks, engine_eq}
use ces.Cabac.{write_output}
use ces.Cabac.Calls.{emit-append, emit_bits-append, AllFit-append}

bins_range-le : (bins n range : ℕ) → bins < 2 ^ n → bins * range + range ≤ range * 2 ^ n
bins_range-le bins n range h =
    let wide : (bins + 1) * range ≤ 2 ^ n * range = mul-le-mul (omega arith) (omega arith) in
    omega arith

-- No operation on the bins of a round wraps.
shift_in_exact :
    (bins n : ℕ) {e : Engine}
    → Inv 12 e
    → n ≤ 8
    → bins < 2 ^ n
    → shift_in bins n e ≡ narrowed (e.low * 2 ^ n + bins * e.range) e.range n e.contexts e
unfolding shift_in
shift_in_exact bins n {e} v hn hb =
    engine_eq _ _ (rw commute (mod-eq_of_lt fits)) refl refl refl refl refl
  where
    inside : e.low * 2 ^ n + bins * e.range ≤ (e.low + e.range) * 2 ^ n
    inside = omega (arith, bins_range-le bins n e.range hb)

    fits : e.low * 2 ^ n + bins * e.range < 2 ^ 32
    fits = omega (arith, inside, shifted-lt (e.low + e.range) n (low_range-le v) hn)

    commute :
        u32 (u32 (e.low * 2 ^ n) + u32 (e.range * bins)) ≡ u32 (e.low * 2 ^ n + bins * e.range)
    commute = omega (arith, fits)

shift_in-Coded :
    (bins k b n : ℕ) (e : Engine) (i : Interval)
    → Tracks 12 b n e i
    → k ≤ 8
    → bins < 2 ^ k
    → i.shifts + k < 2 ^ 34
    → Coded b n e.contexts (shifted (bins * e.range) e.range k i) (write_output (shift_in bins k e))
shift_in-Coded bins k b n e i t hk hb few = rw (shift_in_exact bins k t.inv hk hb) (
    write_output-Coded b n _ _
      (narrowed-Tracks (bins * e.range) e.range k e.contexts t hk (bins_range-le bins k e.range hb)
        t.inv.range_lo t.inv.range_hi t.inv.states)
      few)

-- One run of the coder after another.
pub Coded-append :
    (b n : ℕ) {c c' : List ℕ} {i i' : Interval} {e' e'' : Engine} {calls calls' : List Call}
    → Coded b n c i (e', calls)
    → Coded (emit b calls) (emit_bits n calls) c' i' (e'', calls')
    → Coded b n c' i' (e'', calls ++ calls')
Coded-append b n {calls = calls} {calls'} p q = record {
  tracks = rw (emit-append b calls calls', emit_bits-append n calls calls') q.tracks;
  fit = AllFit-append calls calls' p.fit q.fit;
  contexts_eq = q.contexts_eq;
}

-- A round of the loop: the eight highest bins, then those that are left.
abbrev highest : ℕ → ℕ → ℕ
highest bins k = bins / 2 ^ (k - 8)

abbrev left : ℕ → ℕ → ℕ
left bins k = bins - highest bins k * 2 ^ (k - 8)

highest-left : (bins k : ℕ) → highest bins k * 2 ^ (k - 8) + left bins k ≡ bins
highest-left bins k = omega (arith, div-add-mod' bins (2 ^ (k - 8)))

highest-lt : (bins k : ℕ) → 8 < k → bins < 2 ^ k → highest bins k < 256
highest-lt bins k long h =
    quotient-lt 256 (highest bins k) (2 ^ (k - 8)) (bins % 2 ^ (k - 8)) bins 1
      (div-add-mod' bins (2 ^ (k - 8))) (omega (arith, two-pow_split 8 (k - 8) k (omega arith)))
      (omega arith)

left-lt : (bins k : ℕ) → left bins k < 2 ^ (k - 8)
left-lt bins k = omega (arith, div-add-mod' bins (2 ^ (k - 8)), mod-lt bins (two-pow_pos (k - 8)))

-- Shifted by eight and then by the rest: shifted by all.
shifted_twice :
    (bins k r : ℕ) (i : Interval)
    → 8 < k
    → shifted (left bins k * r) r (k - 8) (shifted (highest bins k * r) r 8 i)
      ≡ shifted (bins * r) r k i
shifted_twice bins k r i long =
    interval_eq _ _
      (omega (
        arith,
        ap (λ (u : ℕ). i.low * u) (two-pow_split 8 (k - 8) k (omega arith)),
        ap (λ (u : ℕ). u * r) (highest-left bins k),
      ))
      refl (omega arith)

round-Coded :
    (fuel bins k b n : ℕ) (e : Engine) (i : Interval)
    → Tracks 12 b n e i
    → 8 < k
    → bins < 2 ^ k
    → i.shifts + k < 2 ^ 34
    → ((b' n' : ℕ) (e' : Engine) (i' : Interval)
        → Tracks 12 b' n' e' i'
        → i'.shifts + (k - 8) < 2 ^ 34
        → Coded b' n' e'.contexts
            (shifted (left bins k * i'.range) i'.range (k - 8) i')
            (bins_loop fuel (left bins k) (k - 8) e'))
    → Coded b n e.contexts (shifted (bins * e.range) e.range k i) (
      (bins_loop fuel (left bins k) (k - 8) (write_output (shift_in (highest bins k) 8 e)).0).0,
      (write_output (shift_in (highest bins k) 8 e)).1
          ++ (bins_loop fuel
              (left bins k)
              (k - 8)
              (write_output (shift_in (highest bins k) 8 e)).0).1,
    )
round-Coded fuel bins k b n e i t long hb few loop =
    let first : Coded b n e.contexts (shifted (highest bins k * e.range) e.range 8 i)
        (write_output (shift_in (highest bins k) 8 e)) =
      shift_in-Coded (highest bins k) 8 b n e i t (omega arith) (highest-lt bins k long hb)
        (omega arith) in
    let rest : Coded (emit b (write_output (shift_in (highest bins k) 8 e)).1)
        (emit_bits n (write_output (shift_in (highest bins k) 8 e)).1) e.contexts
        (shifted (left bins k * e.range) e.range (k - 8)
          (shifted (highest bins k * e.range) e.range 8 i))
        (bins_loop fuel (left bins k) (k - 8) (write_output (shift_in (highest bins k) 8 e)).0) =
      Coded-contexts first.contexts_eq (loop _ _ _ _ first.tracks (omega arith)) in
    rw (← shifted_twice bins k e.range i long) (Coded-append b n first rest)

pub bins_loop-Coded :
    (fuel bins k b n : ℕ) (e : Engine) (i : Interval)
    → Tracks 12 b n e i
    → k < fuel
    → bins < 2 ^ k
    → i.shifts + k < 2 ^ 34
    → Coded b n e.contexts (shifted (bins * i.range) i.range k i) (bins_loop fuel bins k e)
unfolding bins_loop
bins_loop-Coded zero bins k b n e i t hf hb few = absurd (omega arith)
bins_loop-Coded (suc fuel) bins k b n e i t hf hb few = elim (dec_lt 8 k) [
  | yes long ↦
      rw (lt→ltb 8 k long, ← t.range)
        (round-Coded fuel bins k b n e i t long hb few (λ b' n' e' i' t' few'.
          bins_loop-Coded fuel (left bins k) (k - 8) b' n' e' i' t' (omega arith) (left-lt bins k)
            few'))
  | no short ↦
      rw (le→ltb_false 8 k (omega arith), ← t.range)
        (shift_in-Coded bins k b n e i t (omega arith) hb few)
]
