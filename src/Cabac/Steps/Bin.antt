-- ===== src/Cabac/Steps/Bin.antt =====
-- EncodeBin before it writes: the registers do not wrap and reach the interval of the standard.
use ces.Prelude.{
  ℕ, ◌+◌, ◌-◌, ◌*◌, ◌%◌, ◌^◌, ◌≤◌, ◌<◌, ◌≡◌, refl, ap, ◌∙◌, arith, bit_and_mask, ne→==_false,
  ==_true, ℕ_discrete, get_or, set, AllBelow-set, AllBelow-get_or,
}
use ces.Cabac.{Engine, u32, less_probable, more_probable, code_bin, lps_of}
use ces.Cabac.Tables.{lps_next, mps_next}
use ces.Cabac.Bounds.{shift_of, LpsFacts, lps_facts, next_state_facts}
use ces.Cabac.Inv.{Inv, low_range-le, shifted-lt, narrowed}
use ces.Cabac.Interval.{Interval, interval_eq, renorm, renorm_lem, spec_bin}
use ces.Cabac.Value.{Tracks}
use native.Mathlib.Nat.{mod-eq_of_lt}
use ces.Cabac.Steps.Narrow.{
  shifted, narrowed-Tracks, engine_eq, lower_part_exact, lower_part-Tracks,
}

-- No operation of EncodeBin wraps.
less_probable_exact :
    (ctx state lps : ℕ) {e : Engine}
    → Inv 12 e
    → LpsFacts e.range lps
    → less_probable ctx state lps e
      ≡ narrowed
          (e.low * 2 ^ shift_of lps + (e.range - lps) * 2 ^ shift_of lps)
          (lps * 2 ^ shift_of lps)
          (shift_of lps)
          (set e.contexts ctx (lps_next state))
          e
unfolding less_probable
less_probable_exact ctx state lps {e} v h =
    engine_eq _ _ low (mod-eq_of_lt (omega (arith, h.renormed_hi))) refl refl refl refl
  where
    sum : u32 (e.low + u32 (e.range + 2 ^ 32 - lps)) ≡ e.low + (e.range - lps)
    sum = omega (arith, low_range-le v, h.rest_lo)

    low :
        u32 (u32 (e.low + u32 (e.range + 2 ^ 32 - lps)) * 2 ^ shift_of lps)
        ≡ e.low * 2 ^ shift_of lps + (e.range - lps) * 2 ^ shift_of lps
    low = rw sum (
        mod-eq_of_lt (
          shifted-lt (e.low + (e.range - lps)) (shift_of lps)
            (omega (arith, low_range-le v, h.rest_lo)) (omega (arith, h.shift_le)))
        ∙ omega arith)

less_probable-Tracks :
    (ctx state lps : ℕ) {b n : ℕ} {e : Engine} {i : Interval}
    → Tracks 12 b n e i
    → LpsFacts e.range lps
    → state < 126
    → Tracks 4 b n
        (less_probable ctx state lps e)
        (renorm 8 (record { low = i.low + (e.range - lps); range = lps; shifts = i.shifts }))
less_probable-Tracks ctx state lps {b} {n} {e} {i} t h hs =
    rw (less_probable_exact ctx state lps t.inv h, renormed)
      (narrowed-Tracks ((e.range - lps) * 2 ^ k) (lps * 2 ^ k) k
        (set e.contexts ctx (lps_next state)) t (omega (arith, h.shift_le)) inside h.renormed_lo
        h.renormed_hi
        (AllBelow-set 126 e.contexts ctx (lps_next state) t.inv.states
          (next_state_facts state hs).0))
  where
    k : ℕ
    k = shift_of lps

    inside :
        (e.range - lps) * 2 ^ shift_of lps + lps * 2 ^ shift_of lps ≤ e.range * 2 ^ shift_of lps
    inside =
        let parts : (e.range - lps) + lps ≡ e.range = omega (arith, h.rest_lo) in
        omega (arith, ap (λ (u : ℕ). u * 2 ^ shift_of lps) parts)

    renormed :
        renorm 8 (record { low = i.low + (e.range - lps); range = lps; shifts = i.shifts })
        ≡ shifted ((e.range - lps) * 2 ^ shift_of lps) (lps * 2 ^ shift_of lps) (shift_of lps) i
    renormed =
        renorm_lem (shift_of lps) 8 _ (omega (arith, h.shift_le)) h.renormed_lo
          (omega (arith, h.renormed_hi))
        ∙ interval_eq _ _ (omega arith) refl refl

more_probable-Tracks :
    (ctx state lps : ℕ) {b n : ℕ} {e : Engine} {i : Interval}
    → Tracks 12 b n e i
    → LpsFacts e.range lps
    → state < 126
    → Tracks 4 b n (more_probable ctx state lps e) (renorm 8 (record i { range = e.range - lps }))
unfolding more_probable
more_probable-Tracks ctx state lps {e = e} t h hs =
    rw (range, lower_part_exact (e.range - lps) (set e.contexts ctx (mps_next state)) t.inv)
      (lower_part-Tracks (e.range - lps) (set e.contexts ctx (mps_next state)) t
        (omega (arith, h.rest_lo)) (omega arith)
        (AllBelow-set 126 e.contexts ctx (mps_next state) t.inv.states
          (next_state_facts state hs).1))
  where
    range : u32 (e.range + 2 ^ 32 - lps) ≡ e.range - lps
    range = omega (arith, t.inv.range_hi, h.rest_lo)

pub code_bin-Tracks :
    (bin ctx : ℕ) {b n : ℕ} {e : Engine} {i : Interval}
    → Tracks 12 b n e i
    → Tracks 4 b n (code_bin bin ctx e) (spec_bin bin (get_or e.contexts ctx 0) i)
unfolding code_bin spec_bin
code_bin-Tracks bin ctx {b} {n} {e} {i} t =
    rw (bit_and_mask 1 state, ← t.range)
      (elim (ℕ_discrete bin (state % 2)) [
        | yes same ↦
            rw (==_true bin (state % 2) same) (more_probable-Tracks ctx state lps t facts small)
        | no other ↦
            rw (ne→==_false bin (state % 2) other)
              (less_probable-Tracks ctx state lps t facts small)
      ])
  where
    state : ℕ
    state = get_or e.contexts ctx 0

    lps : ℕ
    lps = lps_of state e.range

    small : get_or e.contexts ctx 0 < 126
    small = AllBelow-get_or 126 e.contexts ctx 0 t.inv.states (omega arith)

    facts : LpsFacts e.range (lps_of (get_or e.contexts ctx 0) e.range)
    facts = lps_facts (get_or e.contexts ctx 0) e.range small t.inv.range_lo t.inv.range_hi
