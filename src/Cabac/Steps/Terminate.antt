-- ===== src/Cabac/Steps/Terminate.antt =====
-- EncodeTerminatingBit before it writes.
use ces.Prelude.{
  ℕ, ◌+◌, ◌-◌, ◌*◌, ◌^◌, ◌≡◌, refl, ◌∙◌, Bool, true, false, ltb, if◌then◌else◌, arith,
}
use ces.Cabac.{Engine, u32, code_terminating_bit}
use ces.Cabac.Inv.{low_range-le}
use ces.Cabac.Interval.{Interval, interval_eq, renorm, renorm_lem, spec_terminate}
use ces.Cabac.Value.{Tracks}
use ces.Cabac.Steps.Narrow.{shifted, narrowed-Tracks, lower_part_exact, lower_part-Tracks}

-- The end of the interval, of two values, shifted to a range of 256.
last-Tracks :
    {b n : ℕ} {e : Engine} {i : Interval}
    → Tracks 12 b n e i
    → Tracks 4 b n
        (record e {
          low = u32 (u32 (e.low + (e.range - 2)) * 128);
          range = 256;
          bits_left = e.bits_left - 7;
        })
        (renorm 8 (record { low = i.low + (e.range - 2); range = 2; shifts = i.shifts }))
last-Tracks {e = e} {i} t =
    rw (renormed, exact)
      (narrowed-Tracks ((e.range - 2) * 2 ^ 7) 256 7 e.contexts t (omega arith)
        (omega (arith, t.inv.range_lo)) (omega arith) (omega arith) t.inv.states)
  where
    exact : u32 (u32 (e.low + (e.range - 2)) * 128) ≡ e.low * 2 ^ 7 + (e.range - 2) * 2 ^ 7
    exact = omega (arith, low_range-le t.inv)

    renormed :
        renorm 8 (record { low = i.low + (e.range - 2); range = 2; shifts = i.shifts })
        ≡ shifted ((e.range - 2) * 2 ^ 7) 256 7 i
    renormed =
        renorm_lem 7 8 _ (omega arith) (omega arith) (omega arith)
        ∙ interval_eq _ _ (omega arith) refl refl

pub code_terminating_bit-Tracks :
    (bin : Bool) {b n : ℕ} {e : Engine} {i : Interval}
    → Tracks 12 b n e i
    → Tracks 4 b n (code_terminating_bit bin e) (spec_terminate bin i)
unfolding code_terminating_bit spec_terminate
code_terminating_bit-Tracks bin {b} {n} {e} {i} t = rw (← t.range, two_less) (go bin)
  where
    two_less : u32 (e.range + 2 ^ 32 - 2) ≡ e.range - 2
    two_less = omega (arith, t.inv.range_lo, t.inv.range_hi)

    go :
        (bin : Bool)
        → Tracks 4 b n
            (if bin
              then record e {
                low = u32 (u32 (e.low + (e.range - 2)) * 128);
                range = 256;
                bits_left = e.bits_left - 7;
              }
              else if ltb (e.range - 2) 256
              then record e {
                low = u32 (e.low * 2);
                range = u32 ((e.range - 2) * 2);
                bits_left = e.bits_left - 1;
              }
              else record e { range = e.range - 2 })
            (renorm 8 (
              if bin
              then record { low = i.low + (e.range - 2); range = 2; shifts = i.shifts }
              else record i { range = e.range - 2 }))
    go true = last-Tracks t
    go false = rw (lower_part_exact (e.range - 2) e.contexts t.inv) (
        lower_part-Tracks (e.range - 2) e.contexts t (omega (arith, t.inv.range_lo)) (omega arith)
          t.inv.states)
