-- ===== src/Cabac/Finish.antt =====
-- FinishEncodeCTU: the end of a CTU, of a slice and of a tile.
use ces.Prelude.{
  ℕ, ◌+◌, ◌-◌, ◌*◌, ◌/◌, ◌^◌, ◌≤◌, ◌<◌, ◌≡◌, refl, ap, ◌∙◌, Bool, true, false, List, [], ◌∷◌, ◌++◌,
  if◌then◌else◌, arith,
}
use ces.Cabac.{
  Call, trailing_bits, flush_rem, Engine, flush, encode_terminating_bit, finish_encode_ctu,
}
use ces.Cabac.Interval.{Interval, spec_terminate, renorm_lem}
use ces.Cabac.Calls.{emit, emit_bits, AllFit, emit-append, emit_bits-append, AllFit-append}
use ces.Cabac.Value.{Tracks, Coded}
use ces.Cabac.Steps.{encode_terminating_bit-Coded}
use ces.Cabac.Flush.{Flushed, flush-Flushed}

spec_terminate-true :
    (i : Interval)
    → spec_terminate true i
      ≡ record { low = (i.low + (i.range - 2)) * 128; range = 256; shifts = i.shifts + 7 }
unfolding spec_terminate
spec_terminate-true i = renorm_lem 7 8 _ (omega arith) (omega arith) (omega arith)

-- The interval after the end_of_slice_segment_flag, which the last CTU of a slice leaves out.
abbrev pub after_slice_flag : Bool → Interval → Interval
after_slice_flag is_last_slice_ctu i = if is_last_slice_ctu then i else spec_terminate false i

-- Bits that end a substream: with the stop bit behind them they are a number in the interval `i`.
pub record Ended (b n : ℕ) (i : Interval) (calls : List Call) : Type 0 where
  pub above : i.low ≤ (emit b calls * 2 + 1) * 2 ^ 7
  pub below : (emit b calls * 2 + 1) * 2 ^ 7 < i.low + i.range
  pub count : emit_bits n calls + 8 ≡ i.shifts + 9
  pub fit : AllFit calls

ended_lem :
    (b n : ℕ) (i : Interval) (calls : List Call)
    → Flushed b n (spec_terminate true i) calls
    → Ended b n (spec_terminate true i) (calls ++ trailing_bits ∷ flush_rem ∷ [])
ended_lem b n i calls h = record {
  above = rw (same, spec_terminate-true i) (omega arith);
  below = rw (same, spec_terminate-true i) (omega arith);
  count = rw (emit_bits-append n calls (trailing_bits ∷ flush_rem ∷ [])) (omega (arith, h.count));
  fit = AllFit-append calls (trailing_bits ∷ flush_rem ∷ []) h.fit tt;
}
  where
    same : emit b (calls ++ trailing_bits ∷ flush_rem ∷ []) ≡ (spec_terminate true i).low / 2 ^ 8
    same = emit-append b calls (trailing_bits ∷ flush_rem ∷ []) ∙ h.value

slice_flag-Coded :
    (is_last_slice_ctu : Bool) (b n : ℕ) (e : Engine) (i : Interval)
    → Tracks 12 b n e i
    → (after_slice_flag is_last_slice_ctu i).shifts < 2 ^ 34
    → Coded b n e.contexts
        (after_slice_flag is_last_slice_ctu i)
        (if is_last_slice_ctu then (e, []) else encode_terminating_bit false e)
slice_flag-Coded true b n e i t few = record { tracks = t; fit = tt; contexts_eq = refl }
slice_flag-Coded false b n e i t few = encode_terminating_bit-Coded false b n e i t few

-- FinishEncodeCTU for a CTU that does not end its tile: it codes a terminating bit 0, and nothing where the
-- CTU is the last one of its slice; fewer than 2 ^ 34 shifts.
pub finish_encode_ctu-Coded :
    (is_last_slice_ctu : Bool) (b n : ℕ) (e : Engine) (i : Interval)
    → Tracks 12 b n e i
    → (after_slice_flag is_last_slice_ctu i).shifts < 2 ^ 34
    → Coded b n e.contexts
        (after_slice_flag is_last_slice_ctu i)
        (finish_encode_ctu false is_last_slice_ctu e)
unfolding finish_encode_ctu
finish_encode_ctu-Coded is_last_slice_ctu b n e i t few =
    slice_flag-Coded is_last_slice_ctu b n e i t few

-- FinishEncodeCTU for a CTU that ends its tile, with fewer than 2 ^ 34 shifts: the bits written, with the
-- stop bit behind them, are a number in the interval after the terminating bit 1, of 9 bits more than
-- shifts were made.
pub finish_encode_ctu-Ended :
    (is_last_slice_ctu : Bool) (b n : ℕ) (e : Engine) (i : Interval)
    → Tracks 12 b n e i
    → (spec_terminate true (after_slice_flag is_last_slice_ctu i)).shifts < 2 ^ 34
    → Ended b n
        (spec_terminate true (after_slice_flag is_last_slice_ctu i))
        (finish_encode_ctu true is_last_slice_ctu e).1
unfolding finish_encode_ctu
finish_encode_ctu-Ended is_last_slice_ctu b n e i t few =
    ended_lem b n (after_slice_flag is_last_slice_ctu i) _ (record {
      value =
          rw (emit-append b (calls₁ ++ calls₂) calls₃, emit-append b calls₁ calls₂) flushed.value;
      count =
          rw (emit_bits-append n (calls₁ ++ calls₂) calls₃, emit_bits-append n calls₁ calls₂)
            flushed.count;
      fit =
          AllFit-append (calls₁ ++ calls₂) calls₃ (AllFit-append calls₁ calls₂ first.fit second.fit)
            flushed.fit;
    })
  where
    i₁ : Interval
    i₁ = after_slice_flag is_last_slice_ctu i

    r₁ : Engine × List Call
    r₁ = if is_last_slice_ctu then (e, []) else encode_terminating_bit false e

    calls₁ : List Call
    calls₁ = r₁.1

    r₂ : Engine × List Call
    r₂ = encode_terminating_bit true r₁.0

    calls₂ : List Call
    calls₂ = r₂.1

    calls₃ : List Call
    calls₃ = (flush r₂.0).1

    first : Coded b n e.contexts i₁ r₁
    first =
        slice_flag-Coded is_last_slice_ctu b n e i t
          (omega (arith, few, ap (λ (j : Interval). j.shifts) (spec_terminate-true i₁)))

    second : Coded (emit b calls₁) (emit_bits n calls₁) r₁.0.contexts (spec_terminate true i₁) r₂
    second = encode_terminating_bit-Coded true _ _ r₁.0 i₁ first.tracks few

    flushed :
        Flushed
          (emit (emit b calls₁) calls₂)
          (emit_bits (emit_bits n calls₁) calls₂)
          (spec_terminate true i₁)
          calls₃
    flushed = flush-Flushed _ _ r₂.0 (spec_terminate true i₁) second.tracks
