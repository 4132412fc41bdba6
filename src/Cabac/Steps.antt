-- ===== src/Cabac/Steps.antt =====
-- The operations of the coder against the encoder of the standard.
mod Narrow
mod Bin
pub mod Bypass
mod Terminate
use ces.Prelude.{
  ℕ, suc, zero, ◌+◌, ◌-◌, ◌*◌, ◌/◌, ◌%◌, ◌^◌, ◌≤◌, ◌<◌, ◌≡◌, ◌≢◌, refl, sym, ap, ◌∙◌, Bool, true,
  false, List, [], ◌∷◌, ◌++◌, ltb, ◌==◌, if◌then◌else◌, arith, bit_and, bit_and_mask, lt→ltb,
  le→ltb_false, ne→==_false, ==_true, dec_lt, ℕ_discrete, get_or, set, AllBelow, AllBelow-set,
  AllBelow-get_or, two-pow_split, two-pow_mono, Outcome, ok, make_sure, two-pow_pos, subst,
}
use ces.Cabac.{
  Call, Engine, u32, reset_cabac, less_probable, more_probable, code_bin, encode_bin, lps_of,
  code_terminating_bit, encode_terminating_bit, shift_in, bins_loop, encode_bins_ep,
}
use ces.Cabac.Tables.{lps_next, mps_next}
use ces.Cabac.Bounds.{shift_of, LpsFacts, lps_facts, next_state_facts}
use ces.Cabac.Inv.{Inv, reset_cabac-Inv, low_range-le, shifted-lt, narrowed, narrowed-Inv}
use ces.Cabac.Interval.{
  Interval, interval_eq, whole, part, renorm, renorm_lem, spec_bin, spec_terminate, spec_bypasses,
  spec_bypasses_lem,
}
use ces.Cabac.Calls.{emit, emit_bits, AllFit}
use ces.Cabac.Value.{prefix, Tracks, Coded, Coded-contexts, write_output-Coded}
use native.Mathlib.Nat.{mod-eq_of_lt, mul-le-mul}
use Bin.{code_bin-Tracks}
use Bypass.{bins_loop-Coded}
use Terminate.{code_terminating_bit-Tracks}

-- After ResetCabac the coder stands at the whole interval, with nothing written, where every context
-- state is below 126.
pub reset_cabac-Tracks :
    (e : Engine) → AllBelow 126 e.contexts → Tracks 12 0 0 (reset_cabac e) whole
unfolding reset_cabac
reset_cabac-Tracks e h = record {
  inv = reset_cabac-Inv e h;
  value = refl;
  range = refl;
  count = refl;
}

-- The context after a bin.
abbrev pub next_state : ℕ → ℕ → ℕ
next_state bin state = if bin == state % 2 then mps_next state else lps_next state

code_bin-contexts :
    (bin ctx : ℕ) (e : Engine)
    → (code_bin bin ctx e).contexts ≡ set e.contexts ctx (next_state bin (get_or e.contexts ctx 0))
unfolding code_bin less_probable more_probable
code_bin-contexts bin ctx e = rw (bit_and_mask 1 (get_or e.contexts ctx 0)) (ground arith)

code_terminating_bit-contexts :
    (bin : Bool) (e : Engine) → (code_terminating_bit bin e).contexts ≡ e.contexts
unfolding code_terminating_bit
code_terminating_bit-contexts bin e = ground arith

-- EncodeBin refines EncodeDecision of the standard. Where fewer than 2 ^ 34 shifts have been made, the
-- registers and the calls stand for the interval that the standard reaches with the context's state,
-- every call fits its length, and the context alone is replaced, by the state after the bin.
pub encode_bin-Coded :
    (bin ctx b n : ℕ) (e : Engine) (i : Interval)
    → Tracks 12 b n e i
    → (spec_bin bin (get_or e.contexts ctx 0) i).shifts < 2 ^ 34
    → Coded b n
        (set e.contexts ctx (next_state bin (get_or e.contexts ctx 0)))
        (spec_bin bin (get_or e.contexts ctx 0) i)
        (encode_bin bin ctx e)
unfolding encode_bin
encode_bin-Coded bin ctx b n e i t few =
    Coded-contexts (code_bin-contexts bin ctx e)
      (write_output-Coded b n (code_bin bin ctx e) _ (code_bin-Tracks bin ctx t) few)

-- EncodeTerminatingBit refines EncodeTerminate of the standard, for both values, where fewer than 2 ^ 34
-- shifts have been made. The contexts stay.
pub encode_terminating_bit-Coded :
    (bin : Bool) (b n : ℕ) (e : Engine) (i : Interval)
    → Tracks 12 b n e i
    → (spec_terminate bin i).shifts < 2 ^ 34
    → Coded b n e.contexts (spec_terminate bin i) (encode_terminating_bit bin e)
unfolding encode_terminating_bit
encode_terminating_bit-Coded bin b n e i t few =
    Coded-contexts (code_terminating_bit-contexts bin e) (
      write_output-Coded b n (code_terminating_bit bin e) _ (code_terminating_bit-Tracks bin t) few)

-- EncodeBinsEP refines EncodeBypass of the standard, run on each bin from the highest one. For a number
-- of at most 31 bins that fits them, with fewer than 2 ^ 34 shifts, it returns. The contexts stay.
pub encode_bins_ep-Coded :
    (bins k b n : ℕ) (e : Engine) (i : Interval)
    → Tracks 12 b n e i
    → k ≤ 31
    → bins < 2 ^ k
    → i.shifts + k < 2 ^ 34
    → (r : Engine × List Call) × (encode_bins_ep bins k e ≡ ok r)
      × Coded b n e.contexts (spec_bypasses k bins i) r
unfolding encode_bins_ep
encode_bins_ep-Coded bins k b n e i t hk hb few = (
  bins_loop (suc k) bins k e,
  rw (mod-eq_of_lt small, lt→ltb bins (2 ^ k) hb) refl,
  rw (spec_bypasses_lem k bins i hb)
      (bins_loop-Coded (suc k) bins k b n e i t (omega arith) hb few),
)
  where
    small : 2 ^ k < 2 ^ 32
    small = omega (arith, two-pow_mono k 31 hk)
