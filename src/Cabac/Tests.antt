-- ===== src/Cabac/Tests.antt =====
-- Runs of the coder, and the theorems at concrete inputs.
use ces.Prelude.{
  ◌*◌, replicate, ◌-◌, ◌≡◌, refl, true, false, List, [], ◌∷◌, ◌++◌, map, ok, arith, AllBelow, set,
}
use ces.Cabac.{
  Call, code_bin, less_probable, Engine, reset_cabac, encode_bin, encode_bins_ep,
  encode_terminating_bit, write_output, flush, finish_encode_ctu, lps_of,
}
use ces.Cabac.Tables.{lps_at, renorm_at, lps_next, mps_next}
use ces.Cabac.Interval.{whole, renorm, spec_bin, spec_bypass, spec_bypasses, spec_terminate}
use ces.Cabac.Calls.{emit_bits, AllFit}
use ces.Cabac.Value.{Tracks, Coded}
use ces.Cabac.Steps.{
  reset_cabac-Tracks, next_state, encode_bin-Coded, encode_bins_ep-Coded,
  encode_terminating_bit-Coded,
}
use ces.Cabac.Flush.{Flushed, flush-Flushed}
use ces.Cabac.Finish.{after_slice_flag, Ended, finish_encode_ctu-Coded, finish_encode_ctu-Ended}
use ces.Cabac.Decode.{start}
use ces.Cabac.Symbols.{
  Symbol, context_bin, bypass_bins, terminating, kind_of, answer_of, adapt_all, AllCodable,
  spec_all, encode_all, decode_all,
}
use ces.Cabac.Symbols.Encode.{encode_all-Coded}
use ces.Prelude.Int.{◌+ℤ◌, ◌*ℤ◌}
use ces.Macros.{clip3}
use ces.Cabac.Contexts.{init_cabac, init_state, state_of}
use ces.Cabac.Contexts.Tables.{i_slice}
use ces.Cabac.Contexts.Bounds.{init_cabac-Tracks}
use ces.Cabac.Scan.{IsScan, scans_visit_all}
use ces.Cabac.Scan.Largest.{scan_idx_32}
use ces.Cabac.Scan.Tables.{
  scan_idx_2, scan_idx_4, scan_idx_8, scan_idx_16, sig_last_scan_8x8, sig_last_scan_cg_32x32,
}
use ces.Cabac.Roundtrip.{with_ending, code_of, substream-roundtrip}

-- Two contexts, the one sure of 0 and the other of 1.
abbrev ready : Engine
ready = record {
  low = 0;
  range = 510;
  bits_left = 23;
  buffer = 0xff;
  num_byte = 0;
  contexts = 20 ∷ 77 ∷ [];
}

abbrev symbols : List Symbol
symbols =
    context_bin 1 0
    ∷ context_bin 1 1
    ∷ bypass_bins 1234 11
    ∷ context_bin 0 1
    ∷ terminating false
    ∷ []

reset_run : reset_cabac ready ≡ ready
unfolding reset_cabac
reset_run = refl

two_states : AllBelow 126 ready.contexts
two_states = (omega arith, (omega arith, tt))

ready-Tracks : Tracks 12 0 0 ready whole
unfolding reset_cabac
ready-Tracks = reset_cabac-Tracks ready two_states

-- The less probable value of the first context.
bin_run : (encode_bin 1 0 ready).0.range ≡ 284
unfolding encode_bin write_output code_bin less_probable renorm_at lps_of lps_at
bin_run = refl

reset_cabac-Tracks_example : Tracks 12 0 0 (reset_cabac ready) whole
reset_cabac-Tracks_example = reset_cabac-Tracks ready two_states

encode_bin-Coded_example :
    Coded 0 0 (set ready.contexts 0 (next_state 1 20)) (spec_bin 1 20 whole) (encode_bin 1 0 ready)
unfolding spec_bin renorm lps_of lps_at
encode_bin-Coded_example = encode_bin-Coded 1 0 0 0 ready whole ready-Tracks (omega arith)

encode_bins_ep-Coded_example :
    (r : Engine × List Call) × (encode_bins_ep 1234 11 ready ≡ ok r)
    × Coded 0 0 ready.contexts (spec_bypasses 11 1234 whole) r
encode_bins_ep-Coded_example =
    encode_bins_ep-Coded 1234 11 0 0 ready whole ready-Tracks (omega arith) (omega arith)
      (omega arith)

encode_terminating_bit-Coded_example :
    Coded 0 0 ready.contexts (spec_terminate true whole) (encode_terminating_bit true ready)
unfolding spec_terminate renorm
encode_terminating_bit-Coded_example =
    encode_terminating_bit-Coded true 0 0 ready whole ready-Tracks (omega arith)

flush-Flushed_example : Flushed 0 0 whole (flush ready).1
flush-Flushed_example = flush-Flushed 0 0 ready whole ready-Tracks

finish_encode_ctu-Coded_example :
    Coded 0 0 ready.contexts (after_slice_flag false whole) (finish_encode_ctu false false ready)
unfolding spec_terminate renorm
finish_encode_ctu-Coded_example =
    finish_encode_ctu-Coded false 0 0 ready whole ready-Tracks (omega arith)

finish_encode_ctu-Ended_example :
    Ended 0 0
      (spec_terminate true (after_slice_flag false whole))
      (finish_encode_ctu true false ready).1
unfolding spec_terminate renorm
finish_encode_ctu-Ended_example =
    finish_encode_ctu-Ended false 0 0 ready whole ready-Tracks (omega arith)

all_codable : AllCodable symbols
all_codable = (omega arith, (omega arith, ((omega arith, omega arith), (omega arith, (tt, tt)))))

encode_all-Coded_example :
    (r : Engine × List Call) × (encode_all symbols ready ≡ ok r)
    × Coded 0 0 (adapt_all symbols ready.contexts) (spec_all symbols ready.contexts whole) r
unfolding spec_bin spec_bypasses spec_bypass spec_terminate renorm lps_of lps_at lps_next mps_next
encode_all-Coded_example =
    encode_all-Coded symbols 0 0 ready whole ready-Tracks all_codable (omega arith)

substream-roundtrip_example :
    (r : Engine × List Call) × (encode_all symbols (reset_cabac ready) ≡ ok r)
    × AllFit (r.1 ++ (finish_encode_ctu true true r.0).1)
    × (decode_all (map kind_of (with_ending symbols true)) ready.contexts (
          start
            (code_of (r.1 ++ (finish_encode_ctu true true r.0).1))
            (emit_bits 0 (r.1 ++ (finish_encode_ctu true true r.0).1) - 1))
        ≡ map answer_of (with_ending symbols true))
unfolding spec_bin spec_bypasses spec_bypass spec_terminate renorm lps_of lps_at lps_next mps_next
substream-roundtrip_example =
    substream-roundtrip symbols true ready two_states all_codable (omega arith)

-- Every context uninitialised.
abbrev blank : Engine
blank = record ready { contexts = replicate 182 255 }

init_cabac-Tracks_example :
    Tracks 12 0 0 (init_cabac 30 i_slice blank) whole
    × AllBelow 126 (init_cabac 30 i_slice blank).contexts
init_cabac-Tracks_example = init_cabac-Tracks 30 i_slice blank refl

-- The value of contexts that are not used stands for the same chance at every QP.
unused_run : (state_of (init_state 0 154) ≡ 1) × (state_of (init_state 51 154) ≡ 1)
unfolding state_of init_state clip3 ◌+ℤ◌ ◌*ℤ◌
unused_run = (refl, refl)

-- The diagonal scans.
scans_visit_all_example :
    IsScan (2 * 2) (scan_idx_2 3)
    × IsScan (4 * 4) (scan_idx_4 3)
    × IsScan (8 * 8) (scan_idx_8 3)
    × IsScan (16 * 16) (scan_idx_16 3)
    × IsScan (32 * 32) (scan_idx_32 3)
    × IsScan (2 * 2) (sig_last_scan_8x8 3)
    × IsScan (8 * 8) sig_last_scan_cg_32x32
scans_visit_all_example = scans_visit_all 3 (omega arith)
