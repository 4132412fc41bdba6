-- ===== src/Cabac/Roundtrip.antt =====
-- A whole substream: ResetCabac, the symbols, FinishEncodeCTU at the end of a tile, and back.
use ces.Prelude.{
  ℕ, ◌+◌, ◌*◌, ◌^◌, ◌-◌, ◌<◌, ◌≡◌, refl, ap, ◌∙◌, Bool, true, false, List, [], ◌∷◌, ◌++◌, map,
  arith, ok, AllBelow, subst, two-pow_pos, sym, if◌then◌else◌,
}
use ces.Cabac.{Engine, Call, reset_cabac, finish_encode_ctu}
use ces.Cabac.Interval.{Interval, whole, spec_terminate}
use ces.Cabac.Calls.{emit, emit_bits, AllFit, emit-append, emit_bits-append, AllFit-append}
use ces.Cabac.Steps.{reset_cabac-Tracks}
use ces.Cabac.Finish.{after_slice_flag, Ended, finish_encode_ctu-Ended}
use ces.Cabac.Decode.{start}
use ces.Cabac.Decode.Contains.{Contains, At}
use ces.Cabac.Symbols.{
  Symbol, terminating, kind_of, answer_of, adapt_all, AllCodable, AllCodable-append, spec_all,
  encode_all, decode_all,
}
use ces.Cabac.Symbols.Encode.{encode_all-Coded, spec_all-shifts}
use ces.Cabac.Symbols.Decode.{decode_all-answers}
use native.Mathlib.Nat.{div-add-mod', mod-lt}

-- What FinishEncodeCTU codes behind the last symbol of a tile.
abbrev pub ending : Bool → List Symbol
ending is_last_slice_ctu =
    if is_last_slice_ctu then terminating true ∷ [] else terminating false ∷ terminating true ∷ []

abbrev pub with_ending : List Symbol → Bool → List Symbol
with_ending ss is_last_slice_ctu = ss ++ ending is_last_slice_ctu

spec_all-append :
    (ss ts : List Symbol) (contexts : List ℕ) (i : Interval)
    → spec_all (ss ++ ts) contexts i ≡ spec_all ts (adapt_all ss contexts) (spec_all ss contexts i)
spec_all-append [] ts contexts i = refl
spec_all-append (s ∷ ss) ts contexts i = spec_all-append ss ts _ _

spec_all-ending :
    (last : Bool) (contexts : List ℕ) (i : Interval)
    → spec_all (ending last) contexts i ≡ spec_terminate true (after_slice_flag last i)
spec_all-ending true contexts i = refl
spec_all-ending false contexts i = refl

AllCodable-ending : (last : Bool) → AllCodable (ending last)
AllCodable-ending true = (tt, tt)
AllCodable-ending false = (tt, (tt, tt))

At-start : (code bits : ℕ) → At code bits whole (start code bits)
At-start code bits = record {
  same_range = refl;
  same_bits = omega arith;
  parts = omega (arith, div-add-mod' code (2 ^ bits));
  rest_fits = mod-lt code (two-pow_pos bits);
}

-- The number of the bits written with the stop bit and seven bits 0 behind them.
abbrev pub code_of : List Call → ℕ
code_of calls = (emit 0 calls * 2 + 1) * 2 ^ 7

Ended-Contains :
    (i : Interval) (calls : List Call) → Ended 0 0 i calls → Contains (code_of calls) i.shifts i
Ended-Contains i calls h =
    let none : i.shifts - i.shifts ≡ 0 = omega arith in
    record {
      short = omega arith;
      above = rw none (omega (arith, h.above));
      below = rw none (omega (arith, h.below));
    }

Ended-append :
    (i : Interval) (calls calls' : List Call)
    → AllFit calls
    → Ended (emit 0 calls) (emit_bits 0 calls) i calls'
    → Ended 0 0 i (calls ++ calls')
Ended-append i calls calls' k h = record {
  above = rw (emit-append 0 calls calls') h.above;
  below = rw (emit-append 0 calls calls') h.below;
  count = rw (emit_bits-append 0 calls calls') h.count;
  fit = AllFit-append calls calls' k h.fit;
}

-- The decoder on the calls that end in the interval of the symbols.
Ended-answers :
    (ss : List Symbol) (e : Engine) (calls : List Call)
    → AllBelow 126 e.contexts
    → AllCodable ss
    → (spec_all ss e.contexts whole).shifts < 2 ^ 34
    → Ended 0 0 (spec_all ss e.contexts whole) calls
    → decode_all (map kind_of ss) e.contexts (start (code_of calls) (emit_bits 0 calls - 1))
      ≡ map answer_of ss
unfolding reset_cabac
Ended-answers ss e calls hs h few ended =
    let same : emit_bits 0 calls - 1 ≡ (spec_all ss e.contexts whole).shifts =
      omega (arith, ended.count) in
    rw same (
      decode_all-answers ss 0 0 (reset_cabac e) whole (code_of calls)
        (spec_all ss e.contexts whole).shifts _ (reset_cabac-Tracks e hs) h few
        (Ended-Contains (spec_all ss e.contexts whole) calls ended) (At-start _ _))

-- A substream is decodable: from ResetCabac, with context states below 126, the coder runs every
-- sequence of codable symbols, and FinishEncodeCTU ends it at a tile's end. The decoder of the standard
-- gets from the bits written, with the stop bit and seven bits 0 behind them, all symbols and the
-- terminating bits. Every call fits its length. Fewer than 2 ^ 34 shifts are made.
pub substream-roundtrip :
    (ss : List Symbol) (is_last_slice_ctu : Bool) (e : Engine)
    → AllBelow 126 e.contexts
    → AllCodable ss
    → (spec_all (with_ending ss is_last_slice_ctu) e.contexts whole).shifts < 2 ^ 34
    → (r : Engine × List Call) × (encode_all ss (reset_cabac e) ≡ ok r)
      × AllFit (r.1 ++ (finish_encode_ctu true is_last_slice_ctu r.0).1)
      × (decode_all (map kind_of (with_ending ss is_last_slice_ctu)) e.contexts (
            start
              (code_of (r.1 ++ (finish_encode_ctu true is_last_slice_ctu r.0).1))
              (emit_bits 0 (r.1 ++ (finish_encode_ctu true is_last_slice_ctu r.0).1) - 1))
          ≡ map answer_of (with_ending ss is_last_slice_ctu))
unfolding reset_cabac
substream-roundtrip ss last e hs h few =
    let (r, ran, coded) =
      encode_all-Coded ss 0 0 (reset_cabac e) whole (reset_cabac-Tracks e hs) h (
        omega (
          arith,
          few,
          ap (λ (j : Interval). j.shifts) (spec_all-append ss (ending last) e.contexts whole),
          spec_all-shifts (ending last) (adapt_all ss e.contexts) (spec_all ss e.contexts whole)
              (AllCodable-ending last),
        )) in
    let ended : Ended 0 0 (spec_all (with_ending ss last) e.contexts whole)
        (r.1 ++ (finish_encode_ctu true last r.0).1) =
      subst (λ (j : Interval). Ended 0 0 j (r.1 ++ (finish_encode_ctu true last r.0).1)) (sym ends)
        (Ended-append _ r.1 (finish_encode_ctu true last r.0).1 coded.fit (
          finish_encode_ctu-Ended last _ _ r.0 (spec_all ss e.contexts whole) coded.tracks
            (omega (arith, few, ap (λ (j : Interval). j.shifts) ends)))) in
    (
      r,
      ran,
      ended.fit,
      Ended-answers (with_ending ss last) e (r.1 ++ (finish_encode_ctu true last r.0).1) hs
          (AllCodable-append ss (ending last) h (AllCodable-ending last)) few ended,
    )
  where
    ends :
        spec_all (with_ending ss last) e.contexts whole
        ≡ spec_terminate true (after_slice_flag last (spec_all ss e.contexts whole))
    ends =
        spec_all-append ss (ending last) e.contexts whole
        ∙ spec_all-ending last (adapt_all ss e.contexts) (spec_all ss e.contexts whole)
