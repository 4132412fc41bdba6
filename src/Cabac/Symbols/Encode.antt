-- ===== src/Cabac/Symbols/Encode.antt =====
-- The coder runs any sequence of symbols and stays with the encoder of the standard.
use ces.Prelude.{
  ℕ, ◌%◌, ◌^◌, ◌≤◌, ◌<◌, ◌≡◌, refl, ap, true, false, List, [], ◌∷◌, ◌++◌, get_or, subst, arith, ok,
}
use ces.Cabac.{Call, Engine, lps_of}
use ces.Cabac.Interval.{Interval, part, spec_bin, spec_terminate, spec_bypasses_lem}
use ces.Cabac.Decode.Contains.{renorm-shifts}
use ces.Cabac.Calls.{emit, emit_bits}
use ces.Cabac.Value.{Tracks, Coded}
use ces.Cabac.Steps.{encode_bin-Coded, encode_bins_ep-Coded, encode_terminating_bit-Coded}
use ces.Cabac.Steps.Bypass.{Coded-append}
use ces.Cabac.Symbols.{
  Symbol, context_bin, bypass_bins, terminating, kind_of, answer_of, adapt, adapt_all, IsCodable,
  AllCodable, spec_symbol, spec_all, encode_symbol, encode_all,
}

part-shifts : (bin mps lps : ℕ) (i : Interval) → (part bin mps lps i).shifts ≡ i.shifts
part-shifts bin mps lps i = ground arith

spec_bin-shifts : (bin state : ℕ) (i : Interval) → i.shifts ≤ (spec_bin bin state i).shifts
unfolding spec_bin
spec_bin-shifts bin state i =
    subst (λ (n : ℕ). n ≤ (spec_bin bin state i).shifts)
      (part-shifts bin (state % 2) (lps_of state i.range) i)
      (renorm-shifts 8 (part bin (state % 2) (lps_of state i.range) i))

pub spec_symbol-shifts :
    (s : Symbol) (contexts : List ℕ) (i : Interval)
    → IsCodable s
    → i.shifts ≤ (spec_symbol s contexts i).shifts
unfolding spec_terminate
spec_symbol-shifts (context_bin bin ctx) contexts i h =
    spec_bin-shifts bin (get_or contexts ctx 0) i
spec_symbol-shifts (bypass_bins bins len) contexts i h =
    omega (arith, ap (λ (j : Interval). j.shifts) (spec_bypasses_lem len bins i h.1))
spec_symbol-shifts (terminating true) contexts i h = renorm-shifts 8 _
spec_symbol-shifts (terminating false) contexts i h = renorm-shifts 8 _

pub spec_all-shifts :
    (ss : List Symbol) (contexts : List ℕ) (i : Interval)
    → AllCodable ss
    → i.shifts ≤ (spec_all ss contexts i).shifts
spec_all-shifts [] contexts i h = omega arith
spec_all-shifts (s ∷ ss) contexts i h = omega (
  arith,
  spec_symbol-shifts s contexts i h.0,
  spec_all-shifts ss (adapt (kind_of s) (answer_of s) contexts) (spec_symbol s contexts i) h.1,
)

pub encode_symbol-Coded :
    (s : Symbol) (b n : ℕ) (e : Engine) (i : Interval)
    → Tracks 12 b n e i
    → IsCodable s
    → (spec_symbol s e.contexts i).shifts < 2 ^ 34
    → (r : Engine × List Call) × (encode_symbol s e ≡ ok r)
      × Coded b n (adapt (kind_of s) (answer_of s) e.contexts) (spec_symbol s e.contexts i) r
encode_symbol-Coded (context_bin bin ctx) b n e i t h few =
    (_, refl, encode_bin-Coded bin ctx b n e i t few)
encode_symbol-Coded (bypass_bins bins len) b n e i t h few =
    encode_bins_ep-Coded bins len b n e i t h.0 h.1
      (omega (arith, few, ap (λ (j : Interval). j.shifts) (spec_bypasses_lem len bins i h.1)))
encode_symbol-Coded (terminating bin) b n e i t h few =
    (_, refl, encode_terminating_bit-Coded bin b n e i t few)

-- The symbols from an engine with the contexts `c`.
abbrev Runs : List Symbol → ℕ → ℕ → Engine → List ℕ → Interval → Type 0
Runs ss b n e c i =
    (spec_all ss c i).shifts < 2 ^ 34
    → (r : Engine × List Call) × (encode_all ss e ≡ ok r)
      × Coded b n (adapt_all ss c) (spec_all ss c i) r

encode_then :
    (s : Symbol) (ss : List Symbol) (b n : ℕ) (e : Engine) (i : Interval) {c : List ℕ}
    {i' : Interval}
    → (r : Engine × List Call) × (encode_symbol s e ≡ ok r) × Coded b n c i' r
    → ((b' n' : ℕ) (e' : Engine)
        → e'.contexts ≡ c
        → Tracks 12 b' n' e' i'
        → (r : Engine × List Call) × (encode_all ss e' ≡ ok r)
          × Coded b' n' (adapt_all ss c) (spec_all ss c i') r)
    → (r : Engine × List Call) × (encode_all (s ∷ ss) e ≡ ok r)
      × Coded b n (adapt_all ss c) (spec_all ss c i') r
unfolding encode_all
encode_then s ss b n e i ((e', calls), ran, first) loop =
    let ((e'', calls'), ran', rest) =
      loop (emit b calls) (emit_bits n calls) e' first.contexts_eq first.tracks in
    ((e'', calls ++ calls'), rw (ran, ran') refl, Coded-append b n first rest)

-- The coder runs every sequence of codable symbols without a failed assertion, and follows the encoder
-- of the standard through it, where fewer than 2 ^ 34 shifts are made.
pub encode_all-Coded :
    (ss : List Symbol) (b n : ℕ) (e : Engine) (i : Interval)
    → Tracks 12 b n e i
    → AllCodable ss
    → (spec_all ss e.contexts i).shifts < 2 ^ 34
    → (r : Engine × List Call) × (encode_all ss e ≡ ok r)
      × Coded b n (adapt_all ss e.contexts) (spec_all ss e.contexts i) r
unfolding encode_all
encode_all-Coded [] b n e i t h few =
    ((e, []), refl, record { tracks = t; fit = tt; contexts_eq = refl })
encode_all-Coded (s ∷ ss) b n e i t h few =
    encode_then s ss b n e i
      (encode_symbol-Coded s b n e i t h.0 (
        omega (
          arith,
          few,
          spec_all-shifts ss (adapt (kind_of s) (answer_of s) e.contexts)
              (spec_symbol s e.contexts i) h.1,
        )))
      (λ b' n' e' q t'.
        subst (λ c. Runs ss b' n' e' c (spec_symbol s e.contexts i)) q
          (λ few'. encode_all-Coded ss b' n' e' (spec_symbol s e.contexts i) t' h.1 few') few)
