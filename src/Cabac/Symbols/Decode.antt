-- ===== src/Cabac/Symbols/Decode.antt =====
-- The decoder of the standard reads back what the encoder of the standard was given.
use ces.Prelude.{
  ℕ, zero, suc, ◌+◌, ◌-◌, ◌*◌, ◌/◌, ◌%◌, ◌^◌, ◌≤◌, ◌<◌, ◌≡◌, refl, ap, Bool, true, false, List, [],
  ◌∷◌, map, get_or, arith, AllBelow-get_or, subst, if◌then◌else◌, ℕ_discrete, ==_true, ne→==_false,
  two-pow-suc, two-pow_split,
}
use native.Mathlib.Nat.{mul-le-mul}
use ces.Cabac.{Engine, lps_of}
use ces.Cabac.Bounds.{lps_facts}
use ces.Cabac.Interval.{Interval, spec_bin, spec_bypass, spec_bypasses, spec_terminate, part}
use ces.Cabac.Value.{Tracks}
use ces.Cabac.Decode.{Decoder}
use ces.Cabac.Decode.Contains.{Contains, At, Contains-renorm, Contains-lower, Contains-upper}
use ces.Cabac.Decode.Steps.{
  Decoded, decode_bin-Decoded, decode_bypass-Decoded, decode_terminate-Decoded,
}
use ces.Cabac.Symbols.{
  Symbol, context_bin, bypass_bins, terminating, kind_of, answer_of, adapt, IsCodable, AllCodable,
  spec_symbol, spec_all, decode_bypasses, decode_symbol, decode_all,
}
use ces.Cabac.Symbols.Encode.{encode_symbol-Coded, spec_all-shifts}

Contains-part :
    (code bits bin mps lps : ℕ) (i : Interval)
    → lps ≤ i.range
    → Contains code bits (part bin mps lps i)
    → Contains code bits i
Contains-part code bits bin mps lps i h c = elim (ℕ_discrete bin mps) [
  | yes same ↦
      Contains-lower code bits (i.range - lps) i (omega arith)
        (subst (λ b. Contains code bits (parts b)) (==_true bin mps same) c)
  | no other ↦
      Contains-upper code bits lps i h
        (subst (λ b. Contains code bits (parts b)) (ne→==_false bin mps other) c)
]
  where
    parts : Bool → Interval
    parts lower =
        if lower
        then record i { range = i.range - lps }
        else record i { low = i.low + (i.range - lps); range = lps }

Contains-bypass :
    (code bits bin : ℕ) (i : Interval)
    → bin < 2
    → Contains code bits (spec_bypass bin i)
    → Contains code bits i
unfolding spec_bypass
Contains-bypass code bits bin i h c = record {
  short = omega (arith, c.short);
  above = omega (arith, c.above, ap (λ (u : ℕ). i.low * u) half);
  below = omega (arith, c.below, wider, ap (λ (u : ℕ). (i.low + i.range) * u) half);
}
  where
    half : 2 ^ (bits - i.shifts) ≡ 2 * 2 ^ (bits - (i.shifts + 1))
    half = two-pow_split 1 (bits - (i.shifts + 1)) (bits - i.shifts) (omega (arith, c.short))

    inside : 2 * i.low + bin * i.range + i.range ≤ 2 * (i.low + i.range)
    inside =
        let one_more : bin * i.range ≤ 1 * i.range = mul-le-mul (omega arith) (omega arith) in
        omega arith

    wider :
        (2 * i.low + bin * i.range + i.range) * 2 ^ (bits - (i.shifts + 1))
        ≤ 2 * (i.low + i.range) * 2 ^ (bits - (i.shifts + 1))
    wider = mul-le-mul inside (omega arith)

Contains-bypasses :
    (code bits n bins : ℕ) (i : Interval)
    → Contains code bits (spec_bypasses n bins i)
    → Contains code bits i
unfolding spec_bypasses
Contains-bypasses code bits zero bins i c = c
Contains-bypasses code bits (suc n) bins i c =
    Contains-bypasses code bits n (bins / 2) i
      (Contains-bypass code bits (bins % 2) _ (omega arith) c)

Contains-terminate :
    (code bits : ℕ) (bin : Bool) (i : Interval)
    → 2 ≤ i.range
    → Contains code bits (spec_terminate bin i)
    → Contains code bits i
unfolding spec_terminate
Contains-terminate code bits true i h c =
    Contains-upper code bits 2 i h (Contains-renorm 8 code bits _ c)
Contains-terminate code bits false i h c =
    Contains-lower code bits (i.range - 2) i (omega arith) (Contains-renorm 8 code bits _ c)

decode_bypasses-Decoded :
    (code bits n bins : ℕ) (i : Interval) (d : Decoder)
    → At code bits i d
    → bins < 2 ^ n
    → Contains code bits (spec_bypasses n bins i)
    → Decoded code bits bins (spec_bypasses n bins i) (decode_bypasses n d)
unfolding spec_bypasses
decode_bypasses-Decoded code bits zero bins i d a h c = (omega arith, a)
decode_bypasses-Decoded code bits (suc n) bins i d a h c =
    let high =
      decode_bypasses-Decoded code bits n (bins / 2) i d a (omega (arith, two-pow-suc n))
        (Contains-bypass code bits (bins % 2) _ (omega arith) c) in
    let low = decode_bypass-Decoded code bits (bins % 2) _ _ high.1 (omega arith) c in
    (omega (arith, high.0, low.0), low.1)

module _ (b n : ℕ) (e : Engine) (i : Interval) (t : Tracks 12 b n e i) (code bits : ℕ) where
  wide : 256 ≤ i.range
  wide = omega (arith, t.range, t.inv.range_lo)

  lps-le : (ctx : ℕ) → lps_of (get_or e.contexts ctx 0) i.range ≤ i.range
  lps-le ctx = omega (
    arith,
    (lps_facts (get_or e.contexts ctx 0) i.range
        (AllBelow-get_or 126 e.contexts ctx 0 t.inv.states (omega arith)) wide
        (omega (arith, t.range, t.inv.range_hi))).rest_lo,
  )

  Contains-symbol :
      (s : Symbol)
      → IsCodable s
      → Contains code bits (spec_symbol s e.contexts i)
      → Contains code bits i
  unfolding spec_bin
  Contains-symbol (context_bin bin ctx) h c =
      Contains-part code bits bin _ _ i (lps-le ctx) (Contains-renorm 8 code bits _ c)
  Contains-symbol (bypass_bins bins len) h c = Contains-bypasses code bits len bins i c
  Contains-symbol (terminating bin) h c = Contains-terminate code bits bin i (omega (arith, wide)) c

  decode_symbol-Decoded :
      (s : Symbol) (d : Decoder)
      → At code bits i d
      → IsCodable s
      → Contains code bits (spec_symbol s e.contexts i)
      → Decoded code bits
          (answer_of s)
          (spec_symbol s e.contexts i)
          (decode_symbol (kind_of s) e.contexts d)
  decode_symbol-Decoded (context_bin bin ctx) d a h c =
      decode_bin-Decoded code bits bin (get_or e.contexts ctx 0) i d a h (lps-le ctx) c
  decode_symbol-Decoded (bypass_bins bins len) d a h c =
      decode_bypasses-Decoded code bits len bins i d a h.1 c
  decode_symbol-Decoded (terminating bin) d a h c =
      let r = decode_terminate-Decoded code bits bin i d a (omega (arith, wide)) c in
      (ap (λ (v : Bool). if v then 1 else 0) r.0, r.1)

pub short_enough :
    (s : Symbol) (ss : List Symbol) (e : Engine) (i : Interval)
    → AllCodable (s ∷ ss)
    → (spec_all (s ∷ ss) e.contexts i).shifts < 2 ^ 34
    → (spec_symbol s e.contexts i).shifts < 2 ^ 34
short_enough s ss e i h few = omega (
  arith,
  few,
  spec_all-shifts ss (adapt (kind_of s) (answer_of s) e.contexts) (spec_symbol s e.contexts i) h.1,
)

pub Contains-all :
    (ss : List Symbol) (b n : ℕ) (e : Engine) (i : Interval) (code bits : ℕ)
    → Tracks 12 b n e i
    → AllCodable ss
    → (spec_all ss e.contexts i).shifts < 2 ^ 34
    → Contains code bits (spec_all ss e.contexts i)
    → Contains code bits i
Contains-all [] b n e i code bits t h few c = c
Contains-all (s ∷ ss) b n e i code bits t h few c =
    let (r, ran, first) = encode_symbol-Coded s b n e i t h.0 (short_enough s ss e i h few) in
    Contains-symbol b n e i t code bits s h.0 (
      Contains-all ss _ _ r.0 (spec_symbol s e.contexts i) code bits first.tracks h.1
        (rw first.contexts_eq few) (rw first.contexts_eq c))

-- The decoder finds all symbols of a code that lies in their interval.
pub decode_all-answers :
    (ss : List Symbol) (b n : ℕ) (e : Engine) (i : Interval) (code bits : ℕ) (d : Decoder)
    → Tracks 12 b n e i
    → AllCodable ss
    → (spec_all ss e.contexts i).shifts < 2 ^ 34
    → Contains code bits (spec_all ss e.contexts i)
    → At code bits i d
    → decode_all (map kind_of ss) e.contexts d ≡ map answer_of ss
decode_all-answers [] b n e i code bits d t h few c a = refl
decode_all-answers (s ∷ ss) b n e i code bits d t h few c a =
    let (r, ran, first) = encode_symbol-Coded s b n e i t h.0 (short_enough s ss e i h few) in
    let few' : (spec_all ss r.0.contexts (spec_symbol s e.contexts i)).shifts < 2 ^ 34 =
      rw first.contexts_eq few in
    let c' : Contains code bits (spec_all ss r.0.contexts (spec_symbol s e.contexts i)) =
      rw first.contexts_eq c in
    let found =
      decode_symbol-Decoded b n e i t code bits s d a h.0
        (Contains-all ss _ _ r.0 (spec_symbol s e.contexts i) code bits first.tracks h.1 few' c') in
    let rest : decode_all (map kind_of ss) r.0.contexts (decode_symbol (kind_of s) e.contexts d).1
        ≡ map answer_of ss =
      decode_all-answers ss _ _ r.0 (spec_symbol s e.contexts i) code bits _ first.tracks h.1 few'
        c' found.1 in
    rw (found.0, ← first.contexts_eq, rest) refl
