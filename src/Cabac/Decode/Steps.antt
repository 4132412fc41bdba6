-- ===== src/Cabac/Decode/Steps.antt =====
-- The decoder finds the value that the encoder narrowed the interval by.
use ces.Prelude.{
  ℕ, zero, suc, ◌+◌, ◌-◌, ◌*◌, ◌%◌, ◌^◌, ◌≤◌, ◌<◌, ◌≡◌, refl, sym, ap, Bool, true, false, ltb,
  arith, if◌then◌else◌, lt→ltb, le→ltb_false, ne→==_false, ==_true, ℕ_discrete, subst,
}
use ces.Cabac.{lps_of}
use ces.Cabac.Interval.{Interval, part, renorm, spec_bin, spec_bypass, spec_terminate}
use ces.Cabac.Decode.{Decoder, read_bit, renorm_bits, decode_bin, decode_bypass, decode_terminate}
use ces.Cabac.Decode.Contains.{
  Contains, At, Contains-renorm, At-renorm, At-read_bit, offset-lt, le-offset,
}

abbrev pub Decoded {ℓ} : {A : Type ℓ} → ℕ → ℕ → A → Interval → A × Decoder → Type ℓ
Decoded code bits value i r = (r.0 ≡ value) × At code bits i r.1

-- The two parts of an interval, as the decoder tells them apart.
lower_step :
    (code bits range : ℕ) {i : Interval} {d : Decoder}
    → At code bits i d
    → Contains code bits (renorm 8 (record i { range = range }))
    → (d.offset < range)
      × At code bits
          (renorm 8 (record i { range = range }))
          (renorm_bits 8 (record d { range = range }))
lower_step code bits range {i} {d} a h = (
  offset-lt code bits range i d a (rw rest inside.below),
  At-renorm 8 code bits _ _
      (record {
        same_range = refl;
        same_bits = a.same_bits;
        parts = a.parts;
        rest_fits = a.rest_fits;
      })
      h.short,
)
  where
    inside : Contains code bits (record i { range = range })
    inside = Contains-renorm 8 code bits _ h

    rest : d.rest ≡ bits - i.shifts
    rest = omega (arith, a.same_bits)

upper_step :
    (code bits range : ℕ) {i : Interval} {d : Decoder}
    → At code bits i d
    → range ≤ i.range
    → Contains code bits
        (renorm 8 (record { low = i.low + (i.range - range); range = range; shifts = i.shifts }))
    → (i.range - range ≤ d.offset)
      × At code bits
          (renorm 8 (record { low = i.low + (i.range - range); range = range; shifts = i.shifts }))
          (renorm_bits 8 (record d { range = range; offset = d.offset - (i.range - range) }))
upper_step code bits range {i} {d} a hr h = (
  beyond,
  At-renorm 8 code bits _ _
      (record {
        same_range = refl;
        same_bits = a.same_bits;
        parts = moved;
        rest_fits = a.rest_fits;
      })
      h.short,
)
  where
    inside :
        Contains code bits
          (record { low = i.low + (i.range - range); range = range; shifts = i.shifts })
    inside = Contains-renorm 8 code bits _ h

    rest : d.rest ≡ bits - i.shifts
    rest = omega (arith, a.same_bits)

    beyond : i.range - range ≤ d.offset
    beyond = le-offset code bits (i.range - range) i d a (rw rest inside.above)

    moved :
        (i.low + (i.range - range) + (d.offset - (i.range - range))) * 2 ^ d.rest + d.code ≡ code
    moved =
        let same : i.low + (i.range - range) + (d.offset - (i.range - range)) ≡ i.low + d.offset =
          omega (arith, beyond) in
        omega (arith, a.parts, ap (λ (u : ℕ). u * 2 ^ d.rest) same)

pub decode_bin-Decoded :
    (code bits bin state : ℕ) (i : Interval) (d : Decoder)
    → At code bits i d
    → bin < 2
    → lps_of state i.range ≤ i.range
    → Contains code bits (spec_bin bin state i)
    → Decoded code bits bin (spec_bin bin state i) (decode_bin state d)
unfolding decode_bin spec_bin
decode_bin-Decoded code bits bin state i d a hb hl h =
    rw (a.same_range) (go (ℕ_discrete bin (state % 2)))
  where
    lps : ℕ
    lps = lps_of state i.range

    go :
        Dec (bin ≡ state % 2)
        → Decoded code bits bin (renorm 8 (part bin (state % 2) lps i)) (
            if ltb d.offset (i.range - lps)
            then (state % 2, renorm_bits 8 (record d { range = i.range - lps }))
            else (
              1 - state % 2,
              renorm_bits 8 (record d { range = lps; offset = d.offset - (i.range - lps) }),
            ))
    go (yes same) =
        let c : Contains code bits (renorm 8 (record i { range = i.range - lps })) =
          subst
            (λ b. Contains code bits (
              renorm 8 (
                if b
                then record i { range = i.range - lps }
                else record { low = i.low + (i.range - lps); range = lps; shifts = i.shifts })))
            (==_true bin (state % 2) same) h in
        let s = lower_step code bits (i.range - lps) a c in
        rw (==_true bin (state % 2) same, lt→ltb d.offset (i.range - lps) s.0) (sym same, s.1)
    go (no other) =
        let c : Contains code bits
            (renorm 8 (record { low = i.low + (i.range - lps); range = lps; shifts = i.shifts })) =
          subst
            (λ b. Contains code bits (
              renorm 8 (
                if b
                then record i { range = i.range - lps }
                else record { low = i.low + (i.range - lps); range = lps; shifts = i.shifts })))
            (ne→==_false bin (state % 2) other) h in
        let s = upper_step code bits lps a hl c in
        rw (ne→==_false bin (state % 2) other, le→ltb_false d.offset (i.range - lps) s.0)
          (omega arith, s.1)

pub decode_bypass-Decoded :
    (code bits bin : ℕ) (i : Interval) (d : Decoder)
    → At code bits i d
    → bin < 2
    → Contains code bits (spec_bypass bin i)
    → Decoded code bits bin (spec_bypass bin i) (decode_bypass d)
unfolding decode_bypass spec_bypass
decode_bypass-Decoded code bits bin i d a hb h = rw (a.same_range) (go bin hb h)
  where
    rest : d.rest - 1 ≡ bits - (i.shifts + 1)
    rest = omega (arith, a.same_bits)

    twice : Interval
    twice = record { low = i.low * 2; range = i.range; shifts = i.shifts + 1 }

    go :
        (bin : ℕ)
        → bin < 2
        → Contains code bits
            (record { low = 2 * i.low + bin * i.range; range = i.range; shifts = i.shifts + 1 })
        → Decoded code bits bin
            (record { low = 2 * i.low + bin * i.range; range = i.range; shifts = i.shifts + 1 })
            (if ltb (read_bit d).offset i.range
              then (0, record (read_bit d) { range = i.range })
              else (
                1,
                record (read_bit d) { range = i.range; offset = (read_bit d).offset - i.range },
              ))
    go zero hb h =
        let at : At code bits twice (record (read_bit d) { range = i.range }) =
          At-read_bit code bits i.range i d a (omega (arith, h.short)) in
        let same : 2 * i.low + 0 * i.range ≡ i.low * 2 = omega arith in
        let below : (read_bit d).offset < i.range =
          offset-lt code bits i.range twice _ at (rw (rest, ← same) h.below) in
        rw (lt→ltb (read_bit d).offset i.range below, same) (refl, at)
    go (suc zero) hb h =
        let at : At code bits twice (record (read_bit d) { range = i.range }) =
          At-read_bit code bits i.range i d a (omega (arith, h.short)) in
        let same : 2 * i.low + 1 * i.range ≡ i.low * 2 + i.range = omega arith in
        let beyond : i.range ≤ (read_bit d).offset =
          le-offset code bits i.range twice _ at (rw (rest, ← same) h.above) in
        let moved : i.low * 2 + i.range + ((read_bit d).offset - i.range)
            ≡ i.low * 2 + (read_bit d).offset =
          omega (arith, beyond) in
        rw (le→ltb_false (read_bit d).offset i.range beyond, same)
          (
            refl,
            record {
              same_range = refl;
              same_bits = at.same_bits;
              parts = rw moved at.parts;
              rest_fits = at.rest_fits;
            },
          )
    go (suc (suc n)) hb h = absurd (omega arith)

pub decode_terminate-Decoded :
    (code bits : ℕ) (bin : Bool) (i : Interval) (d : Decoder)
    → At code bits i d
    → 2 ≤ i.range
    → Contains code bits (spec_terminate bin i)
    → Decoded code bits bin (spec_terminate bin i) (decode_terminate d)
unfolding decode_terminate spec_terminate
decode_terminate-Decoded code bits true i d a hr h =
    let s = upper_step code bits 2 a hr h in
    rw (a.same_range, le→ltb_false d.offset (i.range - 2) s.0) (refl, s.1)
decode_terminate-Decoded code bits false i d a hr h =
    let s = lower_step code bits (i.range - 2) a h in
    rw (a.same_range, lt→ltb d.offset (i.range - 2) s.0) (refl, s.1)
