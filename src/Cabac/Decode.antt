-- ===== src/Cabac/Decode.antt =====
-- The arithmetic decoder of the standard (9.3.4.3), over a code of known length.
pub mod Contains
pub mod Steps
use ces.Prelude.{
  ℕ, zero, suc, ◌+◌, ◌-◌, ◌*◌, ◌/◌, ◌%◌, ◌^◌, ◌≤◌, ◌<◌, ◌≡◌, Bool, true, false, ltb, if◌then◌else◌,
}
use ces.Cabac.{lps_of}
use ces.Cabac.Interval.{Interval}

-- `rest` bits are not read yet: they are the number `code`.
pub record Decoder : Type 0 where
  pub range : ℕ
  pub offset : ℕ
  pub code : ℕ
  pub rest : ℕ

-- 9.3.2.5: nine bits are read.
abbrev pub start : ℕ → ℕ → Decoder
start code bits = record {
  range = 510;
  offset = code / 2 ^ bits;
  code = code % 2 ^ bits;
  rest = bits;
}

-- read_bits(1) behind the offset
abbrev pub read_bit : Decoder → Decoder
read_bit d = record d {
  offset = d.offset * 2 + d.code / 2 ^ (d.rest - 1);
  code = d.code % 2 ^ (d.rest - 1);
  rest = d.rest - 1;
}

-- RenormD
pub renorm_bits : ℕ → Decoder → Decoder
renorm_bits zero d = d
renorm_bits (suc f) d = elim (ltb d.range 256) [
  | true ↦ renorm_bits f (record (read_bit d) { range = d.range * 2 })
  | false ↦ d
]

-- DecodeDecision
pub decode_bin : ℕ → Decoder → ℕ × Decoder
decode_bin state d =
    let lps = lps_of state d.range in
    if ltb d.offset (d.range - lps)
    then (state % 2, renorm_bits 8 (record d { range = d.range - lps }))
    else (
      1 - state % 2,
      renorm_bits 8 (record d { range = lps; offset = d.offset - (d.range - lps) }),
    )

-- DecodeBypass
pub decode_bypass : Decoder → ℕ × Decoder
decode_bypass d =
    let d' = read_bit d in
    if ltb d'.offset d'.range then (0, d') else (1, record d' { offset = d'.offset - d'.range })

-- DecodeTerminate, with the renormalisation where the value is 1 as well.
pub decode_terminate : Decoder → Bool × Decoder
decode_terminate d =
    if ltb d.offset (d.range - 2)
    then (false, renorm_bits 8 (record d { range = d.range - 2 }))
    else (true, renorm_bits 8 (record d { range = 2; offset = d.offset - (d.range - 2) }))
