-- ===== src/H265Headers/Nal.antt =====
-- What the calls of src/H265Headers.cpp append to the payload of a stream, as bits.
pub mod Whole
use ces.Prelude.{
  ℕ, zero, suc, ◌+◌, ◌-◌, ◌*◌, ◌/◌, ◌%◌, ◌^◌, ◌≤◌, ◌<◌, ◌≡◌, ◌≢◌, refl, sym, ap, ap₂, ◌∙◌, subst,
  Bool, true, false, List, [], ◌∷◌, ◌++◌, map, append_assoc, append-nil, Outcome, ok, ◌>>=◌, length,
  length-append, replicate, length-replicate, arith, bits, bits-append, bits-zero, bytes_of, lt→ltb,
  if◌then◌else◌, two-pow_pos, two-pow_mono,
}
use ces.BitStream.{
  Stream, put_code, put_un, put_uv, put_sv, init_word_level, put_start_code,
  write_rbsp_trailing_bits, flush_rem_bytes, behind, code_of_signed,
}
use ces.BitStream.Payload.{Holds, put_code-Holds, put_code-total, emitted, length-flush_bytes}
use ces.BitStream.Golomb.{put_uv-appends, signed_of_code-code_of_signed}
use ces.BitStream.Emulation.{read_nal, NoStartCode}
use ces.BitStream.Finish.{
  start_code, put_start_code-Holds, trailing_bits-Holds, flush_rem_bytes-read_nal,
}
use ces.H265Headers.{
  Element, fixed_bits, unsigned_golomb, signed_golomb, put_element, put_elements, write_set,
}
use ces.H265Headers.Reading.{Fits, AllFit, element_bits, all_bits, ue_bits}

-- The payload of a stream as a list of bits.
pub record Carries (base : List ℕ) (s : Stream) (payload : List ℕ) : Type 0 where
  pub count : ℕ
  pub number : ℕ
  pub holds : Holds base true s count number
  pub same : bits count number ≡ payload

pub length-bits : (n v : ℕ) → length (bits n v) ≡ n
length-bits zero v = refl
length-bits (suc n) v =
    omega (arith, length-append (bits n (v / 2)) (v % 2 ∷ []), length-bits n (v / 2))

-- A call appended `code`: it returned, wrote at most `room` bytes, and left the allocation as it was.
pub record Appended (base : List ℕ) (s : Stream) (payload : List ℕ) (room : ℕ)
    (run : Outcome Stream) : Type 0 where
  pub after : Stream
  pub returned : run ≡ ok after
  pub carries : Carries base after payload
  pub grown : length after.written ≤ length s.written + room
  pub kept : after.alloc_bytes ≡ s.alloc_bytes

pub put_code-Appended :
    {base : List ℕ} (code len : ℕ) {s : Stream} {payload : List ℕ}
    → Carries base s payload
    → len ≤ 32
    → code < 2 ^ len
    → length s.written + 8 < s.alloc_bytes
    → Appended base s (payload ++ bits len code) 8 (put_code code len true s)
put_code-Appended code len {s} h hl hc room =
    let (t, e, grown, kept) = put_code-total code len true s room in
    record {
      after = t;
      returned = e;
      carries = record {
        count = h.count + len;
        number = h.number * 2 ^ len + code;
        holds = put_code-Holds code len h.holds hl hc e;
        same =
            bits-append h.count len h.number code hc
            ∙ ap (λ (l : List ℕ). l ++ bits len code) h.same;
      };
      grown = grown;
      kept = kept;
    }

pub put_uv-Appended :
    {base : List ℕ} (code : ℕ) {s : Stream} {payload : List ℕ}
    → Carries base s payload
    → code + 1 < 2 ^ 32
    → length s.written + 16 < s.alloc_bytes
    → Appended base s (payload ++ ue_bits code) 16 (put_uv code s)
put_uv-Appended {base} code {s} {payload} h small room =
    let (p, t, e₀, top, e, held, grown, kept) = put_uv-appends code h.holds small room in
    let less : p + 1 - 1 ≡ p = omega arith in
    let fits : code + 1 < 2 ^ (p + suc p) =
      omega (arith, top.1, two-pow_mono (suc p) (p + suc p) (omega arith)) in
    record {
      after = t;
      returned = e;
      carries = record {
        count = h.count + (p + suc p);
        number = h.number * 2 ^ (p + suc p) + (code + 1);
        holds = held;
        same =
            rw (e₀, less)
              (bits-append h.count (p + suc p) h.number (code + 1) fits
                ∙ ap (λ (l : List ℕ). l ++ bits (p + suc p) (code + 1)) h.same);
      };
      grown = grown;
      kept = kept;
    }

pub put_element-Appended :
    {base : List ℕ} (e : Element) {s : Stream} {payload : List ℕ}
    → Carries base s payload
    → Fits e
    → length s.written + 16 < s.alloc_bytes
    → Appended base s (payload ++ element_bits e) 16 (put_element e s)
unfolding put_element put_un put_sv
put_element-Appended (fixed_bits code len) {s} h fits room =
    let a = put_code-Appended code len h fits.1 fits.2 (omega arith) in
    record {
      after = a.after;
      returned = rw (lt→ltb 0 len fits.0) a.returned;
      carries = a.carries;
      grown = omega (arith, a.grown);
      kept = a.kept;
    }
put_element-Appended (unsigned_golomb code) h fits room = put_uv-Appended code h fits room
put_element-Appended (signed_golomb code) h fits room =
    put_uv-Appended (code_of_signed code) h (signed_of_code-code_of_signed code fits.0 fits.1).0
      room

-- Elements that fit are appended one after the other, where there is room for sixteen bytes each.
pub put_elements-Appended :
    {base : List ℕ} (es : List Element) {s : Stream} {payload : List ℕ}
    → Carries base s payload
    → AllFit es
    → length s.written + 16 * length es < s.alloc_bytes
    → Appended base s (payload ++ all_bits es) (16 * length es) (put_elements es s)
unfolding put_elements
put_elements-Appended {base} [] {s} {payload} h fits room = record {
  after = s;
  returned = refl;
  carries = subst (Carries base s) (sym (append-nil payload)) h;
  grown = omega arith;
  kept = refl;
}
put_elements-Appended {base} (e ∷ es) {s} {payload} h fits room =
    let a = put_element-Appended e h fits.0 (omega arith) in
    let b = put_elements-Appended es a.carries fits.1 (omega (arith, a.grown, a.kept)) in
    record {
      after = b.after;
      returned = rw a.returned b.returned;
      carries =
          subst (Carries base b.after) (append_assoc payload (element_bits e) (all_bits es))
            b.carries;
      grown = omega (arith, a.grown, b.grown);
      kept = b.kept ∙ a.kept;
    }

length-emitted :
    (base words : List ℕ) (emu : Bool)
    → length (emitted base emu words) ≤ length base + 8 * length words
length-emitted base [] emu = omega arith
length-emitted base (w ∷ ws) emu =
    omega (arith, length-flush_bytes 4 w emu (emitted base emu ws), length-emitted base ws emu)

-- The bytes that were written are at most a quarter of the bits of the payload: two for a byte, as emulation
-- prevention puts at most one byte in front of another.
pub Carries-room :
    {base : List ℕ} {s : Stream} {payload : List ℕ}
    → Carries base s payload
    → 4 * length s.written ≤ 4 * length base + length payload
Carries-room {base} {s} {payload} h = omega (
  arith,
  ap length h.holds.in_buffer,
  length-emitted base h.holds.words true,
  h.holds.bits,
  length-bits h.count h.number,
  ap length h.same,
)

-- The same elements where there is room for their bits, with 16 bytes to spare.
pub put_elements-within :
    {base : List ℕ} (es : List Element) {s : Stream} {payload : List ℕ}
    → Carries base s payload
    → AllFit es
    → 4 * length base + length payload + length (all_bits es) + 64 < 4 * s.alloc_bytes
    → (t : Stream) × (put_elements es s ≡ ok t)
      × Carries base t (payload ++ all_bits es)
      × (t.alloc_bytes ≡ s.alloc_bytes)
unfolding put_elements
put_elements-within {base} [] {s} {payload} h fits room =
    (s, refl, subst (Carries base s) (sym (append-nil payload)) h, refl)
put_elements-within {base} (e ∷ es) {s} {payload} h fits room =
    let parts = length-append (element_bits e) (all_bits es) in
    let a = put_element-Appended e h fits.0 (omega (arith, Carries-room h)) in
    let (t, ran, carried, kept) =
      put_elements-within es a.carries fits.1
        (omega (arith, parts, length-append payload (element_bits e), a.kept)) in
    (
      t,
      rw a.returned ran,
      subst (Carries base t) (append_assoc payload (element_bits e) (all_bits es)) carried,
      kept ∙ a.kept,
    )
