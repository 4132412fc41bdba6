-- ===== src/H265Headers/Nal/Whole.antt =====
-- The NAL units that src/H265Headers.cpp writes, as the bits that a reader of the standard gets from them.
use ces.Prelude.{
  ℕ, zero, suc, ◌+◌, ◌*◌, ◌/◌, ◌%◌, ◌^◌, ◌<◌, ◌≡◌, ◌≢◌, refl, sym, ap, ap₂, ◌∙◌, true, false, List,
  [], ◌∷◌, ◌++◌, append_assoc, Outcome, ok, ◌>>=◌, length, length-append, replicate,
  length-replicate, arith, bits, bits-append, bits-zero, bytes_of, two-pow_pos,
}
use ces.BitStream.{
  Stream, put_code, init_word_level, put_start_code, write_rbsp_trailing_bits, flush_rem_bytes,
  behind,
}
use ces.BitStream.Emulation.{read_nal, NoStartCode}
use ces.BitStream.Finish.{
  start_code, put_start_code-Holds, trailing_bits-Holds, flush_rem_bytes-read_nal,
}
use ces.H265Headers.{Element, put_elements, write_set}
use ces.H265Headers.Reading.{AllFit, all_bits}
use ces.H265Headers.Nal.{Carries, put_code-Appended, put_elements-Appended, length-bits}

-- The bits of bytes of which the last one stands first.
abbrev pub byte_bits : List ℕ → List ℕ
byte_bits [] = []
byte_bits (b ∷ bs) = byte_bits bs ++ bits 8 b

byte_bits-bytes_of : (k v : ℕ) → byte_bits (bytes_of k v) ≡ bits (8 * k) v
byte_bits-bytes_of zero v = refl
byte_bits-bytes_of (suc k) v =
    let longer : 8 * k + 8 ≡ 8 * suc k = omega arith in
    let whole : v / 256 * 2 ^ 8 + v % 256 ≡ v = omega arith in
    ap (λ (l : List ℕ). l ++ bits 8 (v % 256)) (byte_bits-bytes_of k (v / 256))
    ∙ sym (bits-append (8 * k) 8 (v / 256) (v % 256) (omega arith))
    ∙ ap₂ bits longer whole

-- A run returned, and behind `base` it left a NAL unit that holds no start code and from which a reader of the
-- standard gets bytes with the bits of `payload`.
pub record NalUnit (base : List ℕ) (run : Outcome Stream) (payload : List ℕ) : Type 0 where
  pub after : Stream
  pub nal : List ℕ
  pub returned : run ≡ ok after
  pub placed : after.written ≡ nal ++ base
  pub meant : byte_bits (read_nal nal).0 ≡ payload
  pub no_start_code : NoStartCode nal

Carries-count :
    {base : List ℕ} {s : Stream} {payload : List ℕ} (h : Carries base s payload)
    → h.count ≡ length payload
Carries-count h = sym (length-bits h.count h.number) ∙ ap length h.same

-- The flush of a payload of whole bytes.
pub flush-NalUnit :
    {base : List ℕ} {s : Stream} {payload : List ℕ}
    → Carries base s payload
    → behind base 0 ≢ 0
    → length payload % 8 ≡ 0
    → NalUnit base (flush_rem_bytes s) payload
flush-NalUnit {base} {s} {payload} h ends whole =
    let aligned : h.count % 8 ≡ 0 = omega (arith, Carries-count h) in
    let (t, nal, e, placed, meant, clean) = flush_rem_bytes-read_nal h.holds ends aligned in
    let count : 8 * (h.count / 8) ≡ h.count = omega arith in
    record {
      after = t;
      nal = nal;
      returned = e;
      placed = placed;
      meant =
          ap byte_bits meant
          ∙ byte_bits-bytes_of (h.count / 8) h.number
          ∙ ap (λ (n : ℕ). bits n h.number) count
          ∙ h.same;
      no_start_code = clean;
    }

bits-trailing : (n m v : ℕ) → bits (n + 1 + m) ((v * 2 + 1) * 2 ^ m) ≡ bits n v ++ 1 ∷ replicate m 0
bits-trailing n m v =
    let nothing : (v * 2 + 1) * 2 ^ m ≡ (v * 2 ^ 1 + 1) * 2 ^ m + 0 = omega arith in
    ap (bits (n + 1 + m)) nothing
    ∙ bits-append (n + 1) m (v * 2 ^ 1 + 1) 0 (omega (arith, two-pow_pos m))
    ∙ ap₂ ◌++◌ (bits-append n 1 v 1 (omega arith)) (bits-zero m)
    ∙ append_assoc (bits n v) (1 ∷ []) (replicate m 0)

-- The stop bit and the zeros behind it, up to whole bytes.
pub trailing-Carries :
    {base : List ℕ} {s : Stream} {payload : List ℕ}
    → Carries base s payload
    → length s.written + 16 < s.alloc_bytes
    → (m : ℕ) × (t : Stream) × (m < 8)
      × (write_rbsp_trailing_bits s ≡ ok t)
      × Carries base t (payload ++ 1 ∷ replicate m 0)
      × (length (payload ++ 1 ∷ replicate m 0) % 8 ≡ 0)
trailing-Carries {base} {s} {payload} h room =
    let (t, m, e, held, small, whole) = trailing_bits-Holds h.holds room in
    let parts = length-append payload (1 ∷ replicate m 0) in
    (
      m,
      t,
      small,
      e,
      record {
        count = h.count + 1 + m;
        number = (h.number * 2 + 1) * 2 ^ m;
        holds = held;
        same =
            bits-trailing h.count m h.number ∙ ap (λ (l : List ℕ). l ++ 1 ∷ replicate m 0) h.same;
      },
      omega (arith, whole, parts, length-replicate {A = ℕ} m 0, Carries-count h),
    )

-- The same with the flush.
pub trailing-NalUnit :
    {base : List ℕ} {s : Stream} {payload : List ℕ}
    → Carries base s payload
    → behind base 0 ≢ 0
    → length s.written + 16 < s.alloc_bytes
    → (m : ℕ) × (m < 8)
      × NalUnit base (write_rbsp_trailing_bits s >>= flush_rem_bytes) (payload ++ 1 ∷ replicate m 0)
trailing-NalUnit h ends room =
    let (m, t, small, e, carried, whole) = trailing-Carries h room in
    (m, small, rw e (flush-NalUnit carried ends whole))

-- The start of a parameter set: the start code, the header of the NAL unit and the elements.
set_body :
    (header : ℕ) (es : List Element) (s : Stream)
    → header < 2 ^ 16
    → AllFit es
    → 28 + 16 * length es < s.alloc_bytes
    → (a : Stream) × (b : Stream) × (t : Stream) × (put_start_code (init_word_level true s) ≡ ok a)
      × (put_code header 16 true a ≡ ok b)
      × (put_elements es b ≡ ok t)
      × Carries start_code t (bits 16 header ++ all_bits es)
      × (length t.written + 16 < t.alloc_bytes)
set_body header es s small fits room =
    let (a, e, placed, kept, held) = put_start_code-Holds s (omega arith) in
    let four : length a.written ≡ 4 = ap length placed in
    let empty : Carries start_code a [] = record {
      count = 0;
      number = 0;
      holds = held;
      same = refl;
    } in
    let b = put_code-Appended header 16 empty (omega arith) small (omega arith) in
    let c = put_elements-Appended es b.carries fits (omega (arith, b.grown, b.kept)) in
    (
      a,
      b.after,
      c.after,
      e,
      b.returned,
      c.returned,
      c.carries,
      omega (arith, b.grown, b.kept, c.grown, c.kept),
    )

-- A parameter set with trailing bits.
pub write_set-NalUnit :
    (header : ℕ) (es : List Element) (s : Stream)
    → header < 2 ^ 16
    → AllFit es
    → 28 + 16 * length es < s.alloc_bytes
    → (m : ℕ) × (m < 8)
      × NalUnit start_code
          (write_set header es true s)
          (bits 16 header ++ all_bits es ++ 1 ∷ replicate m 0)
unfolding write_set
write_set-NalUnit header es s small fits room =
    let (a, b, t, e₀, e₁, e₂, carried, room') = set_body header es s small fits room in
    let (m, few, unit) = trailing-NalUnit carried (omega arith) room' in
    (m, few, rw (e₀, e₁, e₂) unit)

-- A parameter set without trailing bits, whose elements fill whole bytes.
pub write_set-aligned :
    (header : ℕ) (es : List Element) (s : Stream)
    → header < 2 ^ 16
    → AllFit es
    → length (bits 16 header ++ all_bits es) % 8 ≡ 0
    → 28 + 16 * length es < s.alloc_bytes
    → NalUnit start_code (write_set header es false s) (bits 16 header ++ all_bits es)
unfolding write_set
write_set-aligned header es s small fits whole room =
    let (a, b, t, e₀, e₁, e₂, carried, room') = set_body header es s small fits room in
    rw (e₀, e₁, e₂) (flush-NalUnit carried (omega arith) whole)
