-- ===== src/H265Headers/Reading.antt =====
-- The syntax elements of the headers in src/H265Headers.cpp as bits, and the reading of them in the standard (7.2, 9.2).
use ces.Prelude.{
  ℕ, suc, ◌+◌, ◌-◌, ◌^◌, ◌≤◌, ◌<◌, ◌≡◌, refl, sym, ap, ◌∙◌, List, [], ◌∷◌, ◌++◌, map, append_assoc,
  Option, some, arith, bits,
}
use ces.Prelude.Int.{ℤ, pos, pos_part, neg_part}
use ces.Macros.{log2}
use ces.Macros.Log2.{log2_bounds}
use ces.BitStream.{code_of_signed}
use ces.BitStream.Reader.{◌>>=◌, read_bits, read_ue, read_ue-bits, read_bits-bits}
use ces.BitStream.Golomb.{signed_of_code, signed_of_code-code_of_signed}
use ces.H265Headers.{Element, fixed_bits, unsigned_golomb, signed_golomb}

-- The elements that the calls take: a length from 1 to 32 with a code of so many bits, a number that ue(v) takes.
abbrev pub Fits : Element → Type 0
Fits (fixed_bits code len) = (0 < len) × (len ≤ 32) × (code < 2 ^ len)
Fits (unsigned_golomb code) = code + 1 < 2 ^ 32
Fits (signed_golomb code) = (pos_part code < 2 ^ 31) × (neg_part code < 2 ^ 31)

abbrev pub AllFit : List Element → Type 0
AllFit [] = Unit {0}
AllFit (e ∷ es) = Fits e × AllFit es

-- The bits of ue(v).
abbrev pub ue_bits : ℕ → List ℕ
ue_bits code = let p = log2 (code + 1) - 1 in bits (p + suc p) (code + 1)

abbrev pub element_bits : Element → List ℕ
element_bits (fixed_bits code len) = bits len code
element_bits (unsigned_golomb code) = ue_bits code
element_bits (signed_golomb code) = ue_bits (code_of_signed code)

abbrev pub all_bits : List Element → List ℕ
all_bits [] = []
all_bits (e ∷ es) = element_bits e ++ all_bits es

-- The descriptors u(n), ue(v) and se(v).
pub data Descriptor : Type 0 where
  u : (len : ℕ) → Descriptor
  ue : Descriptor
  se : Descriptor

abbrev pub descriptor_of : Element → Descriptor
descriptor_of (fixed_bits code len) = u len
descriptor_of (unsigned_golomb code) = ue
descriptor_of (signed_golomb code) = se

abbrev pub number_of : Element → ℤ
number_of (fixed_bits code len) = pos code
number_of (unsigned_golomb code) = pos code
number_of (signed_golomb code) = code

pub read_descriptor : Descriptor → List ℕ → Option (ℤ × List ℕ)
read_descriptor (u len) r = do p ← read_bits len r; some (pos p.0, p.1)
read_descriptor ue r = do p ← read_ue r; some (pos p.0, p.1)
read_descriptor se r = do p ← read_ue r; some (signed_of_code p.0, p.1)

pub read_all : List Descriptor → List ℕ → Option (List ℤ × List ℕ)
read_all [] r = some ([], r)
read_all (d ∷ ds) r = do p ← read_descriptor d r; q ← read_all ds p.1; some (p.0 ∷ q.0, q.1)

read_ue-ue_bits :
    (code : ℕ) (rest : List ℕ)
    → code + 1 < 2 ^ 32
    → read_ue (ue_bits code ++ rest) ≡ some (code, rest)
read_ue-ue_bits code rest small =
    let (p, e, top) = log2_bounds (code + 1) (omega arith) small in
    let less : p + 1 - 1 ≡ p = omega arith in
    let back : code + 1 - 1 ≡ code = omega arith in
    rw (e, less) (rw back at (read_ue-bits p (code + 1) rest top))

read_descriptor-element_bits :
    (e : Element) (rest : List ℕ)
    → Fits e
    → read_descriptor (descriptor_of e) (element_bits e ++ rest) ≡ some (number_of e, rest)
unfolding read_descriptor
read_descriptor-element_bits (fixed_bits code len) rest fits =
    rw (read_bits-bits len code rest fits.2)
read_descriptor-element_bits (unsigned_golomb code) rest fits = rw (read_ue-ue_bits code rest fits)
read_descriptor-element_bits (signed_golomb code) rest fits =
    let (small, back) = signed_of_code-code_of_signed code fits.0 fits.1 in
    rw (read_ue-ue_bits (code_of_signed code) rest small, back)

-- A reader that is told the descriptors gets the values of the elements back from their bits, whatever follows.
pub read_all-all_bits :
    (es : List Element) (rest : List ℕ)
    → AllFit es
    → read_all (map descriptor_of es) (all_bits es ++ rest) ≡ some (map number_of es, rest)
unfolding read_all
read_all-all_bits [] rest fits = refl
read_all-all_bits (e ∷ es) rest fits = rw (
  append_assoc (element_bits e) (all_bits es) rest,
  read_descriptor-element_bits e (all_bits es ++ rest) fits.0,
  read_all-all_bits es rest fits.1,
)

pub AllFit-append : (es fs : List Element) → AllFit es → AllFit fs → AllFit (es ++ fs)
AllFit-append [] fs h k = k
AllFit-append (e ∷ es) fs h k = (h.0, AllFit-append es fs h.1 k)

pub all_bits-append : (es fs : List Element) → all_bits (es ++ fs) ≡ all_bits es ++ all_bits fs
all_bits-append [] fs = refl
all_bits-append (e ∷ es) fs =
    ap (λ l. element_bits e ++ l) (all_bits-append es fs)
    ∙ sym (append_assoc (element_bits e) (all_bits es) (all_bits fs))
