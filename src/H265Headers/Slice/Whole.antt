-- ===== src/H265Headers/Slice/Whole.antt =====
-- Whole slice headers of src/H265Headers.cpp: with one tile, and with the entry points of several.
use ces.Prelude.{
  length-append, ℕ, ◌+◌, ◌*◌, ◌%◌, ◌^◌, ◌≤◌, ◌<◌, ◌≡◌, ◌≢◌, ◌⊎◌, refl, sym, ap, ap₂, ◌∙◌, true,
  List, [], ◌∷◌, ◌++◌, map, map-append, append_assoc, Option, some, ok, ◌>>=◌, length, replicate,
  arith, bits, ◌==◌, AllBelow, ==_true, ne→==_false,
}
use ces.Prelude.Int.{ℤ, pos}
use ces.ImageParameters.Image.{Image}
use ces.BitStream.{Stream, init_word_level}
use ces.BitStream.Start.{short_start}
use ces.BitStream.Emulation.{read_nal, NoStartCode}
use ces.BitStream.Reader
use ces.BitStream.Reader.{read_bits, read_bits-bits}
use ces.H265Headers.{Element}
use ces.H265Headers.Reading.{
  AllFit, all_bits, ue_bits, Descriptor, u, ue, descriptor_of, number_of, read_all,
  read_all-all_bits, AllFit-append, all_bits-append,
}
use ces.H265Headers.Nal.{Carries}
use ces.H265Headers.Nal.Whole.{byte_bits, trailing-Carries}
use ces.H265Headers.EntryPoints.{max_offset_from, write_tiles_entry_points}
use ces.H265Headers.EntryPoints.Bits.{entry_fields, entry_fields-AllFit}
use ces.H265Headers.EntryPoints.Unit.{write_tiles_entry_points-within}
use ces.H265Headers.Slice.{is_idr, i_slice, write_slice_hdr, slice_elements}
use ces.H265Headers.Slice.Body.{nal_first, slice_body, slice_body-within}
use ces.H265Headers.Slice.Read.{slice_syntax, slice_values, InRange, slice_elements-Agrees}

-- A reader of what follows the first byte of the header: its second byte, the fields, and the bits behind them.
pub read_slice : List Descriptor → List ℕ → Option (ℕ × List ℤ × List ℕ)
read_slice ds r =
    Reader.◌>>=◌ (read_bits 8 r) (λ p. Reader.◌>>=◌ (read_all ds p.1) (λ q. some (p.0, q.0, q.1)))

read_slice-all_bits :
    (es : List Element) (rest : List ℕ)
    → AllFit es
    → read_slice (map descriptor_of es) (bits 8 1 ++ all_bits es ++ rest)
      ≡ some (1, map number_of es, rest)
unfolding read_slice
read_slice-all_bits es rest fits = rw (
  append_assoc (bits 8 1) (all_bits es) rest,
  read_bits-bits 8 1 (all_bits es ++ rest) (omega arith),
  read_all-all_bits es rest fits,
)

-- A slice of a frame with a single tile, on a new buffer with room for 252 bytes: WriteSliceHdrInBitstream returns.
-- The buffer starts with 00 00 01 and a first header byte that tells the first intra slice from all others. From the
-- payload, which is a number of whole bytes, a reader gets the second header byte, the fields and their values, the stop
-- bit and at most seven zeros.
pub write_slice_hdr-read :
    (im : Image) (slice_type slice_num : ℕ) (s : Stream)
    → InRange im
    → slice_type + 1 < 2 ^ 32
    → im.frame_size_in_tiles ≡ 1
    → 252 < s.alloc_bytes
    → let intra = slice_type == i_slice in
      let first = slice_num == 0 in
      (t : Stream) × (payload : List ℕ) × (m : ℕ) × (write_slice_hdr im slice_type slice_num
          (init_word_level true s)
        ≡ ok t)
      × Carries (short_start (nal_first (is_idr slice_type slice_num))) t payload
      × (length payload % 8 ≡ 0)
      × (m < 8)
      × (read_slice (slice_syntax intra first im.bits_for_poc) payload
          ≡ some (1, slice_values intra first im slice_type slice_num, 1 ∷ replicate m 0))
write_slice_hdr-read im slice_type slice_num s h small one room =
    let a = slice_elements-Agrees im slice_type slice_num h small _ _ refl refl in
    let (b, e, carried, grown, kept) =
      slice_body im slice_type slice_num s a.fits a.few (omega arith) in
    let (m, t, few, e', ended, whole) = trailing-Carries carried (omega (arith, grown, kept)) in
    (
      t,
      bits 8 1 ++ all_bits (slice_elements im slice_type slice_num) ++ 1 ∷ replicate m 0,
      m,
      e ∙ rw (==_true im.frame_size_in_tiles 1 one) e',
      ended,
      whole,
      few,
      rw (← a.syntax_eq, ← a.values_eq)
          (read_slice-all_bits (slice_elements im slice_type slice_num) (1 ∷ replicate m 0) a.fits),
    )

-- The fields of the entry points, with offsets of `k + 1` bits, and their values.
abbrev pub entry_syntax : List ℕ → ℕ → List Descriptor
entry_syntax [] k = ue ∷ []
entry_syntax (offset ∷ offsets) k = ue ∷ ue ∷ map (λ (o : ℕ). u (k + 1)) (offset ∷ offsets)

abbrev pub entry_values : List ℕ → ℕ → List ℤ
entry_values [] k = pos 0 ∷ []
entry_values (offset ∷ offsets) k =
    pos (length (offset ∷ offsets)) ∷ pos k ∷ map pos (offset ∷ offsets)

offsets-map {ℓ} :
    {A : Type ℓ} (f : Element → A) (k : ℕ) (offsets : List ℕ)
    → map f (map (λ (o : ℕ). Element.fixed_bits o (k + 1)) offsets)
      ≡ map (λ (o : ℕ). f (Element.fixed_bits o (k + 1))) offsets
offsets-map f k [] = refl
offsets-map f k (o ∷ os) = ap (λ l. f (Element.fixed_bits o (k + 1)) ∷ l) (offsets-map f k os)

entry_fields-syntax :
    (offsets : List ℕ) (k : ℕ) → map descriptor_of (entry_fields offsets k) ≡ entry_syntax offsets k
entry_fields-syntax [] k = refl
entry_fields-syntax (o ∷ os) k = ap (λ l. ue ∷ ue ∷ l) (offsets-map descriptor_of k (o ∷ os))

entry_fields-values :
    (offsets : List ℕ) (k : ℕ) → map number_of (entry_fields offsets k) ≡ entry_values offsets k
entry_fields-values [] k = refl
entry_fields-values (o ∷ os) k =
    ap (λ l. pos (length (o ∷ os)) ∷ pos k ∷ l) (offsets-map number_of k (o ∷ os))

-- A slice of a frame with several tiles, on a new buffer: WriteSliceHdrInBitstream and
-- WriteTilesEntryPointsInSliceHeader return for fewer than 2 ^ 32 - 1 offsets that fit `wide + 1` bits, at most 31, where
-- four times the bytes of the buffer exceed by over 97 the bits of the slice's fields, of the number of the offsets, and of
-- as many codes of `wide + 1` bits.
-- Behind 00 00 01 and the first header byte stands a NAL unit with no start code in it. A reader gets from it the
-- second header byte, the fields of the slice, the number of the offsets, their length less 1 and the offsets, then the
-- stop bit and at most seven zeros. The length is the least one of at least 1 that the greatest offset fits.
pub write_slice_hdr-write_tiles_entry_points :
    (im : Image) (slice_type slice_num : ℕ) (offsets : List ℕ) (wide : ℕ) (s : Stream)
    → InRange im
    → slice_type + 1 < 2 ^ 32
    → im.frame_size_in_tiles ≢ 1
    → wide ≤ 30
    → AllBelow (2 ^ (wide + 1)) offsets
    → length offsets + 1 < 2 ^ 32
    → length (all_bits (slice_elements im slice_type slice_num))
        + length (ue_bits (length offsets))
        + length offsets * (wide + 1)
        + 97
      < 4 * s.alloc_bytes
    → let intra = slice_type == i_slice in
      let first = slice_num == 0 in
      (k : ℕ) × (m : ℕ) × (t : Stream) × (nal : List ℕ) × ((write_slice_hdr im slice_type slice_num
            (init_word_level true s)
          >>= write_tiles_entry_points offsets)
        ≡ ok t)
      × (t.written ≡ nal ++ short_start (nal_first (is_idr slice_type slice_num)))
      × NoStartCode nal
      × (k ≤ wide)
      × AllBelow (2 ^ (k + 1)) offsets
      × ((k ≡ 0) ⊎ (2 ^ k ≤ max_offset_from 0 offsets))
      × (m < 8)
      × (read_slice
            (slice_syntax intra first im.bits_for_poc ++ entry_syntax offsets k)
            (byte_bits (read_nal nal).0)
          ≡ some (
            1,
            slice_values intra first im slice_type slice_num ++ entry_values offsets k,
            1 ∷ replicate m 0,
          ))
write_slice_hdr-write_tiles_entry_points im slice_type slice_num offsets wide s h small more hw
      below few room =
    let a = slice_elements-Agrees im slice_type slice_num h small _ _ refl refl in
    let (b, e, carried, kept) = slice_body-within im slice_type slice_num s a.fits (omega arith) in
    let parts = length-append (bits 8 1) (all_bits (slice_elements im slice_type slice_num)) in
    let (k, m, hk, fit, least, short, unit) =
      write_tiles_entry_points-within offsets wide carried (ground arith) hw below few
        (omega (arith, parts, kept)) in
    let es = slice_elements im slice_type slice_num in
    let fields = entry_fields offsets k in
    let zeros : List ℕ = 1 ∷ replicate m 0 in
    let bytes : byte_bits (read_nal unit.nal).0 ≡ bits 8 1 ++ all_bits (es ++ fields) ++ zeros =
      unit.meant
      ∙ ap (λ (l : List ℕ). l ++ zeros)
          (append_assoc (bits 8 1) (all_bits es) (all_bits fields)
            ∙ ap (λ (l : List ℕ). bits 8 1 ++ l) (sym (all_bits-append es fields))) in
    let syntax_eq =
      map-append descriptor_of es fields ∙ ap₂ ◌++◌ a.syntax_eq (entry_fields-syntax offsets k) in
    let values_eq =
      map-append number_of es fields ∙ ap₂ ◌++◌ a.values_eq (entry_fields-values offsets k) in
    let all =
      AllFit-append es fields a.fits (entry_fields-AllFit offsets k few (omega arith) fit) in
    (
      k,
      m,
      unit.after,
      unit.nal,
      rw (e, ne→==_false im.frame_size_in_tiles 1 more) unit.returned,
      unit.placed,
      unit.no_start_code,
      hk,
      fit,
      least,
      short,
      rw (bytes, ← syntax_eq, ← values_eq) (read_slice-all_bits (es ++ fields) zeros all),
    )
