-- ===== src/H265Headers/EntryPoints/Unit.antt =====
-- The entry points of src/H265Headers.cpp as the end of a NAL unit, in a buffer with room for their bits.
use ces.Prelude.{
  AllBelow-wider, bits, all_below, all_below_sound, length-append, ◌∙◌, two-pow_pos, ℕ, ◌+◌, ◌*◌,
  ◌^◌, ◌≤◌, ◌<◌, ◌≡◌, ◌≢◌, ◌⊎◌, inl, inr, refl, ap, sym, subst, true, List, [], ◌∷◌, ◌++◌, map, leb,
  length, ◌>>=◌, arith, two-pow_mono, AllBelow, append_assoc, replicate, dec_lt,
}
use ces.BitStream.{Stream, write_rbsp_trailing_bits, flush_rem_bytes, behind}
use ces.H265Headers.{Element, fixed_bits, unsigned_golomb, put_elements, put_element}
use ces.H265Headers.Reading.{AllFit, all_bits, ue_bits}
use ces.H265Headers.Nal.{Carries, Carries-room, put_uv-Appended, put_elements-within, length-bits}
use native.Mathlib.Nat.{mul-le-mul}
use ces.Macros.{log2}
use ces.H265Headers.Nal.Whole.{NalUnit, trailing-NalUnit}
use ces.H265Headers.EntryPoints.{max_offset_from, write_tiles_entry_points}
use ces.H265Headers.EntryPoints.Bits.{
  max_offset_below, entry_points_lem, entry_fields, entry_fields-AllFit,
}

-- The length of the offsets less 1 is coded in nine bits at most.
short_lengths : all_below 31 (λ k. leb (length (ue_bits k)) 9) ≡ true
unfolding all_below log2
short_lengths = refl

length-fields :
    (offsets : List ℕ) (k : ℕ)
    → length (all_bits (map (λ (offset : ℕ). fixed_bits offset (k + 1)) offsets))
      ≡ length offsets * (k + 1)
length-fields [] k = omega arith
length-fields (o ∷ os) k =
    let parts =
      length-append (bits (k + 1) o)
        (all_bits (map (λ (offset : ℕ). fixed_bits offset (k + 1)) os)) in
    omega (arith, parts, length-bits (k + 1) o, length-fields os k)

-- The bits of the entry points, for offsets of at most `wide + 1` bits.
length-entry_fields :
    (offsets : List ℕ) (k wide : ℕ)
    → k ≤ 30
    → k ≤ wide
    → length (all_bits (entry_fields offsets k))
      ≤ length (ue_bits (length offsets)) + 9 + length offsets * (wide + 1)
length-entry_fields [] k wide hk h = omega (arith, length-append (ue_bits 0) [])
length-entry_fields (o ∷ os) k wide hk h =
    let short : length (ue_bits k) ≤ 9 =
      ground (
        arith,
        all_below_sound 31 (λ k. leb (length (ue_bits k)) 9) k short_lengths (omega arith),
      ) in
    let fields = all_bits (map (λ (offset : ℕ). fixed_bits offset (k + 1)) (o ∷ os)) in
    let more : length (o ∷ os) * (k + 1) ≤ length (o ∷ os) * (wide + 1) =
      mul-le-mul (omega arith) (omega arith) in
    omega (
      arith,
      short,
      more,
      length-append (ue_bits (length (o ∷ os))) (ue_bits k ++ fields),
      length-append (ue_bits k) fields,
      length-fields (o ∷ os) k,
    )

-- The length that is found is no more than one that all offsets fit.
found-le : (k wide m : ℕ) → (k ≡ 0) ⊎ (2 ^ k ≤ m) → m < 2 ^ (wide + 1) → k ≤ wide
found-le k wide m (inl e) h = omega arith
found-le k wide m (inr most) h = elim (dec_lt wide k) [
  | yes less ↦ absurd (omega (arith, two-pow_mono (wide + 1) k (omega arith)))
  | no fine ↦ omega arith
]

-- The count, the length and the offsets are appended, and the payload is ended, in a buffer with room for their bits.
pub write_tiles_entry_points-within :
    {base : List ℕ} (offsets : List ℕ) (wide : ℕ) {s : Stream} {payload : List ℕ}
    → Carries base s payload
    → behind base 0 ≢ 0
    → wide ≤ 30
    → AllBelow (2 ^ (wide + 1)) offsets
    → length offsets + 1 < 2 ^ 32
    → 4 * length base
        + length payload
        + length (ue_bits (length offsets))
        + length offsets * (wide + 1)
        + 73
      < 4 * s.alloc_bytes
    → (k : ℕ) × (m : ℕ) × (k ≤ wide)
      × AllBelow (2 ^ (k + 1)) offsets
      × ((k ≡ 0) ⊎ (2 ^ k ≤ max_offset_from 0 offsets))
      × (m < 8)
      × NalUnit base
          (write_tiles_entry_points offsets s)
          (payload ++ all_bits (entry_fields offsets k) ++ 1 ∷ replicate m 0)
unfolding write_tiles_entry_points put_elements put_element
write_tiles_entry_points-within {base} offsets wide {s} {payload} h ends hw small few room =
    let below =
      AllBelow-wider (2 ^ (wide + 1)) (2 ^ 31) offsets (two-pow_mono (wide + 1) 31 (omega arith))
        small in
    let (k, es, found, same, hk, fit, least) = entry_points_lem offsets below in
    let hk' =
      found-le k wide (max_offset_from 0 offsets) least
        (max_offset_below 0 offsets (2 ^ (wide + 1)) (two-pow_pos (wide + 1)) small) in
    let all : AllFit (unsigned_golomb (length offsets) ∷ es) =
      subst AllFit same (entry_fields-AllFit offsets k few hk fit) in
    let size = length-entry_fields offsets k wide hk hk' in
    let whole : length (all_bits (entry_fields offsets k))
        ≡ length (ue_bits (length offsets)) + length (all_bits es) =
      ap (λ (l : List Element). length (all_bits l)) same
      ∙ length-append (ue_bits (length offsets)) (all_bits es) in
    let parts = length-append payload (ue_bits (length offsets)) in
    let a = put_uv-Appended (length offsets) h few (omega (arith, Carries-room h)) in
    let (b, ran, carried, kept) =
      put_elements-within es a.carries all.1 (omega (arith, a.kept, whole, size, parts)) in
    let parts' = length-append (payload ++ ue_bits (length offsets)) (all_bits es) in
    let (m, short, unit) =
      trailing-NalUnit carried ends
        (omega (arith, Carries-room carried, a.kept, kept, whole, size, parts, parts')) in
    let eq : (payload ++ ue_bits (length offsets)) ++ all_bits es
        ≡ payload ++ all_bits (entry_fields offsets k) =
      append_assoc payload (ue_bits (length offsets)) (all_bits es)
      ∙ ap (λ (l : List Element). payload ++ all_bits l) (sym same) in
    (
      k,
      m,
      hk',
      fit,
      least,
      short,
      rw (a.returned, found, ran)
          (subst
            (λ (l : List ℕ).
              NalUnit base (write_rbsp_trailing_bits b >>= flush_rem_bytes)
                (l ++ 1 ∷ replicate m 0))
            eq unit),
    )
