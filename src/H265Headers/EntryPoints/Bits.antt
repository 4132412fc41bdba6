-- ===== src/H265Headers/EntryPoints/Bits.antt =====
-- The entry points that src/H265Headers.cpp writes, as bits, and the length that it chooses for the offsets.
use ces.Prelude.{
  ℕ, zero, suc, ◌+◌, ◌^◌, ◌≤◌, ◌<◌, ◌≡◌, ◌⊎◌, inl, inr, refl, true, List, [], ◌∷◌, map, ltb, leb,
  if◌then◌else◌, length, ok, fault, wide_offset, arith, Bool-cases, two-pow_mono, AllBelow, lt→ltb,
  le→ltb_false, dec_lt,
}
use ces.BitStream.{Stream}
use ces.H265Headers.{Element, fixed_bits, unsigned_golomb}
use ces.H265Headers.Reading.{AllFit}
use ces.H265Headers.Nal.{Carries, put_uv-Appended}
use ces.H265Headers.EntryPoints.{
  max_offset_from, length_loop, entry_elements, entry_points, write_tiles_entry_points,
}

-- The loop for the maximum finds a bound of the offsets.
max_offset_bounds :
    (m : ℕ) (offsets : List ℕ) (bound : ℕ)
    → max_offset_from m offsets < bound
    → (m < bound) × AllBelow bound offsets
unfolding max_offset_from
max_offset_bounds m [] bound h = (h, tt)
max_offset_bounds m (o ∷ os) bound h =
    ground (arith, max_offset_bounds (if ltb m o then o else m) os bound)

-- It stays below what all offsets are below.
pub max_offset_below :
    (m : ℕ) (offsets : List ℕ) (bound : ℕ)
    → m < bound
    → AllBelow bound offsets
    → max_offset_from m offsets < bound
unfolding max_offset_from
max_offset_below m [] bound h k = h
max_offset_below m (o ∷ os) bound h k =
    max_offset_below (if ltb m o then o else m) os bound (ground arith) k.1

-- The length that the loop finds: the offsets fit it, and a shorter one that it tried does not do.
length_loop_lem :
    (fuel m k : ℕ)
    → m < 2 ^ 31
    → k ≤ 30
    → 31 ≤ fuel + k
    → (r : ℕ) × (length_loop fuel m k ≡ ok r)
      × (r ≤ 30)
      × (m < 2 ^ (r + 1))
      × ((r ≡ k) ⊎ (2 ^ r ≤ m))
unfolding length_loop
length_loop_lem zero m k h hk enough = absurd (omega arith)
length_loop_lem (suc fuel) m k h hk enough = elim (Bool-cases (leb (2 ^ (k + 1)) m)) [
  | inr fits ↦ (k, rw (fits, length_loop), hk, ground arith, inl refl)
  | inl more ↦
      let next : k + 1 ≤ 30 = elim (dec_lt k 30) [
        | yes lt ↦ omega arith
        | no ge ↦ absurd (ground (arith, two-pow_mono 31 (k + 1) (omega arith)))
      ] in
      let (r, ran, small, bound, least) = length_loop_lem fuel m (k + 1) h next (omega arith) in
      (
        r,
        rw (more, length_loop, lt→ltb (k + 1 + 1) 32 (omega arith)) ran,
        small,
        bound,
        elim least [ inl e ↦ inr (rw e (ground arith)) | inr e ↦ inr e ],
      )
]

-- An offset of 2 ^ 31 or more stops the loop.
length_loop_wide :
    (fuel m k : ℕ) → 2 ^ 31 ≤ m → k ≤ 30 → 31 ≤ fuel + k → length_loop fuel m k ≡ fault wide_offset
unfolding length_loop
length_loop_wide zero m k h hk enough = absurd (omega arith)
length_loop_wide (suc fuel) m k h hk enough =
    rw (more, length_loop)
      (elim (dec_lt (k + 1 + 1) 32) [
        | yes lt ↦
            rw (lt→ltb (k + 1 + 1) 32 lt)
              (length_loop_wide fuel m (k + 1) h (omega arith) (omega arith))
        | no ge ↦ rw (le→ltb_false (k + 1 + 1) 32 (omega arith))
      ])
  where
    more : leb (2 ^ (k + 1)) m ≡ true
    more = ground (arith, two-pow_mono (k + 1) 31 (omega arith))

-- The entry points as elements, for offsets of `k + 1` bits.
abbrev pub entry_fields : List ℕ → ℕ → List Element
entry_fields [] k = unsigned_golomb 0 ∷ []
entry_fields (offset ∷ offsets) k =
    unsigned_golomb (length (offset ∷ offsets)) ∷ entry_elements (offset ∷ offsets) k

offsets-AllFit :
    (offsets : List ℕ) (k : ℕ)
    → k ≤ 30
    → AllBelow (2 ^ (k + 1)) offsets
    → AllFit (map (λ (offset : ℕ). fixed_bits offset (k + 1)) offsets)
offsets-AllFit [] k hk h = tt
offsets-AllFit (o ∷ os) k hk h = ((omega arith, omega arith, h.0), offsets-AllFit os k hk h.1)

pub entry_fields-AllFit :
    (offsets : List ℕ) (k : ℕ)
    → length offsets + 1 < 2 ^ 32
    → k ≤ 30
    → AllBelow (2 ^ (k + 1)) offsets
    → AllFit (entry_fields offsets k)
entry_fields-AllFit [] k few hk h = (omega arith, tt)
entry_fields-AllFit (o ∷ os) k few hk h = (few, (omega arith, offsets-AllFit (o ∷ os) k hk h))

-- The elements that the code puts behind the count.
pub entry_points_lem :
    (offsets : List ℕ)
    → AllBelow (2 ^ 31) offsets
    → (k : ℕ) × (es : List Element) × (entry_points offsets ≡ ok es)
      × (entry_fields offsets k ≡ unsigned_golomb (length offsets) ∷ es)
      × (k ≤ 30)
      × AllBelow (2 ^ (k + 1)) offsets
      × ((k ≡ 0) ⊎ (2 ^ k ≤ max_offset_from 0 offsets))
unfolding entry_points
entry_points_lem [] h = (0, [], refl, refl, omega arith, tt, inl refl)
entry_points_lem (o ∷ os) h =
    let (r, ran, small, bound, least) =
      length_loop_lem 32 (max_offset_from 0 (o ∷ os)) 0
        (max_offset_below 0 (o ∷ os) (2 ^ 31) (omega arith) h) (omega arith) (omega arith) in
    (
      r,
      entry_elements (o ∷ os) r,
      rw ran,
      refl,
      small,
      (max_offset_bounds 0 (o ∷ os) (2 ^ (r + 1)) bound).1,
      least,
    )

-- An offset of 2 ^ 31 or more: the assertion on the length of the offsets stops the run, once the count is written.
pub write_tiles_entry_points_wide :
    {base : List ℕ} (offsets : List ℕ) {s : Stream} {payload : List ℕ}
    → Carries base s payload
    → 2 ^ 31 ≤ max_offset_from 0 offsets
    → length offsets + 1 < 2 ^ 32
    → length s.written + 16 < s.alloc_bytes
    → write_tiles_entry_points offsets s ≡ fault wide_offset
unfolding write_tiles_entry_points entry_points max_offset_from
write_tiles_entry_points_wide [] h wide few room = absurd (omega arith)
write_tiles_entry_points_wide (o ∷ os) h wide few room =
    let a = put_uv-Appended (length (o ∷ os)) h few room in
    rw (
      a.returned,
      length_loop_wide 32 (max_offset_from 0 (o ∷ os)) 0 wide (omega arith) (omega arith),
    )
