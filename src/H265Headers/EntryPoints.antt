-- ===== src/H265Headers/EntryPoints.antt =====
-- WriteTilesEntryPointsInSliceHeader of src/H265Headers.cpp.
pub mod Bits
pub mod Unit
use ces.Prelude.{
  ℕ, zero, suc, ◌+◌, ◌^◌, Bool, true, false, List, [], ◌∷◌, ◌++◌, map, ltb, leb, ◌==◌,
  if◌then◌else◌, length, Outcome, ok, ◌>>=◌, ◌>>◌, make_sure, wide_offset,
}
use ces.BitStream.{Stream, put_uv, write_rbsp_trailing_bits, flush_rem_bytes}
use ces.H265Headers.{Element, fixed_bits, unsigned_golomb, put_elements}

-- The loop for the greatest offset.
unfoldable pub max_offset_from : ℕ → List ℕ → ℕ
max_offset_from max_offset [] = max_offset
max_offset_from max_offset (offset ∷ offsets) =
    max_offset_from (if ltb max_offset offset then offset else max_offset) offsets

-- The loop for the length of the offsets, with fuel. Its assertion stops it at 32 bits.
pub length_loop : ℕ → ℕ → ℕ → Outcome ℕ
length_loop zero max_offset length_minus1 = ok length_minus1
length_loop (suc fuel) max_offset length_minus1 = elim (leb (2 ^ (length_minus1 + 1)) max_offset) [
  | true ↦
      make_sure (ltb (length_minus1 + 1 + 1) 32) wide_offset
      >> length_loop fuel max_offset (length_minus1 + 1)
  | false ↦ ok length_minus1
]

-- The elements behind the count, for the length that the loop finds.
abbrev pub entry_elements : List ℕ → ℕ → List Element
entry_elements offsets length_minus1 =
    unsigned_golomb length_minus1
    ∷ map (λ (offset : ℕ). fixed_bits offset (length_minus1 + 1)) offsets

pub entry_points : List ℕ → Outcome (List Element)
entry_points [] = ok []
entry_points (offset ∷ offsets) = do
  length_minus1 ← length_loop 32 (max_offset_from 0 (offset ∷ offsets)) 0
  ok (entry_elements (offset ∷ offsets) length_minus1)

-- WriteTilesEntryPointsInSliceHeader
pub write_tiles_entry_points : List ℕ → Stream → Outcome Stream
write_tiles_entry_points offsets s = do
  s₁ ← put_uv (length offsets) s
  es ← entry_points offsets
  s₂ ← put_elements es s₁
  s₃ ← write_rbsp_trailing_bits s₂
  flush_rem_bytes s₃
