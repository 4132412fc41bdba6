-- ===== src/H265Headers/Sets.antt =====
-- The parameter sets of src/H265Headers.cpp against the syntax tables of the standard (7.3.2), read from the NAL units.
use ces.Prelude.{
  ℕ, ◌+◌, ◌-◌, ◌*◌, ◌^◌, ◌<◌, ◌≡◌, refl, sym, subst, Bool, true, false, List, [], ◌∷◌, ◌++◌, map,
  Option, some, Outcome, ok, length, replicate, arith, bits, ltb, if◌then◌else◌,
}
use ces.Prelude.Int.{ℤ, pos}
use ces.BitStream.{Stream}
use ces.BitStream.Emulation.{read_nal, NoStartCode}
use ces.BitStream.Finish.{start_code}
use ces.BitStream.Reader.{◌>>=◌, read_bits, read_bits-bits}
use ces.Macros.{log2}
use ces.ImageParameters.Image.{
  Image, Input, new_image, set_properties, init_img_prop, init_img_prop_lem,
}
use ces.H265Headers.{
  Element, write_set, write_vps, write_sps, write_pps, vps_elements, sps_elements, pps_elements,
  amvp_num, minus32, fixed_bits, unsigned_golomb, signed_golomb,
}
use ces.H265Headers.Reading.{
  AllFit, all_bits, Descriptor, u, ue, se, descriptor_of, number_of, read_all, read_all-all_bits,
}
use ces.H265Headers.Nal.Whole.{NalUnit, byte_bits, write_set-NalUnit, write_set-aligned}

-- A reader of a NAL unit: the header, then the fields, and the bits behind them.
pub read_unit : List Descriptor → List ℕ → Option (ℕ × List ℤ × List ℕ)
read_unit ds nal = do
  p ← read_bits 16 (byte_bits (read_nal nal).0)
  q ← read_all ds p.1
  some (p.0, q.0, q.1)

-- What a writer of a parameter set leaves behind the start code: a NAL unit with no start code in it, from which the
-- header, the fields and then the bits `rest` are read.
pub record Wrote (run : Outcome Stream) (header : ℕ) (ds : List Descriptor) (values : List ℤ)
    (rest : List ℕ) : Type 0 where
  pub after : Stream
  pub nal : List ℕ
  pub returned : run ≡ ok after
  pub placed : after.written ≡ nal ++ start_code
  pub no_start_code : NoStartCode nal
  pub fields : read_unit ds nal ≡ some (header, values, rest)

NalUnit-Wrote :
    (header : ℕ) (es : List Element) (rest : List ℕ) {run : Outcome Stream}
    → header < 2 ^ 16
    → AllFit es
    → NalUnit start_code run (bits 16 header ++ (all_bits es ++ rest))
    → Wrote run header (map descriptor_of es) (map number_of es) rest
unfolding read_unit
NalUnit-Wrote header es rest small fits unit = record {
  after = unit.after;
  nal = unit.nal;
  returned = unit.returned;
  placed = unit.placed;
  no_start_code = unit.no_start_code;
  fields = rw (
    unit.meant,
    read_bits-bits 16 header (all_bits es ++ rest) small,
    read_all-all_bits es rest fits,
  );
}

-- The fields of the video parameter set.
abbrev pub vps_syntax : List Descriptor
vps_syntax = u 3 ∷ u 5 ∷ ue ∷ u 1 ∷ ue ∷ ue ∷ ue ∷ u 1 ∷ []

-- With room for 156 bytes WriteVPSInBitstream returns, and a reader of its NAL unit gets the header 0x3201, and the
-- fields with the one value that is not 0, vps_max_dec_pic_buffering. No bit is left over.
pub write_vps-read :
    (s : Stream)
    → 156 < s.alloc_bytes
    → Wrote
        (write_vps s)
        0x3201
        vps_syntax
        (pos 0 ∷ pos 0 ∷ pos 0 ∷ pos 0 ∷ pos 1 ∷ pos 0 ∷ pos 0 ∷ pos 0 ∷ [])
        []
unfolding write_vps log2
write_vps-read s room =
    NalUnit-Wrote 0x3201 vps_elements [] (omega arith) (omega arith)
      (write_set-aligned 0x3201 vps_elements s (omega arith) (omega arith) refl (omega arith))

-- The fields of the sequence parameter set, with as many AMVP flags as there are depths of a CU.
abbrev pub sps_syntax : List Descriptor
sps_syntax =
    u 3
    ∷ u 5
    ∷ u 16
    ∷ u 8
    ∷ u 32
    ∷ ue
    ∷ ue
    ∷ ue
    ∷ u 3
    ∷ ue
    ∷ ue
    ∷ u 1
    ∷ ue
    ∷ ue
    ∷ u 1
    ∷ ue
    ∷ ue
    ∷ ue
    ∷ ue
    ∷ u 1
    ∷ u 1
    ∷ ue
    ∷ ue
    ∷ ue
    ∷ ue
    ∷ ue
    ∷ ue
    ∷ u 1
    ∷ u 1
    ∷ u 1
    ∷ u 1
    ∷ ue
    ∷ u 1
    ∷ ue
    ∷ ue
    ∷ ue
    ∷ u 1
    ∷ u 1
    ∷ u 1
    ∷ u 1
    ∷ u 1
    ∷ u 1
    ∷ u 1
    ∷ []

-- The values for a frame: 8 bits for the picture order count, coding blocks from 8 to 32 and transform blocks from 4 to 32.
abbrev pub sps_values : Input → List ℤ
sps_values p =
    let n = pos 0 in
    let y = pos 1 in
    n
    ∷ n
    ∷ n
    ∷ n
    ∷ n
    ∷ n
    ∷ n
    ∷ y
    ∷ n
    ∷ pos p.frame_width
    ∷ pos p.frame_height
    ∷ n
    ∷ n
    ∷ n
    ∷ n
    ∷ pos (8 - 4)
    ∷ y
    ∷ n
    ∷ n
    ∷ y
    ∷ n
    ∷ pos (3 - 3)
    ∷ pos (5 - 3)
    ∷ pos (2 - 2)
    ∷ pos (5 - 2)
    ∷ n
    ∷ n
    ∷ n
    ∷ y
    ∷ n
    ∷ n
    ∷ y
    ∷ n
    ∷ y
    ∷ n
    ∷ n
    ∷ y
    ∷ n
    ∷ n
    ∷ y
    ∷ y
    ∷ y
    ∷ n
    ∷ []

AllFit-sps_elements :
    (p : Input)
    → p.frame_width + 1 < 2 ^ 32
    → p.frame_height + 1 < 2 ^ 32
    → AllFit (sps_elements (set_properties p new_image))
unfolding sps_elements amvp_num set_properties new_image log2
AllFit-sps_elements p w h = omega arith

-- For an image that InitImgProp set up behind the constructor, with frames of less than 2 ^ 32 - 1 columns and rows, and
-- with room for 716 bytes: WriteSPSInBitstream returns, and a reader gets the header 0x3401 and the fields from its NAL
-- unit, the size of the frame and the constants of the constructor among them, then the stop bit and at most seven zeros.
pub write_sps-read :
    (p : Input) (im : Image) (s : Stream)
    → init_img_prop p new_image ≡ ok im
    → p.frame_width + 1 < 2 ^ 32
    → p.frame_height + 1 < 2 ^ 32
    → 716 < s.alloc_bytes
    → (m : ℕ) × (m < 8)
      × Wrote (write_sps im s) 0x3401 sps_syntax (sps_values p) (1 ∷ replicate m 0)
unfolding write_sps sps_elements amvp_num set_properties new_image log2
write_sps-read p im s ready w h room =
    subst
      (λ (i : Image).
        (m : ℕ) × (m < 8)
        × Wrote (write_sps i s) 0x3401 sps_syntax (sps_values p) (1 ∷ replicate m 0))
      (init_img_prop_lem p new_image ready).0
      (let es = sps_elements (set_properties p new_image) in
        let fits = AllFit-sps_elements p w h in
        let (m, few, unit) = write_set-NalUnit 0x3401 es s (omega arith) fits (omega arith) in
        (m, few, NalUnit-Wrote 0x3401 es (1 ∷ replicate m 0) (omega arith) fits unit))

-- The fields of the picture parameter set.
abbrev pub pps_syntax : Bool → List Descriptor
pps_syntax tiled =
    (ue
      ∷ ue
      ∷ u 1
      ∷ u 1
      ∷ ue
      ∷ ue
      ∷ se
      ∷ u 1
      ∷ u 1
      ∷ u 1
      ∷ se
      ∷ se
      ∷ u 1
      ∷ u 1
      ∷ u 1
      ∷ u 1
      ∷ u 1
      ∷ u 1
      ∷ u 2
      ∷ [])
    ++ ((if tiled then ue ∷ ue ∷ u 1 ∷ u 1 ∷ [] else [])
        ++ (u 1 ∷ u 1 ∷ u 1 ∷ u 1 ∷ ue ∷ u 1 ∷ u 1 ∷ []))

-- The values: with tiles, the numbers of their columns and rows less 1, in uniform spacing.
abbrev pub pps_values : Bool → Input → List ℤ
pps_values tiled p =
    let n = pos 0 in
    let y = pos 1 in
    (n
      ∷ n
      ∷ n
      ∷ y
      ∷ n
      ∷ n
      ∷ n
      ∷ n
      ∷ n
      ∷ n
      ∷ n
      ∷ n
      ∷ n
      ∷ n
      ∷ n
      ∷ n
      ∷ n
      ∷ n
      ∷ (if tiled then y else n)
      ∷ [])
    ++ ((if tiled
          then pos (p.frame_width_in_tiles - 1) ∷ pos (p.frame_height_in_tiles - 1) ∷ y ∷ n ∷ []
          else [])
        ++ (n ∷ y ∷ n ∷ n ∷ n ∷ n ∷ n ∷ []))

-- The elements for a frame with tiles, and for one with a single tile.
abbrev tiled_elements : ℕ → ℕ → Bool → List Element
tiled_elements columns rows tiled =
    (unsigned_golomb 0
      ∷ unsigned_golomb 0
      ∷ fixed_bits 0 1
      ∷ fixed_bits 1 1
      ∷ unsigned_golomb 0
      ∷ unsigned_golomb 0
      ∷ signed_golomb (pos 0)
      ∷ fixed_bits 0 1
      ∷ fixed_bits 0 1
      ∷ fixed_bits 0 1
      ∷ signed_golomb (pos 0)
      ∷ signed_golomb (pos 0)
      ∷ fixed_bits 0 1
      ∷ fixed_bits 0 1
      ∷ fixed_bits 0 1
      ∷ fixed_bits 0 1
      ∷ fixed_bits 0 1
      ∷ fixed_bits 0 1
      ∷ fixed_bits (if tiled then 1 else 0) 2
      ∷ [])
    ++ ((if tiled
          then unsigned_golomb columns ∷ unsigned_golomb rows ∷ fixed_bits 1 1 ∷ fixed_bits 0 1 ∷ []
          else [])
        ++ (fixed_bits 0 1
            ∷ fixed_bits 1 1
            ∷ fixed_bits 0 1
            ∷ fixed_bits 0 1
            ∷ unsigned_golomb 0
            ∷ fixed_bits 0 1
            ∷ fixed_bits 0 1
            ∷ []))

pps_elements-tiled :
    (p : Input) (tiled : Bool)
    → ltb 1 p.tiles_per_frame ≡ tiled
    → 0 < p.frame_width_in_tiles
    → p.frame_width_in_tiles < 2 ^ 32
    → 0 < p.frame_height_in_tiles
    → p.frame_height_in_tiles < 2 ^ 32
    → pps_elements (set_properties p new_image)
      ≡ tiled_elements (p.frame_width_in_tiles - 1) (p.frame_height_in_tiles - 1) tiled
unfolding pps_elements set_properties new_image
pps_elements-tiled p true e w₀ w₁ h₀ h₁ =
    let columns : minus32 p.frame_width_in_tiles 1 ≡ p.frame_width_in_tiles - 1 = omega arith in
    let rows : minus32 p.frame_height_in_tiles 1 ≡ p.frame_height_in_tiles - 1 = omega arith in
    rw (columns, rows, e)
pps_elements-tiled p false e w₀ w₁ h₀ h₁ = rw e

tiled-syntax :
    (columns rows : ℕ) (tiled : Bool)
    → map descriptor_of (tiled_elements columns rows tiled) ≡ pps_syntax tiled
tiled-syntax columns rows true = refl
tiled-syntax columns rows false = refl

tiled-values :
    (p : Input) (tiled : Bool)
    → map number_of
        (tiled_elements (p.frame_width_in_tiles - 1) (p.frame_height_in_tiles - 1) tiled)
      ≡ pps_values tiled p
tiled-values p true = refl
tiled-values p false = refl

tiled-fits :
    (columns rows : ℕ) (tiled : Bool)
    → columns + 1 < 2 ^ 32
    → rows + 1 < 2 ^ 32
    → AllFit (tiled_elements columns rows tiled)
      × (28 + 16 * length (tiled_elements columns rows tiled) < 509)
tiled-fits columns rows true w h = omega arith
tiled-fits columns rows false w h = omega arith

-- For an image that InitImgProp set up behind the constructor, with at least one column and one row of tiles, and with
-- room for 508 bytes: WritePPSInBitstream returns, and a reader gets the header 0x3601 and the fields from its NAL unit,
-- then the stop bit and at most seven zeros. The numbers of columns and rows are among the fields exactly when the frame
-- has more than one tile.
pub write_pps-read :
    (p : Input) (im : Image) (s : Stream)
    → init_img_prop p new_image ≡ ok im
    → 0 < p.frame_width_in_tiles
    → p.frame_width_in_tiles < 2 ^ 32
    → 0 < p.frame_height_in_tiles
    → p.frame_height_in_tiles < 2 ^ 32
    → 508 < s.alloc_bytes
    → let tiled = ltb 1 p.tiles_per_frame in
      (m : ℕ) × (m < 8)
      × Wrote (write_pps im s) 0x3601 (pps_syntax tiled) (pps_values tiled p) (1 ∷ replicate m 0)
unfolding write_pps
write_pps-read p im s ready w₀ w₁ h₀ h₁ room =
    let tiled = ltb 1 p.tiles_per_frame in
    let es = tiled_elements (p.frame_width_in_tiles - 1) (p.frame_height_in_tiles - 1) tiled in
    let e = pps_elements-tiled p tiled refl w₀ w₁ h₀ h₁ in
    let (fits, size) =
      tiled-fits (p.frame_width_in_tiles - 1) (p.frame_height_in_tiles - 1) tiled (omega arith)
        (omega arith) in
    let (m, few, unit) = write_set-NalUnit 0x3601 es s (omega arith) fits (omega arith) in
    let done = NalUnit-Wrote 0x3601 es (1 ∷ replicate m 0) (omega arith) fits unit in
    subst
      (λ (i : Image).
        (m : ℕ) × (m < 8)
        × Wrote (write_pps i s) 0x3601 (pps_syntax tiled) (pps_values tiled p) (1 ∷ replicate m 0))
      (init_img_prop_lem p new_image ready).0
      (
        m,
        few,
        subst
            (λ (l : List Element).
              Wrote (write_set 0x3601 l true s) 0x3601 (pps_syntax tiled) (pps_values tiled p)
                (1 ∷ replicate m 0))
            (sym e)
            (subst
              (λ (ds : List Descriptor).
                Wrote (write_set 0x3601 es true s) 0x3601 ds (pps_values tiled p)
                  (1 ∷ replicate m 0))
              (tiled-syntax (p.frame_width_in_tiles - 1) (p.frame_height_in_tiles - 1) tiled)
              (subst
                (λ (vs : List ℤ).
                  Wrote (write_set 0x3601 es true s) 0x3601 (map descriptor_of es) vs
                    (1 ∷ replicate m 0))
                (tiled-values p tiled) done)),
      )
