-- ===== src/H265Headers/Slice/Read.antt =====
-- The slice header of src/H265Headers.cpp against the syntax table of the standard (7.3.5).
use ces.Prelude.{
  ℕ, ◌+◌, ◌-◌, ◌%◌, ◌^◌, ◌≤◌, ◌<◌, ◌≡◌, refl, Bool, true, false, ◌&&◌, List, [], ◌∷◌, ◌++◌, map,
  length, arith, ◌==◌, if◌then◌else◌, two-pow_pos,
}
use ces.Prelude.Int.{ℤ, pos, sub_ℕ}
use ces.ImageParameters.Image.{Image}
use ces.H265Headers.{Element, fixed_bits, signed_golomb, minus32}
use ces.H265Headers.Reading.{Fits, AllFit, Descriptor, u, ue, se, descriptor_of, number_of}
use native.Mathlib.Nat.{mod-lt}
use ces.H265Headers.Slice.{to_i32, i_slice, slice_elements}

-- The fields of a slice header, with `poc_bits` bits of the picture order count.
abbrev pub slice_syntax : Bool → Bool → ℕ → List Descriptor
slice_syntax intra first poc_bits =
    u 1
    ∷ ((if intra && first then u 1 ∷ [] else [])
        ++ ((ue ∷ ue ∷ u 1 ∷ [])
            ++ ((if intra && first then [] else (u poc_bits ∷ u 1 ∷ ue ∷ []))
                ++ ((if intra then [] else (u 1 ∷ ue ∷ u 1 ∷ [])) ++ (se ∷ u 1 ∷ ue ∷ [])))))

-- Their values: the slice's type, its number modulo a power of two, the references less 1, and the QP less 26.
abbrev pub slice_values : Bool → Bool → Image → ℕ → ℕ → List ℤ
slice_values intra first im slice_type slice_num =
    pos 1
    ∷ ((if intra && first then pos 0 ∷ [] else [])
        ++ ((pos 0 ∷ pos slice_type ∷ pos 0 ∷ [])
            ++ ((if intra && first
                  then []
                  else (pos (slice_num % 2 ^ im.bits_for_poc) ∷ pos 1 ∷ pos 0 ∷ []))
                ++ ((if intra then [] else (pos 1 ∷ pos (im.max_num_ref_frames - 1) ∷ pos 0 ∷ []))
                    ++ (sub_ℕ im.qp 26 ∷ pos 1 ∷ pos 0 ∷ [])))))

-- The members of the image that a slice header takes, in the ranges that it needs.
pub record InRange (im : Image) : Type 0 where
  pub poc_pos : 0 < im.bits_for_poc
  pub poc_le : im.bits_for_poc < 32
  pub refs_pos : 0 < im.max_num_ref_frames
  pub refs_small : im.max_num_ref_frames < 2 ^ 32
  pub qp_small : im.qp < 2 ^ 31

-- What a case of the elements has: the fields fit, they have the syntax and the values, and there are 14 at most.
pub record Agrees (es : List Element) (ds : List Descriptor) (values : List ℤ) : Type 0 where
  pub fits : AllFit es
  pub syntax_eq : map descriptor_of es ≡ ds
  pub values_eq : map number_of es ≡ values
  pub few : length es ≤ 14

module _ (im : Image) (slice_type slice_num : ℕ) (h : InRange im)
    (t : slice_type + 1 < 2 ^ 32) where
  qp_delta : to_i32 (minus32 im.qp 26) ≡ sub_ℕ im.qp 26
  qp_delta = ground (arith, h.qp_small)

  qp-Fits : Fits (signed_golomb (sub_ℕ im.qp 26))
  qp-Fits = ground (arith, h.qp_small)

  refs_eq : minus32 im.max_num_ref_frames 1 ≡ im.max_num_ref_frames - 1
  refs_eq = omega (arith, h.refs_pos, h.refs_small)

  refs_fit : im.max_num_ref_frames - 1 + 1 < 2 ^ 32
  refs_fit = omega (arith, h.refs_pos, h.refs_small)

  poc-Fits : Fits (fixed_bits (slice_num % 2 ^ im.bits_for_poc) im.bits_for_poc)
  poc-Fits = (h.poc_pos, omega (arith, h.poc_le), mod-lt slice_num (two-pow_pos im.bits_for_poc))

  pub slice_elements-Agrees :
      (intra first : Bool)
      → (slice_type == i_slice) ≡ intra
      → (slice_num == 0) ≡ first
      → Agrees
          (slice_elements im slice_type slice_num)
          (slice_syntax intra first im.bits_for_poc)
          (slice_values intra first im slice_type slice_num)
  unfolding slice_elements
  slice_elements-Agrees true true e f =
      rw (e, f, qp_delta)
        (record {
          fits = (
            omega arith,
            (
              omega arith,
              (omega arith, (t, (omega arith, (qp-Fits, (omega arith, (omega arith, tt)))))),
            ),
          );
          syntax_eq = refl;
          values_eq = refl;
          few = omega arith;
        })
  slice_elements-Agrees true false e f =
      rw (e, f, qp_delta)
        (record {
          fits = (
            omega arith,
            (
              omega arith,
              (
                t,
                (
                  omega arith,
                  (
                    poc-Fits,
                    (omega arith, (omega arith, (qp-Fits, (omega arith, (omega arith, tt))))),
                  ),
                ),
              ),
            ),
          );
          syntax_eq = refl;
          values_eq = refl;
          few = omega arith;
        })
  slice_elements-Agrees false true e f =
      rw (e, qp_delta, refs_eq)
        (record {
          fits = (
            omega arith,
            (
              omega arith,
              (
                t,
                (
                  omega arith,
                  (
                    poc-Fits,
                    (
                      omega arith,
                      (
                        omega arith,
                        (
                          omega arith,
                          (refs_fit, (omega arith, (qp-Fits, (omega arith, (omega arith, tt))))),
                        ),
                      ),
                    ),
                  ),
                ),
              ),
            ),
          );
          syntax_eq = refl;
          values_eq = refl;
          few = omega arith;
        })
  slice_elements-Agrees false false e f =
      rw (e, qp_delta, refs_eq)
        (record {
          fits = (
            omega arith,
            (
              omega arith,
              (
                t,
                (
                  omega arith,
                  (
                    poc-Fits,
                    (
                      omega arith,
                      (
                        omega arith,
                        (
                          omega arith,
                          (refs_fit, (omega arith, (qp-Fits, (omega arith, (omega arith, tt))))),
                        ),
                      ),
                    ),
                  ),
                ),
              ),
            ),
          );
          syntax_eq = refl;
          values_eq = refl;
          few = omega arith;
        })
