-- ===== src/BitStream/Reader.antt =====
-- The reading of ue(v) in the standard (9.2), over a list of bits. It is independent of the encoder.
use ces.Prelude.{
  ℕ, zero, suc, ◌+◌, ◌-◌, ◌*◌, ◌/◌, ◌%◌, ◌^◌, ◌<◌, ◌≡◌, refl, ap, ap₂, ◌∙◌, List, [], ◌∷◌, ◌++◌,
  Option, none, some, ◌==◌, if◌then◌else◌, arith, bits, bits-append, bits-zero, replicate,
  append_assoc, two-pow_pos, two-pow-suc,
}
use ces.Macros.Log2.{IsTop}

infixl 5 ◌>>=◌
abbrev pub ◌>>=◌ {ℓ κ} : {A : Type ℓ} {B : Type κ} → Option A → (A → Option B) → Option B
none >>= f = none
some a >>= f = f a

-- leadingZeroBits, and what follows the first bit 1.
pub leading_zeros : List ℕ → Option (ℕ × List ℕ)
leading_zeros [] = none
leading_zeros (b ∷ r) =
    if b == 0 then (leading_zeros r >>= λ p. some (suc p.0, p.1)) else some (0, r)

-- read_bits(n)
pub read_bits : ℕ → List ℕ → Option (ℕ × List ℕ)
read_bits zero r = some (0, r)
read_bits (suc n) r = do
  (x, rest) ← read_bits n r
  elim rest [ [] ↦ none | b ∷ rest' ↦ some (2 * x + b, rest') ]

-- codeNum = 2 ^ leadingZeroBits - 1 + read_bits(leadingZeroBits)
pub read_ue : List ℕ → Option (ℕ × List ℕ)
read_ue r = do
  (z, rest) ← leading_zeros r
  (x, rest') ← read_bits z rest
  some (2 ^ z - 1 + x, rest')

leading_zeros-replicate :
    (p : ℕ) (r : List ℕ) → leading_zeros (replicate p 0 ++ 1 ∷ r) ≡ some (p, r)
unfolding leading_zeros
leading_zeros-replicate zero r = refl
leading_zeros-replicate (suc p) r = rw (leading_zeros-replicate p r)

pub read_bits-bits :
    (k x : ℕ) (rest : List ℕ) → x < 2 ^ k → read_bits k (bits k x ++ rest) ≡ some (x, rest)
unfolding read_bits
read_bits-bits zero x rest h = let e : x ≡ 0 = omega arith in rw e
read_bits-bits (suc k) x rest h =
    rw
      (
        append_assoc (bits k (x / 2)) (x % 2 ∷ []) rest,
        read_bits-bits k (x / 2) (x % 2 ∷ rest) (omega (arith, two-pow-suc k)),
      )
      (let e : 2 * (x / 2) + x % 2 ≡ x = omega arith in rw e)

-- The bits of a ue(v) code: as many zeros as there are bits below the highest one, and the number.
bits-ue : (p c : ℕ) → IsTop c p → bits (p + suc p) c ≡ replicate p 0 ++ 1 ∷ bits p (c - 2 ^ p)
bits-ue p c top =
    ap (bits (p + suc p)) whole
    ∙ bits-append p (suc p) 0 c top.1
    ∙ ap₂ ◌++◌ (bits-zero p) (ap₂ bits one_more highest ∙ bits-append 1 p 1 (c - 2 ^ p) below)
  where
    whole : c ≡ 0 * 2 ^ suc p + c
    whole = omega arith

    one_more : suc p ≡ 1 + p
    one_more = omega arith

    highest : c ≡ 1 * 2 ^ p + (c - 2 ^ p)
    highest = omega arith

    below : c - 2 ^ p < 2 ^ p
    below = omega (arith, two-pow_pos p, two-pow-suc p)

pub read_ue-bits :
    (p c : ℕ) (rest : List ℕ)
    → IsTop c p
    → read_ue (bits (p + suc p) c ++ rest) ≡ some (c - 1, rest)
unfolding read_ue
read_ue-bits p c rest top =
    rw
      (
        bits-ue p c top,
        append_assoc (replicate p 0) (1 ∷ bits p (c - 2 ^ p)) rest,
        leading_zeros-replicate p (bits p (c - 2 ^ p) ++ rest),
        read_bits-bits p (c - 2 ^ p) rest (omega (arith, two-pow-suc p)),
      )
      (let e : 2 ^ p - 1 + (c - 2 ^ p) ≡ c - 1 = omega (arith, two-pow_pos p) in rw e)
