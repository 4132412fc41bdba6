-- ===== src/BitStream/Golomb.antt =====
-- ue(v) and se(v) are read back by the reader of the standard.
use ces.Prelude.{
  ℕ, zero, suc, ◌+◌, ◌-◌, ◌*◌, ◌/◌, ◌%◌, ◌^◌, ◌<◌, ◌≤◌, ◌≡◌, refl, ap, ◌∙◌, List, ◌++◌, Bool, true,
  some, ◌==◌, if◌then◌else◌, length, ok, arith, lt→ltb, ◌>>=◌, >>=-eq-ok, subst, dec_lt, bits,
  bits-append, two-pow_split, two-pow_mono, two-pow_pos,
}
use ces.Prelude.Int.{ℤ, pos, negsuc, pos_part, neg_part, sub_ℕ}
use ces.Macros.{log2}
use ces.Macros.Log2.{IsTop, log2_bounds}
use ces.BitStream.{Stream, put_code, put_uv, code_of_signed}
use ces.BitStream.Payload.{Holds, put_code-Holds, put_code-total}
use ces.BitStream.Reader.{read_ue, read_ue-bits}
use native.Mathlib.Nat.{mod-eq_of_lt}

-- The position of the highest bit of a 32-bit number is below 32.
top-lt : (c p : ℕ) → IsTop c p → c < 2 ^ 32 → p < 32
top-lt c p top h = elim (dec_lt p 32) [
  | yes lt ↦ lt
  | no ge ↦ absurd (omega (arith, two-pow_mono 32 p (omega arith)))
]

-- PutUVInBitstream, with its assertion passed.
put_uv_steps :
    (code p : ℕ) (s : Stream)
    → code + 1 < 2 ^ 32
    → log2 (code + 1) ≡ p + 1
    → put_uv code s ≡ (put_code 0 p true s >>= λ s'. put_code (code + 1) (p + 1) true s')
unfolding put_uv
put_uv_steps code p s small e =
    let less : p + 1 - 1 ≡ p = omega arith in
    rw (mod-eq_of_lt small, e, lt→ltb 0 (p + 1) (omega arith), less)

Holds-eq :
    {base : List ℕ} {emu : Bool} {t : Stream} {n n' v v' : ℕ}
    → Holds base emu t n v
    → n ≡ n'
    → v ≡ v'
    → Holds base emu t n' v'
Holds-eq {base} {emu} {t} {n} {n'} {v} {v'} h e f =
    subst (λ x. Holds base emu t n' x) f (subst (λ x. Holds base emu t x v) e h)

two_codes :
    {base : List ℕ} (code p : ℕ) {s t : Stream} {n v : ℕ}
    → Holds base true s n v
    → IsTop (code + 1) p
    → p < 32
    → (put_code 0 p true s >>= λ s'. put_code (code + 1) (p + 1) true s') ≡ ok t
    → Holds base true t (n + (p + suc p)) (v * 2 ^ (p + suc p) + (code + 1))
two_codes code p {s} {t} {n} {v} h top hp e =
    let (mid, e₀, e₁) =
      >>=-eq-ok (put_code 0 p true s) (λ s'. put_code (code + 1) (p + 1) true s') e in
    let h₀ = put_code-Holds 0 p h (omega arith) (omega (arith, two-pow_pos p)) e₀ in
    let h₁ = put_code-Holds (code + 1) (p + 1) h₀ (omega arith) (rw one_more top.1) e₁ in
    Holds-eq h₁ (omega arith)
      (omega (arith, ap (λ (x : ℕ). v * x) (two-pow_split p (p + 1) (p + suc p) (omega arith))))
  where
    one_more : p + 1 ≡ suc p
    one_more = omega arith

-- With room for sixteen more bytes ue(v) returns: it appends the number `code + 1` in twice as many bits as stand
-- below its highest one, and that one, and writes sixteen bytes at most.
pub put_uv-appends :
    {base : List ℕ} (code : ℕ) {s : Stream} {n v : ℕ}
    → Holds base true s n v
    → code + 1 < 2 ^ 32
    → length s.written + 16 < s.alloc_bytes
    → (p : ℕ) × (t : Stream) × (log2 (code + 1) ≡ p + 1)
      × IsTop (code + 1) p
      × (put_uv code s ≡ ok t)
      × Holds base true t (n + (p + suc p)) (v * 2 ^ (p + suc p) + (code + 1))
      × (length t.written ≤ length s.written + 16)
      × (t.alloc_bytes ≡ s.alloc_bytes)
put_uv-appends code {s} h small room =
    let (p, e₀, top) = log2_bounds (code + 1) (omega arith) small in
    let (mid, e₁, grown, kept) = put_code-total 0 p true s (omega arith) in
    let (t, e₂, grown', kept') = put_code-total (code + 1) (p + 1) true mid (omega arith) in
    let e : (put_code 0 p true s >>= λ s'. put_code (code + 1) (p + 1) true s') ≡ ok t = rw e₁ e₂ in
    (
      p,
      t,
      e₀,
      top,
      put_uv_steps code p s small e₀ ∙ e,
      two_codes code p h top (top-lt (code + 1) p top small) e,
      omega arith,
      kept' ∙ kept,
    )

-- ue(v): for a code below 2 ^ 32 - 1 and with room for sixteen bytes, PutUVInBitstream returns, and
-- it has appended bits from which a reader of the standard gets the code back, whatever follows.
pub put_uv-read_ue :
    {base : List ℕ} (code : ℕ) (rest : List ℕ) {s : Stream} {n v : ℕ}
    → Holds base true s n v
    → code + 1 < 2 ^ 32
    → length s.written + 16 < s.alloc_bytes
    → (t : Stream) × (m w : ℕ) × (put_uv code s ≡ ok t)
      × Holds base true t (n + m) w
      × (bits (n + m) w ≡ bits n v ++ bits m (code + 1))
      × (read_ue (bits m (code + 1) ++ rest) ≡ some (code, rest))
put_uv-read_ue code rest {s} {n} {v} h small room =
    let (p, t, e₀, top, e, held, _, _) = put_uv-appends code h small room in
    let back : code + 1 - 1 ≡ code = omega arith in
    (
      t,
      p + suc p,
      v * 2 ^ (p + suc p) + (code + 1),
      e,
      held,
      bits-append n (p + suc p) v (code + 1)
          (omega (arith, top.1, two-pow_mono (suc p) (p + suc p) (omega arith))),
      rw back at (read_ue-bits p (code + 1) rest top),
    )

-- The integer that a codeNum stands for (Table 9-3).
pub signed_of_code : ℕ → ℤ
signed_of_code k = if k % 2 == 1 then pos ((k + 1) / 2) else sub_ℕ 0 (k / 2)

-- se(v): for an integer from -(2 ^ 31 - 1) to 2 ^ 31 - 1 the conversion gives a code that ue(v) takes,
-- and Table 9-3 of the standard gets the integer back from it.
pub signed_of_code-code_of_signed :
    (i : ℤ)
    → pos_part i < 2 ^ 31
    → neg_part i < 2 ^ 31
    → (code_of_signed i + 1 < 2 ^ 32) × (signed_of_code (code_of_signed i) ≡ i)
unfolding signed_of_code code_of_signed
signed_of_code-code_of_signed (pos zero) lo hi = (omega arith, refl)
signed_of_code-code_of_signed (pos (suc n)) lo hi = ground arith
signed_of_code-code_of_signed (negsuc n) lo hi = ground arith
