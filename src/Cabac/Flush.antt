-- ===== src/Cabac/Flush.antt =====
-- Flush and FinishEncodeCTU: what the coder writes at the end of a substream.
use ces.Prelude.{
  ℕ, suc, zero, ◌+◌, ◌-◌, ◌*◌, ◌/◌, ◌%◌, ◌^◌, ◌≤◌, ◌<◌, ◌≡◌, refl, ap, List, [], ◌∷◌, ◌++◌, ltb,
  if◌then◌else◌, arith, lt→ltb, le→ltb_false, dec_lt, ℕ_discrete, two-pow_split, two-pow_pos,
}
use ces.Cabac.{Call, put, Engine, u32, outstanding, flush}
use ces.Cabac.Inv.{low_range-le}
use ces.Cabac.Interval.{Interval}
use ces.Cabac.Calls.{
  emit, emit_bits, AllFit, emit-append, emit_bits-append, AllFit-append, emit-outstanding_zero,
  emit-outstanding_ff, emit_bits-outstanding, AllFit-outstanding,
}
use ces.Cabac.Value.{prefix, prefix-suc, quotient-lt, Tracks}
use native.Mathlib.Nat.{div-add-mod', mod-lt}

-- The bytes that are pending when the carry is known.
pending : ℕ → ℕ → ℕ → List Call
pending num_byte buffer zero =
    (if ltb 0 num_byte then put buffer 8 ∷ [] else []) ++ outstanding num_byte 0xff
pending num_byte buffer (suc carry) = put (buffer + 1) 8 ∷ outstanding num_byte 0

pending_lem :
    (b n num_byte buffer carry : ℕ)
    → carry ≤ 1
    → (num_byte ≡ 0 → carry ≡ 0)
    → buffer + carry < 256
    → (emit b (pending num_byte buffer carry) ≡ prefix b num_byte buffer + carry)
      × (emit_bits n (pending num_byte buffer carry) ≡ n + 8 * num_byte)
      × AllFit (pending num_byte buffer carry)
unfolding pending outstanding
pending_lem b n zero buffer zero hc none fits = (omega arith, omega arith, tt)
pending_lem b n (suc m) buffer zero hc none fits = rw (lt→ltb 0 (suc m) (omega arith)) (
  omega (arith, emit-outstanding_ff m (b * 2 ^ 8 + buffer), prefix-suc b m buffer),
  omega (arith, emit_bits-outstanding m (n + 8) 0xff),
  (omega arith, omega arith, omega arith, AllFit-outstanding (suc m) 0xff (omega arith)),
)
pending_lem b n zero buffer (suc carry) hc none fits = absurd (omega (arith, none refl))
pending_lem b n (suc m) buffer (suc carry) hc none fits = (
  omega (arith, emit-outstanding_zero m (b * 2 ^ 8 + (buffer + 1)), prefix-suc b m buffer),
  omega (arith, emit_bits-outstanding m (n + 8) 0),
  (omega arith, omega arith, omega arith, AllFit-outstanding (suc m) 0 (omega arith)),
)

-- What Flush writes: the pending bytes, then the register without its lowest eight bits.
pub record Flushed (b n : ℕ) (i : Interval) (calls : List Call) : Type 0 where
  pub value : emit b calls ≡ i.low / 2 ^ 8
  pub count : emit_bits n calls ≡ i.shifts + 1
  pub fit : AllFit calls

-- The last bits behind the pending bytes.
last_value : (p s t low x : ℕ) → t ≡ 256 * s → p * t + low ≡ x → p * s + low / 256 ≡ x / 256
last_value p s t low x e h = omega (arith, ap (λ (u : ℕ). p * u) e)

last-Flushed :
    (b n carry low : ℕ) {e : Engine} {i : Interval}
    → Tracks 12 b n e i
    → carry * 2 ^ (32 - e.bits_left) + low ≡ e.low
    → low < 2 ^ (32 - e.bits_left)
    → carry ≤ 1
    → (0 < carry → e.low ≡ 2 ^ (32 - e.bits_left) + low)
    → Flushed b n i (pending e.num_byte e.buffer carry ++ put (low / 2 ^ 8) (24 - e.bits_left) ∷ [])
last-Flushed b n carry low {e} {i} t parts small hc one = record {
  value =
      rw (emit-append b pend last, pended.0)
        (last_value (prefix b e.num_byte e.buffer + carry) (2 ^ (24 - e.bits_left))
          (2 ^ (32 - e.bits_left)) low i.low bytes (omega (arith, t.value, parts)));
  count = rw (emit_bits-append n pend last, pended.1) (omega (arith, t.count, t.inv.bits_hi));
  fit =
      AllFit-append pend last pended.2
        (omega (arith, bytes), omega (arith, t.inv.bits_hi), omega arith, tt);
}
  where
    pend : List Call
    pend = pending e.num_byte e.buffer carry

    last : List Call
    last = put (low / 2 ^ 8) (24 - e.bits_left) ∷ []

    bytes : 2 ^ (32 - e.bits_left) ≡ 256 * 2 ^ (24 - e.bits_left)
    bytes = two-pow_split 8 (24 - e.bits_left) (32 - e.bits_left) (omega (arith, t.inv.bits_hi))

    -- no carry into a byte 0xFF
    settled : e.buffer ≡ 255 → carry ≡ 0
    settled h = elim (dec_lt 0 carry) [
      | yes some ↦ absurd (omega (arith, one some, t.inv.full h, t.inv.range_lo))
      | no none ↦ omega arith
    ]

    pended :
        (emit b (pending e.num_byte e.buffer carry) ≡ prefix b e.num_byte e.buffer + carry)
        × (emit_bits n (pending e.num_byte e.buffer carry) ≡ n + 8 * e.num_byte)
        × AllFit (pending e.num_byte e.buffer carry)
    pended =
        pending_lem b n e.num_byte e.buffer carry hc (λ z. settled (t.inv.unused z))
          (elim (ℕ_discrete e.buffer 255) [
            | yes is_ff ↦ omega (arith, settled is_ff)
            | no other ↦ omega (arith, t.inv.buffer_fits)
          ])

-- Flush writes the lower end of the interval but for its lowest eight bits, the carry and the pending
-- bytes included, and each call fits its length.
pub flush-Flushed :
    (b n : ℕ) (e : Engine) (i : Interval) → Tracks 12 b n e i → Flushed b n i (flush e).1
unfolding flush pending
flush-Flushed b n e i t = elim (dec_lt 0 (e.low / top)) [
  | yes carried ↦
      rw (lt→ltb 0 (e.low / top) carried, wrap carried)
        (last-Flushed b n 1 (e.low - top) t (omega (arith, over carried))
          (omega (arith, over carried, rest)) (omega arith) (λ _. omega (arith, over carried)))
  | no none ↦ rw (le→ltb_false 0 (e.low / top) (omega arith)) (
      last-Flushed b n 0 e.low t (omega arith) (below none) (omega arith)
        (λ h. absurd (omega arith)))
]
  where
    top : ℕ
    top = 2 ^ (32 - e.bits_left)

    halves :
        e.low / 2 ^ (32 - e.bits_left) * 2 ^ (32 - e.bits_left) + e.low % 2 ^ (32 - e.bits_left)
        ≡ e.low
    halves = div-add-mod' e.low (2 ^ (32 - e.bits_left))

    rest : e.low % 2 ^ (32 - e.bits_left) < 2 ^ (32 - e.bits_left)
    rest = mod-lt e.low (two-pow_pos (32 - e.bits_left))

    carry-lt : e.low / 2 ^ (32 - e.bits_left) < 2
    carry-lt =
        quotient-lt 2 _ _ _ _ e.range halves
          (omega (
            arith,
            t.inv.room,
            two-pow_split 1 (32 - e.bits_left) (33 - e.bits_left) (omega (arith, t.inv.bits_hi)),
          ))
          (omega (arith, t.inv.range_lo))

    over :
        0 < e.low / 2 ^ (32 - e.bits_left)
        → e.low ≡ 2 ^ (32 - e.bits_left) + e.low % 2 ^ (32 - e.bits_left)
    over h =
        let one : e.low / 2 ^ (32 - e.bits_left) ≡ 1 = omega (arith, carry-lt) in
        omega (arith, halves, ap (λ (u : ℕ). u * 2 ^ (32 - e.bits_left)) one)

    below : (0 < e.low / 2 ^ (32 - e.bits_left) → ⊥) → e.low < 2 ^ (32 - e.bits_left)
    below h =
        let none : e.low / 2 ^ (32 - e.bits_left) ≡ 0 = omega arith in
        omega (arith, halves, rest, ap (λ (u : ℕ). u * 2 ^ (32 - e.bits_left)) none)

    wrap :
        0 < e.low / 2 ^ (32 - e.bits_left)
        → u32 (e.low + 2 ^ 32 - 2 ^ (32 - e.bits_left)) ≡ e.low - 2 ^ (32 - e.bits_left)
    wrap h = omega (arith, over h, rest, low_range-le t.inv)
