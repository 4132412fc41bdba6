-- ===== src/Cabac/Value.antt =====
-- What the coder has written and what it still keeps, as one number: the relation between the
-- engine and the interval of the standard, and that WriteOutputBitstream keeps it.
mod Lead
pub use Lead.{prefix, prefix-suc}
use ces.Prelude.{
  ℕ, ◌+◌, ◌-◌, ◌*◌, ◌/◌, ◌%◌, ◌^◌, ◌≤◌, ◌<◌, ◌≡◌, refl, sym, ap, ◌∙◌, true, List, [], ltb, ◌==◌,
  ==_iff, arith, bit_and, bit_and_mask, lt→ltb, le→ltb_false, dec_lt, all_below, all_below_sound,
  two-pow_split, two-pow_mono, two-pow_pos,
}
use ces.Cabac.{Call, Engine, write_output}
use ces.Cabac.Inv.{Inv}
use ces.Cabac.Calls.{emit, emit_bits, AllFit}
use ces.Cabac.Interval.{Interval}
use Lead.{Leads, Leading, put_lead-Leads}
use native.Mathlib.Nat.{mod-lt, div-add-mod', mul-le-mul}

-- The bits written, which are the number `b` of length `n`, the pending bytes and the register are
-- together the lower end of the interval, of `shifts + 9` bits.
pub record Tracks (lo b n : ℕ) (e : Engine) (i : Interval) : Type 0 where
  pub inv : Inv lo e
  pub value : prefix b e.num_byte e.buffer * 2 ^ (32 - e.bits_left) + e.low ≡ i.low
  pub range : e.range ≡ i.range
  pub count : n + 8 * e.num_byte + (32 - e.bits_left) ≡ i.shifts + 9

-- The same after the calls `r.1`, which the handler accepts.
pub record Coded (b n : ℕ) (contexts : List ℕ) (i : Interval) (r : Engine × List Call)
    : Type 0 where
  pub tracks : Tracks 12 (emit b r.1) (emit_bits n r.1) r.0 i
  pub fit : AllFit r.1
  pub contexts_eq : r.0.contexts ≡ contexts

pub Coded-contexts :
    {b n : ℕ} {c c' : List ℕ} {i : Interval} {r : Engine × List Call}
    → c ≡ c'
    → Coded b n c i r
    → Coded b n c' i r
Coded-contexts q h = record { tracks = h.tracks; fit = h.fit; contexts_eq = h.contexts_eq ∙ q }

masks : all_below 32 (λ k. 0xffff_ffff / 2 ^ k == 2 ^ (32 - k) - 1) ≡ true
unfolding all_below
masks = refl

mask_eq : (k : ℕ) → k < 32 → 0xffff_ffff / 2 ^ k ≡ 2 ^ (32 - k) - 1
mask_eq k h =
    (==_iff (0xffff_ffff / 2 ^ k) (2 ^ (32 - k) - 1)).0
      (all_below_sound 32 (λ k. 0xffff_ffff / 2 ^ k == 2 ^ (32 - k) - 1) k masks h)

-- The engine when the byte has left the register.
abbrev rest_of : Engine → Engine
rest_of e = record e { bits_left = e.bits_left + 8; low = e.low % 2 ^ (24 - e.bits_left) }

-- A quotient is below the bound that the dividend keeps.
pub quotient-lt : (c q d r x range : ℕ) → q * d + r ≡ x → x + range ≤ c * d → 1 ≤ range → q < c
quotient-lt c q d r x range e h some = elim (dec_lt q c) [
  | yes fine ↦ fine
  | no over ↦
      let more : c * d ≤ q * d = mul-le-mul (omega arith) (omega arith) in absurd (omega arith)
]

module _ (e : Engine) (v : Inv 4 e) (short : e.bits_left < 12) where
  split_low :
      e.low / 2 ^ (24 - e.bits_left) * 2 ^ (24 - e.bits_left) + e.low % 2 ^ (24 - e.bits_left)
      ≡ e.low
  split_low = div-add-mod' e.low (2 ^ (24 - e.bits_left))

  rest-lt : e.low % 2 ^ (24 - e.bits_left) < 2 ^ (24 - e.bits_left)
  rest-lt = mod-lt e.low (two-pow_pos (24 - e.bits_left))

  room_of_two : e.low + e.range ≤ 512 * 2 ^ (24 - e.bits_left)
  room_of_two = omega (
    arith,
    v.room,
    two-pow_split 9 (24 - e.bits_left) (33 - e.bits_left) (omega (arith, v.bits_lo)),
  )

  room_of_one : e.buffer ≡ 255 → e.low + e.range ≤ 256 * 2 ^ (24 - e.bits_left)
  room_of_one h = omega (
    arith,
    v.full h,
    two-pow_split 8 (24 - e.bits_left) (32 - e.bits_left) (omega (arith, v.bits_lo)),
  )

  lead-lt : e.low / 2 ^ (24 - e.bits_left) < 512
  lead-lt = quotient-lt 512 _ _ _ _ e.range split_low room_of_two (omega (arith, v.range_lo))

  -- The register keeps room for the rest, when the byte is the last one before a carry.
  rest_room :
      (c : ℕ)
      → e.low / 2 ^ (24 - e.bits_left) ≡ c
      → e.low + e.range ≤ (c + 1) * 2 ^ (24 - e.bits_left)
      → e.low % 2 ^ (24 - e.bits_left) + e.range ≤ 2 ^ (24 - e.bits_left)
  rest_room c is_c h = omega (arith, split_low, ap (λ (t : ℕ). t * 2 ^ (24 - e.bits_left)) is_c)

  ready_to_lead : e.num_byte + 1 < 2 ^ 32 → Leading (e.low / 2 ^ (24 - e.bits_left)) (rest_of e)
  ready_to_lead few = record {
    range_lo = v.range_lo;
    range_hi = v.range_hi;
    bits_lo = omega (arith, v.bits_lo);
    bits_hi = omega arith;
    buffer_fits = v.buffer_fits;
    states = v.states;
    unused = v.unused;
    few = few;
    low_fits = rw eight rest-lt;
    lead_le = omega (arith, lead-lt);
    no_carry = λ h. omega (
      arith,
      quotient-lt 256 _ _ _ _ e.range split_low (room_of_one h) (omega (arith, v.range_lo)),
    );
    top = λ h. rw eight (rest_room 511 h room_of_two);
    full = λ is_ff h. rw eight (rest_room 255 h (room_of_one is_ff));
  }
    where
      eight : 32 - (e.bits_left + 8) ≡ 24 - e.bits_left
      eight = omega arith

kept :
    {b n : ℕ} {e : Engine} {i : Interval} → Tracks 4 b n e i → 12 ≤ e.bits_left → Tracks 12 b n e i
kept {e = e} t h = record {
  inv = record {
    range_lo = t.inv.range_lo;
    range_hi = t.inv.range_hi;
    bits_lo = h;
    bits_hi = t.inv.bits_hi;
    buffer_fits = t.inv.buffer_fits;
    states = t.inv.states;
    room = t.inv.room;
    unused = t.inv.unused;
    full = t.inv.full;
  };
  value = t.value;
  range = t.range;
  count = t.count;
}

-- The bytes are fewer than the shifts.
few_bytes :
    {lo b n : ℕ} {e : Engine} {i : Interval}
    → Tracks lo b n e i
    → i.shifts < 2 ^ 34
    → e.num_byte + 1 < 2 ^ 32
few_bytes t h = omega (arith, t.count, t.inv.bits_hi)

-- The step from `Leads` to the relation.
led :
    (b n : ℕ) (e : Engine) (i : Interval)
    → Tracks 4 b n e i
    → e.bits_left < 12
    → (r : Engine × List Call) → Leads b (e.low / 2 ^ (24 - e.bits_left)) (rest_of e) r
    → Coded b n e.contexts i r
led b n e i t short r l = record {
  tracks = record {
    inv = l.inv;
    value = rw (l.prefix_eq, l.same_low, l.same_bits, eight) moved;
    range = l.same_range ∙ t.range;
    count = rw l.same_bits (omega (arith, l.count n, t.count, t.inv.bits_lo));
  };
  fit = l.fit;
  contexts_eq = l.same_contexts;
}
  where
    eight : 32 - (e.bits_left + 8) ≡ 24 - e.bits_left
    eight = omega arith

    before : ℕ
    before = prefix b e.num_byte e.buffer

    moved :
        (before * 256 + e.low / 2 ^ (24 - e.bits_left)) * 2 ^ (24 - e.bits_left)
          + e.low % 2 ^ (24 - e.bits_left)
        ≡ i.low
    moved = omega (
      arith,
      t.value,
      split_low e t.inv short,
      ap (λ (u : ℕ). before * u)
          (two-pow_split 8 (24 - e.bits_left) (32 - e.bits_left) (omega (arith, t.inv.bits_lo))),
    )

-- WriteOutputBitstream keeps the number.
pub write_output-Coded :
    (b n : ℕ) (e : Engine) (i : Interval)
    → Tracks 4 b n e i
    → i.shifts < 2 ^ 34
    → Coded b n e.contexts i (write_output e)
unfolding write_output
write_output-Coded b n e i t few = elim (dec_lt e.bits_left 12) [
  | yes short ↦
      rw (lt→ltb e.bits_left 12 short, masked short)
        (led b n e i t short _ (
          put_lead-Leads b (e.low / 2 ^ (24 - e.bits_left))
            (ready_to_lead e t.inv short (few_bytes t few))))
  | no long ↦
      rw (le→ltb_false e.bits_left 12 (omega arith))
        record { tracks = kept t (omega arith); fit = tt; contexts_eq = refl }
]
  where
    masked :
        e.bits_left < 12
        → bit_and e.low (0xffff_ffff / 2 ^ (e.bits_left + 8)) ≡ e.low % 2 ^ (24 - e.bits_left)
    masked short =
        let eight : 32 - (e.bits_left + 8) ≡ 24 - e.bits_left = omega arith in
        rw (mask_eq (e.bits_left + 8) (omega arith), eight) (bit_and_mask (24 - e.bits_left) e.low)
