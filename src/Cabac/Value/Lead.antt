-- ===== src/Cabac/Value/Lead.antt =====
-- WriteOutputBitstream where a byte leaves the register: how the pending bytes take the carry.
use ces.Prelude.{
  ℕ, zero, suc, ◌+◌, ◌-◌, ◌*◌, ◌/◌, ◌%◌, ◌^◌, ◌≤◌, ◌<◌, ◌≡◌, ◌≢◌, refl, ap, ◌∙◌, List, [], ◌∷◌, ltb,
  if◌then◌else◌, arith, bit_and, bit_and_mask, lt→ltb, le→ltb_false, dec_lt, ℕ_discrete, AllBelow,
  ne→==_false, two-pow_split, two-pow_mono, subst,
}
use ces.Cabac.{Call, put, Engine, put_lead, outstanding, u32}
use ces.Cabac.Inv.{Inv}
use ces.Cabac.Calls.{
  emit, emit_bits, AllFit, emit-outstanding_zero, emit-outstanding_ff, emit_bits-outstanding,
  AllFit-outstanding,
}
use native.Mathlib.Nat.{pow-suc, one-le-pow, mod-eq_of_lt}

-- The bytes before the register: those written, as the number `b`, then `buffer` and the
-- outstanding bytes 0xFF.
abbrev pub prefix : ℕ → ℕ → ℕ → ℕ
prefix b zero buffer = b
prefix b (suc m) buffer = (b * 256 + buffer + 1) * 256 ^ m - 1

-- The state `r.0` and the calls `r.1` after a byte `lead` left the register, which `e` describes.
pub record Leads (b : ℕ) (lead : ℕ) (e : Engine) (r : Engine × List Call) : Type 0 where
  pub inv : Inv 12 r.0
  pub same_low : r.0.low ≡ e.low
  pub same_range : r.0.range ≡ e.range
  pub same_bits : r.0.bits_left ≡ e.bits_left
  pub same_contexts : r.0.contexts ≡ e.contexts
  pub prefix_eq :
      prefix (emit b r.1) r.0.num_byte r.0.buffer ≡ prefix b e.num_byte e.buffer * 256 + lead
  pub count : (n : ℕ) → emit_bits n r.1 + 8 * r.0.num_byte ≡ n + 8 * e.num_byte + 8
  pub fit : AllFit r.1

-- What holds of the registers when the byte `lead` has left: at most one carry, and none into 0xFF.
pub record Leading (lead : ℕ) (e : Engine) : Type 0 where
  pub range_lo : 256 ≤ e.range
  pub range_hi : e.range ≤ 510
  pub bits_lo : 12 ≤ e.bits_left
  pub bits_hi : e.bits_left ≤ 19
  pub buffer_fits : e.buffer < 256
  pub states : AllBelow 126 e.contexts
  pub unused : e.num_byte ≡ 0 → e.buffer ≡ 255
  pub few : e.num_byte + 1 < 2 ^ 32
  pub low_fits : e.low < 2 ^ (32 - e.bits_left)
  pub lead_le : lead ≤ 511
  pub no_carry : e.buffer ≡ 255 → lead ≤ 255
  pub top : lead ≡ 511 → e.low + e.range ≤ 2 ^ (32 - e.bits_left)
  pub full : e.buffer ≡ 255 → lead ≡ 255 → e.low + e.range ≤ 2 ^ (32 - e.bits_left)

-- The invariant, where the register holds less than its top byte.
ready :
    (num_byte buffer lead : ℕ) {e : Engine}
    → Leading lead e
    → buffer < 256
    → 0 < num_byte
    → (buffer ≡ 255 → e.low + e.range ≤ 2 ^ (32 - e.bits_left))
    → Inv 12 (record e { num_byte = num_byte; buffer = buffer })
ready num_byte buffer lead {e} h fits some full = record {
  range_lo = h.range_lo;
  range_hi = h.range_hi;
  bits_lo = h.bits_lo;
  bits_hi = omega (arith, h.bits_hi);
  buffer_fits = fits;
  states = h.states;
  room = omega (
    arith,
    h.low_fits,
    h.range_hi,
    two-pow_mono 13 (32 - e.bits_left) (omega (arith, h.bits_hi)),
    two-pow_split 1 (32 - e.bits_left) (33 - e.bits_left) (omega (arith, h.bits_hi)),
  );
  unused = λ z. absurd (omega arith);
  full = full;
}

pub prefix-suc : (b n buffer : ℕ) → prefix b (suc n) buffer + 1 ≡ (b * 256 + buffer + 1) * 256 ^ n
prefix-suc b n buffer = grind (arith, one-le-pow n 256)

-- One more outstanding byte.
prefix_ff :
    (b n buffer : ℕ)
    → (n ≡ 0 → buffer ≡ 255)
    → prefix b (suc n) buffer ≡ prefix b n buffer * 256 + 255
prefix_ff b zero buffer h = omega (arith, h refl)
prefix_ff b (suc n) buffer h = omega (
  arith,
  prefix-suc b (suc n) buffer,
  prefix-suc b n buffer,
  ap (λ (t : ℕ). (b * 256 + buffer + 1) * t) (pow-suc 256 n),
)

-- A byte 0xFF becomes outstanding.
lead_ff :
    (b : ℕ) {e : Engine}
    → Leading 255 e
    → Leads b 255 e (record e { num_byte = u32 (e.num_byte + 1) }, [])
lead_ff b {e} h = rw one_more record {
  inv = ready (suc e.num_byte) e.buffer 255 h h.buffer_fits (omega arith) (λ q. h.full q refl);
  same_low = refl;
  same_range = refl;
  same_bits = refl;
  same_contexts = refl;
  prefix_eq = prefix_ff b e.num_byte e.buffer h.unused;
  count = λ n. omega arith;
  fit = tt;
}
  where
    one_more : u32 (e.num_byte + 1) ≡ suc e.num_byte
    one_more = mod-eq_of_lt h.few ∙ omega arith

-- The pending bytes with the carry, as they are written.
settled :
    (b buffer m carry : ℕ)
    → carry < 2
    → emit b (put (buffer + carry) 8 ∷ outstanding (suc m) (bit_and (0xff + carry) 0xff))
      ≡ prefix b (suc m) buffer + carry
settled b buffer m zero h =
    omega (arith, emit-outstanding_ff m (b * 2 ^ 8 + (buffer + 0)), prefix-suc b m buffer)
settled b buffer m (suc zero) h =
    omega (arith, emit-outstanding_zero m (b * 2 ^ 8 + (buffer + 1)), prefix-suc b m buffer)
settled b buffer m (suc (suc k)) h = absurd (omega arith)

-- Any other byte settles the pending ones: they are written, with the carry.
lead_settles :
    (b lead m : ℕ) {e : Engine}
    → Leading lead e
    → lead ≢ 255
    → e.num_byte ≡ suc m
    → Leads b lead e (
      record e { buffer = bit_and lead 0xff; num_byte = 1 },
      put (e.buffer + lead / 2 ^ 8) 8 ∷ outstanding e.num_byte (bit_and (0xff + lead / 2 ^ 8) 0xff),
    )
lead_settles b lead m {e} h ne some =
    rw (some, bit_and_mask 8 lead)
      record {
        inv =
            ready 1 (lead % 256) lead h (omega arith) (omega arith)
              (λ q. h.top (omega (arith, h.lead_le)));
        same_low = refl;
        same_range = refl;
        same_bits = refl;
        same_contexts = refl;
        prefix_eq = omega (arith, settled b e.buffer m (lead / 2 ^ 8) (omega (arith, h.lead_le)));
        count = λ n.
            omega (arith, emit_bits-outstanding m (n + 8) (bit_and (0xff + lead / 2 ^ 8) 0xff));
        fit = (
          fits,
          omega arith,
          omega arith,
          AllFit-outstanding (suc m) (bit_and (0xff + lead / 2 ^ 8) 0xff)
              (omega (arith, bit_and_mask 8 (0xff + lead / 2 ^ 8))),
        );
      }
  where
    fits : e.buffer + lead / 2 ^ 8 < 2 ^ 8
    fits = elim (ℕ_discrete e.buffer 255) [
      | yes is_ff ↦ omega (arith, h.no_carry is_ff)
      | no other ↦ omega (arith, h.buffer_fits, h.lead_le)
    ]

-- The first byte.
lead_first :
    (b lead : ℕ) {e : Engine}
    → Leading lead e
    → lead ≢ 255
    → e.num_byte ≡ 0
    → Leads b lead e (record e { num_byte = 1; buffer = lead % 2 ^ 8 }, [])
lead_first b lead {e} h ne none = rw none record {
  inv = ready 1 (lead % 256) lead h (omega arith) (omega arith) (λ q. absurd (omega arith));
  same_low = refl;
  same_range = refl;
  same_bits = refl;
  same_contexts = refl;
  prefix_eq = omega arith;
  count = λ n. omega arith;
  fit = tt;
}
  where
    small : lead ≤ 255
    small = h.no_carry (h.unused none)

pub put_lead-Leads : (b lead : ℕ) {e : Engine} → Leading lead e → Leads b lead e (put_lead lead e)
unfolding put_lead
put_lead-Leads b lead {e} h = elim (ℕ_discrete lead 255) [
  | yes is_ff ↦ rw is_ff (lead_ff b (subst (λ (t : ℕ). Leading t e) is_ff h))
  | no other ↦ rw (ne→==_false lead 255 other) (rest (dec_lt 0 e.num_byte) other)
]
  where
    rest :
        Dec (0 < e.num_byte)
        → lead ≢ 255
        → Leads b lead e (
            if ltb 0 e.num_byte
            then (
              record e { buffer = bit_and lead 0xff; num_byte = 1 },
              put (e.buffer + lead / 2 ^ 8) 8
                  ∷ outstanding e.num_byte (bit_and (0xff + lead / 2 ^ 8) 0xff),
            )
            else (record e { num_byte = 1; buffer = lead % 2 ^ 8 }, []))
    rest (yes some) other =
        rw (lt→ltb 0 e.num_byte some) (lead_settles b lead (e.num_byte - 1) h other (omega arith))
    rest (no none) other =
        rw (le→ltb_false 0 e.num_byte (omega arith)) (lead_first b lead h other (omega arith))
