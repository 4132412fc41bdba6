-- ===== src/Cabac/Bounds.antt =====
-- The registers of the arithmetic coder: what bounds them, and that no operation wraps.
use ces.Prelude.{
  ℕ, ◌+◌, ◌*◌, ◌/◌, ◌%◌, ◌^◌, ◌≤◌, ◌<◌, ◌≡◌, refl, Bool, true, ◌&&◌, leb, ltb, arith, bit_and_mask,
  all_below, all_below_sound,
}
use ces.Cabac.{lps_of}
use ces.Cabac.Tables.{lps_at, renorm_at, lps_next, mps_next}

-- The shift that brings the range of the less probable value up.
abbrev pub shift_of : ℕ → ℕ
shift_of lps = renorm_at (lps / 2 ^ 3)

-- What one entry of the tables must satisfy. The range 256 + 64 * q is the least one of its quarter.
entry_test : ℕ → ℕ → ℕ → Bool
entry_test q lps k =
    leb 1 k
    && (leb k 6
        && (leb 256 (lps * 2 ^ k) && (leb (lps * 2 ^ k) 510 && leb (lps + 128) (256 + 64 * q))))

lps_entry : ℕ → ℕ → Bool
lps_entry p q = entry_test q (lps_at p q) (shift_of (lps_at p q))

lps_entries : all_below 63 (λ p. all_below 4 (λ q. lps_entry p q)) ≡ true
unfolding all_below lps_entry entry_test lps_at renorm_at
lps_entries = refl

next_states : all_below 126 (λ s. ltb (lps_next s) 126 && ltb (mps_next s) 126) ≡ true
unfolding all_below lps_next mps_next
next_states = refl

-- The shares of the two values of a bin: each is positive, and the renormed range is in 256 .. 510.
pub record LpsFacts (range lps : ℕ) : Type 0 where
  pub shift_pos : 1 ≤ shift_of lps
  pub shift_le : shift_of lps ≤ 6
  pub renormed_lo : 256 ≤ lps * 2 ^ shift_of lps
  pub renormed_hi : lps * 2 ^ shift_of lps ≤ 510
  pub rest_lo : lps + 128 ≤ range

entry_facts :
    (q range lps : ℕ)
    → 256 + 64 * q ≤ range
    → entry_test q lps (shift_of lps) ≡ true
    → LpsFacts range lps
unfolding entry_test
entry_facts q range lps h e = ground arith

pub lps_facts :
    (state range : ℕ)
    → state < 126
    → 256 ≤ range
    → range ≤ 510
    → LpsFacts range (lps_of state range)
unfolding lps_of lps_entry
lps_facts state range hs lo hi =
    rw (bit_and_mask 2 (range / 2 ^ 6)) (
      entry_facts (range / 64 % 4) range (lps_at (state / 2) (range / 64 % 4)) (omega arith)
        checked)
  where
    checked : lps_entry (state / 2) (range / 64 % 4) ≡ true
    checked =
        all_below_sound 4 (λ q. lps_entry (state / 2) q) (range / 64 % 4)
          (all_below_sound 63 (λ p. all_below 4 (λ q. lps_entry p q)) (state / 2) lps_entries
            (omega arith))
          (omega arith)

pub next_state_facts : (s : ℕ) → s < 126 → (lps_next s < 126) × (mps_next s < 126)
next_state_facts s h =
    ground
      (arith, all_below_sound 126 (λ s. ltb (lps_next s) 126 && ltb (mps_next s) 126) s next_states)
