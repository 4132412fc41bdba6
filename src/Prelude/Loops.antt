-- ===== src/Prelude/Loops.antt =====
-- Counted loops over a state.
use Prim.Native.Nat.{ℕ, zero, suc, ◌+◌, ◌<◌, ◌≤◌}
use mathlib.Core.Path.{◌≡◌, subst}
use native.Mathlib.Omega.{arith}

-- `for (i = from; i < from + rounds; i++) s = body(i, s)`
unfoldable pub for_range {ℓ} : {S : Type ℓ} → ℕ → ℕ → (ℕ → S → S) → S → S
for_range zero from body s = s
for_range (suc rounds) from body s = for_range rounds (from + 1) body (body from s)

-- A property that depends on the index and holds before each round.
pub for_range_inv {ℓ κ} :
    {S : Type ℓ} (P : ℕ → S → Type κ) (body : ℕ → S → S) (rounds from : ℕ) (s : S)
    → ((i : ℕ) (t : S) → from ≤ i → i < from + rounds → P i t → P (i + 1) (body i t))
    → P from s
    → P (from + rounds) (for_range rounds from body s)
unfolding for_range
for_range_inv P body zero from s keep h =
    let e : from ≡ from + 0 = omega arith in subst (λ i. P i s) e h
for_range_inv P body (suc rounds) from s keep h =
    let e : from + 1 + rounds ≡ from + suc rounds = omega arith in
    subst (λ i. P i (for_range rounds (from + 1) body (body from s))) e
      (for_range_inv P body rounds (from + 1) (body from s)
        (λ i t lo hi p. keep i t (omega arith) (omega arith) p)
        (keep from s (omega arith) (omega arith) h))
