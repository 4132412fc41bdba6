-- ===== src/Prelude/Powers.antt =====
-- Powers of two and the arithmetic of shifts.
use Prim.Native.Nat.{ℕ, zero, suc, ◌+◌, ◌-◌, ◌*◌, ◌/◌, ◌%◌, ◌^◌, ◌≤◌, ◌<◌}
use Prim.Native.Nat.pow
use mathlib.Core.Path.{◌≡◌, refl, ap, ◌∙◌}
use native.Mathlib.Nat.{
  pow-suc, one-le-pow, mod-lt, mod-eq_of_lt, div-add-mod', mul-add-mod_self_right,
}
use native.Mathlib.Omega.{arith}

pub two-pow-suc : (k : ℕ) → 2 ^ suc k ≡ 2 * 2 ^ k
two-pow-suc k = omega (arith, pow-suc 2 k)

pub two-pow_pos : (k : ℕ) → 1 ≤ 2 ^ k
two-pow_pos k = omega (arith, one-le-pow k 2)

pub pow-add : (b m n : ℕ) → b ^ (m + n) ≡ b ^ m * b ^ n
pow-add b m zero = let e : m + 0 ≡ m = omega arith in rw (e, pow.zero) (omega arith)
pow-add b m (suc n) =
    let e : m + suc n ≡ suc (m + n) = omega arith in
    rw (e, pow-suc b (m + n), pow-suc b n, pow-add b m n) (omega arith)

pub two-pow_split : (m n k : ℕ) → m + n ≡ k → 2 ^ k ≡ 2 ^ m * 2 ^ n
two-pow_split m n k e = rw (← e) (pow-add 2 m n)

pub two-pow_mono : (a b : ℕ) → a ≤ b → 2 ^ a ≤ 2 ^ b
two-pow_mono a b h =
    grind (arith, two-pow_split a (b - a) b (omega arith), two-pow_pos a, two-pow_pos (b - a))

-- A number of `m` bits shifted by `n` has `m + n` bits.
pub shift_fits : (m n k x : ℕ) → m + n ≡ k → x < 2 ^ m → x * 2 ^ n < 2 ^ k
shift_fits m n k x e h = grind (arith, two-pow_split m n k e, two-pow_pos n)

-- A shift commutes with dropping the bits that it pushes out of the word.
pub shift_mod : (x p s m : ℕ) → 0 < p → 0 < s → p * s ≡ m → x * s % m ≡ x % p * s
shift_mod x p s m hp hs e =
    ap (λ (t : ℕ). t % m) parts
    ∙ mul-add-mod_self_right (x / p) m (x % p * s)
    ∙ mod-eq_of_lt (rw (← e) (grind (arith, mod-lt x hp)))
  where
    parts : x * s ≡ x / p * m + x % p * s
    parts = rw (← e) (omega (arith, ap (λ (t : ℕ). t * s) (div-add-mod' x p)))

pub two-pow_bytes : (k : ℕ) → 2 ^ (8 * k) ≡ 256 ^ k
two-pow_bytes zero = refl
two-pow_bytes (suc k) =
    omega (arith, two-pow_split 8 (8 * k) (8 * suc k) (omega arith), pow-suc 256 k, two-pow_bytes k)
