-- ===== src/Prelude/Bits.antt =====
-- `|` of disjoint fields and `&` with a low mask, as arithmetic, at every width.
use Prim.Native.Nat.{
  ℕ, zero, suc, ◌+◌, ◌-◌, ◌*◌, ◌/◌, ◌%◌, ◌^◌, ◌≤◌, ◌<◌, min, max, digits, bit_and, bit_or,
  bit_and-bitwise, bit_or-bitwise,
}
use mathlib.Core.Path.{◌≡◌, refl, ap, ◌∙◌}
use native.Mathlib.Nat.{
  pow-suc, one-le-pow, mod-eq_of_lt, mod-lt, div-add-mod', mul-add-mod_self_right,
}
use native.Mathlib.Omega.{arith}

-- A unit of fuel beyond the number itself changes nothing.
one_to_spare :
    (z : ℕ → ℕ) (op : ℕ → ℕ → ℕ) (fuel x y : ℕ)
    → x ≤ fuel
    → digits z op (suc fuel) x y ≡ digits z op fuel x y
one_to_spare z op zero zero y h = refl
one_to_spare z op (suc fuel) zero y h = refl
one_to_spare z op zero (suc x) y h = absurd (omega arith)
one_to_spare z op (suc fuel) (suc x) y h =
    ap (λ (high : ℕ). high * 2 + op (suc x % 2) (y % 2))
      (one_to_spare z op fuel (suc x / 2) (y / 2) (omega arith))

own_fuel :
    (z : ℕ → ℕ) (op : ℕ → ℕ → ℕ) (spare x y : ℕ) → digits z op (x + spare) x y ≡ digits z op x x y
own_fuel z op zero x y = let same : x + 0 ≡ x = omega arith in rw same refl
own_fuel z op (suc spare) x y =
    let next : x + suc spare ≡ suc (x + spare) = omega arith in
    rw next (one_to_spare z op (x + spare) x y (omega arith) ∙ own_fuel z op spare x y)

-- The lowest digit of a number that is not 0 apart from the others.
lowest_apart :
    (z : ℕ → ℕ) (op : ℕ → ℕ → ℕ) (x y : ℕ)
    → digits z op (suc x) (suc x) y
      ≡ digits z op (suc x / 2) (suc x / 2) (y / 2) * 2 + op (suc x % 2) (y % 2)
lowest_apart z op x y =
    let enough : x ≡ suc x / 2 + (x - suc x / 2) = omega arith in
    ap (λ (high : ℕ). high * 2 + op (suc x % 2) (y % 2))
      (ap (λ (fuel : ℕ). digits z op fuel (suc x / 2) (y / 2)) enough
        ∙ own_fuel z op (x - suc x / 2) (suc x / 2) (y / 2))

bit_and_step : (x y : ℕ) → bit_and x y ≡ bit_and (x / 2) (y / 2) * 2 + min (x % 2) (y % 2)
bit_and_step (suc x) y = simp bit_and-bitwise (lowest_apart (λ _. 0) min x y)
bit_and_step zero y = simp bit_and-bitwise (omega arith)

bit_and_nothing : (bound x : ℕ) → x ≤ bound → bit_and x 0 ≡ 0
bit_and_nothing bound zero h = refl
bit_and_nothing zero (suc x) h = absurd (omega arith)
bit_and_nothing (suc bound) (suc x) h =
    omega (arith, bit_and_nothing bound (suc x / 2) (omega arith), bit_and_step (suc x) 0)

shifted_once : (x k : ℕ) → x * 2 ^ suc k ≡ 2 * (x * 2 ^ k)
shifted_once x k = let e : 2 ^ suc k ≡ 2 ^ k * 2 = pow-suc 2 k in rw e (omega arith)

-- The remainder by an even number, from the one of the half.
mod_double : (x m : ℕ) → 0 < m → x % (2 * m) ≡ x / 2 % m * 2 + x % 2
mod_double x m some =
    ap (λ (t : ℕ). t % (2 * m)) parts
    ∙ mul-add-mod_self_right (x / 2 / m) (2 * m) (x / 2 % m * 2 + x % 2)
    ∙ mod-eq_of_lt (omega (arith, mod-lt (x / 2) some))
  where
    parts : x ≡ x / 2 / m * (2 * m) + (x / 2 % m * 2 + x % 2)
    parts = omega (arith, div-add-mod' (x / 2) m)

-- A mask of `k` low bits is the remainder by `2 ^ k`.
pub bit_and_mask : (k x : ℕ) → bit_and x (2 ^ k - 1) ≡ x % 2 ^ k
bit_and_mask zero x = omega (arith, bit_and_nothing x x)
bit_and_mask (suc k) x =
    let whole : 2 ^ suc k ≡ 2 * 2 ^ k = omega (arith, pow-suc 2 k) in
    let high : (2 * 2 ^ k - 1) / 2 ≡ 2 ^ k - 1 = omega (arith, one-le-pow k 2) in
    let low : (2 * 2 ^ k - 1) % 2 ≡ 1 = omega (arith, one-le-pow k 2) in
    let digit : min (x % 2) 1 ≡ x % 2 = omega arith in
    rw
      (
        whole,
        bit_and_step x (2 * 2 ^ k - 1),
        high,
        low,
        digit,
        bit_and_mask k (x / 2),
        mod_double x (2 ^ k) (omega (arith, one-le-pow k 2)),
      )
      refl

bit_or_step : (x y : ℕ) → bit_or x y ≡ bit_or (x / 2) (y / 2) * 2 + max (x % 2) (y % 2)
bit_or_step (suc x) y = simp bit_or-bitwise (lowest_apart (λ b. b) max x y)
bit_or_step zero y = simp bit_or-bitwise (omega arith)

bit_or_nothing : (bound x : ℕ) → x ≤ bound → bit_or x 0 ≡ x
bit_or_nothing bound zero h = refl
bit_or_nothing zero (suc x) h = absurd (omega arith)
bit_or_nothing (suc bound) (suc x) h =
    omega (arith, bit_or_nothing bound (suc x / 2) (omega arith), bit_or_step (suc x) 0)

-- `(q << k) | r` is a sum when `r` fits `k` bits.
pub bit_or_fields : (k q r : ℕ) → r < 2 ^ k → bit_or (q * 2 ^ k) r ≡ q * 2 ^ k + r
bit_or_fields zero q r small = ground (arith, bit_or_nothing q q)
bit_or_fields (suc k) q r small =
    let half : r / 2 < 2 ^ k = omega (arith, shifted_once 1 k) in
    let inner = bit_or_fields k q (r / 2) half in
    ground (arith, inner, shifted_once q k, bit_or_step (q * 2 ^ suc k) r)

-- `&` does not mix what lies below a shift with what lies above it.
pub bit_and_shift :
    (k q r m : ℕ) → r < 2 ^ k → bit_and (q * 2 ^ k + r) (m * 2 ^ k) ≡ bit_and q m * 2 ^ k
bit_and_shift zero q r m fits =
    let e : q * 1 + r ≡ q = omega arith in
    let f : m * 1 ≡ m = omega arith in rw (e, f) (omega arith)
bit_and_shift (suc k) q r m fits =
    let inner = bit_and_shift k q (r / 2) m (omega (arith, shifted_once 1 k)) in
    ground (
      arith,
      inner,
      bit_and_step (q * 2 ^ suc k + r) (m * 2 ^ suc k),
      shifted_once m k,
      shifted_once q k,
      shifted_once (bit_and q m) k,
    )

-- The mask of the upper half of `2 * k` bits tests whether the number fits `k` bits.
pub bit_and_upper :
    (k a : ℕ) → a / 2 ^ k < 2 ^ k → bit_and a ((2 ^ k - 1) * 2 ^ k) ≡ a / 2 ^ k * 2 ^ k
bit_and_upper k a h =
    ap (λ (t : ℕ). bit_and t ((2 ^ k - 1) * 2 ^ k)) parts
    ∙ bit_and_shift k (a / 2 ^ k) (a % 2 ^ k) (2 ^ k - 1) (grind (arith, one-le-pow k 2))
    ∙ ap (λ (t : ℕ). t * 2 ^ k) (bit_and_mask k (a / 2 ^ k) ∙ mod-eq_of_lt h)
  where
    parts : a ≡ a / 2 ^ k * 2 ^ k + a % 2 ^ k
    parts = omega arith
