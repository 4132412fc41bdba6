-- ===== src/Prelude/BitLists.antt =====
-- The bits of a number as a list, the highest first.
use Prim.Native.Nat.{ℕ, zero, suc, ◌+◌, ◌*◌, ◌/◌, ◌%◌, ◌^◌, ◌<◌}
use mathlib.Core.Path.{◌≡◌, refl, sym, ap}
use mathlib.Core.List.{List, [], ◌∷◌, ◌++◌, append-nil, append_assoc}
use native.Mathlib.Omega.{arith}
use ces.Prelude.Powers.{two-pow-suc}
use ces.Prelude.Lists.{replicate}

abbrev pub bits : ℕ → ℕ → List ℕ
bits zero v = []
bits (suc k) v = bits k (v / 2) ++ v % 2 ∷ []

-- `m` more bits behind `n` bits.
pub bits-append : (n m v c : ℕ) → c < 2 ^ m → bits (n + m) (v * 2 ^ m + c) ≡ bits n v ++ bits m c
bits-append n zero v c h =
    let e : n + 0 ≡ n = omega arith in
    let f : v * 2 ^ 0 + c ≡ v = omega arith in rw (e, f) (sym (append-nil (bits n v)))
bits-append n (suc m) v c h =
    let e : n + suc m ≡ suc (n + m) = omega arith in
    let f : (v * 2 ^ suc m + c) / 2 ≡ v * 2 ^ m + c / 2 =
      omega (arith, ap (λ (t : ℕ). v * t) (two-pow-suc m)) in
    let g : (v * 2 ^ suc m + c) % 2 ≡ c % 2 =
      omega (arith, ap (λ (t : ℕ). v * t) (two-pow-suc m)) in
    rw (e, f, g, bits-append n m v (c / 2) (omega (arith, two-pow-suc m)))
      (append_assoc (bits n v) (bits m (c / 2)) (c % 2 ∷ []))

bits-snoc : (p : ℕ) → ◌++◌ {A = ℕ} (replicate p 0) (0 ∷ []) ≡ replicate (suc p) 0
bits-snoc zero = refl
bits-snoc (suc p) = ap (λ l. 0 ∷ l) (bits-snoc p)

pub bits-zero : (p : ℕ) → bits p 0 ≡ replicate p 0
bits-zero zero = refl
bits-zero (suc p) = rw (bits-zero p) (bits-snoc p)
