-- ===== src/Prelude/Bytes.antt =====
-- The bytes of a number, the last (lowest) one first.
use Prim.Native.Nat.{ℕ, zero, suc, ◌+◌, ◌*◌, ◌/◌, ◌%◌, ◌^◌, ◌<◌}
use mathlib.Core.Path.{◌≡◌, ap}
use mathlib.Core.List.{List, [], ◌∷◌, ◌++◌}
use native.Mathlib.Omega.{arith}
use native.Mathlib.Nat.{pow-suc}

abbrev pub bytes_of : ℕ → ℕ → List ℕ
bytes_of zero v = []
bytes_of (suc k) v = v % 256 ∷ bytes_of k (v / 256)

pub bytes_of-append :
    (k j v c : ℕ) → c < 256 ^ k → bytes_of (k + j) (v * 256 ^ k + c) ≡ bytes_of k c ++ bytes_of j v
bytes_of-append zero j v c h =
    let e : 0 + j ≡ j = omega arith in let f : v * 256 ^ 0 + c ≡ v = omega arith in rw (e, f)
bytes_of-append (suc k) j v c h =
    let p : v * 256 ^ suc k ≡ 256 * (v * 256 ^ k) =
      omega (arith, ap (λ (t : ℕ). v * t) (pow-suc 256 k)) in
    let e : suc k + j ≡ suc (k + j) = omega arith in
    let f : (v * 256 ^ suc k + c) % 256 ≡ c % 256 = omega arith in
    let g : (v * 256 ^ suc k + c) / 256 ≡ v * 256 ^ k + c / 256 = omega arith in
    rw (e, f, g, bytes_of-append k j v (c / 256) (omega (arith, pow-suc 256 k)))
