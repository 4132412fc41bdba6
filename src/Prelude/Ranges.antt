-- ===== src/Prelude/Ranges.antt =====
-- Checks of all values below a bound by evaluation, and lists all of whose items satisfy a predicate.
use Prim.Native.Nat.{◌≤◌, ℕ, zero, suc, ◌<◌}
use mathlib.Core.Path.{◌≡◌}
use mathlib.Core.Bool.{Bool, true, ◌&&◌}
use mathlib.Core.List.{List, [], ◌∷◌}
use native.Mathlib.Omega.{arith}
use ces.Prelude.Lists.{get_or, set}

unfoldable pub all_below : ℕ → (ℕ → Bool) → Bool
all_below zero test = true
all_below (suc n) test = all_below n test && test n

pub all_below_sound :
    (bound : ℕ) (test : ℕ → Bool) (x : ℕ) → all_below bound test ≡ true → x < bound → test x ≡ true
unfolding all_below
all_below_sound (suc n) test x passed inside = ground (arith, all_below_sound n test x)
all_below_sound zero test x passed inside = absurd (omega arith)

abbrev pub AllBelow : ℕ → List ℕ → Type 0
AllBelow n [] = Unit {0}
AllBelow n (x ∷ xs) = (x < n) × AllBelow n xs

pub AllBelow-set : (n : ℕ) (xs : List ℕ) (i v : ℕ) → AllBelow n xs → v < n → AllBelow n (set xs i v)
AllBelow-set n [] i v h hv = h
AllBelow-set n (x ∷ xs) zero v h hv = (hv, h.1)
AllBelow-set n (x ∷ xs) (suc i) v h hv = (h.0, AllBelow-set n xs i v h.1 hv)

pub AllBelow-wider : (n m : ℕ) (xs : List ℕ) → n ≤ m → AllBelow n xs → AllBelow m xs
AllBelow-wider n m [] h k = tt
AllBelow-wider n m (x ∷ xs) h k = (omega arith, AllBelow-wider n m xs h k.1)

pub AllBelow-get_or : (n : ℕ) (xs : List ℕ) (i d : ℕ) → AllBelow n xs → d < n → get_or xs i d < n
AllBelow-get_or n [] i d h hd = hd
AllBelow-get_or n (x ∷ xs) zero d h hd = h.0
AllBelow-get_or n (x ∷ xs) (suc i) d h hd = AllBelow-get_or n xs i d h.1 hd
