-- ===== src/Prelude/Counting.antt =====
-- Sums over ranges and over lists, and lists in which every number of a range occurs.
use Prim.Native.Nat.{ℕ, zero, suc, ◌+◌, ◌<◌, ◌≤◌}
use mathlib.Core.Path.{◌≡◌, refl}
use mathlib.Core.Bool.{Bool, true, false, not}
use mathlib.Core.List.{List, [], ◌∷◌}
use native.Mathlib.Omega.{arith}
use native.Mathlib.Decide.{ℕ_discrete}
use ces.Prelude.Lists.{length, get_or}
use ces.Prelude.Tests.{◌==◌, if◌then◌else◌}

-- 1 where a test holds.
abbrev pub one_if : Bool → ℕ
one_if b = if b then 1 else 0

-- The numbers of a range that pass a test.
unfoldable pub count_range : ℕ → ℕ → (ℕ → Bool) → ℕ
count_range zero from test = 0
count_range (suc rounds) from test = one_if (test from) + count_range rounds (from + 1) test

unfoldable pub count_list : List ℕ → (ℕ → Bool) → ℕ
count_list [] test = 0
count_list (x ∷ xs) test = one_if (test x) + count_list xs test

pub count_range-split :
    (a b from : ℕ) (test : ℕ → Bool)
    → count_range (a + b) from test ≡ count_range a from test + count_range b (from + a) test
unfolding count_range
count_range-split zero b from test =
    let e : 0 + b ≡ b = omega arith in
    let f : from + 0 ≡ from = omega arith in rw (e, f) (omega arith)
count_range-split (suc a) b from test =
    let e : suc a + b ≡ suc (a + b) = omega arith in
    let f : from + suc a ≡ from + 1 + a = omega arith in
    rw (e, f) (omega (arith, count_range-split a b (from + 1) test))

-- Both values of a test together.
count_range-both :
    (rounds from : ℕ) (test : ℕ → Bool)
    → count_range rounds from test + count_range rounds from (λ p. not (test p)) ≡ rounds
unfolding count_range
count_range-both zero from test = refl
count_range-both (suc rounds) from test =
    omega (arith, count_range-both rounds (from + 1) test, one (test from))
  where
    one : (b : Bool) → one_if b + one_if (not b) ≡ 1
    one true = refl
    one false = refl

count_list-both :
    (xs : List ℕ) (test : ℕ → Bool)
    → count_list xs test + count_list xs (λ p. not (test p)) ≡ length xs
unfolding count_list
count_list-both [] test = refl
count_list-both (x ∷ xs) test = omega (arith, count_list-both xs test, one (test x))
  where
    one : (b : Bool) → one_if b + one_if (not b) ≡ 1
    one true = refl
    one false = refl

pub count_list-le : (xs : List ℕ) (test : ℕ → Bool) → count_list xs test ≤ length xs
count_list-le xs test = omega (arith, count_list-both xs test)

-- How often a number occurs.
times : ℕ → List ℕ → ℕ
times p [] = 0
times p (x ∷ xs) = one_if (x == p) + times p xs

times_pos : (p : ℕ) (xs : List ℕ) (k : ℕ) → k < length xs → get_or xs k 0 ≡ p → 1 ≤ times p xs
unfolding times
times_pos p [] k h e = absurd (omega arith)
times_pos p (x ∷ xs) zero h e = ground arith
times_pos p (x ∷ xs) (suc k) h e = omega (arith, times_pos p xs k (omega arith) e)

-- The sum over a range of how often its numbers that pass a test occur.
hits : ℕ → ℕ → List ℕ → (ℕ → Bool) → ℕ
hits zero from xs test = 0
hits (suc rounds) from xs test =
    (if test from then times from xs else 0) + hits rounds (from + 1) xs test

hits_nil : (rounds from : ℕ) (test : ℕ → Bool) → hits rounds from [] test ≡ 0
unfolding hits times
hits_nil zero from test = refl
hits_nil (suc rounds) from test = ground (arith, hits_nil rounds (from + 1) test)

-- One more item adds at most what its own test gives, and nothing if it stands before the range.
hits_cons_before :
    (rounds from x : ℕ) (xs : List ℕ) (test : ℕ → Bool)
    → x < from
    → hits rounds from (x ∷ xs) test ≡ hits rounds from xs test
unfolding hits times
hits_cons_before zero from x xs test h = refl
hits_cons_before (suc rounds) from x xs test h =
    ground (arith, hits_cons_before rounds (from + 1) x xs test (omega arith))

hits_cons :
    (rounds from x : ℕ) (xs : List ℕ) (test : ℕ → Bool)
    → hits rounds from (x ∷ xs) test ≤ one_if (test x) + hits rounds from xs test
unfolding hits times
hits_cons zero from x xs test = omega arith
hits_cons (suc rounds) from x xs test = elim (ℕ_discrete x from) [
  | yes here ↦
      rw here (ground (arith, hits_cons_before rounds (from + 1) from xs test (omega arith)))
  | no other ↦ ground (arith, hits_cons rounds (from + 1) x xs test)
]

hits-le-count_list :
    (rounds from : ℕ) (xs : List ℕ) (test : ℕ → Bool)
    → hits rounds from xs test ≤ count_list xs test
unfolding count_list
hits-le-count_list rounds from [] test = omega (arith, hits_nil rounds from test)
hits-le-count_list rounds from (x ∷ xs) test =
    omega (arith, hits_cons rounds from x xs test, hits-le-count_list rounds from xs test)

count_range-le-hits :
    (rounds from : ℕ) (xs : List ℕ) (test : ℕ → Bool)
    → ((p : ℕ) → from ≤ p → p < from + rounds → 1 ≤ times p xs)
    → count_range rounds from test ≤ hits rounds from xs test
unfolding hits count_range
count_range-le-hits zero from xs test h = omega arith
count_range-le-hits (suc rounds) from xs test h =
    let here = h from (omega arith) (omega arith) in
    let rest =
      count_range-le-hits rounds (from + 1) xs test (λ p lo hi. h p (omega arith) (omega arith)) in
    ground arith

-- A list of n numbers in which every number below n occurs has as many items that pass a test as the range has.
pub count_list-count_range :
    (n : ℕ) (xs : List ℕ) (test : ℕ → Bool)
    → length xs ≡ n
    → ((p : ℕ) → p < n → (k : ℕ) × (k < n) × (get_or xs k 0 ≡ p))
    → count_list xs test ≡ count_range n 0 test
count_list-count_range n xs test size all =
    let each : (p : ℕ) → 0 ≤ p → p < 0 + n → 1 ≤ times p xs =
      λ p lo hi. let (k, inside, e) = all p (omega arith) in times_pos p xs k (omega arith) e in
    let a = count_range-le-hits n 0 xs test each in
    let b = count_range-le-hits n 0 xs (λ p. not (test p)) each in
    omega (
      arith,
      a,
      b,
      hits-le-count_list n 0 xs test,
      hits-le-count_list n 0 xs (λ p. not (test p)),
      count_range-both n 0 test,
      count_list-both xs test,
    )
