-- ===== src/Syntax/Last/Groups.antt =====
-- The tables of groups in src/Cabac.cpp against the formula of the standard (7.4.9.11).
use ces.Prelude.{
  ℕ, ◌+◌, ◌-◌, ◌*◌, ◌/◌, ◌%◌, ◌^◌, ◌≤◌, ◌<◌, ◌≡◌, refl, Bool, true, false, ◌&&◌, ◌||◌, ltb, leb,
  ◌==◌, if◌then◌else◌, arith, get_or, all_below, all_below_sound,
}
use ces.Macros.{log2}
use ces.Syntax.Last.{group_idx, min_in_group}

-- What the tables have to do with the formula of the standard, for one place.
group_test : ℕ → Bool
group_test p =
    let g = get_or group_idx p 0 in
    let least = get_or min_in_group g 0 in
    if ltb 3 g
    then leb least p
      && (2 ^ (g / 2 - 1) * (2 + g % 2) == least)
      && ltb (p - least) (2 ^ (g / 2 - 1))
    else g == p

groups_agree : all_below 32 group_test ≡ true
unfolding all_below group_test
groups_agree = refl

pub group_small : (p : ℕ) → p < 32 → ltb 3 (get_or group_idx p 0) ≡ false → get_or group_idx p 0 ≡ p
unfolding group_test
group_small p h few = ground (arith, all_below_sound 32 group_test p groups_agree h)

pub group_large :
    (p : ℕ)
    → p < 32
    → ltb 3 (get_or group_idx p 0) ≡ true
    → let g = get_or group_idx p 0 in
      let least = get_or min_in_group g 0 in
      (least ≤ p) × (2 ^ (g / 2 - 1) * (2 + g % 2) ≡ least) × (p - least < 2 ^ (g / 2 - 1))
unfolding group_test
group_large p h many = ground (arith, all_below_sound 32 group_test p groups_agree h)

-- The groups of the places of a block of 2 ^ `n` rows.
largest_test : ℕ → Bool
largest_test n =
    all_below (2 ^ n) (λ p. leb (get_or group_idx p 0) (2 * n - 1))
    && ((get_or group_idx (2 ^ n - 1) 0 == 2 * n - 1) && (log2 (2 ^ n - 1) == n))

largest_agree : all_below 6 (λ n. ltb n 2 || largest_test n) ≡ true
unfolding all_below largest_test log2
largest_agree = refl

pub block_groups :
    (n p : ℕ)
    → 2 ≤ n
    → n ≤ 5
    → p < 2 ^ n
    → (get_or group_idx p 0 ≤ 2 * n - 1)
      × (get_or group_idx (2 ^ n - 1) 0 ≡ 2 * n - 1)
      × (log2 (2 ^ n - 1) ≡ n)
unfolding largest_test
block_groups n p lo hi h =
    let tested : largest_test n ≡ true =
      ground
        (arith, all_below_sound 6 (λ n. ltb n 2 || largest_test n) n largest_agree (omega arith)) in
    ground (arith, tested, all_below_sound (2 ^ n) (λ p. leb (get_or group_idx p 0) (2 * n - 1)) p)
