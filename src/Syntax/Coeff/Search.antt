-- ===== src/Syntax/Coeff/Search.antt =====
-- The search for the last coefficient in EncodeCoeffNxN of src/Cabac.cpp ends with it.
use ces.Prelude.{
  ap₂, subst, ℕ, zero, suc, ◌+◌, ◌-◌, ◌*◌, ◌/◌, ◌%◌, ◌^◌, ◌≤◌, ◌<◌, ◌≡◌, ◌⊎◌, inl, inr, refl, sym,
  ap, ◌∙◌, Bool, true, false, List, [], ◌∷◌, ltb, if◌then◌else◌, get_or, set, length, Outcome, ok,
  arith, Bool-cases, one_if, count_range, count_list, count_range-split, place_unique,
}
use ces.Syntax.Coeff.{Block, coeff_at, is_nonzero, count_row, count_rows, group_of, find_last}
use native.Mathlib.Nat.{div-add-mod', mul-add-mod_self_right, mod-eq_of_lt}

-- Whether the coefficient at a place is not 0.
abbrev pub stands_at : Block → ℕ → Bool
stands_at b place = is_nonzero (coeff_at b place)

quotient-place : (w x y : ℕ) → x < w → (y * w + x) / w ≡ y
quotient-place w x y h =
    let column : (y * w + x) % w ≡ x = mul-add-mod_self_right y w x ∙ mod-eq_of_lt h in
    let whole : (y * w + x) / w * w + x ≡ y * w + x =
      ap (λ (k : ℕ). (y * w + x) / w * w + k) (sym column) ∙ div-add-mod' (y * w + x) w in
    (place_unique w x ((y * w + x) / w) x y h h whole).1

count_row-count_range :
    (rounds : ℕ) (b : Block) (i j : ℕ)
    → j + rounds ≤ 2 ^ b.log2_size
    → count_row rounds b i j ≡ count_range rounds (i * 2 ^ b.log2_size + j) (stands_at b)
unfolding count_row count_range
count_row-count_range zero b i j h = refl
count_row-count_range (suc rounds) b i j h =
    let w = 2 ^ b.log2_size in
    let row = quotient-place w j i (omega arith) in
    let column : i * w + j - i * w ≡ j = omega arith in
    let next : i * w + j + 1 ≡ i * w + (j + 1) = omega arith in
    rw (row, column, next, count_row-count_range rounds b i (j + 1) (omega arith)) refl

pub count_rows-count_range :
    (rounds : ℕ) (b : Block) (i : ℕ)
    → b.size ≡ 2 ^ b.log2_size
    → count_rows rounds b i
      ≡ count_range (rounds * 2 ^ b.log2_size) (i * 2 ^ b.log2_size) (stands_at b)
unfolding count_rows count_range
count_rows-count_range zero b i e = let none : 0 * 2 ^ b.log2_size ≡ 0 = omega arith in rw none refl
count_rows-count_range (suc rounds) b i e =
    let w = 2 ^ b.log2_size in
    let here = count_row-count_range b.size b i 0 (omega arith) in
    let rest = count_rows-count_range rounds b (i + 1) e in
    let both = count_range-split w (rounds * w) (i * w) (stands_at b) in
    let first : i * w + 0 ≡ i * w = omega arith in
    let row : count_row b.size b i 0 ≡ count_range w (i * w) (stands_at b) =
      here ∙ ap₂ (λ (n k : ℕ). count_range n k (stands_at b)) e first in
    let next : (i + 1) * w ≡ i * w + w = omega arith in
    let whole : suc rounds * w ≡ w + rounds * w = omega arith in
    ap₂ ◌+◌ row (rest ∙ ap (λ (k : ℕ). count_range (rounds * w) k (stands_at b)) next)
    ∙ sym both
    ∙ ap (λ (n : ℕ). count_range n (i * w) (stands_at b)) (sym whole)

none_left :
    (xs : List ℕ) (test : ℕ → Bool)
    → count_list xs test ≡ 0
    → (m : ℕ) → m < length xs
    → test (get_or xs m 0) ≡ false
unfolding count_list
none_left [] test h m k = absurd (omega arith)
none_left (x ∷ xs) test h zero k = ground arith
none_left (x ∷ xs) test h (suc m) k = none_left xs test (omega arith) m (omega arith)

some_left : (xs : List ℕ) (test : ℕ → Bool) → 0 < count_list xs test → 0 < length xs
unfolding count_list
some_left [] test h = absurd (omega arith)
some_left (x ∷ xs) test h = omega arith

-- A search that ended within the places, at a coefficient that is not 0 or, where there is none, at once, with nothing
-- but 0 behind.
pub record Ends (b : Block) (places : List ℕ) (num_sig scan_pos : ℕ) (run : Outcome (ℕ × List ℕ))
    : Type 0 where
  pub steps : ℕ
  pub found : List ℕ
  pub ran : run ≡ ok (scan_pos + steps, found)
  pub inside : steps < length places
  pub hit : (stands_at b (get_or places steps 0) ≡ true) ⊎ ((num_sig ≡ 0) × (steps ≡ 0))
  pub rest : (m : ℕ) → steps < m → m < length places → stands_at b (get_or places m 0) ≡ false

here-Ends :
    (b : Block) (place : ℕ) (places : List ℕ) (num_sig scan_pos : ℕ) (found : List ℕ)
    → (stands_at b place ≡ true) ⊎ (num_sig ≡ 0)
    → count_list places (stands_at b) ≡ 0
    → Ends b (place ∷ places) num_sig scan_pos (ok (scan_pos, found))
here-Ends b place places num_sig scan_pos found hit none = record {
  steps = 0;
  found = found;
  ran = ap (λ (p : ℕ). ok (p, found)) (omega arith);
  inside = omega arith;
  hit = elim hit [ inl e ↦ inl e | inr e ↦ inr (e, refl) ];
  rest = λ m lo hi. behind m lo hi;
}
  where
    behind :
        (m : ℕ)
        → 0 < m
        → m < suc (length places)
        → stands_at b (get_or (place ∷ places) m 0) ≡ false
    behind zero lo hi = absurd (omega arith)
    behind (suc m) lo hi = none_left places (stands_at b) none m (omega arith)

next-Ends :
    (b : Block) (place : ℕ) (places : List ℕ) (num_sig num_sig' scan_pos : ℕ)
    (run : Outcome (ℕ × List ℕ))
    → 0 < num_sig'
    → Ends b places num_sig' (scan_pos + 1) run
    → Ends b (place ∷ places) num_sig scan_pos run
next-Ends b place places num_sig num_sig' scan_pos run more e = record {
  steps = suc e.steps;
  found = e.found;
  ran = e.ran ∙ ap (λ (p : ℕ). ok (p, e.found)) (omega arith);
  inside = omega (arith, e.inside);
  hit = elim e.hit [ inl h ↦ inl h | inr h ↦ absurd (omega (arith, h.0)) ];
  rest = λ m lo hi. behind m lo hi;
}
  where
    behind :
        (m : ℕ)
        → suc e.steps < m
        → m < suc (length places)
        → stands_at b (get_or (place ∷ places) m 0) ≡ false
    behind zero lo hi = absurd (omega arith)
    behind (suc m) lo hi = e.rest m (omega arith) (omega arith)

-- What follows the step at a place, where so many coefficients are left.
continue-Ends :
    (b : Block) (place : ℕ) (places : List ℕ) (num_sig left scan_pos : ℕ) (found : List ℕ)
    → left ≡ count_list places (stands_at b)
    → (stands_at b place ≡ true) ⊎ (num_sig ≡ left)
    → (0 < left → Ends b places left (scan_pos + 1) (find_last places b left (scan_pos + 1) found))
    → Ends b (place ∷ places) num_sig scan_pos (elim (ltb 0 left) as (λ _. Outcome (ℕ × List ℕ)) [
      | true ↦ find_last places b left (scan_pos + 1) found
      | false ↦ ok (scan_pos, found)
    ])
continue-Ends b place places num_sig left scan_pos found e hit later =
    elim (Bool-cases (ltb 0 left)) [
      | inl more ↦
          rw more
            (next-Ends b place places num_sig left scan_pos _ (ground arith) (later (ground arith)))
      | inr none ↦
          let zero_left : left ≡ 0 = ground arith in
          rw none (
            here-Ends b place places num_sig scan_pos found
              (elim hit [ inl h ↦ inl h | inr h ↦ inr (h ∙ zero_left) ]) (sym e ∙ zero_left))
    ]

-- The search ends where its count is that of the places that are left.
pub find_last-Ends :
    (places : List ℕ) (b : Block) (num_sig scan_pos : ℕ) (flags : List ℕ)
    → num_sig ≡ count_list places (stands_at b)
    → num_sig < 2 ^ 32
    → 0 < length places
    → Ends b places num_sig scan_pos (find_last places b num_sig scan_pos flags)
unfolding find_last count_list
find_last-Ends [] b num_sig scan_pos flags h small some = absurd (omega arith)
find_last-Ends (place ∷ places) b num_sig scan_pos flags h small some =
    let left = count_list places (stands_at b) in
    let step : Bool → Outcome (ℕ × List ℕ) = λ hit.
      let num_sig' = if hit then (num_sig + 2 ^ 32 - 1) % 2 ^ 32 else num_sig in
      let flags' = if hit then set flags (group_of b place) 1 else flags in
      elim (ltb 0 num_sig') as (λ _. Outcome (ℕ × List ℕ)) [
        | true ↦ find_last places b num_sig' (scan_pos + 1) flags'
        | false ↦ ok (scan_pos, flags')
      ] in
    let later : (found : List ℕ)
        → left < 2 ^ 32
        → 0 < left
        → Ends b places left (scan_pos + 1) (find_last places b left (scan_pos + 1) found) =
      λ found fits more.
        find_last-Ends places b left (scan_pos + 1) found refl fits
          (some_left places (stands_at b) more) in
    elim (Bool-cases (stands_at b place)) [
      | inl hit ↦
          let one : one_if (stands_at b place) ≡ 1 = rw hit refl in
          let fewer : (num_sig + 2 ^ 32 - 1) % 2 ^ 32 ≡ left = omega (arith, h, one) in
          let found = set flags (group_of b place) 1 in
          subst (Ends b (place ∷ places) num_sig scan_pos) (sym (ap step hit)) (
            continue-Ends b place places num_sig ((num_sig + 2 ^ 32 - 1) % 2 ^ 32) scan_pos found
              fewer (inl hit)
              (λ more.
                subst
                  (λ (k : ℕ).
                    Ends b places k (scan_pos + 1) (find_last places b k (scan_pos + 1) found))
                  (sym fewer) (later found (omega (arith, h, one)) (omega (arith, fewer)))))
      | inr miss ↦
          let none : one_if (stands_at b place) ≡ 0 = rw miss refl in
          let same : num_sig ≡ left = omega (arith, h, none) in
          subst (Ends b (place ∷ places) num_sig scan_pos) (sym (ap step miss)) (
            continue-Ends b place places num_sig num_sig scan_pos flags same (inr refl) (λ more.
              subst
                (λ (k : ℕ).
                  Ends b places k (scan_pos + 1) (find_last places b k (scan_pos + 1) flags))
                (sym same) (later flags (omega (arith, same)) (omega (arith, same)))))
    ]
