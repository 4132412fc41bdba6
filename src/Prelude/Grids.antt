-- ===== src/Prelude/Grids.antt =====
-- Nested loops that fill an array.
use Prim.Native.Nat.{ℕ, ◌+◌, ◌*◌, ◌%◌, ◌<◌}
use mathlib.Core.Path.{◌≡◌, sym, ap, ap₂, ◌∙◌}
use mathlib.Core.Logic.{◌≢◌, ◌⊎◌, inl, inr}
use native.Mathlib.Omega.{arith}
use native.Mathlib.Decide.{ℕ_discrete}
use native.Mathlib.Nat.{mul-add-mod_self_right, mod-eq_of_lt}
use mathlib.Core.List.{List}
use ces.Prelude.Lists.{length, length-set, get_or, set, get_or-set_self, get_or-set_ne}
use ces.Prelude.Loops.{for_range, for_range_inv}

-- In a grid with rows of `w` places the place of a column and a row determines both.
pub place_unique :
    (w x y x' y' : ℕ) → x < w → x' < w → y * w + x ≡ y' * w + x' → (x ≡ x') × (y ≡ y')
place_unique w x y x' y' hx hx' e =
    let column : x ≡ x' =
      sym (column_of w x y hx) ∙ ap (λ (t : ℕ). t % w) e ∙ column_of w x' y' hx' in
    (column, rows_eq w y y' (omega arith) (omega arith))
  where
    column_of : (w x y : ℕ) → x < w → (y * w + x) % w ≡ x
    column_of w x y h = mul-add-mod_self_right y w x ∙ mod-eq_of_lt h

    rows_eq : (w y y' : ℕ) → 0 < w → y * w ≡ y' * w → y ≡ y'
    rows_eq w y y' h e = grind arith

pub place-lt : (w h x y : ℕ) → x < w → y < h → y * w + x < h * w
place-lt w h x y hx hy = grind arith

-- Two nested loops whose bodies each write one element of an array: after them every element that belongs to a round has
-- the value of that round.
module _ {S A : Type 0} (absent : A) (a b n : ℕ) (place : ℕ → ℕ → ℕ) (f : ℕ → ℕ → A)
    (array : S → List A) (body : ℕ → ℕ → S → S) (Stays : S → Type 0)
    (keep : (i j : ℕ) (s : S) → i < a → j < b → Stays s → Stays (body i j s))
    (step : (i j : ℕ) (s : S)
      → i < a
      → j < b
      → Stays s
      → array (body i j s) ≡ set (array s) (place i j) (f i j))
    (apart : (i j x y : ℕ)
      → i < a
      → j < b
      → x < a
      → y < b
      → place i j ≡ place x y
      → (x ≡ i) × (y ≡ j))
    (inside : (i j : ℕ) → i < a → j < b → place i j < n) where
  record Progress (i j : ℕ) (t : S) : Type 0 where
    stays : Stays t
    long : length (array t) ≡ n
    filled :
        (x y : ℕ)
        → x < a
        → y < b
        → (x < i) ⊎ ((x ≡ i) × (y < j))
        → get_or (array t) (place x y) absent ≡ f x y

  earlier :
      (x y i j : ℕ)
      → x < a
      → y < b
      → (x < i) ⊎ ((x ≡ i) × (y < j + 1))
      → place i j ≢ place x y
      → (x < i) ⊎ ((x ≡ i) × (y < j))
  earlier x y i j hx hy (inl less) other = inl less
  earlier x y i j hx hy (inr same) other = elim (ℕ_discrete y j) [
    | yes e ↦ absurd (other (ap₂ place (sym same.0) (sym e)))
    | no less ↦ inr (same.0, omega arith)
  ]

  body-Progress :
      (i j : ℕ) (t : S) → i < a → j < b → Progress i j t → Progress i (j + 1) (body i j t)
  body-Progress i j t hi hj p = record {
    stays = keep i j t hi hj p.stays;
    long = ap length (step i j t hi hj p.stays) ∙ length-set (array t) (place i j) (f i j) ∙ p.long;
    filled = λ x y hx hy d.
        rw (step i j t hi hj p.stays) (elim (ℕ_discrete (place i j) (place x y)) [
          | yes e ↦
              let (ex, ey) = apart i j x y hi hj hx hy e in
              rw (ex, ey)
                (get_or-set_self absent (array t) (place i j) (f i j)
                  (omega (arith, p.long, inside i j hi hj)))
          | no other ↦
              get_or-set_ne absent (array t) (place i j) (place x y) (f i j) other
              ∙ p.filled x y hx hy (earlier x y i j hx hy d other)
        ]);
  }

  row-Progress :
      (i : ℕ) (t : S) → i < a → Progress i 0 t → Progress (i + 1) 0 (for_range b 0 (body i) t)
  row-Progress i t hi p =
      let q =
        for_range_inv (λ j. Progress i j) (body i) b 0 t
          (λ j s _ hj q. body-Progress i j s hi (omega arith) q) p in
      record {
        stays = q.stays;
        long = q.long;
        filled = λ x y hx hy d. q.filled x y hx hy (whole x y i hy d);
      }
    where
      whole :
          (x y i : ℕ)
          → y < b
          → (x < i + 1) ⊎ ((x ≡ i + 1) × (y < 0))
          → (x < i) ⊎ ((x ≡ i) × (y < 0 + b))
      whole x y i hy (inl less) = elim (ℕ_discrete x i) [
        | yes e ↦ inr (e, omega arith)
        | no other ↦ inl (omega arith)
      ]
      whole x y i hy (inr none) = absurd (omega (arith, none.1))

  grid-Progress :
      (t : S)
      → Stays t
      → length (array t) ≡ n
      → Progress (0 + a) 0 (for_range a 0 (λ i s. for_range b 0 (body i) s) t)
  grid-Progress t h long =
      for_range_inv (λ i. Progress i 0) (λ i s. for_range b 0 (body i) s) a 0 t
        (λ i s _ hi p. row-Progress i s (omega arith) p)
        (record { stays = h; long = long; filled = λ x y hx hy d. absurd (nothing x y d) })
    where
      nothing : (x y : ℕ) → (x < 0) ⊎ ((x ≡ 0) × (y < 0)) → ⊥
      nothing x y (inl less) = absurd (omega arith)
      nothing x y (inr same) = absurd (omega (arith, same.1))

  pub grid-filled :
      (t : S)
      → Stays t
      → length (array t) ≡ n
      → let r = for_range a 0 (λ i s. for_range b 0 (body i) s) t in
        Stays r
        × (length (array r) ≡ n)
        × ((x y : ℕ) → x < a → y < b → get_or (array r) (place x y) absent ≡ f x y)
  grid-filled t h long_at_start =
      let p = grid-Progress t h long_at_start in
      (p.stays, p.long, λ x y hx hy. p.filled x y hx hy (inl (omega arith)))
