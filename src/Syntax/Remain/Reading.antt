-- ===== src/Syntax/Remain/Reading.antt =====
-- coeff_abs_level_remaining is read back from the bins that the code writes.
use ces.Prelude.{
  Bool, sym, true, false, ◌∙◌, two-pow_mono, dec_lt, ℕ, zero, suc, ◌+◌, ◌-◌, ◌*◌, ◌/◌, ◌%◌, ◌^◌,
  ◌≤◌, ◌<◌, ◌≡◌, refl, ap, List, [], ◌∷◌, ◌++◌, Option, none, some, ltb, leb, ◌==◌, if◌then◌else◌,
  arith, bits, replicate, append_assoc, two-pow_pos, two-pow-suc, two-pow_split, ℕ_discrete,
  ne→==_false, append-nil, Bool-cases, inl, inr,
}
use ces.BitStream.Reader.{◌>>=◌, read_bits}
use ces.Syntax.Bins.{bins_of}
use ces.Syntax.Remain.{shl_i32, reaches, sub_i32, remain_loop, suffix}
use native.Mathlib.Nat.{mod-eq_of_lt}

-- The bins 1 in front of a bin 0.
pub read_ones : List ℕ → Option (ℕ × List ℕ)
read_ones [] = none
read_ones (b ∷ r) = if b == 0 then some (0, r) else (read_ones r >>= λ p. some (suc p.0, p.1))

-- The length and the first value of the suffix, for a prefix of so many bins 1.
abbrev suffix_length : ℕ → ℕ → ℕ
suffix_length param prefix = if ltb prefix 3 then param else prefix - 3 + param

abbrev first_value : ℕ → ℕ → ℕ
first_value param prefix =
    if ltb prefix 3 then prefix * 2 ^ param else (2 ^ (prefix - 3) + 2) * 2 ^ param

-- 9.3.3.11 with a prefix of up to three bins before the suffix grows.
unfoldable pub read_remain : ℕ → List ℕ → Option (ℕ × List ℕ)
read_remain param r = do
  p ← read_ones r
  q ← read_bits (suffix_length param p.0) p.1
  some (first_value param p.0 + q.0, q.1)

replicate-snoc : (k : ℕ) → ◌++◌ {A = ℕ} (replicate k 1) (1 ∷ []) ≡ replicate (suc k) 1
replicate-snoc zero = refl
replicate-snoc (suc k) = ap (λ l. 1 ∷ l) (replicate-snoc k)

all_ones : (k : ℕ) → bits k (2 ^ k - 1) ≡ replicate k 1
all_ones zero = refl
all_ones (suc k) =
    let half : (2 ^ suc k - 1) / 2 ≡ 2 ^ k - 1 = omega (arith, two-pow-suc k, two-pow_pos k) in
    let odd : (2 ^ suc k - 1) % 2 ≡ 1 = omega (arith, two-pow-suc k, two-pow_pos k) in
    rw (half, odd, all_ones k) (replicate-snoc k)

-- The prefix is `k` bins 1 and a bin 0.
prefix-bits : (k : ℕ) → bits (suc k) (2 ^ suc k - 2) ≡ replicate k 1 ++ 0 ∷ []
prefix-bits k =
    let half : (2 ^ suc k - 2) / 2 ≡ 2 ^ k - 1 = omega (arith, two-pow-suc k, two-pow_pos k) in
    let even : (2 ^ suc k - 2) % 2 ≡ 0 = omega (arith, two-pow-suc k, two-pow_pos k) in
    rw (half, even, all_ones k) refl

read_ones-replicate :
    (k : ℕ) (rest : List ℕ) → read_ones (replicate k 1 ++ 0 ∷ rest) ≡ some (k, rest)
unfolding read_ones
read_ones-replicate zero rest = refl
read_ones-replicate (suc k) rest = rw (read_ones-replicate k rest)

pub read_ones-prefix :
    (k : ℕ) (rest : List ℕ) → read_ones (bits (k + 1) (2 ^ (k + 1) - 2) ++ rest) ≡ some (k, rest)
read_ones-prefix k rest =
    let one_more : k + 1 ≡ suc k = omega arith in
    rw (one_more, prefix-bits k, append_assoc (replicate k 1) (0 ∷ []) rest)
      (read_ones-replicate k rest)

pub suffix-bins : (x k : ℕ) → x < 2 ^ k → bins_of (suffix x k) ≡ bits k x
suffix-bins x k h = elim (ℕ_discrete k 0) [
  | yes none_left ↦ rw none_left refl
  | no more ↦ rw (ne→==_false k 0 more) (append-nil (bits k x))
]

-- A shift of 1 that stays below 2 ^ 31.
pub shl_i32_small : (x n : ℕ) → x * 2 ^ n < 2 ^ 31 → shl_i32 x n ≡ x * 2 ^ n
shl_i32_small x n h = mod-eq_of_lt (omega arith)

pub reaches-le : (a b : ℕ) → b < 2 ^ 31 → reaches a b ≡ leb b a
reaches-le a b h = ground arith

pub sub_i32_small : (a b : ℕ) → b ≤ a → a < 2 ^ 32 → sub_i32 a b ≡ a - b
sub_i32_small a b h k = omega arith

loop_step :
    (fuel code_num length : ℕ)
    → 2 ^ length < 2 ^ 31
    → code_num < 2 ^ 31
    → remain_loop (suc fuel) code_num length ≡ (elim (leb (2 ^ length) code_num) [
      | true ↦ remain_loop fuel (code_num - 2 ^ length) (length + 1)
      | false ↦ (code_num, length)
    ])
unfolding remain_loop
loop_step fuel code_num length h k =
    let one : shl_i32 1 length ≡ 2 ^ length = shl_i32_small 1 length (omega arith) ∙ omega arith in
    let test : reaches code_num (shl_i32 1 length) ≡ leb (2 ^ length) code_num =
      ap (reaches code_num) one ∙ reaches-le code_num (2 ^ length) h in
    let step : Bool → ℕ → ℕ × ℕ = λ more left. elim more as (λ _. ℕ × ℕ) [
      | true ↦ remain_loop fuel left (length + 1)
      | false ↦ (code_num, length)
    ] in
    ap (λ more. step more (sub_i32 code_num (shl_i32 1 length))) test
    ∙ elim (Bool-cases (leb (2 ^ length) code_num)) [
      | inl big ↦
          let less : sub_i32 code_num (shl_i32 1 length) ≡ code_num - 2 ^ length =
            ap (sub_i32 code_num) one
            ∙ sub_i32_small code_num (2 ^ length) (ground arith) (omega arith) in
          ap (step (leb (2 ^ length) code_num)) less
      | inr small ↦
          ap (λ more. step more (sub_i32 code_num (shl_i32 1 length))) small
          ∙ sym (ap (λ more. step more (code_num - 2 ^ length)) small)
    ]

-- What the loop finds: the sum of the groups before it is what has been taken. No shift leaves the 31 bits of an i32.
pub remain_loop_lem :
    (fuel code_num length : ℕ)
    → code_num < fuel
    → code_num < 2 ^ 27
    → length ≤ 27
    → let found = remain_loop fuel code_num length in
      (found.0 < 2 ^ found.1) × (length ≤ found.1) × (code_num + 2 ^ length ≡ found.0 + 2 ^ found.1)
unfolding remain_loop
remain_loop_lem zero code_num length h small short = absurd (omega arith)
remain_loop_lem (suc fuel) code_num length h small short =
    let fits = two-pow_mono length 27 short in
    rw (loop_step fuel code_num length (omega arith) (omega arith))
      (elim (Bool-cases (leb (2 ^ length) code_num)) [
        | inr less ↦ rw less (ground arith, omega arith, refl)
        | inl big ↦ rw big (
            let le : 2 ^ length ≤ code_num = ground arith in
            let next : length < 27 = elim (dec_lt length 27) [
              | yes lt ↦ lt
              | no ge ↦ absurd (omega (arith, two-pow_mono 27 length (omega arith)))
            ] in
            let (below, longer, sum) =
              remain_loop_lem fuel (code_num - 2 ^ length) (length + 1)
                (omega (arith, two-pow_pos length)) (omega arith) (omega arith) in
            let twice : 2 ^ (length + 1) ≡ 2 * 2 ^ length =
              omega (arith, two-pow_split length 1 (length + 1) refl) in
            (below, omega arith, omega arith))
      ])
