-- ===== src/Syntax/Remain/Binarization.antt =====
-- WriteCoeffRemainExGolomb of src/Cabac.cpp writes what the reader of the standard takes, in bins that the coder takes.
use ces.Prelude.{
  Bool, ap₂, true, false, ap, ◌∙◌, ℕ, ◌+◌, ◌-◌, ◌*◌, ◌/◌, ◌%◌, ◌^◌, ◌≤◌, ◌<◌, ◌≡◌, List, ◌∷◌,
  if◌then◌else◌, arith, two-pow_pos, two-pow_mono, dec_lt, ne→==_false, ℕ_discrete,
}
use ces.Cabac.Symbols.{Symbol, bypass_bins}
use ces.Syntax.Bins.{Good}
use ces.Syntax.Remain.{shl_i32, reaches, sub_i32, remain_loop, suffix, write_coeff_remain_ex_golomb}
use ces.Syntax.Remain.Reading.{shl_i32_small, sub_i32_small, remain_loop_lem}
use native.Mathlib.Nat.{div-add-mod', mod-lt}

-- The symbols: a prefix of `k` bins 1 and a bin 0, and a suffix.
abbrev coded : ℕ → ℕ → ℕ → List Symbol
coded k bins len = bypass_bins (2 ^ (k + 1) - 2) (k + 1) ∷ suffix bins len

quotient_small : (symbol param : ℕ) → symbol < 3 * 2 ^ param → symbol / 2 ^ param < 3
quotient_small symbol param h = grind (arith, div-add-mod' symbol (2 ^ param), two-pow_pos param)

-- The prefix, where its shift stays below 2 ^ 31.
prefix_eq : (len : ℕ) → 0 < len → len ≤ 30 → sub_i32 (shl_i32 1 len) 2 ≡ 2 ^ len - 2
prefix_eq len more short =
    let least = two-pow_mono 1 len (omega arith) in
    let most = two-pow_mono len 30 short in
    ap (λ (t : ℕ). sub_i32 t 2) (shl_i32_small 1 len (omega arith) ∙ omega arith)
    ∙ sub_i32_small (2 ^ len) 2 (omega arith) (omega arith)

limit_eq : (param : ℕ) → param ≤ 27 → shl_i32 3 param ≡ 3 * 2 ^ param
limit_eq param h = let most = two-pow_mono param 27 h in shl_i32_small 3 param (omega arith)

-- The two branches.
abbrev large_part : ℕ → ℕ → List Symbol
large_part param left =
    let found = remain_loop (left + 1) left param in
    let len = 3 + found.1 + 1 - param in
    bypass_bins (sub_i32 (shl_i32 1 len) 2) len ∷ suffix found.0 found.1

abbrev choose : ℕ → ℕ → Bool → List Symbol
choose symbol param large =
    if large
    then large_part param (sub_i32 symbol (shl_i32 3 param))
    else (bypass_bins (sub_i32 (shl_i32 1 (symbol / 2 ^ param + 1)) 2) (symbol / 2 ^ param + 1)
        ∷ suffix (symbol % shl_i32 1 param) param)

small_eq :
    (symbol param : ℕ)
    → param ≤ 27
    → symbol < 3 * 2 ^ param
    → write_coeff_remain_ex_golomb symbol param
      ≡ coded (symbol / 2 ^ param) (symbol % 2 ^ param) param
unfolding write_coeff_remain_ex_golomb
small_eq symbol param hp h =
    let most = two-pow_mono param 27 hp in
    let less : reaches symbol (shl_i32 3 param) ≡ false =
      ap (reaches symbol) (limit_eq param hp) ∙ ground arith in
    let one : shl_i32 1 param ≡ 2 ^ param = shl_i32_small 1 param (omega arith) ∙ omega arith in
    let prefix =
      prefix_eq (symbol / 2 ^ param + 1) (omega arith)
        (omega (arith, quotient_small symbol param h)) in
    ap (choose symbol param) less
    ∙ ap₂
        (λ (top unit : ℕ). bypass_bins top (symbol / 2 ^ param + 1) ∷ suffix (symbol % unit) param)
        prefix one

large_eq :
    (symbol param : ℕ)
    → param ≤ 27
    → symbol < 2 ^ 27
    → 3 * 2 ^ param ≤ symbol
    → let left = symbol - 3 * 2 ^ param in
      let found = remain_loop (left + 1) left param in
      param ≤ found.1
      → found.1 ≤ 26
      → write_coeff_remain_ex_golomb symbol param ≡ coded (3 + (found.1 - param)) found.0 found.1
unfolding write_coeff_remain_ex_golomb
large_eq symbol param hp hs h longer short =
    let most = two-pow_mono param 27 hp in
    let more : reaches symbol (shl_i32 3 param) ≡ true =
      ap (reaches symbol) (limit_eq param hp) ∙ ground arith in
    let less : sub_i32 symbol (shl_i32 3 param) ≡ symbol - 3 * 2 ^ param =
      ap (sub_i32 symbol) (limit_eq param hp)
      ∙ sub_i32_small symbol (3 * 2 ^ param) h (omega arith) in
    let left = symbol - 3 * 2 ^ param in
    let found = remain_loop (left + 1) left param in
    let len : 3 + found.1 + 1 - param ≡ 3 + (found.1 - param) + 1 = omega arith in
    let prefix = prefix_eq (3 + (found.1 - param) + 1) (omega arith) (omega arith) in
    ap (choose symbol param) more
    ∙ ap (large_part param) less
    ∙ ap (λ (l : ℕ). bypass_bins (sub_i32 (shl_i32 1 l) 2) l ∷ suffix found.0 found.1) len
    ∙ ap (λ (t : ℕ). bypass_bins t (3 + (found.1 - param) + 1) ∷ suffix found.0 found.1) prefix

-- The length of the suffix is found below 27.
found-lt :
    (symbol param : ℕ)
    → symbol < 2 ^ 27
    → param ≤ 27
    → 3 * 2 ^ param ≤ symbol
    → let left = symbol - 3 * 2 ^ param in (remain_loop (left + 1) left param).1 < 27
found-lt symbol param h hp large =
    let left = symbol - 3 * 2 ^ param in
    let found = remain_loop (left + 1) left param in
    let (fits, longer, sum) =
      remain_loop_lem (left + 1) left param (omega arith) (omega arith) hp in
    elim (dec_lt found.1 27) [
      | yes lt ↦ lt
      | no ge ↦ absurd (omega (arith, two-pow_mono 27 found.1 (omega arith), two-pow_pos param))
    ]

suffix-Good : (lo hi bins len : ℕ) → len ≤ 31 → bins < 2 ^ len → Good lo hi (suffix bins len)
suffix-Good lo hi bins len h k = elim (ℕ_discrete len 0) [
  | yes none_left ↦ rw none_left (tt, tt)
  | no more ↦ rw (ne→==_false len 0 more) (((h, k), tt), tt)
]

coded-Good :
    (lo hi k bins len : ℕ) → k ≤ 30 → len ≤ 31 → bins < 2 ^ len → Good lo hi (coded k bins len)
coded-Good lo hi k bins len hk hl h =
    let (codable, within) = suffix-Good lo hi bins len hl h in
    (((omega arith, omega (arith, two-pow_pos (k + 1))), codable), within)

-- The coder takes all these bins for a symbol below 2 ^ 27 and a parameter of at most 27: no call has more than 31 bins, and none
-- takes a context.
pub write_coeff_remain_ex_golomb-Good :
    (lo hi symbol param : ℕ)
    → symbol < 2 ^ 27
    → param ≤ 27
    → Good lo hi (write_coeff_remain_ex_golomb symbol param)
write_coeff_remain_ex_golomb-Good lo hi symbol param h hp = elim (dec_lt symbol (3 * 2 ^ param)) [
  | yes small ↦ rw (small_eq symbol param hp small) (
      coded-Good lo hi (symbol / 2 ^ param) (symbol % 2 ^ param) param
        (omega (arith, quotient_small symbol param small)) (omega arith)
        (mod-lt symbol (two-pow_pos param)))
  | no large ↦
      let left = symbol - 3 * 2 ^ param in
      let found = remain_loop (left + 1) left param in
      let (fits, longer, sum) =
        remain_loop_lem (left + 1) left param (omega arith) (omega arith) hp in
      let short = found-lt symbol param h hp (omega arith) in
      rw (large_eq symbol param hp h (omega arith) longer (omega arith))
        (coded-Good lo hi (3 + (found.1 - param)) found.0 found.1 (omega arith) (omega arith) fits)
]
