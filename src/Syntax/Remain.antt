-- ===== src/Syntax/Remain.antt =====
-- WriteCoeffRemainExGolomb of src/Cabac.cpp, and the reading of coeff_abs_level_remaining in the standard.
pub mod Reading
pub mod Binarization
use ces.Prelude.{
  ℕ, zero, suc, ◌+◌, ◌-◌, ◌*◌, ◌/◌, ◌%◌, ◌^◌, Bool, true, false, List, [], ◌∷◌, ltb, leb, ◌==◌,
  ◌||◌, if◌then◌else◌,
}
use ces.Cabac.Symbols.{Symbol, bypass_bins}

-- COEF_REMAIN_BIN_REDUCTION
abbrev pub coef_remain_bin_reduction : ℕ
coef_remain_bin_reduction = 3

-- A shift of an i32, in the 32 bits that it has. In C++ it is undefined where the result is 2 ^ 31 or more.
abbrev pub shl_i32 : ℕ → ℕ → ℕ
shl_i32 x n = x * 2 ^ n % 2 ^ 32

-- Whether a number that is not negative is at least what a shift gives, which is negative from 2 ^ 31 on.
abbrev pub reaches : ℕ → ℕ → Bool
reaches code_num bound = leb (2 ^ 31) bound || leb bound code_num

-- A difference in 32 bits.
abbrev pub sub_i32 : ℕ → ℕ → ℕ
sub_i32 a b = (a + 2 ^ 32 - b) % 2 ^ 32

-- The loop that looks for the length of the suffix, with fuel: a round takes at least 1 from `code_num`.
unfoldable pub remain_loop : ℕ → ℕ → ℕ → ℕ × ℕ
remain_loop zero code_num length = (code_num, length)
remain_loop (suc fuel) code_num length = elim (reaches code_num (shl_i32 1 length)) [
  | true ↦ remain_loop fuel (sub_i32 code_num (shl_i32 1 length)) (length + 1)
  | false ↦ (code_num, length)
]

-- The second call of EncodeBinsEP is left out where it has no bins.
abbrev pub suffix : ℕ → ℕ → List Symbol
suffix bins len = if len == 0 then [] else (bypass_bins bins len ∷ [])

-- WriteCoeffRemainExGolomb, for a symbol that is not negative.
unfoldable pub write_coeff_remain_ex_golomb : ℕ → ℕ → List Symbol
unfolding remain_loop
write_coeff_remain_ex_golomb symbol param =
    if reaches symbol (shl_i32 coef_remain_bin_reduction param)
    then (let left = sub_i32 symbol (shl_i32 coef_remain_bin_reduction param) in
        let (code_num, length) = remain_loop (left + 1) left param in
        let len = coef_remain_bin_reduction + length + 1 - param in
        bypass_bins (sub_i32 (shl_i32 1 len) 2) len ∷ suffix code_num length)
    else (let length = symbol / 2 ^ param in
        bypass_bins (sub_i32 (shl_i32 1 (length + 1)) 2) (length + 1)
        ∷ suffix (symbol % shl_i32 1 param) param)
