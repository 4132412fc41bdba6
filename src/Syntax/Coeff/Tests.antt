-- ===== src/Syntax/Coeff/Tests.antt =====
-- A run of EncodeCoeffNxN of src/Cabac.cpp.
use ces.Prelude.{◌≡◌, refl, List, [], ◌∷◌, ok, true}
use ces.Prelude.Int.{ℤ, pos, negsuc, ◌-ℤ◌}
use ces.Macros.{log2, abs}
use ces.Cabac.Symbols.{context_bin, bypass_bins}
use ces.Cabac.Scan.Tables.{scan_idx_4, scan_idx_2}
use ces.Syntax.Last.{code_last_signif_xy}
use ces.Syntax.Modes.{get_coeff_scan_idx}
use ces.Syntax.Remain.{write_coeff_remain_ex_golomb}
use ces.Syntax.Increments.{get_sig_ctx_inc, calc_pattern_sig_ctx}
use ces.Syntax.Coeff.{block_of, scan_table, count_row, count_rows, find_last}
use ces.Syntax.Coeff.Significance.{sig_loop, add_level}
use ces.Syntax.Coeff.Levels.{encode_levels}
use ces.Syntax.Coeff.Whole.{encode_coeff_nxn, encode_group}

-- Three coefficients of a block of 4 rows, in the first row of an array of 32 columns.
abbrev three : List ℤ
three = pos 5 ∷ pos 0 ∷ negsuc 0 ∷ []

three_coded :
    encode_coeff_nxn three 4 1 true
    ≡ ok (
        context_bin 1 86
        ∷ context_bin 1 87
        ∷ context_bin 0 88
        ∷ context_bin 0 116
        ∷ context_bin 0 47
        ∷ context_bin 0 50
        ∷ context_bin 0 45
        ∷ context_bin 0 46
        ∷ context_bin 1 44
        ∷ context_bin 0 147
        ∷ context_bin 1 148
        ∷ context_bin 1 170
        ∷ bypass_bins 2 2
        ∷ bypass_bins 6 3
        ∷ [])
unfolding encode_coeff_nxn code_last_signif_xy block_of get_coeff_scan_idx abs ◌-ℤ◌ scan_table log2
    scan_idx_4 scan_idx_2 count_row count_rows find_last sig_loop add_level encode_levels
    write_coeff_remain_ex_golomb get_sig_ctx_inc calc_pattern_sig_ctx encode_group
three_coded = refl
