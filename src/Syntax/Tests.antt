-- ===== src/Syntax/Tests.antt =====
-- Runs of the syntax coding, and the theorems at concrete inputs.
use ces.Prelude.{
  ℕ, ◌*◌, ◌<◌, ◌⊎◌, false, get_or, ◌^◌, ◌≡◌, List, [], ◌∷◌, ◌++◌, some, ok, arith, true,
}
use ces.Prelude.Int.{ℤ, pos, negsuc}
use ces.Cabac.Offsets.{
  off_sig_cg_flag_ctx, off_mvp_idx_ctx, off_intra_pred_ctx, off_chroma_pred_ctx,
}
use ces.Cabac.Symbols.{Symbol, AllCodable}
use ces.Syntax.Bins.{bins_of, Good}
use ces.Syntax.Last.{code_last_signif_xy}
use ces.Syntax.Last.Reading.{read_last, code_last_signif_xy-read_last}
use ces.Syntax.Modes.{encode_intra_dir_ang_grp_l, mode_bins, get_coeff_scan_idx}
use ces.Syntax.Modes.Reading.{
  read_intra_luma, encode_intra_dir_ang_grp_l-read_intra_luma, mode_bins_past_end, scan_of_mode,
  get_coeff_scan_idx-scan_of_mode,
}
use ces.Syntax.Coeff.{block_of, row_of, column_of, coeff_at, is_nonzero}
use ces.Syntax.Coeff.Whole.{encode_coeff_nxn}
use ces.Syntax.Coeff.Whole.Coded.{encode_coeff_nxn-Good}

-- Three coefficients of a block of 4 rows, in the first row of an array of 32 columns.
abbrev three : List ℤ
three = pos 5 ∷ pos 0 ∷ negsuc 0 ∷ []

encode_coeff_nxn-Good_example :
    let b = block_of three (2 ^ 2) 1 true in
    (last : ℕ) × (tail : List Symbol) × let place = get_or b.scan last 0 in
      let ss =
        code_last_signif_xy (column_of b place) (row_of b place) (2 ^ 2) b.scan_idx true ++ tail in
      (encode_coeff_nxn three (2 ^ 2) 1 true ≡ ok ss)
      × (last < 2 ^ 2 * 2 ^ 2)
      × ((is_nonzero (coeff_at b place) ≡ true) ⊎ (last ≡ 0))
      × ((m : ℕ)
          → last < m
          → m < 2 ^ 2 * 2 ^ 2
          → is_nonzero (coeff_at b (get_or b.scan m 0)) ≡ false)
      × Good off_sig_cg_flag_ctx off_mvp_idx_ctx ss
encode_coeff_nxn-Good_example =
    encode_coeff_nxn-Good three 2 1 true (omega arith) (omega arith) (omega arith)

code_last_signif_xy-read_last_example :
    read_last 3 2 (bins_of (code_last_signif_xy 6 1 (2 ^ 3) 2 true) ++ 1 ∷ 0 ∷ [])
    ≡ some ((6, 1), 1 ∷ 0 ∷ [])
code_last_signif_xy-read_last_example =
    code_last_signif_xy-read_last 3 6 1 2 true (1 ∷ 0 ∷ []) (omega arith) (omega arith)
      (omega arith) (omega arith)

encode_intra_dir_ang_grp_l-read_intra_luma_example :
    (ss : List Symbol) × (encode_intra_dir_ang_grp_l (2 ∷ 26 ∷ 0 ∷ 34 ∷ []) ≡ ok ss)
    × (read_intra_luma 4 (bins_of ss ++ 1 ∷ []) ≡ some (2 ∷ 26 ∷ 0 ∷ 34 ∷ [], 1 ∷ []))
    × Good off_intra_pred_ctx off_chroma_pred_ctx ss
encode_intra_dir_ang_grp_l-read_intra_luma_example =
    encode_intra_dir_ang_grp_l-read_intra_luma (2 ∷ 26 ∷ 0 ∷ 34 ∷ []) (1 ∷ []) (omega arith)

mode_bins_past_end_example : (ss : List Symbol) × (mode_bins 35 ≡ ok ss) × ¬ AllCodable ss
mode_bins_past_end_example = mode_bins_past_end 35 (omega arith) (omega arith)

get_coeff_scan_idx-scan_of_mode_example : get_coeff_scan_idx 8 12 true ≡ scan_of_mode 8 12 true
get_coeff_scan_idx-scan_of_mode_example = get_coeff_scan_idx-scan_of_mode 8 12 true
