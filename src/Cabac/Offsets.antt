-- ===== src/Cabac/Offsets.antt =====
-- The context models of inc/Defines.h: how many states each syntax element has, and where they start.
use ces.Prelude.{ℕ, ◌+◌, ◌*◌}

abbrev pub num_split_flag_ctx : ℕ
num_split_flag_ctx = 3

abbrev pub num_skip_flag_ctx : ℕ
num_skip_flag_ctx = 3

abbrev pub num_merge_flag_ext_ctx : ℕ
num_merge_flag_ext_ctx = 1

abbrev pub num_merge_idx_ext_ctx : ℕ
num_merge_idx_ext_ctx = 1

abbrev pub num_alf_ctrl_flag_ctx : ℕ
num_alf_ctrl_flag_ctx = 1

abbrev pub num_part_size_ctx : ℕ
num_part_size_ctx = 4

abbrev pub num_cu_amp_ctx : ℕ
num_cu_amp_ctx = 1

abbrev pub num_pred_mode_ctx : ℕ
num_pred_mode_ctx = 1

abbrev pub num_adi_ctx : ℕ
num_adi_ctx = 1

abbrev pub num_chroma_pred_ctx : ℕ
num_chroma_pred_ctx = 2

abbrev pub num_inter_dir_ctx : ℕ
num_inter_dir_ctx = 4

abbrev pub num_mv_res_ctx : ℕ
num_mv_res_ctx = 2

abbrev pub num_ref_no_ctx : ℕ
num_ref_no_ctx = 2

abbrev pub num_trans_subdiv_flag_ctx : ℕ
num_trans_subdiv_flag_ctx = 3

abbrev pub num_qt_cbf_ctx : ℕ
num_qt_cbf_ctx = 5

abbrev pub num_qt_root_cbf_ctx : ℕ
num_qt_root_cbf_ctx = 1

abbrev pub num_delta_qp_ctx : ℕ
num_delta_qp_ctx = 3

abbrev pub num_sig_cg_flag_ctx : ℕ
num_sig_cg_flag_ctx = 2

abbrev pub num_sig_flag_ctx : ℕ
num_sig_flag_ctx = 42

abbrev pub num_sig_flag_ctx_luma : ℕ
num_sig_flag_ctx_luma = 27

abbrev pub num_sig_flag_ctx_chroma : ℕ
num_sig_flag_ctx_chroma = 15

abbrev pub num_last_flag_xy_ctx : ℕ
num_last_flag_xy_ctx = 15

abbrev pub num_one_flag_ctx : ℕ
num_one_flag_ctx = 24

abbrev pub num_one_flag_ctx_luma : ℕ
num_one_flag_ctx_luma = 16

abbrev pub num_one_flag_ctx_chroma : ℕ
num_one_flag_ctx_chroma = 8

abbrev pub num_abs_flag_ctx : ℕ
num_abs_flag_ctx = 6

abbrev pub num_abs_flag_ctx_luma : ℕ
num_abs_flag_ctx_luma = 4

abbrev pub num_abs_flag_ctx_chroma : ℕ
num_abs_flag_ctx_chroma = 2

abbrev pub num_mvp_idx_ctx : ℕ
num_mvp_idx_ctx = 2

abbrev pub num_transformskip_flag_ctx : ℕ
num_transformskip_flag_ctx = 1

abbrev pub off_split_flag_ctx : ℕ
off_split_flag_ctx = 0

abbrev pub off_skip_flag_ctx : ℕ
off_skip_flag_ctx = off_split_flag_ctx + num_split_flag_ctx

abbrev pub off_alf_ctrl_flag_ctx : ℕ
off_alf_ctrl_flag_ctx = off_skip_flag_ctx + num_skip_flag_ctx

abbrev pub off_merge_flag_ext_ctx : ℕ
off_merge_flag_ext_ctx = off_alf_ctrl_flag_ctx + num_alf_ctrl_flag_ctx

abbrev pub off_merge_idx_ext_ctx : ℕ
off_merge_idx_ext_ctx = off_merge_flag_ext_ctx + num_merge_flag_ext_ctx

abbrev pub off_part_size_ctx : ℕ
off_part_size_ctx = off_merge_idx_ext_ctx + num_merge_idx_ext_ctx

abbrev pub off_cu_amp_ctx : ℕ
off_cu_amp_ctx = off_part_size_ctx + num_part_size_ctx

abbrev pub off_pred_mode_ctx : ℕ
off_pred_mode_ctx = off_cu_amp_ctx + num_cu_amp_ctx

abbrev pub off_intra_pred_ctx : ℕ
off_intra_pred_ctx = off_pred_mode_ctx + num_pred_mode_ctx

abbrev pub off_chroma_pred_ctx : ℕ
off_chroma_pred_ctx = off_intra_pred_ctx + num_adi_ctx

abbrev pub off_inter_dir_ctx : ℕ
off_inter_dir_ctx = off_chroma_pred_ctx + num_chroma_pred_ctx

abbrev pub off_mvd_ctx : ℕ
off_mvd_ctx = off_inter_dir_ctx + num_inter_dir_ctx

abbrev pub off_ref_pic_ctx : ℕ
off_ref_pic_ctx = off_mvd_ctx + num_mv_res_ctx

abbrev pub off_delta_qp_ctx : ℕ
off_delta_qp_ctx = off_ref_pic_ctx + num_ref_no_ctx

abbrev pub off_qt_cbf_ctx : ℕ
off_qt_cbf_ctx = off_delta_qp_ctx + num_delta_qp_ctx

abbrev pub off_qt_root_cbf_ctx : ℕ
off_qt_root_cbf_ctx = off_qt_cbf_ctx + 2 * num_qt_cbf_ctx

abbrev pub off_sig_cg_flag_ctx : ℕ
off_sig_cg_flag_ctx = off_qt_root_cbf_ctx + num_qt_root_cbf_ctx

abbrev pub off_sig_flag_ctx : ℕ
off_sig_flag_ctx = off_sig_cg_flag_ctx + 2 * num_sig_cg_flag_ctx

abbrev pub off_last_x_ctx : ℕ
off_last_x_ctx = off_sig_flag_ctx + num_sig_flag_ctx

abbrev pub off_last_y_ctx : ℕ
off_last_y_ctx = off_last_x_ctx + 2 * num_last_flag_xy_ctx

abbrev pub off_one_flag_ctx : ℕ
off_one_flag_ctx = off_last_y_ctx + 2 * num_last_flag_xy_ctx

abbrev pub off_abs_flag_ctx : ℕ
off_abs_flag_ctx = off_one_flag_ctx + num_one_flag_ctx

abbrev pub off_mvp_idx_ctx : ℕ
off_mvp_idx_ctx = off_abs_flag_ctx + num_abs_flag_ctx

abbrev pub off_trans_subdiv_flag_ctx : ℕ
off_trans_subdiv_flag_ctx = off_mvp_idx_ctx + num_mvp_idx_ctx

abbrev pub off_ts_flag_ctx : ℕ
off_ts_flag_ctx = off_trans_subdiv_flag_ctx + num_trans_subdiv_flag_ctx
