-- ===== src/Cabac/Contexts/Tables.antt =====
-- The initial values of the context states in src/Cabac.cpp, for each slice type.
use ces.Prelude.{ℕ, List, [], ◌∷◌}

-- eSliceType
pub data SliceType : Type 0 where
  p_slice b_slice i_slice : SliceType

abbrev pub init_split_flag : SliceType → List ℕ
init_split_flag p_slice = 107 ∷ 139 ∷ 126 ∷ []
init_split_flag b_slice = 107 ∷ 139 ∷ 126 ∷ []
init_split_flag i_slice = 139 ∷ 141 ∷ 157 ∷ []

abbrev pub init_skip_flag : SliceType → List ℕ
init_skip_flag p_slice = 197 ∷ 185 ∷ 201 ∷ []
init_skip_flag b_slice = 197 ∷ 185 ∷ 201 ∷ []
init_skip_flag i_slice = 154 ∷ 154 ∷ 154 ∷ []

abbrev pub init_alf_ctrl_flag : SliceType → List ℕ
init_alf_ctrl_flag p_slice = 102 ∷ []
init_alf_ctrl_flag b_slice = 102 ∷ []
init_alf_ctrl_flag i_slice = 118 ∷ []

abbrev pub init_merge_flag_ext : SliceType → List ℕ
init_merge_flag_ext p_slice = 154 ∷ []
init_merge_flag_ext b_slice = 110 ∷ []
init_merge_flag_ext i_slice = 154 ∷ []

abbrev pub init_merge_idx_ext : SliceType → List ℕ
init_merge_idx_ext p_slice = 137 ∷ []
init_merge_idx_ext b_slice = 122 ∷ []
init_merge_idx_ext i_slice = 154 ∷ []

abbrev pub init_part_size : SliceType → List ℕ
init_part_size p_slice = 154 ∷ 139 ∷ 154 ∷ 154 ∷ []
init_part_size b_slice = 154 ∷ 139 ∷ 154 ∷ 154 ∷ []
init_part_size i_slice = 184 ∷ 154 ∷ 154 ∷ 154 ∷ []

abbrev pub init_cu_amp_pos : SliceType → List ℕ
init_cu_amp_pos p_slice = 154 ∷ []
init_cu_amp_pos b_slice = 154 ∷ []
init_cu_amp_pos i_slice = 154 ∷ []

abbrev pub init_pred_mode : SliceType → List ℕ
init_pred_mode p_slice = 134 ∷ []
init_pred_mode b_slice = 149 ∷ []
init_pred_mode i_slice = 154 ∷ []

abbrev pub init_intra_pred_mode : SliceType → List ℕ
init_intra_pred_mode p_slice = 183 ∷ []
init_intra_pred_mode b_slice = 154 ∷ []
init_intra_pred_mode i_slice = 184 ∷ []

abbrev pub init_chroma_pred_mode : SliceType → List ℕ
init_chroma_pred_mode p_slice = 152 ∷ 139 ∷ []
init_chroma_pred_mode b_slice = 152 ∷ 139 ∷ []
init_chroma_pred_mode i_slice = 63 ∷ 139 ∷ []

abbrev pub init_inter_dir : SliceType → List ℕ
init_inter_dir p_slice = 95 ∷ 79 ∷ 63 ∷ 31 ∷ []
init_inter_dir b_slice = 95 ∷ 79 ∷ 63 ∷ 31 ∷ []
init_inter_dir i_slice = 154 ∷ 154 ∷ 154 ∷ 154 ∷ []

abbrev pub init_mvd : SliceType → List ℕ
init_mvd p_slice = 169 ∷ 198 ∷ []
init_mvd b_slice = 140 ∷ 198 ∷ []
init_mvd i_slice = 154 ∷ 154 ∷ []

abbrev pub init_ref_pic : SliceType → List ℕ
init_ref_pic p_slice = 153 ∷ 153 ∷ []
init_ref_pic b_slice = 153 ∷ 153 ∷ []
init_ref_pic i_slice = 154 ∷ 154 ∷ []

abbrev pub init_dqp : SliceType → List ℕ
init_dqp p_slice = 154 ∷ 154 ∷ 154 ∷ []
init_dqp b_slice = 154 ∷ 154 ∷ 154 ∷ []
init_dqp i_slice = 154 ∷ 154 ∷ 154 ∷ []

abbrev pub init_qt_cbf : SliceType → List ℕ
init_qt_cbf p_slice = 153 ∷ 111 ∷ 154 ∷ 154 ∷ 154 ∷ 149 ∷ 92 ∷ 167 ∷ 154 ∷ 154 ∷ []
init_qt_cbf b_slice = 153 ∷ 111 ∷ 154 ∷ 154 ∷ 154 ∷ 149 ∷ 107 ∷ 167 ∷ 154 ∷ 154 ∷ []
init_qt_cbf i_slice = 111 ∷ 141 ∷ 154 ∷ 154 ∷ 154 ∷ 94 ∷ 138 ∷ 182 ∷ 154 ∷ 154 ∷ []

abbrev pub init_qt_root_cbf : SliceType → List ℕ
init_qt_root_cbf p_slice = 79 ∷ []
init_qt_root_cbf b_slice = 79 ∷ []
init_qt_root_cbf i_slice = 154 ∷ []

abbrev pub init_sig_cg_flag : SliceType → List ℕ
init_sig_cg_flag p_slice = 121 ∷ 140 ∷ 61 ∷ 154 ∷ []
init_sig_cg_flag b_slice = 121 ∷ 140 ∷ 61 ∷ 154 ∷ []
init_sig_cg_flag i_slice = 91 ∷ 171 ∷ 134 ∷ 141 ∷ []

abbrev pub init_sig_flag : SliceType → List ℕ
init_sig_flag p_slice =
    170 ∷ 154 ∷ 139 ∷ 153 ∷ 139 ∷ 123 ∷ 123 ∷ 63 ∷ 124 ∷ 166 ∷ 183 ∷ 140 ∷ 136 ∷ 153 ∷ 154 ∷ 166
    ∷ 183 ∷ 140 ∷ 136 ∷ 153 ∷ 154 ∷ 166 ∷ 183 ∷ 140 ∷ 136 ∷ 153 ∷ 154 ∷ 170 ∷ 153 ∷ 138 ∷ 138 ∷ 122
    ∷ 121 ∷ 122 ∷ 121 ∷ 167 ∷ 151 ∷ 183 ∷ 140 ∷ 151 ∷ 183 ∷ 140 ∷ []
init_sig_flag b_slice =
    155 ∷ 154 ∷ 139 ∷ 153 ∷ 139 ∷ 123 ∷ 123 ∷ 63 ∷ 153 ∷ 166 ∷ 183 ∷ 140 ∷ 136 ∷ 153 ∷ 154 ∷ 166
    ∷ 183 ∷ 140 ∷ 136 ∷ 153 ∷ 154 ∷ 166 ∷ 183 ∷ 140 ∷ 136 ∷ 153 ∷ 154 ∷ 170 ∷ 153 ∷ 123 ∷ 123 ∷ 107
    ∷ 121 ∷ 107 ∷ 121 ∷ 167 ∷ 151 ∷ 183 ∷ 140 ∷ 151 ∷ 183 ∷ 140 ∷ []
init_sig_flag i_slice =
    111 ∷ 111 ∷ 125 ∷ 110 ∷ 110 ∷ 94 ∷ 124 ∷ 108 ∷ 124 ∷ 107 ∷ 125 ∷ 141 ∷ 179 ∷ 153 ∷ 125 ∷ 107
    ∷ 125 ∷ 141 ∷ 179 ∷ 153 ∷ 125 ∷ 107 ∷ 125 ∷ 141 ∷ 179 ∷ 153 ∷ 125 ∷ 140 ∷ 139 ∷ 182 ∷ 182 ∷ 152
    ∷ 136 ∷ 152 ∷ 136 ∷ 153 ∷ 136 ∷ 139 ∷ 111 ∷ 136 ∷ 139 ∷ 111 ∷ []

abbrev pub init_last : SliceType → List ℕ
init_last p_slice =
    125 ∷ 110 ∷ 124 ∷ 110 ∷ 95 ∷ 94 ∷ 125 ∷ 111 ∷ 111 ∷ 79 ∷ 125 ∷ 126 ∷ 111 ∷ 111 ∷ 79 ∷ 108 ∷ 123
    ∷ 93 ∷ 154 ∷ 154 ∷ 154 ∷ 154 ∷ 154 ∷ 154 ∷ 154 ∷ 154 ∷ 154 ∷ 154 ∷ 154 ∷ 154 ∷ []
init_last b_slice =
    125 ∷ 110 ∷ 94 ∷ 110 ∷ 95 ∷ 79 ∷ 125 ∷ 111 ∷ 110 ∷ 78 ∷ 110 ∷ 111 ∷ 111 ∷ 95 ∷ 94 ∷ 108 ∷ 123
    ∷ 108 ∷ 154 ∷ 154 ∷ 154 ∷ 154 ∷ 154 ∷ 154 ∷ 154 ∷ 154 ∷ 154 ∷ 154 ∷ 154 ∷ 154 ∷ []
init_last i_slice =
    110 ∷ 110 ∷ 124 ∷ 125 ∷ 140 ∷ 153 ∷ 125 ∷ 127 ∷ 140 ∷ 109 ∷ 111 ∷ 143 ∷ 127 ∷ 111 ∷ 79 ∷ 108
    ∷ 123 ∷ 63 ∷ 154 ∷ 154 ∷ 154 ∷ 154 ∷ 154 ∷ 154 ∷ 154 ∷ 154 ∷ 154 ∷ 154 ∷ 154 ∷ 154 ∷ []

abbrev pub init_one_flag : SliceType → List ℕ
init_one_flag p_slice =
    154 ∷ 196 ∷ 167 ∷ 167 ∷ 154 ∷ 152 ∷ 167 ∷ 182 ∷ 182 ∷ 134 ∷ 149 ∷ 136 ∷ 153 ∷ 121 ∷ 136 ∷ 122
    ∷ 169 ∷ 208 ∷ 166 ∷ 167 ∷ 154 ∷ 152 ∷ 167 ∷ 182 ∷ []
init_one_flag b_slice =
    154 ∷ 196 ∷ 196 ∷ 167 ∷ 154 ∷ 152 ∷ 167 ∷ 182 ∷ 182 ∷ 134 ∷ 149 ∷ 136 ∷ 153 ∷ 121 ∷ 136 ∷ 137
    ∷ 169 ∷ 194 ∷ 166 ∷ 167 ∷ 154 ∷ 167 ∷ 137 ∷ 182 ∷ []
init_one_flag i_slice =
    140 ∷ 92 ∷ 137 ∷ 138 ∷ 140 ∷ 152 ∷ 138 ∷ 139 ∷ 153 ∷ 74 ∷ 149 ∷ 92 ∷ 139 ∷ 107 ∷ 122 ∷ 152 ∷ 140
    ∷ 179 ∷ 166 ∷ 182 ∷ 140 ∷ 227 ∷ 122 ∷ 197 ∷ []

abbrev pub init_abs_flag : SliceType → List ℕ
init_abs_flag p_slice = 107 ∷ 167 ∷ 91 ∷ 107 ∷ 107 ∷ 167 ∷ []
init_abs_flag b_slice = 107 ∷ 167 ∷ 91 ∷ 122 ∷ 107 ∷ 167 ∷ []
init_abs_flag i_slice = 138 ∷ 153 ∷ 136 ∷ 167 ∷ 152 ∷ 152 ∷ []

abbrev pub init_mvp_idx : SliceType → List ℕ
init_mvp_idx p_slice = 168 ∷ 154 ∷ []
init_mvp_idx b_slice = 168 ∷ 154 ∷ []
init_mvp_idx i_slice = 154 ∷ 154 ∷ []

abbrev pub init_trans_subdiv_flag : SliceType → List ℕ
init_trans_subdiv_flag p_slice = 153 ∷ 138 ∷ 138 ∷ []
init_trans_subdiv_flag b_slice = 124 ∷ 138 ∷ 94 ∷ []
init_trans_subdiv_flag i_slice = 224 ∷ 167 ∷ 122 ∷ []

abbrev pub init_transformskip_flag : SliceType → List ℕ
init_transformskip_flag p_slice = 139 ∷ 139 ∷ []
init_transformskip_flag b_slice = 139 ∷ 139 ∷ []
init_transformskip_flag i_slice = 139 ∷ 139 ∷ []
