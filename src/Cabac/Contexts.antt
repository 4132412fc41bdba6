-- ===== src/Cabac/Contexts.antt =====
-- InitCabac and InitCabacEntry of src/Cabac.cpp: the context states at the start of a slice.
pub mod Tables
pub mod Bounds
use ces.Prelude.{
  ℕ, zero, suc, ◌+◌, ◌-◌, ◌*◌, ◌/◌, ◌%◌, ◌^◌, bit_and, List, [], ◌∷◌, leb, if◌then◌else◌, get_or,
  set,
}
use ces.Prelude.Int.{ℤ, pos, negsuc, pos_part, sub_ℕ, ◌+ℤ◌, ◌*ℤ◌}
use ces.Macros.{clip3}
use ces.Cabac.{Engine, reset_cabac}
use Tables.{
  SliceType, init_split_flag, init_skip_flag, init_alf_ctrl_flag, init_merge_flag_ext,
  init_merge_idx_ext, init_part_size, init_cu_amp_pos, init_pred_mode, init_intra_pred_mode,
  init_chroma_pred_mode, init_inter_dir, init_mvd, init_ref_pic, init_dqp, init_qt_cbf,
  init_qt_root_cbf, init_sig_cg_flag, init_sig_flag, init_last, init_one_flag, init_abs_flag,
  init_mvp_idx, init_trans_subdiv_flag, init_transformskip_flag,
}

-- `>> 4` of an `i32` rounds down.
abbrev pub shift_4 : ℤ → ℤ
shift_4 (pos n) = pos (n / 2 ^ 4)
shift_4 (negsuc n) = negsuc (n / 2 ^ 4)

-- iInitState, which Clip3 makes positive.
unfoldable pub init_state : ℕ → ℕ → ℕ
init_state qp init_val =
    let slope_idx = init_val / 2 ^ 4 in
    let intersec_idx = bit_and init_val 15 in
    let m = sub_ℕ (slope_idx * 2 ^ 2 + slope_idx) 45 in
    let n = sub_ℕ (intersec_idx * 2 ^ 3) 16 in
    pos_part (clip3 (pos 1) (pos 126) (shift_4 (m *ℤ pos qp) +ℤ n))

-- The context state of an initial value: 2 * pStateIdx + valMps.
unfoldable pub state_of : ℕ → ℕ
state_of init_state =
    if leb 64 init_state then (init_state - 64) * 2 + 1 else ((63 - init_state) * 2)

-- The loop of InitCabacEntry, over `n` states from the place `at` on.
pub entry_loop : ℕ → ℕ → ℕ → List ℕ → List ℕ → List ℕ
entry_loop zero at qp contexts vals = contexts
entry_loop (suc n) at qp contexts [] = contexts
entry_loop (suc n) at qp contexts (v ∷ vals) =
    entry_loop n (at + 1) qp (set contexts at (state_of (init_state qp v))) vals

-- The calls of INIT_CABAC, each with its number of states and its initial values.
abbrev pub entries : SliceType → List (ℕ × List ℕ)
entries t =
    (3, init_split_flag t)
    ∷ (3, init_skip_flag t)
    ∷ (1, init_alf_ctrl_flag t)
    ∷ (1, init_merge_flag_ext t)
    ∷ (1, init_merge_idx_ext t)
    ∷ (4, init_part_size t)
    ∷ (1, init_cu_amp_pos t)
    ∷ (1, init_pred_mode t)
    ∷ (1, init_intra_pred_mode t)
    ∷ (2, init_chroma_pred_mode t)
    ∷ (4, init_inter_dir t)
    ∷ (2, init_mvd t)
    ∷ (2, init_ref_pic t)
    ∷ (3, init_dqp t)
    ∷ (10, init_qt_cbf t)
    ∷ (1, init_qt_root_cbf t)
    ∷ (4, init_sig_cg_flag t)
    ∷ (42, init_sig_flag t)
    ∷ (30, init_last t)
    ∷ (30, init_last t)
    ∷ (24, init_one_flag t)
    ∷ (6, init_abs_flag t)
    ∷ (2, init_mvp_idx t)
    ∷ (3, init_trans_subdiv_flag t)
    ∷ (1, init_transformskip_flag t)
    ∷ []

-- INIT_CABAC moves the place on by the number of states.
pub init_entries : ℕ → ℕ → List (ℕ × List ℕ) → List ℕ → List ℕ
init_entries at qp [] contexts = contexts
init_entries at qp ((n, vals) ∷ rest) contexts =
    init_entries (at + n) qp rest (entry_loop n at qp contexts vals)

-- InitCabac
pub init_cabac : ℕ → SliceType → Engine → Engine
init_cabac qp t e = reset_cabac (record e { contexts = init_entries 0 qp (entries t) e.contexts })
