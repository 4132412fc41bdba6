-- ===== src/Syntax/Modes.antt =====
-- The intra prediction modes and the choice of the scan in src/Cabac.cpp.
pub mod Reading
use ces.Prelude.{
  ℕ, zero, suc, ◌+◌, ◌-◌, ◌≤◌, ◌<◌, Bool, true, false, ◌&&◌, List, [], ◌∷◌, ◌++◌, ltb, ◌==◌,
  if◌then◌else◌, Outcome, ok, ◌>>=◌, ◌>>◌, make_sure,
}
use ces.Prelude.{wrong_mode}
use ces.Prelude.Int.{ℤ, pos, ◌-ℤ◌, ltb_ℤ}
use ces.Macros.{abs}
use ces.Cabac.Offsets.{off_intra_pred_ctx, off_chroma_pred_ctx}
use ces.Cabac.Symbols.{Symbol, bypass_bins, context_bin}

-- TOTAL_INTRA_MODES
abbrev pub total_intra_modes : ℕ
total_intra_modes = 36

-- CHROMA_DM_MODE
abbrev pub chroma_dm_mode : ℕ
chroma_dm_mode = 4

-- HOR_MODE_IDX
abbrev pub hor_mode_idx : ℕ
hor_mode_idx = 10

-- VER_MODE_IDX
abbrev pub ver_mode_idx : ℕ
ver_mode_idx = 26

-- The first loop of EncodeIntraDirAngGrpL: is the mode one of the most probable?
pub mode_flags : List ℕ → List Symbol
mode_flags [] = []
mode_flags (pred_idx ∷ rest) =
    context_bin (if ltb pred_idx 3 then 1 else 0) off_intra_pred_ctx ∷ mode_flags rest

-- A round of the second loop.
unfoldable pub mode_bins : ℕ → Outcome (List Symbol)
mode_bins pred_idx =
    if ltb pred_idx 3
    then (let more = if pred_idx == 0 then 0 else 1 in
        ok (bypass_bins (pred_idx + more) (1 + more) ∷ []))
    else (do
      make_sure (ltb (pred_idx - 3) total_intra_modes) wrong_mode
      ok (bypass_bins (pred_idx - 3) 5 ∷ []))

-- The second loop.
pub all_mode_bins : List ℕ → Outcome (List Symbol)
all_mode_bins [] = ok []
all_mode_bins (pred_idx ∷ rest) = do
  here ← mode_bins pred_idx
  others ← all_mode_bins rest
  ok (here ++ others)

-- EncodeIntraDirAngGrpL, with the symbols that it codes.
unfoldable pub encode_intra_dir_ang_grp_l : List ℕ → Outcome (List Symbol)
encode_intra_dir_ang_grp_l pred_idxs = do
  bins ← all_mode_bins pred_idxs
  ok (mode_flags pred_idxs ++ bins)

-- EncodeIntraDirAngC
unfoldable pub encode_intra_dir_ang_c : ℕ → List Symbol
encode_intra_dir_ang_c mode_idx =
    if mode_idx == chroma_dm_mode
    then context_bin 0 off_chroma_pred_ctx ∷ []
    else context_bin 1 off_chroma_pred_ctx ∷ bypass_bins mode_idx 2 ∷ []

-- The switch of GetCoeffScanIdx.
unfoldable pub size_ctx_idx : ℕ → ℕ
size_ctx_idx size =
    if size == 2
    then 6
    else if size == 4
    then 5
    else if size == 8
    then 4
    else if size == 16
    then 3
    else if size == 32
    then 2
    else if size == 64
    then 1
    else 0

-- ABS((i32(uiMode)) - dir) < 5
abbrev pub is_near : ℕ → ℕ → Bool
is_near mode dir = ltb_ℤ (abs (pos mode -ℤ pos dir)) (pos 5)

-- GetCoeffScanIdx: SCAN_HOR 1 for modes near the vertical one, SCAN_VER 2 near the horizontal one, else SCAN_ZIGZAG 0.
unfoldable pub get_coeff_scan_idx : ℕ → ℕ → Bool → ℕ
unfolding size_ctx_idx
get_coeff_scan_idx size mode is_luma =
    let ctx_idx = size_ctx_idx size in
    let offset = if is_luma then 0 else 1 in
    if ltb (3 + offset) ctx_idx && ltb ctx_idx (6 + offset)
    then (if is_near mode ver_mode_idx then 1 else if is_near mode hor_mode_idx then 2 else 0)
    else 0
