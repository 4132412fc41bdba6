-- ===== src/Syntax/Modes/Reading.antt =====
-- The intra prediction modes that src/Cabac.cpp codes are read back, and the scan is the one of the standard.
use ces.Prelude.{
  ℕ, zero, suc, ◌+◌, ◌-◌, ◌≤◌, ◌<◌, ◌≡◌, refl, Bool, true, false, ◌&&◌, ◌||◌, List, [], ◌∷◌, ◌++◌,
  append_assoc, Option, none, some, ltb, leb, ◌==◌, if◌then◌else◌, length, arith, ok, fault,
  AllBelow, wrong_mode, inl, inr, lt→ltb, le→ltb_false, Bool-cases,
}
use ces.Prelude.Int.{◌-ℤ◌}
use ces.Macros.{abs}
use ces.BitStream.Reader
use ces.BitStream.Reader.{read_bits, read_bits-bits}
use ces.Cabac.Offsets.{off_intra_pred_ctx, off_chroma_pred_ctx}
use ces.Cabac.Symbols.{Symbol, bypass_bins, AllCodable}
use ces.Syntax.Bins.{bins_of, bins_of-append, Good, Good-append}
use ces.Syntax.Last.Reading.{read_unary}
use ces.Syntax.Modes.{
  mode_flags, mode_bins, all_mode_bins, encode_intra_dir_ang_grp_l, encode_intra_dir_ang_c,
  get_coeff_scan_idx,
}

-- prev_intra_luma_pred_flag for each of `n` parts.
pub read_flags : ℕ → List ℕ → Option (List ℕ × List ℕ)
read_flags zero r = some ([], r)
read_flags (suc n) [] = none
read_flags (suc n) (b ∷ r) = Reader.◌>>=◌ (read_flags n r) (λ p. some (b ∷ p.0, p.1))

-- mpm_idx, or rem_intra_luma_pred_mode, which counts from the three most probable modes on.
pub read_mode : ℕ → List ℕ → Option (ℕ × List ℕ)
read_mode flag r =
    if flag == 1 then read_unary 2 r else Reader.◌>>=◌ (read_bits 5 r) (λ p. some (p.0 + 3, p.1))

pub read_modes : List ℕ → List ℕ → Option (List ℕ × List ℕ)
read_modes [] r = some ([], r)
read_modes (f ∷ fs) r =
    Reader.◌>>=◌ (read_mode f r)
      (λ p. Reader.◌>>=◌ (read_modes fs p.1) (λ q. some (p.0 ∷ q.0, q.1)))

abbrev flag_of : ℕ → ℕ
flag_of pred_idx = if ltb pred_idx 3 then 1 else 0

abbrev flags_of : List ℕ → List ℕ
flags_of [] = []
flags_of (p ∷ ps) = flag_of p ∷ flags_of ps

read_flags-mode_flags :
    (ps : List ℕ) (rest : List ℕ)
    → read_flags (length ps) (bins_of (mode_flags ps) ++ rest) ≡ some (flags_of ps, rest)
unfolding read_flags mode_flags
read_flags-mode_flags [] rest = refl
read_flags-mode_flags (p ∷ ps) rest = rw (read_flags-mode_flags ps rest)

-- A mode of the second loop.
record ModeCoded (pred_idx : ℕ) : Type 0 where
  symbols : List Symbol
  returned : mode_bins pred_idx ≡ ok symbols
  read :
      (rest : List ℕ)
      → read_mode (flag_of pred_idx) (bins_of symbols ++ rest) ≡ some (pred_idx, rest)
  good : (lo hi : ℕ) → Good lo hi symbols

mode_bins-ModeCoded : (p : ℕ) → p < 35 → ModeCoded p
unfolding mode_bins read_mode read_unary
mode_bins-ModeCoded zero h = record {
  symbols = bypass_bins 0 1 ∷ [];
  returned = refl;
  read = λ rest. refl;
  good = λ lo hi. omega arith;
}
mode_bins-ModeCoded (suc zero) h = record {
  symbols = bypass_bins 2 2 ∷ [];
  returned = refl;
  read = λ rest. refl;
  good = λ lo hi. omega arith;
}
mode_bins-ModeCoded (suc (suc zero)) h = record {
  symbols = bypass_bins 3 2 ∷ [];
  returned = refl;
  read = λ rest. refl;
  good = λ lo hi. omega arith;
}
mode_bins-ModeCoded (suc (suc (suc k))) h =
    let other = le→ltb_false (suc (suc (suc k))) 3 (omega arith) in
    let inside : ltb (suc (suc (suc k)) - 3) 36 ≡ true =
      lt→ltb (suc (suc (suc k)) - 3) 36 (omega arith) in
    let back : suc (suc (suc k)) - 3 + 3 ≡ suc (suc (suc k)) = omega arith in
    record {
      symbols = bypass_bins (suc (suc (suc k)) - 3) 5 ∷ [];
      returned = rw (other, inside);
      read = λ rest.
          rw (other, read_bits-bits 5 (suc (suc (suc k)) - 3) rest (omega arith), back) refl;
      good = λ lo hi. omega arith;
    }

record ModesCoded (ps : List ℕ) : Type 0 where
  symbols : List Symbol
  returned : all_mode_bins ps ≡ ok symbols
  read : (rest : List ℕ) → read_modes (flags_of ps) (bins_of symbols ++ rest) ≡ some (ps, rest)
  good : (lo hi : ℕ) → Good lo hi symbols

all_mode_bins-ModesCoded : (ps : List ℕ) → AllBelow 35 ps → ModesCoded ps
unfolding all_mode_bins read_modes
all_mode_bins-ModesCoded [] h = record {
  symbols = [];
  returned = refl;
  read = λ rest. refl;
  good = λ lo hi. (tt, tt);
}
all_mode_bins-ModesCoded (p ∷ ps) h =
    let a = mode_bins-ModeCoded p h.0 in
    let b = all_mode_bins-ModesCoded ps h.1 in
    record {
      symbols = a.symbols ++ b.symbols;
      returned = rw (a.returned, b.returned);
      read = λ rest.
          rw
            (
              bins_of-append a.symbols b.symbols,
              append_assoc (bins_of a.symbols) (bins_of b.symbols) rest,
              a.read (bins_of b.symbols ++ rest),
              b.read rest,
            )
            refl;
      good = λ lo hi. Good-append lo hi a.symbols b.symbols (a.good lo hi) (b.good lo hi);
    }

mode_flags-Good : (ps : List ℕ) → Good off_intra_pred_ctx off_chroma_pred_ctx (mode_flags ps)
unfolding mode_flags
mode_flags-Good [] = (tt, tt)
mode_flags-Good (p ∷ ps) =
    let rest = mode_flags-Good ps in ((ground arith, rest.0), ((omega arith, omega arith), rest.1))

-- The reader of the modes of `n` parts: the flags of all of them, and then the modes.
pub read_intra_luma : ℕ → List ℕ → Option (List ℕ × List ℕ)
read_intra_luma n r = Reader.◌>>=◌ (read_flags n r) (λ p. read_modes p.0 p.1)

-- For modes below 35, three of them the most probable ones, EncodeIntraDirAngGrpL gets through. The reader of the
-- standard gets the modes back, whatever follows. The coder takes all bins, and the only context is that of
-- prev_intra_luma_pred_flag.
pub encode_intra_dir_ang_grp_l-read_intra_luma :
    (modes : List ℕ) (rest : List ℕ)
    → AllBelow 35 modes
    → (ss : List Symbol) × (encode_intra_dir_ang_grp_l modes ≡ ok ss)
      × (read_intra_luma (length modes) (bins_of ss ++ rest) ≡ some (modes, rest))
      × Good off_intra_pred_ctx off_chroma_pred_ctx ss
unfolding encode_intra_dir_ang_grp_l read_intra_luma
encode_intra_dir_ang_grp_l-read_intra_luma modes rest h =
    let a = all_mode_bins-ModesCoded modes h in
    (
      mode_flags modes ++ a.symbols,
      rw a.returned,
      rw
          (
            bins_of-append (mode_flags modes) a.symbols,
            append_assoc (bins_of (mode_flags modes)) (bins_of a.symbols) rest,
            read_flags-mode_flags modes (bins_of a.symbols ++ rest),
          )
          (a.read rest),
      Good-append off_intra_pred_ctx off_chroma_pred_ctx (mode_flags modes) a.symbols
          (mode_flags-Good modes) (a.good off_intra_pred_ctx off_chroma_pred_ctx),
    )

-- A mode from 35 to 38 passes the assertion of EncodeIntraDirAngGrpL, but its bins are not ones that the coder takes.
pub mode_bins_past_end :
    (p : ℕ) → 35 ≤ p → p < 39 → (ss : List Symbol) × (mode_bins p ≡ ok ss) × ¬ AllCodable ss
unfolding mode_bins
mode_bins_past_end p h lt = (
  bypass_bins (p - 3) 5 ∷ [],
  rw (le→ltb_false p 3 (omega arith), lt→ltb (p - 3) 36 (omega arith)),
  λ c. absurd (omega (arith, c.0.1)),
)

-- A greater one fails the assertion.
pub mode_bins_wrong : (p : ℕ) → 39 ≤ p → mode_bins p ≡ fault wrong_mode
unfolding mode_bins
mode_bins_wrong p h = rw (le→ltb_false p 3 (omega arith), le→ltb_false (p - 3) 36 (omega arith))

-- intra_chroma_pred_mode.
pub read_intra_chroma : List ℕ → Option (ℕ × List ℕ)
read_intra_chroma [] = none
read_intra_chroma (b ∷ r) = if b == 0 then some (4, r) else read_bits 2 r

-- For a mode of at most 4 EncodeIntraDirAngC writes bins that the coder takes and from which the mode is read back.
pub encode_intra_dir_ang_c-read_intra_chroma :
    (mode : ℕ) (rest : List ℕ)
    → mode ≤ 4
    → (read_intra_chroma (bins_of (encode_intra_dir_ang_c mode) ++ rest) ≡ some (mode, rest))
      × AllCodable (encode_intra_dir_ang_c mode)
unfolding encode_intra_dir_ang_c read_intra_chroma
encode_intra_dir_ang_c-read_intra_chroma mode rest h = elim (Bool-cases (mode == 4)) [
  | inl derived ↦ let same : mode ≡ 4 = ground arith in rw same (refl, omega arith)
  | inr other ↦
      let less : mode < 4 = ground arith in
      rw other (rw (read_bits-bits 2 mode rest less) refl, omega arith)
]

-- The scan of the standard for intra blocks: for 4 and 8 rows of luma, and for 2 and 4 of chroma, horizontal (1) for
-- the modes within 4 of the vertical mode 26, vertical (2) for those within 4 of the horizontal mode 10. Else 0.
unfoldable pub scan_of_mode : ℕ → ℕ → Bool → ℕ
scan_of_mode size mode is_luma =
    if (size == 4) || (size == (if is_luma then 8 else 2))
    then (if leb 22 mode && leb mode 30 then 1 else if leb 6 mode && leb mode 14 then 2 else 0)
    else 0

-- GetCoeffScanIdx agrees with it for every size, mode and component.
pub get_coeff_scan_idx-scan_of_mode :
    (size mode : ℕ) (is_luma : Bool)
    → get_coeff_scan_idx size mode is_luma ≡ scan_of_mode size mode is_luma
unfolding get_coeff_scan_idx scan_of_mode abs ◌-ℤ◌
get_coeff_scan_idx-scan_of_mode size mode true = ground arith
get_coeff_scan_idx-scan_of_mode size mode false = ground arith
