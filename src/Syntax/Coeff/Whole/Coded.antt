-- ===== src/Syntax/Coeff/Whole/Coded.antt =====
-- EncodeCoeffNxN of src/Cabac.cpp as a whole, for the blocks that the encoder has.
use ces.Prelude.{
  ap₂, count_list-le, length, ◌++◌, ap, ◌∙◌, ◌⊎◌, count_list, count_range, count_list-count_range,
  ℕ, ◌+◌, ◌-◌, ◌*◌, ◌/◌, ◌^◌, ◌≤◌, ◌<◌, ◌≡◌, refl, sym, Bool, true, false, List, leb, get_or,
  replicate, arith, ok, inl, inr, AllBelow-get_or, two-pow_mono, two-pow_pos,
}
use ces.Prelude.Int.{ℤ}
use ces.Macros.{log2}
use ces.Cabac.Offsets.{off_sig_cg_flag_ctx, off_last_x_ctx, off_one_flag_ctx, off_mvp_idx_ctx}
use ces.Cabac.Symbols.{Symbol}
use ces.Syntax.Bins.{Good, Good-append, Good-wider}
use ces.Syntax.Last.{code_last_signif_xy}
use ces.Syntax.Last.Groups.{block_groups}
use ces.Syntax.Last.Contexts.{code_last_signif_xy-Good}
use ces.Syntax.Modes.{get_coeff_scan_idx}
use ces.Syntax.Coeff.{
  Block, block_of, scan_table, diagonal_for_zigzag, row_of, column_of, coeff_at, is_nonzero,
  count_rows, find_last,
}
use ces.Syntax.Coeff.Significance.Good.{AllI16, ScansChroma}
use ces.Cabac.Scan.{IsScan}
use ces.Syntax.Coeff.Search.{Ends, stands_at, count_rows-count_range, find_last-Ends}
use ces.Syntax.Coeff.Whole.Scans.{
  scan_table-AllBelow, scan_idx-lt, chroma_scan, column_small, row_small, scan_table-IsScan,
}
use ces.Syntax.Coeff.Whole.{encode_groups, encode_block, encode_coeff_nxn}
use ces.Syntax.Coeff.Whole.Good.{encode_groups-Good}
use native.Mathlib.Nat.{mul-le-mul}

-- The blocks that the theorem is about.
module _ (coeffs : List ℤ) (n mode : ℕ) (is_luma : Bool) (lo : 2 ≤ n) (hi : n ≤ 5) where
  here : Block
  here = block_of coeffs (2 ^ n) mode is_luma

  log_eq : log2 (2 ^ n - 1) ≡ n
  log_eq = (block_groups n 0 lo hi (two-pow_pos n)).2

  here-ScansChroma : ScansChroma here
  unfolding here block_of
  here-ScansChroma = rw log_eq (chroma_scan n mode is_luma)

  place-lt : (k : ℕ) → get_or here.scan k 0 < 2 ^ n * 2 ^ n
  unfolding here block_of
  place-lt k = rw log_eq (
      AllBelow-get_or (2 ^ n * 2 ^ n)
        (scan_table (diagonal_for_zigzag (get_coeff_scan_idx (2 ^ n) mode is_luma)) (n - 1)) k 0
        (scan_table-AllBelow n _ lo hi (scan_idx-lt (2 ^ n) mode is_luma))
        (grind (arith, two-pow_pos n)))

  column-lt : (k : ℕ) → column_of here (get_or here.scan k 0) < 2 ^ n
  unfolding here block_of
  column-lt k = rw log_eq (
      column_small
        (get_or (scan_table (diagonal_for_zigzag (get_coeff_scan_idx (2 ^ n) mode is_luma)) (n - 1))
          k 0)
        n)

  row-lt : (k : ℕ) → row_of here (get_or here.scan k 0) < 2 ^ n
  unfolding here block_of
  row-lt k = rw log_eq (
      row_small
        (get_or (scan_table (diagonal_for_zigzag (get_coeff_scan_idx (2 ^ n) mode is_luma)) (n - 1))
          k 0)
        n (rw log_eq at (place-lt k)))

  here_size : here.size ≡ 2 ^ n
  unfolding here block_of
  here_size = refl

  size_eq : here.size ≡ 2 ^ here.log2_size
  unfolding here block_of
  size_eq = ap (λ (k : ℕ). 2 ^ k) (sym log_eq)

  here-IsScan : IsScan (2 ^ n * 2 ^ n) here.scan
  unfolding here block_of
  here-IsScan =
      let back : n - 2 + 2 ≡ n = omega arith in
      let found =
        scan_table-IsScan (n - 2) (diagonal_for_zigzag (get_coeff_scan_idx (2 ^ n) mode is_luma))
          (omega arith) (scan_idx-lt (2 ^ n) mode is_luma) in
      rw log_eq (rw back at found)

  -- The count of the coefficients that are not 0 is the same along the scan.
  count_eq : count_rows (2 ^ n) here 0 ≡ count_list here.scan (stands_at here)
  count_eq =
      count_rows-count_range (2 ^ n) here 0 size_eq
      ∙ ap₂ (λ (k from : ℕ). count_range (2 ^ n * k) from (stands_at here))
          (sym size_eq ∙ here_size) (omega arith)
      ∙ sym (
          count_list-count_range (2 ^ n * 2 ^ n) here.scan (stands_at here) here-IsScan.0
            here-IsScan.1)

  few : count_rows (2 ^ n) here 0 < 2 ^ 32
  few =
      let most = count_list-le here.scan (stands_at here) in
      let side = two-pow_mono n 5 hi in
      let area : 2 ^ n * 2 ^ n ≤ 32 * 32 = mul-le-mul side side in
      omega (arith, count_eq, most, here-IsScan.0, area)

  nonempty : 0 < length here.scan
  nonempty = grind (arith, here-IsScan.0, two-pow_pos n)

  search :
      Ends here here.scan
        (count_rows (2 ^ n) here 0)
        0
        (find_last here.scan here (count_rows (2 ^ n) here 0) 0 (replicate 64 0))
  search =
      find_last-Ends here.scan here (count_rows (2 ^ n) here 0) 0 (replicate 64 0) count_eq few
        nonempty

  -- The symbols from the flags of the groups on.
  tail : List Symbol
  tail =
      encode_groups (search.steps / 2 ^ 4 + 1) here search.steps
        (record { flags = search.found; c1 = 1; next = search.steps + 1 })

  place_last : ℕ
  place_last = get_or here.scan search.steps 0

  last : List Symbol
  last =
      code_last_signif_xy (column_of here place_last) (row_of here place_last) (2 ^ n) here.scan_idx
        is_luma

  encode_block-last : encode_block here ≡ ok (last ++ tail)
  unfolding encode_block here block_of tail last place_last
  encode_block-last =
      let ran : find_last here.scan here (count_rows (2 ^ n) here 0) 0 (replicate 64 0)
          ≡ ok (search.steps, search.found) =
        search.ran ∙ ap (λ (p : ℕ). ok (p, search.found)) (omega arith) in
      rw ran refl

  last-Good : AllI16 coeffs → Good off_sig_cg_flag_ctx off_mvp_idx_ctx (last ++ tail)
  unfolding tail last place_last here block_of
  last-Good i16 =
      Good-append off_sig_cg_flag_ctx off_mvp_idx_ctx last tail
        (Good-wider off_last_x_ctx off_sig_cg_flag_ctx off_one_flag_ctx off_mvp_idx_ctx last
          (omega arith) (omega arith)
          (code_last_signif_xy-Good n (column_of here place_last) (row_of here place_last)
            here.scan_idx is_luma lo hi (column-lt search.steps) (row-lt search.steps)))
        (encode_groups-Good (search.steps / 2 ^ 4 + 1) here search.steps _ i16 here-ScansChroma
          (omega arith))

-- EncodeCoeffNxN for a block of 4, 8, 16 or 32 rows of 16-bit coefficients, in each mode and for luma and chroma: the
-- search for the last coefficient ends within the scan, and it gets through. The position that it codes first is that
-- of a place of the scan behind which all coefficients are 0, and whose own is not 0 unless it is the first place. The coder takes
-- every bin (no call of EncodeBinsEP fails its assertion), and the contexts are those of the residual syntax, from
-- significant coefficient groups to levels greater than 2.
pub encode_coeff_nxn-Good :
    (coeffs : List ℤ) (n mode : ℕ) (is_luma : Bool)
    → 2 ≤ n
    → n ≤ 5
    → AllI16 coeffs
    → let b = block_of coeffs (2 ^ n) mode is_luma in
      (last : ℕ) × (tail : List Symbol) × let place = get_or b.scan last 0 in
        let ss =
          code_last_signif_xy (column_of b place) (row_of b place) (2 ^ n) b.scan_idx is_luma
          ++ tail in
        (encode_coeff_nxn coeffs (2 ^ n) mode is_luma ≡ ok ss)
        × (last < 2 ^ n * 2 ^ n)
        × ((is_nonzero (coeff_at b place) ≡ true) ⊎ (last ≡ 0))
        × ((m : ℕ)
            → last < m
            → m < 2 ^ n * 2 ^ n
            → is_nonzero (coeff_at b (get_or b.scan m 0)) ≡ false)
        × Good off_sig_cg_flag_ctx off_mvp_idx_ctx ss
unfolding encode_coeff_nxn here tail last place_last
encode_coeff_nxn-Good coeffs n mode is_luma lo hi i16 =
    let small : leb (2 ^ n) 32 ≡ true = ground (arith, two-pow_mono n 5 hi) in
    let found = search coeffs n mode is_luma lo hi in
    let size = (here-IsScan coeffs n mode is_luma lo hi).0 in
    (
      found.steps,
      tail coeffs n mode is_luma lo hi,
      (
        rw small (encode_block-last coeffs n mode is_luma lo hi),
        omega (arith, found.inside, size),
        elim found.hit [ inl e ↦ inl e | inr e ↦ inr e.1 ],
        λ m less inside. found.rest m less (omega (arith, size)),
        last-Good coeffs n mode is_luma lo hi i16,
      ),
    )
