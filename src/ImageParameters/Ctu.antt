-- ===== src/ImageParameters/Ctu.antt =====
-- The numbers of the CTUs and the samples that they cover.
use ces.Prelude.{
  sym, ap, ap₂, place_unique, ℕ, ◌+◌, ◌*◌, ◌/◌, ◌%◌, ◌^◌, ◌≤◌, ◌<◌, ◌≡◌, refl, ◌∙◌, true, ◌==◌,
  ==_iff, arith, dec_lt, ok, all_below, all_below_sound,
}
use ces.Macros.{log2}
use ces.ImageParameters.{
  ctu_width, get_ctu_start_pel, get_ctu_num, size_loop, get_log2_from_cu_size,
}
use native.Mathlib.Nat.{div-add-mod', mod-lt, mul-add-mod_self_right, mod-eq_of_lt, mul-le-mul}

-- The sample at which a CTU starts has the CTU's number, and every sample of the CTU has it, for a frame whose sides
-- and whose number of CTUs fit 32 bits.
pub get_ctu_num-get_ctu_start_pel :
    (width height n dx dy : ℕ)
    → 0 < width
    → n < width * height
    → width * ctu_width < 2 ^ 32
    → height * ctu_width < 2 ^ 32
    → width * height < 2 ^ 32
    → dx < ctu_width
    → dy < ctu_width
    → get_ctu_num width ((get_ctu_start_pel width n).0 + dx) ((get_ctu_start_pel width n).1 + dy)
      ≡ n
unfolding get_ctu_num get_ctu_start_pel
get_ctu_num-get_ctu_start_pel width height n dx dy some inside hw hh hs hx hy =
    rw (x_eq, y_eq) (mod-eq_of_lt (omega (arith, parts)) ∙ parts)
  where
    parts : n / width * width + n % width ≡ n
    parts = div-add-mod' n width

    row-lt : n / width < height
    row-lt = elim (dec_lt (n / width) height) [
      | yes fine ↦ fine
      | no over ↦
          let more : height * width ≤ n / width * width = mul-le-mul (omega arith) (omega arith) in
          absurd (omega (arith, parts))
    ]

    x_eq : (n % width * 32 % 2 ^ 32 + dx) / 32 ≡ n % width
    x_eq = omega (arith, mod-lt n some)

    y_eq : (n / width * 32 % 2 ^ 32 + dy) / 32 ≡ n / width
    y_eq = omega (arith, row-lt)

-- The CTU in column `x` and row `y`.
pub get_ctu_start_pel_lem :
    (w h x y : ℕ)
    → x < w
    → y < h
    → w * ctu_width < 2 ^ 32
    → h * ctu_width < 2 ^ 32
    → get_ctu_start_pel w (y * w + x) ≡ (x * ctu_width, y * ctu_width)
unfolding get_ctu_start_pel
get_ctu_start_pel_lem w h x y hx hy hw hh =
    rw (column, row)
      (ap₂ (λ (a b : ℕ). (a, b)) (mod-eq_of_lt (omega arith)) (mod-eq_of_lt (omega arith)))
  where
    column : (y * w + x) % w ≡ x
    column = mul-add-mod_self_right y w x ∙ mod-eq_of_lt hx

    split : (y * w + x) / w * w + x ≡ y * w + x
    split = ap (λ (k : ℕ). (y * w + x) / w * w + k) (sym column) ∙ div-add-mod' (y * w + x) w

    row : (y * w + x) / w ≡ y
    row = (place_unique w x ((y * w + x) / w) x y hx hx split).1

log2_table : all_below 33 (λ size. size_loop 6 size 0 == log2 size) ≡ true
unfolding all_below size_loop log2
log2_table = refl

-- GetLog2FromCUSize returns LOG2 of the size for every size from 4 to 32, so one more than its logarithm.
pub get_log2_from_cu_size-log2 :
    (size : ℕ) → 4 ≤ size → size ≤ 32 → get_log2_from_cu_size size ≡ ok (log2 size)
unfolding get_log2_from_cu_size
get_log2_from_cu_size-log2 size lo hi = rw same (ground arith)
  where
    same : size_loop 6 size 0 ≡ log2 size
    same =
        (==_iff (size_loop 6 size 0) (log2 size)).0 (
          all_below_sound 33 (λ size. size_loop 6 size 0 == log2 size) size log2_table
            (omega arith))
