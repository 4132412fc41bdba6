-- ===== src/Cabac/Calls.antt =====
-- The bits that calls on the bitstream handler append, as a number.
use ces.Prelude.{ℕ, zero, suc, ◌+◌, ◌*◌, ◌^◌, ◌≤◌, ◌<◌, ◌≡◌, refl, ap, List, [], ◌∷◌, ◌++◌, arith}
use ces.Cabac.{Call, put, trailing_bits, flush_rem, outstanding}
use native.Mathlib.Nat.{pow-suc}

-- The number that was written before, and behind it the codes.
abbrev pub emit : ℕ → List Call → ℕ
emit b [] = b
emit b (put code len ∷ cs) = emit (b * 2 ^ len + code) cs
emit b (trailing_bits ∷ cs) = emit b cs
emit b (flush_rem ∷ cs) = emit b cs

-- How many bits that is.
abbrev pub emit_bits : ℕ → List Call → ℕ
emit_bits n [] = n
emit_bits n (put code len ∷ cs) = emit_bits (n + len) cs
emit_bits n (trailing_bits ∷ cs) = emit_bits n cs
emit_bits n (flush_rem ∷ cs) = emit_bits n cs

-- Each code fits its length, which the handler takes.
abbrev pub AllFit : List Call → Type 0
AllFit [] = Unit {0}
AllFit (put code len ∷ cs) = (code < 2 ^ len) × (0 < len) × (len ≤ 32) × AllFit cs
AllFit (trailing_bits ∷ cs) = AllFit cs
AllFit (flush_rem ∷ cs) = AllFit cs

pub emit-append : (b : ℕ) (cs ds : List Call) → emit b (cs ++ ds) ≡ emit (emit b cs) ds
emit-append b [] ds = refl
emit-append b (put code len ∷ cs) ds = emit-append (b * 2 ^ len + code) cs ds
emit-append b (trailing_bits ∷ cs) ds = emit-append b cs ds
emit-append b (flush_rem ∷ cs) ds = emit-append b cs ds

pub emit_bits-append :
    (n : ℕ) (cs ds : List Call) → emit_bits n (cs ++ ds) ≡ emit_bits (emit_bits n cs) ds
emit_bits-append n [] ds = refl
emit_bits-append n (put code len ∷ cs) ds = emit_bits-append (n + len) cs ds
emit_bits-append n (trailing_bits ∷ cs) ds = emit_bits-append n cs ds
emit_bits-append n (flush_rem ∷ cs) ds = emit_bits-append n cs ds

pub AllFit-append : (cs ds : List Call) → AllFit cs → AllFit ds → AllFit (cs ++ ds)
AllFit-append [] ds h k = k
AllFit-append (put code len ∷ cs) ds h k = (h.0, h.1, h.2, AllFit-append cs ds h.3 k)
AllFit-append (trailing_bits ∷ cs) ds h k = AllFit-append cs ds h k
AllFit-append (flush_rem ∷ cs) ds h k = AllFit-append cs ds h k

-- Outstanding bytes 0.
pub emit-outstanding_zero : (m b : ℕ) → emit b (outstanding (suc m) 0) ≡ b * 256 ^ m
unfolding outstanding
emit-outstanding_zero zero b = omega arith
emit-outstanding_zero (suc m) b =
    omega (arith, emit-outstanding_zero m (b * 2 ^ 8 + 0), ap (λ (t : ℕ). b * t) (pow-suc 256 m))

-- Outstanding bytes 0xFF.
pub emit-outstanding_ff : (m b : ℕ) → emit b (outstanding (suc m) 0xff) + 1 ≡ (b + 1) * 256 ^ m
unfolding outstanding
emit-outstanding_ff zero b = omega arith
emit-outstanding_ff (suc m) b =
    omega
      (arith, emit-outstanding_ff m (b * 2 ^ 8 + 255), ap (λ (t : ℕ). (b + 1) * t) (pow-suc 256 m))

pub emit_bits-outstanding : (m n byte : ℕ) → emit_bits n (outstanding (suc m) byte) ≡ n + 8 * m
unfolding outstanding
emit_bits-outstanding zero n byte = omega arith
emit_bits-outstanding (suc m) n byte = omega (arith, emit_bits-outstanding m (n + 8) byte)

pub AllFit-outstanding : (n byte : ℕ) → byte < 256 → AllFit (outstanding n byte)
unfolding outstanding
AllFit-outstanding zero byte h = tt
AllFit-outstanding (suc zero) byte h = tt
AllFit-outstanding (suc (suc n)) byte h =
    (omega arith, omega arith, omega arith, AllFit-outstanding (suc n) byte h)
