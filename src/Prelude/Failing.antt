-- ===== src/Prelude/Failing.antt =====
-- `MAKE_SURE` of inc/TypeDefs.h stops the run (`assert(0)`) when its condition fails.
use mathlib.Core.Path.{◌≡◌, refl}
use mathlib.Core.Bool.{Bool}
use ces.Prelude.Tests.{if◌then◌else◌}

-- Which assertion of the program stopped the run, or that it read behind an array (`past_scan`), which has no meaning.
pub data Fault : Type 0 where
  misplaced_start overflow bad_length negative_length not_byte_aligned wide_alignment : Fault
  bins_overflow wrong_mode tile_mismatch wide_offset bad_size bad_wakeup : Fault
  narrow_tile low_tile past_scan : Fault

pub data Outcome {ℓ} (A : Type ℓ) : Type ℓ where
  ok : A → Outcome A
  fault : Fault → Outcome A

-- MAKE_SURE
abbrev pub make_sure : Bool → Fault → Outcome (Unit {0})
make_sure condition which = if condition then ok tt else fault which

infixl 5 ◌>>=◌ ◌>>◌
abbrev pub ◌>>=◌ {ℓ κ} : {A : Type ℓ} {B : Type κ} → Outcome A → (A → Outcome B) → Outcome B
fault which >>= next = fault which
ok result >>= next = next result

-- A check and then a run.
abbrev pub ◌>>◌ {ℓ} : {B : Type ℓ} → Outcome (Unit {0}) → Outcome B → Outcome B
check >> run = check >>= λ _. run

pub ok-injective {ℓ} : {A : Type ℓ} {a b : A} → ok a ≡ ok b → a ≡ b
ok-injective h = cc

-- A run that gets through has got through its first part.
pub >>=-eq-ok {ℓ κ} :
    {A : Type ℓ} {B : Type κ} (first : Outcome A) (next : A → Outcome B) {result : B}
    → first >>= next ≡ ok result
    → (a : A) × (first ≡ ok a) × (next a ≡ ok result)
>>=-eq-ok (fault which) next e = cc
>>=-eq-ok (ok a) next e = (a, refl, e)
