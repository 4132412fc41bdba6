-- ===== src/Cabac/Contexts/Bounds.antt =====
-- After InitCabac every context state is below 126, whatever the array held before.
use ces.Prelude.{
  ℕ, zero, suc, ◌+◌, ◌≤◌, ◌<◌, ◌≡◌, refl, ◌∙◌, Bool, true, ◌&&◌, List, [], ◌∷◌, leb, length,
  length-set, get_or, set, arith, AllBelow,
}
use ces.Prelude.Int.{ℤ, pos, pos_part}
use ces.Macros.{clip3}
use ces.Cabac.{Engine, reset_cabac}
use ces.Cabac.Interval.{whole}
use ces.Cabac.Value.{Tracks}
use ces.Cabac.Steps.{reset_cabac-Tracks}
use ces.Cabac.Contexts.{init_state, state_of, entry_loop, entries, init_entries, init_cabac}
use ces.Cabac.Contexts.Tables.{SliceType, p_slice, b_slice, i_slice}

clip3_bounds :
    (v : ℤ)
    → (1 ≤ pos_part (clip3 (pos 1) (pos 126) v)) × (pos_part (clip3 (pos 1) (pos 126) v) ≤ 126)
unfolding clip3
clip3_bounds v = ground arith

state_of-lt : (i : ℕ) → 1 ≤ i → i ≤ 126 → state_of i < 126
unfolding state_of
state_of-lt i lo hi = ground arith

initial-lt : (qp init_val : ℕ) → state_of (init_state qp init_val) < 126
unfolding init_state
initial-lt qp init_val = state_of-lt _ (clip3_bounds _).0 (clip3_bounds _).1

-- The first `k` states are below 126.
abbrev FirstBelow : ℕ → List ℕ → Type 0
FirstBelow k contexts = (i : ℕ) → i < k → get_or contexts i 0 < 126

FirstBelow-set :
    (k : ℕ) (contexts : List ℕ) (v : ℕ)
    → FirstBelow k contexts
    → v < 126
    → FirstBelow (k + 1) (set contexts k v)
FirstBelow-set k [] v h hv i hi = omega arith
FirstBelow-set zero (c ∷ cs) v h hv zero hi = hv
FirstBelow-set zero (c ∷ cs) v h hv (suc i) hi = absurd (omega arith)
FirstBelow-set (suc k) (c ∷ cs) v h hv zero hi = h 0 (omega arith)
FirstBelow-set (suc k) (c ∷ cs) v h hv (suc i) hi =
    FirstBelow-set k cs v (λ j hj. h (suc j) (omega arith)) hv i (omega arith)

FirstBelow-entry_loop :
    (n at qp : ℕ) (contexts vals : List ℕ)
    → FirstBelow at contexts
    → n ≤ length vals
    → FirstBelow (at + n) (entry_loop n at qp contexts vals)
unfolding entry_loop
FirstBelow-entry_loop zero at qp contexts vals h hn i hi = h i (omega arith)
FirstBelow-entry_loop (suc n) at qp contexts [] h hn i hi = absurd (omega arith)
FirstBelow-entry_loop (suc n) at qp contexts (v ∷ vals) h hn i hi =
    FirstBelow-entry_loop n (at + 1) qp (set contexts at (state_of (init_state qp v))) vals
      (FirstBelow-set at contexts (state_of (init_state qp v)) h (initial-lt qp v)) (omega arith) i
      (omega arith)

length-entry_loop :
    (n at qp : ℕ) (contexts vals : List ℕ)
    → length (entry_loop n at qp contexts vals) ≡ length contexts
unfolding entry_loop
length-entry_loop zero at qp contexts vals = refl
length-entry_loop (suc n) at qp contexts [] = refl
length-entry_loop (suc n) at qp contexts (v ∷ vals) =
    length-entry_loop n (at + 1) qp (set contexts at (state_of (init_state qp v))) vals
    ∙ length-set contexts at (state_of (init_state qp v))

-- Each entry has as many values as states.
all_long : List (ℕ × List ℕ) → Bool
all_long [] = true
all_long ((n, vals) ∷ rest) = leb n (length vals) && all_long rest

total : List (ℕ × List ℕ) → ℕ
total [] = 0
total ((n, vals) ∷ rest) = n + total rest

entries_long : (t : SliceType) → (all_long (entries t) ≡ true) × (total (entries t) ≡ 182)
unfolding all_long total
entries_long p_slice = (refl, refl)
entries_long b_slice = (refl, refl)
entries_long i_slice = (refl, refl)

FirstBelow-init_entries :
    (at qp : ℕ) (es : List (ℕ × List ℕ)) (contexts : List ℕ)
    → FirstBelow at contexts
    → all_long es ≡ true
    → FirstBelow (at + total es) (init_entries at qp es contexts)
unfolding init_entries all_long total
FirstBelow-init_entries at qp [] contexts h long i hi = h i (omega arith)
FirstBelow-init_entries at qp ((n, vals) ∷ rest) contexts h long i hi =
    FirstBelow-init_entries (at + n) qp rest (entry_loop n at qp contexts vals)
      (FirstBelow-entry_loop n at qp contexts vals h (ground arith)) (ground arith) i (omega arith)

length-init_entries :
    (at qp : ℕ) (es : List (ℕ × List ℕ)) (contexts : List ℕ)
    → length (init_entries at qp es contexts) ≡ length contexts
unfolding init_entries
length-init_entries at qp [] contexts = refl
length-init_entries at qp ((n, vals) ∷ rest) contexts =
    length-init_entries (at + n) qp rest (entry_loop n at qp contexts vals)
    ∙ length-entry_loop n at qp contexts vals

AllBelow-of_first :
    (contexts : List ℕ) → FirstBelow (length contexts) contexts → AllBelow 126 contexts
AllBelow-of_first [] h = tt
AllBelow-of_first (c ∷ cs) h =
    (h 0 (omega arith), AllBelow-of_first cs (λ i hi. h (suc i) (omega arith)))

-- InitCabac sets up all of the 182 context states that are used, each below 126 whatever they were before, and
-- leaves the coder at the whole interval with nothing written, for every QP and slice type.
pub init_cabac-Tracks :
    (qp : ℕ) (t : SliceType) (e : Engine)
    → length e.contexts ≡ 182
    → Tracks 12 0 0 (init_cabac qp t e) whole × AllBelow 126 (init_cabac qp t e).contexts
unfolding init_cabac reset_cabac
init_cabac-Tracks qp t e h = (reset_cabac-Tracks (record e { contexts = filled }) below, below)
  where
    filled : List ℕ
    filled = init_entries 0 qp (entries t) e.contexts

    below : AllBelow 126 filled
    below = AllBelow-of_first filled (λ i hi.
        FirstBelow-init_entries 0 qp (entries t) e.contexts (λ j hj. absurd (omega arith))
          (entries_long t).0 i
          (omega (arith, (entries_long t).1, h, length-init_entries 0 qp (entries t) e.contexts)))
