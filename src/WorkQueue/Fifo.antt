-- ===== src/WorkQueue/Fifo.antt =====
-- The circular buffer keeps the jobs in the order in which they were added.
use ces.Prelude.{
  get_or-set_self, get_or-set_ne, ℕ, zero, suc, ◌+◌, ◌-◌, ◌%◌, ◌≤◌, ◌<◌, ◌≡◌, ◌≢◌, ◌⊎◌, inl, inr,
  refl, sym, ap, ap₂, ◌∙◌, List, [], ◌∷◌, ◌++◌, some, none, get_or, set, length, length-set, arith,
  dec_lt, ℕ_discrete, ne→==_false, ==_true,
}
use ces.WorkQueue.{Queue, add_to_job, get_next_job}
use native.Mathlib.Nat.{mod-eq_of_lt, mod-lt, mod-add-mod, mod-eq-sub-mod}

-- `n` jobs from a place on, round the array.
abbrev pub window : List ℕ → ℕ → ℕ → ℕ → List ℕ
window items size loc zero = []
window items size loc (suc n) = get_or items loc 0 ∷ window items size ((loc + 1) % size) n

-- The jobs in the queue, the next one first.
abbrev pub contents : Queue → List ℕ
contents q = window q.items q.size q.read_loc q.curr_size

pub record IsValid (q : Queue) : Type 0 where
  pub allocated : length q.items ≡ q.size
  pub curr_le : q.curr_size ≤ q.size
  pub read_fits : q.read_loc < q.size
  pub write_eq : q.write_loc ≡ (q.read_loc + q.curr_size) % q.size

-- A remainder below twice the modulus.
mod_cases : (x m : ℕ) → x < m + m → ((x < m) × (x % m ≡ x)) ⊎ ((m ≤ x) × (x % m ≡ x - m))
mod_cases x m h = elim (dec_lt x m) [
  | yes small ↦ inl (small, mod-eq_of_lt small)
  | no large ↦ inr (omega arith, mod-eq-sub-mod (omega arith) ∙ mod-eq_of_lt (omega arith))
]

-- A place `d` ahead is `d - 1` ahead of the next place.
next_place : (loc d size : ℕ) → loc < size → (loc + suc d) % size ≡ ((loc + 1) % size + d) % size
next_place loc d size h =
    let one_less : loc + suc d ≡ loc + 1 + d = omega arith in
    rw one_less (sym (mod-add-mod (loc + 1) size d))

ahead-ne : (loc d size : ℕ) → loc < size → 0 < d → d < size → (loc + d) % size ≢ loc
ahead-ne loc d size h ahead small e = elim (mod_cases (loc + d) size (omega arith)) [
  | inl (under, same) ↦ absurd (omega (arith, same, under))
  | inr (over, less) ↦ absurd (omega (arith, less, over))
]

window-snoc :
    (items : List ℕ) (size loc n : ℕ)
    → loc < size
    → window items size loc (suc n)
      ≡ window items size loc n ++ get_or items ((loc + n) % size) 0 ∷ []
window-snoc items size loc zero h =
    let same : (loc + 0) % size ≡ loc =
      (let e : loc + 0 ≡ loc = omega arith in rw e (mod-eq_of_lt h)) in
    rw same refl
window-snoc items size loc (suc n) h =
    ap (λ (js : List ℕ). get_or items loc 0 ∷ js)
      (window-snoc items size ((loc + 1) % size) n (mod-lt (loc + 1) (omega arith))
        ∙ ap (λ (k : ℕ). window items size ((loc + 1) % size) n ++ get_or items k 0 ∷ [])
            (sym (next_place loc n size h)))

-- A write `d` places ahead leaves the jobs before it.
window-set :
    (items : List ℕ) (size loc d n v : ℕ)
    → loc < size
    → d < size
    → n ≤ d
    → window (set items ((loc + d) % size) v) size loc n ≡ window items size loc n
window-set items size loc d zero v hl hd hn = refl
window-set items size loc zero (suc n) v hl hd hn = absurd (omega arith)
window-set items size loc (suc d) (suc n) v hl hd hn =
    ap₂ (λ (j : ℕ) (js : List ℕ). j ∷ js)
      (get_or-set_ne 0 items ((loc + suc d) % size) loc v
        (ahead-ne loc (suc d) size hl (omega arith) hd))
      (ap (λ (k : ℕ). window (set items k v) size ((loc + 1) % size) n) (next_place loc d size hl)
        ∙ window-set items size ((loc + 1) % size) d n v (mod-lt (loc + 1) (omega arith))
            (omega arith) (omega arith))

-- AddToJob on a valid queue: a full queue is left as it is and the result is 1; else the result is 0, the
-- job stands behind the jobs that were there, and the queue is valid.
pub add_to_job_lem :
    (job : ℕ) (q : Queue)
    → IsValid q
    → ((q.curr_size ≡ q.size) × (add_to_job job q ≡ (q, 1)))
      ⊎ (((add_to_job job q).1 ≡ 0)
          × (contents (add_to_job job q).0 ≡ contents q ++ job ∷ [])
          × IsValid (add_to_job job q).0)
unfolding add_to_job
add_to_job_lem job q v = elim (ℕ_discrete q.curr_size q.size) [
  | yes full ↦ rw (==_true q.curr_size q.size full) (inl (full, refl))
  | no room ↦ rw (ne→==_false q.curr_size q.size room) (inr (refl, jobs room, valid room))
]
  where
    place : ℕ
    place = (q.read_loc + q.curr_size) % q.size

    inside : (q.read_loc + q.curr_size) % q.size < q.size
    inside = mod-lt (q.read_loc + q.curr_size) (omega (arith, v.read_fits))

    jobs :
        q.curr_size ≢ q.size
        → window (set q.items q.write_loc job) q.size q.read_loc (q.curr_size + 1)
          ≡ contents q ++ job ∷ []
    jobs room =
        let more : q.curr_size + 1 ≡ suc q.curr_size = omega arith in
        ap₂ (λ (k n : ℕ). window (set q.items k job) q.size q.read_loc n) v.write_eq more
        ∙ (window-snoc (set q.items place job) q.size q.read_loc q.curr_size v.read_fits
            ∙ ap₂ (λ (js : List ℕ) (j : ℕ). js ++ j ∷ [])
                (window-set q.items q.size q.read_loc q.curr_size q.curr_size job v.read_fits
                  (omega (arith, v.curr_le)) (omega arith))
                (get_or-set_self 0 q.items place job (rw v.allocated inside)))

    valid :
        q.curr_size ≢ q.size
        → IsValid (record q {
          items = set q.items q.write_loc job;
          write_loc = (q.write_loc + 1) % q.size;
          curr_size = q.curr_size + 1;
        })
    valid room =
        let more : q.read_loc + q.curr_size + 1 ≡ q.read_loc + (q.curr_size + 1) = omega arith in
        record {
          allocated = length-set q.items q.write_loc job ∙ v.allocated;
          curr_le = omega (arith, v.curr_le);
          read_fits = v.read_fits;
          write_eq =
              ap (λ (k : ℕ). (k + 1) % q.size) v.write_eq
              ∙ mod-add-mod (q.read_loc + q.curr_size) q.size 1
              ∙ ap (λ (k : ℕ). k % q.size) more;
        }

-- GetNextJob on a valid queue: it waits exactly where no job is there; else it returns the job that was
-- added first, leaves the others in their order, and the queue is valid.
pub get_next_job_lem :
    (q : Queue)
    → IsValid q
    → ((contents q ≡ []) × (get_next_job q ≡ none))
      ⊎ ((job : ℕ) × (q' : Queue) × (contents q ≡ job ∷ contents q')
          × (get_next_job q ≡ some (job, q'))
          × IsValid q')
unfolding get_next_job
get_next_job_lem q v = elim (ℕ_discrete q.curr_size 0) [
  | yes none_left ↦ rw none_left (inl (refl, refl))
  | no more ↦
      rw (ne→==_false q.curr_size 0 more)
        (inr (get_or q.items q.read_loc 0, shorter, jobs more, refl, valid more))
]
  where
    shorter : Queue
    shorter = record q { read_loc = (q.read_loc + 1) % q.size; curr_size = q.curr_size - 1 }

    jobs :
        q.curr_size ≢ 0
        → contents q
          ≡ get_or q.items q.read_loc 0
            ∷ window q.items q.size ((q.read_loc + 1) % q.size) (q.curr_size - 1)
    jobs more =
        let one_more : q.curr_size ≡ suc (q.curr_size - 1) = omega arith in
        ap (λ (n : ℕ). window q.items q.size q.read_loc n) one_more

    valid : q.curr_size ≢ 0 → IsValid shorter
    valid more =
        let one_more : q.read_loc + q.curr_size ≡ q.read_loc + suc (q.curr_size - 1) =
          omega arith in
        record {
          allocated = v.allocated;
          curr_le = omega (arith, v.curr_le);
          read_fits = mod-lt (q.read_loc + 1) (omega (arith, v.read_fits));
          write_eq =
              v.write_eq
              ∙ ap (λ (k : ℕ). k % q.size) one_more
              ∙ next_place q.read_loc (q.curr_size - 1) q.size v.read_fits;
        }
