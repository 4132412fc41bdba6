-- ===== src/WorkQueue/Tests.antt =====
-- Runs of the queue, and the theorems at concrete inputs.
use ces.Prelude.{ℕ, ◌≡◌, refl, [], ◌∷◌, false, some, none, ◌⊎◌, arith, set}
use ces.WorkQueue.{Queue, add_to_job, get_next_job, must_wait}
use ces.WorkQueue.Fifo.{IsValid, contents, add_to_job_lem, get_next_job_lem}
use ces.WorkQueue.Threads.{
  idle, taken, Pool, Step, take, Steps, stay, then_, count_running, must_wait_lem, must_wait_race,
}

-- A job 5 at the end of an array of three, with room behind it round the array.
abbrev wrapped : Queue
wrapped = record {
  items = 9 ∷ 9 ∷ 5 ∷ [];
  size = 3;
  curr_size = 1;
  read_loc = 2;
  write_loc = 0;
  pending_jobs = 0;
}

wrapped-IsValid : IsValid wrapped
wrapped-IsValid = record {
  allocated = refl;
  curr_le = omega arith;
  read_fits = omega arith;
  write_eq = refl;
}

add_run : contents (add_to_job 6 wrapped).0 ≡ 5 ∷ 6 ∷ []
unfolding add_to_job
add_run = refl

add_to_job_lem_example :
    ((wrapped.curr_size ≡ wrapped.size) × (add_to_job 6 wrapped ≡ (wrapped, 1)))
    ⊎ (((add_to_job 6 wrapped).1 ≡ 0)
        × (contents (add_to_job 6 wrapped).0 ≡ 5 ∷ 6 ∷ [])
        × IsValid (add_to_job 6 wrapped).0)
add_to_job_lem_example = add_to_job_lem 6 wrapped wrapped-IsValid

get_next_job_lem_example :
    ((contents wrapped ≡ []) × (get_next_job wrapped ≡ none))
    ⊎ ((job : ℕ) × (q' : Queue) × (contents wrapped ≡ job ∷ contents q')
        × (get_next_job wrapped ≡ some (job, q'))
        × IsValid q')
get_next_job_lem_example = get_next_job_lem wrapped wrapped-IsValid

abbrev two_threads : Pool
two_threads = record { queue = wrapped; threads = idle ∷ idle ∷ [] }

must_wait_race_example :
    (t : Pool) × (job : ℕ) × Step two_threads t
    × (t.threads ≡ set (idle ∷ idle ∷ []) 1 (taken job))
    × (must_wait t.queue ≡ false)
must_wait_race_example = must_wait_race two_threads 1 refl refl refl

abbrev nothing_left : Pool
nothing_left = record {
  queue = record wrapped { curr_size = 0; read_loc = 0 };
  threads = taken 5 ∷ idle ∷ [];
}

one_taken : Steps (record { queue = wrapped; threads = idle ∷ idle ∷ [] }) nothing_left
unfolding get_next_job
one_taken =
    then_ stay (take two_threads 0 5 (record wrapped { curr_size = 0; read_loc = 0 }) refl refl)

must_wait_lem_example :
    (nothing_left.queue.curr_size ≡ 0) × (count_running nothing_left.threads ≡ 0)
unfolding must_wait
must_wait_lem_example = must_wait_lem {s = two_threads} refl one_taken refl
