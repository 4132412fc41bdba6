-- ===== src/WorkQueue/Threads.antt =====
-- The threads of src/ThreadHandler.cpp on the queue, as steps. The loop of RunThread has three calls on the
-- queue, GetNextJob, IncNumJobsUnderProcess and JobDone, each under the mutex.
use ces.Prelude.{
  ℕ, zero, suc, ◌+◌, ◌-◌, ◌≡◌, refl, ap, ◌∙◌, false, List, [], ◌∷◌, some, get_or, ◌%◌, set,
  get_elem?, arith,
}
use ces.WorkQueue.{Queue, add_to_job, get_next_job, inc_num_jobs_under_process, job_done, must_wait}

-- Where a thread stands: before GetNextJob, before IncNumJobsUnderProcess, before JobDone.
pub data Thread : Type 0 where
  idle : Thread
  taken : (job : ℕ) → Thread
  running : (job : ℕ) → Thread

pub record Pool : Type 0 where
  pub queue : Queue
  pub threads : List Thread

pub data Step : Pool → Pool → Type 0 where
  add : (s : Pool) (job : ℕ) → Step s (record s { queue = (add_to_job job s.queue).0 })
  take :
      (s : Pool) (k job : ℕ) (q : Queue)
      → get_elem? s.threads k ≡ some idle
      → get_next_job s.queue ≡ some (job, q)
      → Step s (record { queue = q; threads = set s.threads k (taken job) })
  start :
      (s : Pool) (k job : ℕ)
      → get_elem? s.threads k ≡ some (taken job)
      → Step s (record {
        queue = inc_num_jobs_under_process s.queue;
        threads = set s.threads k (running job);
      })
  finish :
      (s : Pool) (k job : ℕ)
      → get_elem? s.threads k ≡ some (running job)
      → Step s (record { queue = (job_done s.queue).0; threads = set s.threads k idle })

pub data Steps : Pool → Pool → Type 0 where
  stay : {s : Pool} → Steps s s
  then_ : {s t u : Pool} → Steps s t → Step t u → Steps s u

abbrev weight : Thread → ℕ
weight idle = 0
weight (taken job) = 0
weight (running job) = 1

-- How many threads run a job.
abbrev pub count_running : List Thread → ℕ
count_running [] = 0
count_running (t ∷ ts) = weight t + count_running ts

count_running-set :
    (ts : List Thread) (k : ℕ) (old new : Thread)
    → get_elem? ts k ≡ some old
    → count_running (set ts k new) + weight old ≡ count_running ts + weight new
count_running-set [] k old new h = cc
count_running-set (t ∷ ts) zero old new h = let same : t ≡ old = cc in omega (arith, ap weight same)
count_running-set (t ∷ ts) (suc k) old new h = omega (arith, count_running-set ts k old new h)

-- The jobs in progress are counted right.
abbrev pub Counted : Pool → Type 0
Counted s = s.queue.pending_jobs ≡ count_running s.threads

add_to_job-pending : (job : ℕ) (q : Queue) → (add_to_job job q).0.pending_jobs ≡ q.pending_jobs
unfolding add_to_job
add_to_job-pending job q = ground arith

get_next_job-pending :
    (q : Queue) {job : ℕ} {q' : Queue}
    → get_next_job q ≡ some (job, q')
    → q'.pending_jobs ≡ q.pending_jobs
unfolding get_next_job
get_next_job-pending q h = ground arith

Step-Counted : {s t : Pool} → Step s t → Counted s → Counted t
unfolding inc_num_jobs_under_process job_done
Step-Counted (add s job) c = add_to_job-pending job s.queue ∙ c
Step-Counted (take s k job q here got) c = omega (
  arith,
  c,
  get_next_job-pending s.queue got,
  count_running-set s.threads k idle (taken job) here,
)
Step-Counted (start s k job here) c =
    omega (arith, c, count_running-set s.threads k (taken job) (running job) here)
Step-Counted (finish s k job here) c =
    omega (arith, c, count_running-set s.threads k (running job) idle here)

Steps-Counted : {s t : Pool} → Steps s t → Counted s → Counted t
Steps-Counted stay c = c
Steps-Counted (then_ ss step) c = Step-Counted step (Steps-Counted ss c)

-- In every pool that steps reach from one with a right count, WaitQueueEmpty returns only where the queue has
-- no job and no thread stands between IncNumJobsUnderProcess and JobDone.
pub must_wait_lem :
    {s t : Pool}
    → Counted s
    → Steps s t
    → must_wait t.queue ≡ false
    → (t.queue.curr_size ≡ 0) × (count_running t.threads ≡ 0)
unfolding must_wait
must_wait_lem {s} {t} c steps done =
    let counted : Counted t = Steps-Counted steps c in ground (arith, counted)

-- Where a queue has one job and none is in progress, WaitQueueEmpty returns after a thread has taken that job
-- and before it has counted it, so before the job has run.
pub must_wait_race :
    (s : Pool) (k : ℕ)
    → get_elem? s.threads k ≡ some idle
    → s.queue.curr_size ≡ 1
    → s.queue.pending_jobs ≡ 0
    → (t : Pool) × (job : ℕ) × Step s t
      × (t.threads ≡ set s.threads k (taken job))
      × (must_wait t.queue ≡ false)
unfolding must_wait get_next_job
must_wait_race s k here one none_running =
    let got : get_next_job s.queue ≡ some (get_or s.queue.items s.queue.read_loc 0, after) =
      rw one refl in
    (
      _,
      _,
      take s k (get_or s.queue.items s.queue.read_loc 0) after here got,
      refl,
      rw (one, none_running) refl,
    )
  where
    after : Queue
    after = record s.queue {
      read_loc = (s.queue.read_loc + 1) % s.queue.size;
      curr_size = s.queue.curr_size - 1;
    }
