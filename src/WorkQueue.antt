-- ===== src/WorkQueue.antt =====
-- WorkQueue of src/WorkQueue.cpp, a circular buffer of jobs with a count of the jobs in progress, and the
-- threads of src/ThreadHandler.cpp that take jobs from it.
-- Each operation runs under the queue's mutex, so it is one step. A job is its number m_iItemNum.
pub mod Fifo
pub mod Threads
mod Tests
use ces.Prelude.{
  ℕ, ◌+◌, ◌-◌, ◌%◌, List, Bool, true, false, ◌||◌, ◌&&◌, Option, none, some, get_or, set, ltb, ◌==◌,
  if◌then◌else◌, replicate,
}

pub record Queue : Type 0 where
  pub items : List ℕ  -- m_ppcWorkItemQueue
  pub size : ℕ
  pub curr_size : ℕ
  pub read_loc : ℕ
  pub write_loc : ℕ
  pub pending_jobs : ℕ

-- The constructor. The array is not initialised.
pub empty_queue : List ℕ → ℕ → Queue
empty_queue garbage size = record {
  items = garbage;
  size = size;
  curr_size = 0;
  read_loc = 0;
  write_loc = 0;
  pending_jobs = 0;
}

-- AddToJob returns 0 where it adds the job, and 1 where there is no space.
pub add_to_job : ℕ → Queue → Queue × ℕ
add_to_job job q = if q.curr_size == q.size then (q, 1) else (
  record q {
    items = set q.items q.write_loc job;
    write_loc = (q.write_loc + 1) % q.size;
    curr_size = q.curr_size + 1;
  },
  0,
)

-- GetNextJob: `none` while it waits for a job. Its assertion that the size is not negative cannot fail, as the size is
-- at least 1 before a job is taken.
pub get_next_job : Queue → Option (ℕ × Queue)
get_next_job q =
    if q.curr_size == 0
    then none
    else some (
      get_or q.items q.read_loc 0,
      record q { read_loc = (q.read_loc + 1) % q.size; curr_size = q.curr_size - 1 },
    )

-- GetNumJobsInQueue
pub num_jobs_in_queue : Queue → ℕ
num_jobs_in_queue q = q.curr_size

-- IncNumJobsUnderProcess
pub inc_num_jobs_under_process : Queue → Queue
inc_num_jobs_under_process q = record q { pending_jobs = q.pending_jobs + 1 }

-- JobDone, and whether it signals that the queue is empty. A thread calls it for a job that it counted in
-- `pending_jobs`, which is then at least 1.
pub job_done : Queue → Queue × Bool
job_done q =
    let q' = record q { pending_jobs = q.pending_jobs - 1 } in
    (q', (q'.pending_jobs == 0) && (q'.curr_size == 0))

-- Whether WaitQueueEmpty goes on waiting.
pub must_wait : Queue → Bool
must_wait q = ltb 0 q.pending_jobs || ltb 0 q.curr_size
