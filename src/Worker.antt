-- ===== src/Worker.antt =====
-- The thread that works off pricing jobs: backend/app/services/pricing_worker.py.
-- backend/app/services/cognition_worker.py has the same loop. Times are left out.
pub mod Alive
pub mod Settled
use ai_repo.Prelude.{
  ℕ, zero, suc, String, ◌≡◌, Option, none, some, Bool, true, false, List, [], ◌∷◌, ◌++◌, ◌+◌, map,
  length, ltb, ◌==◌, if◌then◌else◌,
}

pub data PricingJobStatus : Type 0 where
  queued running completed succeeded failed retrying cancelled requires_approval stale :
      PricingJobStatus

pub record PricingJob : Type 0 where
  pub id : String
  pub status : PricingJobStatus
  pub kind : String
  pub error : Option String
  pub accepted_snapshots : ℕ
  pub rejected_snapshots : ℕ
  pub attempts : ℕ
  pub max_attempts : ℕ

-- The worker, the job that it works on, `unfinished_tasks` of its queue, and the jobs in the database.
-- `is_alive` says that no exception has ended the thread.
pub record Worker : Type 0 where
  pub queue : List PricingJob
  pub current : Option PricingJob
  pub unfinished_tasks : ℕ
  pub stored : List PricingJob
  pub is_alive : Bool

abbrev pub started : Worker
started = record { queue = []; current = none; unfinished_tasks = 0; stored = []; is_alive = true }

-- What `_execute` comes to: the counts of its result, or the text of an exception
pub data Executed : Type 0 where
  returned : (accepted_snapshots rejected_snapshots : ℕ) → Executed
  raised : (error : String) → Executed

-- `update_job` of the repository: nothing is added
unfoldable pub update_job : PricingJob → List PricingJob → List PricingJob
update_job job jobs = map (λ (j : PricingJob). if j.id == job.id then job else j) jobs

-- `create_job` of the repository
unfoldable pub create_job : PricingJob → List PricingJob → List PricingJob
create_job job [] = job ∷ []
create_job job (j ∷ jobs) =
    let rest = create_job job jobs in if j.id == job.id then job ∷ jobs else j ∷ rest

-- `Queue.put`
abbrev pub put : PricingJob → Worker → Worker
put job worker = record worker {
  queue = worker.queue ++ job ∷ [];
  unfinished_tasks = suc worker.unfinished_tasks;
}

-- `Queue.task_done`: it raises when it is called more often than jobs were put, and nothing catches that here
unfoldable pub task_done : Worker → Worker
task_done worker = count worker.unfinished_tasks
  where
    count : ℕ → Worker
    count zero = record worker { is_alive = false }
    count (suc n) = record worker { unfinished_tasks = n }

unfoldable pub enqueue : PricingJob → Worker → Worker
unfolding create_job
enqueue job worker = put job (record worker { stored = create_job job worker.stored })

-- The loop of `_run` up to the call of `_execute`
unfoldable pub take_job : PricingJob → List PricingJob → Worker → Worker
unfolding update_job
take_job job queue worker =
    let job' = record job { attempts = job.attempts + 1; status = running } in
    record worker { queue = queue; current = some job'; stored = update_job job' worker.stored }

-- `finally`
abbrev pub finish : PricingJob → Worker → Worker
finish job worker =
    task_done (record worker { current = none; stored = update_job job worker.stored })

-- After an exception the job is put back, and `continue` still runs `finally`.
unfoldable pub retry_job : PricingJob → Worker → Worker
unfolding update_job task_done
retry_job job worker =
    finish job (task_done (put job (record worker { stored = update_job job worker.stored })))

-- The rest of the loop
unfoldable pub end_job : PricingJob → Executed → Worker → Worker
unfolding update_job task_done retry_job
end_job job (returned accepted rejected) worker =
    finish
      (record job {
        status = completed;
        accepted_snapshots = accepted;
        rejected_snapshots = rejected;
      })
      worker
end_job job (raised error) worker =
    if ltb job.attempts job.max_attempts
    then retry_job (record job { error = some error; status = retrying }) worker
    else finish (record job { error = some error; status = failed }) worker

-- The job is tried again
abbrev pub is_retry : PricingJob → Executed → Bool
is_retry job (returned accepted rejected) = false
is_retry job (raised error) = ltb job.attempts job.max_attempts

-- Steps of the worker and of those who enqueue, in any order; the number counts the jobs tried again.
pub data Run : ℕ → Worker → Worker → Type 0 where
  here : {w : Worker} → Run 0 w w
  enqueues :
      {n : ℕ} {v w : Worker}
      → Run n v w
      → (job : PricingJob) → job.attempts ≡ 0
      → Run n v (enqueue job w)
  takes :
      {n : ℕ} {v w : Worker}
      → Run n v w
      → w.is_alive ≡ true
      → w.current ≡ none
      → (job : PricingJob) (queue : List PricingJob) → w.queue ≡ job ∷ queue
      → Run n v (take_job job queue w)
  ends :
      {n : ℕ} {v w : Worker}
      → Run n v w
      → (job : PricingJob) → w.current ≡ some job
      → (executed : Executed)
      → Run (if is_retry job executed then 1 + n else n) v (end_job job executed w)
