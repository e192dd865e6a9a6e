-- ===== src/Worker/Alive.antt =====
-- When the thread of backend/app/services/pricing_worker.py is alive.
use ai_repo.Prelude.{
  ℕ, ◌≡◌, ◌≤◌, refl, ◌∙◌, ◌↔◌, ◌⊎◌, inl, inr, none, some, true, false, List, [], ◌∷◌, ◌++◌, ◌+◌,
  length, length-append, is_some, ltb, if◌then◌else◌, Bool-cases, arith,
}
use ai_repo.Worker.{
  PricingJob, Worker, started, Executed, returned, raised, task_done, enqueue, take_job, finish,
  retry_job, end_job, is_retry, update_job, Run, here, enqueues, takes, ends, completed, failed,
  retrying,
}

-- The jobs that wait, and the one in work
abbrev pub pending_count : Worker → ℕ
pending_count worker = length worker.queue + (if is_some worker.current then 1 else 0)

-- The queue's counter is short by one for each job tried again, or the thread has ended.
IsCounted : ℕ → Worker → Type 0
IsCounted retries worker =
    ((worker.is_alive ≡ true) × (worker.unfinished_tasks + retries ≡ pending_count worker))
    ⊎ ((worker.is_alive ≡ false) × (1 ≤ retries))

-- The same before the call of `task_done`
IsCountedBefore : ℕ → Worker → Type 0
IsCountedBefore retries worker =
    ((worker.is_alive ≡ true) × (worker.unfinished_tasks + retries ≡ pending_count worker + 1))
    ⊎ ((worker.is_alive ≡ false) × (1 ≤ retries))

task_done-IsCounted :
    (retries : ℕ) (worker : Worker)
    → IsCountedBefore retries worker
    → IsCounted retries (task_done worker)
unfolding task_done IsCounted IsCountedBefore
task_done-IsCounted retries worker before = ground arith

enqueue-IsCounted :
    (retries : ℕ) (worker : Worker) (job : PricingJob)
    → IsCounted retries worker
    → IsCounted retries (enqueue job worker)
unfolding enqueue IsCounted
enqueue-IsCounted retries worker job counted = ground (arith, length-append worker.queue (job ∷ []))

take-IsCounted :
    (retries : ℕ) (worker : Worker) (job : PricingJob) (queue : List PricingJob)
    → worker.is_alive ≡ true
    → worker.current ≡ none
    → worker.queue ≡ job ∷ queue
    → IsCounted retries worker
    → IsCounted retries (take_job job queue worker)
unfolding take_job IsCounted
take-IsCounted retries worker job queue alive idle is counted =
    let size : pending_count worker ≡ length queue + 1 = rw (is, idle) (ground arith) in
    elim counted [ inl (lives, e) ↦ inl (alive, e ∙ size) | inr dead ↦ inr dead ]

finish-IsCounted :
    (retries : ℕ) (worker : Worker) (job done : PricingJob)
    → worker.current ≡ some job
    → IsCounted retries worker
    → IsCounted retries (finish done worker)
unfolding IsCounted IsCountedBefore
finish-IsCounted retries worker job done busy counted =
    let size : pending_count worker ≡ length worker.queue + 1 = rw busy refl in
    let before : IsCountedBefore retries
        (record worker { current = none; stored = update_job done worker.stored }) =
      elim counted [
        | inl (lives, e) ↦ inl (lives, ground (arith, e ∙ size))
        | inr dead ↦ inr dead
      ] in
    task_done-IsCounted retries
      (record worker { current = none; stored = update_job done worker.stored }) before

retry-IsCounted :
    (retries : ℕ) (worker : Worker) (job again : PricingJob)
    → worker.current ≡ some job
    → IsCounted retries worker
    → IsCounted (1 + retries) (retry_job again worker)
unfolding IsCounted IsCountedBefore retry_job task_done
retry-IsCounted retries worker job again busy counted =
    let size : pending_count worker ≡ length worker.queue + 1 = rw busy refl in
    let longer = length-append worker.queue (again ∷ []) in
    let put_back : Worker = record worker {
      queue = worker.queue ++ again ∷ [];
      stored = update_job again worker.stored;
    } in
    let before : IsCountedBefore (1 + retries)
        (record put_back { current = none; stored = update_job again put_back.stored }) =
      elim counted [
        | inl (lives, e) ↦ inl (lives, ground (arith, longer, e ∙ size))
        | inr dead ↦ inr (dead.0, ground (arith, dead.1))
      ] in
    task_done-IsCounted (1 + retries)
      (record put_back { current = none; stored = update_job again put_back.stored }) before

end-IsCounted :
    (retries : ℕ) (worker : Worker) (job : PricingJob) (executed : Executed)
    → worker.current ≡ some job
    → IsCounted retries worker
    → IsCounted
        (if is_retry job executed then 1 + retries else retries)
        (end_job job executed worker)
unfolding end_job
end-IsCounted retries worker job (returned accepted rejected) busy counted =
    finish-IsCounted retries worker job
      (record job {
        status = completed;
        accepted_snapshots = accepted;
        rejected_snapshots = rejected;
      })
      busy counted
end-IsCounted retries worker job (raised error) busy counted =
    elim (Bool-cases (ltb job.attempts job.max_attempts)) [
      | inl again ↦
          rw (end_job, again)
            (retry-IsCounted retries worker job
              (record job { error = some error; status = retrying }) busy counted)
      | inr out ↦
          rw (end_job, out)
            (finish-IsCounted retries worker job
              (record job { error = some error; status = failed }) busy counted)
    ]

Run-IsCounted : {n : ℕ} {w : Worker} → Run n started w → IsCounted n w
unfolding IsCounted
Run-IsCounted here = inl (refl, refl)
Run-IsCounted (enqueues {n} {v} {w} run job new) = enqueue-IsCounted n w job (Run-IsCounted run)
Run-IsCounted (takes {n} {v} {w} run alive idle job queue is) =
    take-IsCounted n w job queue alive idle is (Run-IsCounted run)
Run-IsCounted (ends {n} {v} {w} run job busy executed) =
    end-IsCounted n w job executed busy (Run-IsCounted run)

-- With nothing waiting and nothing in work: the thread is alive exactly if no job was ever tried again.
pub Run-alive_iff :
    {n : ℕ} {w : Worker}
    → Run n started w
    → w.queue ≡ []
    → w.current ≡ none
    → (w.is_alive ≡ true) ↔ (n ≡ 0)
unfolding IsCounted
Run-alive_iff {n} {w} run drained idle =
    let nothing : pending_count w ≡ 0 = rw (drained, idle) refl in
    elim (Run-IsCounted run) [
      | inl (lives, e) ↦ (λ _. ground (arith, e ∙ nothing), λ _. lives)
      | inr (dead, tried) ↦ (λ h. cc, λ none_tried. absurd (omega (arith, tried, none_tried)))
    ]
