-- ===== src/Worker/Settled.antt =====
-- No job is lost: what backend/app/services/pricing_worker.py leaves in the database.
use mathlib.Core.Option.{some-injective}
use ai_repo.Prelude.{
  ℕ, ◌≡◌, ◌≢◌, ◌≤◌, ◌<◌, refl, sym, ap, ◌∙◌, ◌⊎◌, inl, inr, none, some, true, List, [], ◌∷◌, ◌++◌,
  ◌+◌, ltb, ◌==◌, eq_iff, if◌then◌else◌, Bool-cases, arith, In, In-map, In-append_left,
  In-append_right, In-append_cases,
}
use ai_repo.Worker.{
  PricingJob, Worker, started, Executed, returned, raised, task_done, enqueue, take_job, finish,
  retry_job, end_job, update_job, create_job, Run, here, enqueues, takes, ends, running, completed,
  failed, retrying,
}

-- A job that waits may be tried; one in work was tried once or as often as it may be.
IsWaiting : PricingJob → Type 0
IsWaiting job = (job.attempts ≡ 0) ⊎ (job.attempts < job.max_attempts)

IsTried : PricingJob → Type 0
IsTried job = (job.attempts ≡ 1) ⊎ ((1 ≤ job.attempts) × (job.attempts ≤ job.max_attempts))

-- The job is done: completed, or failed with its attempts used up.
pub IsSettled : PricingJob → Type 0
IsSettled job =
    IsTried job
    × ((job.status ≡ completed) ⊎ ((job.status ≡ failed) × (job.max_attempts ≤ job.attempts)))

-- Where a job in the database stands
pub IsPlaced : Worker → PricingJob → Type 0
IsPlaced worker job = In job worker.queue ⊎ ((worker.current ≡ some job) ⊎ IsSettled job)

record IsTidy (worker : Worker) : Type 0 where
  waiting : (job : PricingJob) → In job worker.queue → IsWaiting job
  tried : (job : PricingJob) → worker.current ≡ some job → IsTried job
  placed : (job : PricingJob) → In job worker.stored → IsPlaced worker job

-- After an update, an entry is the new one or an old one with another id.
update-In :
    (job : PricingJob) (jobs : List PricingJob) (j : PricingJob)
    → In j (update_job job jobs)
    → (j ≡ job) ⊎ (In j jobs × (j.id ≢ job.id))
unfolding update_job
update-In job jobs j m =
    let (old, k, e) = In-map (λ (i : PricingJob). if i.id == job.id then job else i) j jobs m in
    elim (Bool-cases (old.id == job.id)) [
      | inl same ↦ inl (rw same at e)
      | inr differ ↦
          let e' : j ≡ old = rw differ at e in
          inr (
            rw e' k,
            λ is.
                let same : (old.id == job.id) ≡ true = (eq_iff old.id job.id).1 (rw (← e') is) in
                cc,
          )
    ]

create-In :
    (job : PricingJob) (jobs : List PricingJob) (j : PricingJob)
    → In j (create_job job jobs)
    → (j ≡ job) ⊎ In j jobs
unfolding create_job
create-In job [] j (inl e) = inl e
create-In job [] j (inr none_there) = absurd none_there
create-In job (i ∷ jobs) j m = elim (Bool-cases (i.id == job.id)) [
  | inl same ↦
      let m' : In j (job ∷ jobs) = rw (create_job, same) at m in
      elim m' [ inl e ↦ inl e | inr k ↦ inr (inr k) ]
  | inr differ ↦
      let m' : In j (i ∷ create_job job jobs) = rw (create_job, differ) at m in
      elim m' [
        | inl e ↦ inr (inl e)
        | inr k ↦ elim (create-In job jobs j k) [ inl e ↦ inl e | inr there ↦ inr (inr there) ]
      ]
]

task_done-queue :
    (worker : Worker)
    → ((task_done worker).queue ≡ worker.queue)
      × ((task_done worker).current ≡ worker.current)
      × ((task_done worker).stored ≡ worker.stored)
unfolding task_done
task_done-queue worker = ground arith

module _ (worker : Worker) (tidy : IsTidy worker) where
  enqueue-IsTidy : (job : PricingJob) → job.attempts ≡ 0 → IsTidy (enqueue job worker)
  unfolding enqueue IsWaiting IsPlaced
  enqueue-IsTidy job new = record {
    waiting = λ j m. elim (In-append_cases j worker.queue (job ∷ []) m) [
      | inl k ↦ tidy.waiting j k
      | inr k ↦ elim k [ inl e ↦ inl (rw e new) | inr nowhere ↦ absurd nowhere ]
    ];
    tried = tidy.tried;
    placed = λ j m. elim (create-In job worker.stored j m) [
      | inl e ↦ inl (In-append_right j worker.queue (job ∷ []) (inl e))
      | inr k ↦ elim (tidy.placed j k) [
        | inl q ↦ inl (In-append_left j worker.queue (job ∷ []) q)
        | inr rest ↦ inr rest
      ]
    ];
  }

  take-IsTidy :
      (job : PricingJob) (queue : List PricingJob)
      → worker.current ≡ none
      → worker.queue ≡ job ∷ queue
      → IsTidy (take_job job queue worker)
  unfolding take_job IsWaiting IsTried IsPlaced
  take-IsTidy job queue idle is =
      let job' : PricingJob = record job { attempts = job.attempts + 1; status = running } in
      record {
        waiting = λ j m. tidy.waiting j (rw is (inr m));
        tried = λ j e.
            let same : job' ≡ j = some-injective job' j e in
            rw (← same) (elim (tidy.waiting job (rw is (inl refl))) [
              | inl new ↦ inl (ground arith)
              | inr less ↦ inr (ground arith, ground arith)
            ]);
        placed = λ j m. elim (update-In job' worker.stored j m) [
          | inl e ↦ inr (inl (ap some (sym e)))
          | inr (k, differ) ↦ elim (tidy.placed j k) [
            | inl q ↦
                let q' : In j (job ∷ queue) = rw is at q in
                elim q' [
                  | inl e ↦ absurd (differ (ap (λ (i : PricingJob). i.id) e))
                  | inr n ↦ inl n
                ]
            | inr (inl cur) ↦ let h : none ≡ some j = sym idle ∙ cur in cc
            | inr (inr settled) ↦ inr (inr settled)
          ]
        ];
      }

  -- The job leaves the worker.
  finish-IsTidy :
      (job done : PricingJob)
      → worker.current ≡ some job
      → done.id ≡ job.id
      → (In done worker.queue ⊎ IsSettled done)
      → IsTidy (finish done worker)
  unfolding IsPlaced
  finish-IsTidy job done busy same there =
      let before : Worker = record worker {
        current = none;
        stored = update_job done worker.stored;
      } in
      let (q, c, s) = task_done-queue before in
      record {
        waiting = λ j m. tidy.waiting j (rw q at m);
        tried = λ j e. let h : none ≡ some j = sym c ∙ e in cc;
        placed = λ j m. elim (update-In done worker.stored j (rw s at m)) [
          | inl e ↦ elim there [
            | inl k ↦ inl (rw (q, e) k)
            | inr settled ↦ inr (inr (rw e settled))
          ]
          | inr (k, differ) ↦ elim (tidy.placed j k) [
            | inl there_ ↦ inl (rw q there_)
            | inr (inl cur) ↦
                let is : job ≡ j = some-injective job j (sym busy ∙ cur) in
                absurd (differ (sym (ap (λ (i : PricingJob). i.id) is) ∙ sym same))
            | inr (inr settled) ↦ inr (inr settled)
          ]
        ];
      }

module _ (worker : Worker) (tidy : IsTidy worker) (job : PricingJob)
    (busy : worker.current ≡ some job) where
  retry-IsTidy :
      (again : PricingJob) → again.id ≡ job.id → IsWaiting again → IsTidy (retry_job again worker)
  unfolding retry_job task_done IsPlaced
  retry-IsTidy again same waits =
      let put_back : Worker = record worker {
        queue = worker.queue ++ again ∷ [];
        stored = update_job again worker.stored;
      } in
      let tidy' : IsTidy put_back = record {
        waiting = λ j m. elim (In-append_cases j worker.queue (again ∷ []) m) [
          | inl k ↦ tidy.waiting j k
          | inr k ↦ elim k [ inl e ↦ rw e waits | inr nowhere ↦ absurd nowhere ]
        ];
        tried = tidy.tried;
        placed = λ j m. elim (update-In again worker.stored j m) [
          | inl e ↦ inl (In-append_right j worker.queue (again ∷ []) (inl e))
          | inr (k, differ) ↦ elim (tidy.placed j k) [
            | inl q ↦ inl (In-append_left j worker.queue (again ∷ []) q)
            | inr rest ↦ inr rest
          ]
        ];
      } in
      finish-IsTidy put_back tidy' job again busy same
        (inl (In-append_right again worker.queue (again ∷ []) (inl refl)))

  end-IsTidy : (executed : Executed) → IsTidy (end_job job executed worker)
  unfolding end_job IsSettled IsTried IsWaiting
  end-IsTidy (returned accepted rejected) =
      finish-IsTidy worker tidy job
        (record job {
          status = completed;
          accepted_snapshots = accepted;
          rejected_snapshots = rejected;
        })
        busy refl (inr (tidy.tried job busy, inl refl))
  end-IsTidy (raised error) = elim (Bool-cases (ltb job.attempts job.max_attempts)) [
    | inl more ↦
        rw (end_job, more)
          (retry-IsTidy (record job { error = some error; status = retrying }) refl
            (inr (ground arith)))
    | inr out ↦
        rw (end_job, out)
          (finish-IsTidy worker tidy job (record job { error = some error; status = failed }) busy
            refl (inr (tidy.tried job busy, inr (refl, ground arith))))
  ]

Run-IsTidy : {n : ℕ} {w : Worker} → Run n started w → IsTidy w
Run-IsTidy here = record {
  waiting = λ j m. absurd m;
  tried = λ j e. let h : none ≡ some j = e in cc;
  placed = λ j m. absurd m;
}
Run-IsTidy (enqueues {n} {v} {w} run job new) = enqueue-IsTidy w (Run-IsTidy run) job new
Run-IsTidy (takes {n} {v} {w} run alive idle job queue is) =
    take-IsTidy w (Run-IsTidy run) job queue idle is
Run-IsTidy (ends {n} {v} {w} run job busy executed) =
    end-IsTidy w (Run-IsTidy run) job busy executed

-- In every run from the start with jobs that are new: each job in the database waits in the queue, or is in
-- work, or is completed or failed; one that is completed or failed was tried at least once and, from the second
-- time on, no more often than allowed, and one that failed as often as allowed.
pub Run-IsPlaced :
    {n : ℕ} {w : Worker} → Run n started w → (job : PricingJob) → In job w.stored → IsPlaced w job
Run-IsPlaced run = (Run-IsTidy run).placed
