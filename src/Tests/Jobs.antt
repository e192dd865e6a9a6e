-- ===== src/Tests/Jobs.antt =====
-- Runs of the worker of backend/app/services/pricing_worker.py.
use ai_repo.Prelude.{ℕ, ◌≡◌, ◌↔◌, refl, inl, In, none, some, true, false, []}
use ai_repo.Worker.{
  PricingJob, Worker, started, queued, running, retrying, returned, raised, enqueue, create_job,
  update_job, task_done, take_job, retry_job, end_job, Run, here, enqueues, takes, ends,
}
use ai_repo.Worker.Alive.{Run-alive_iff}
use ai_repo.Worker.Settled.{IsPlaced, Run-IsPlaced}

abbrev job : PricingJob
job = record {
  id = "job-1";
  status = queued;
  kind = "refresh";
  error = none;
  accepted_snapshots = 0;
  rejected_snapshots = 0;
  attempts = 0;
  max_attempts = 3;
}

abbrev waiting : Worker
waiting = enqueue job started

abbrev in_work : PricingJob
in_work = record job { attempts = 1; status = running }

abbrev busy : Worker
busy = take_job job [] waiting

abbrev again : Worker
again = end_job in_work (raised "timeout") busy

abbrev retried : PricingJob
retried = record job { attempts = 1; status = retrying; error = some "timeout" }

abbrev in_work_again : PricingJob
in_work_again = record retried { attempts = 2; status = running }

abbrev busy_again : Worker
busy_again = take_job retried [] again

abbrev done : Worker
done = end_job in_work_again (returned 4 1) busy_again

-- The first attempt fails and the second succeeds: the job is completed.
run : Run 1 started done
unfolding enqueue create_job update_job take_job end_job retry_job task_done
run =
    let one = takes (enqueues here job refl) refl refl job [] refl in
    let two = takes (ends one in_work refl (raised "timeout")) refl refl retried [] refl in
    ends two in_work_again refl (returned 4 1)

done_runs : done.is_alive ≡ false
unfolding enqueue create_job update_job take_job end_job retry_job task_done
done_runs = refl

done-drained : (done.queue ≡ []) × (done.current ≡ none)
unfolding enqueue create_job update_job take_job end_job retry_job task_done
done-drained = (refl, refl)

Run-alive_iff_example : (done.is_alive ≡ true) ↔ ◌≡◌ {A = ℕ} 1 0
Run-alive_iff_example = Run-alive_iff run done-drained.0 done-drained.1

again-In : In retried again.stored
unfolding enqueue create_job update_job take_job end_job retry_job task_done
again-In = inl refl

tried_once-Run : Run 1 started again
unfolding enqueue create_job update_job take_job end_job retry_job task_done
tried_once-Run =
    ends (takes (enqueues here job refl) refl refl job [] refl) in_work refl (raised "timeout")

Run-IsPlaced_example : IsPlaced again retried
Run-IsPlaced_example = Run-IsPlaced tried_once-Run retried again-In
