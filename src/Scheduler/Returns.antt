-- ===== src/Scheduler/Returns.antt =====
-- scheduler.rs: `reschedule` returns with a current task that passes the assertions.
use rd.Prelude.{ℕ, suc, true, length, Option, none, some, ◌≡◌, ◌⊎◌}
use rd.Scheduler.State.{Scheduler, clear_queue}
use rd.Scheduler.Runnable.{Tracees, Round, validate_scheduled_task}
use rd.Scheduler.Ready.{Ready}
use rd.Scheduler.Waiting.{Waits}
use rd.Scheduler.Reschedule.{Rescheduled, Outcome, still_waits, returns}
use rd.Scheduler.WaitFails.{Fails}
use rd.Scheduler.WaitKept.{Kept}

-- How `reschedule` ends after its first loop, which leaves the round `r`: it returns after an
-- interrupted wait, it returns with a current task that passes the assertions, it still waits for a
-- task to change its state, or an assertion fails in the wait that begins in `r` with an empty queue.
abbrev pub Ended : {W : Type 0} → Tracees W → Waits W → ℕ → Round W → Option (Outcome W) → Type 0
Ended {W} m o waits r outcome =
    ((res : Rescheduled) × (r' : Round W) × (outcome ≡ some (returns res r'))
      × ((res.interrupted_by_signal ≡ true) ⊎ (validate_scheduled_task r'.scheduler ≡ true)))
    ⊎ (((r' : Round W) × (outcome ≡ some (still_waits r')))
        ⊎ ((outcome ≡ none)
            × (s : Scheduler) × (clear_queue (suc (length r.scheduler.task_round_robin_queue))
                  r.scheduler
                ≡ some s)
            × Kept s
            × Fails m o waits (record r { scheduler = s })))
