-- ===== src/Scheduler/Reschedule.antt =====
-- scheduler.rs: `reschedule`. `none` is a failed assertion, a panic, or a loop that is out of fuel.
use rd.Prelude.{ℕ, suc, if◌then◌else◌, Bool, true, false, List, length, Option, none, some}
use rd.Scheduler.PrioritySet.{PriorityTup}
use rd.Scheduler.State.{Scheduler, maybe_reset_priorities, clear_queue}
use rd.Scheduler.Runnable.{
  Tracees, Round, set_must_run, validate_scheduled_task, setup_new_timeslice,
}
use rd.Scheduler.Choose.{Choice, carry_on, next, choose}
use rd.Scheduler.Waiting.{Waits, Waited, interrupted, ignored, changed, wait_for_change}

pub record Rescheduled : Type 0 where
  pub interrupted_by_signal : Bool
  pub by_waitpid : Bool
  pub started_new_timeslice : Bool

-- What `reschedule` comes to: it still waits, or returns.
pub data Outcome (W : Type 0) : Type 0 where
  still_waits : Round W → Outcome W
  returns : Rescheduled → Round W → Outcome W

unfoldable pub return_if_valid : {W : Type 0} → Round W → Option (Outcome W)
return_if_valid r =
    if validate_scheduled_task r.scheduler
    then some (
        returns
          (record {
            interrupted_by_signal = false;
            by_waitpid = r.by_waitpid;
            started_new_timeslice = false;
          })
          r)
    else none

-- The end of `reschedule`, with the next task.
unfoldable pub run_task : {W : Type 0} → Tracees W → ℕ → ℕ → ℕ → Round W → Option (Outcome W)
run_task m duration draw t r =
    let s = record r.scheduler { current = some t } in
    if validate_scheduled_task s
    then elim (setup_new_timeslice duration draw (m.tick_count r.tracees) s) [
      | none ↦ none
      | some s' ↦ some (
          returns
            (record {
              interrupted_by_signal = false;
              by_waitpid = r.by_waitpid;
              started_new_timeslice = true;
            })
            (record r { scheduler = s' }))
    ]
    else none

unfoldable pub after_wait : {W : Type 0} → Tracees W → ℕ → ℕ → Waited W → Option (Outcome W)
after_wait m duration draw (ignored r) = some (still_waits r)
after_wait m duration draw (interrupted r) = some (
    returns
      (record {
        interrupted_by_signal = true;
        by_waitpid = r.by_waitpid;
        started_new_timeslice = false;
      })
      r)
after_wait m duration draw (changed t r) = run_task m duration draw t (set_must_run t r)

unfoldable pub stable_task : {W : Type 0} → Option ℕ → Round W → Option ℕ
stable_task none r = none
stable_task (some t) r = if (r.scheduler.tasks t).unstable then none else some t

module _ {W : Type 0} (m : Tracees W) (o : Waits W) (shuffle : List PriorityTup → List PriorityTup)
    (duration draw : ℕ) where
  -- No task is runnable, or an unstable one was found.
  unfoldable pub wait_and_run : ℕ → Round W → Option (Outcome W)
  wait_and_run waits r =
      elim (clear_queue (suc (length r.scheduler.task_round_robin_queue)) r.scheduler) [
        | none ↦ none
        | some s ↦ elim (wait_for_change m o waits (record r { scheduler = s })) [
          | none ↦ none
          | some waited ↦ after_wait m duration draw waited
        ]
      ]

  unfoldable pub after_choice : ℕ → Choice × Round W → Option (Outcome W)
  after_choice waits (carry_on, r) = return_if_valid r
  after_choice waits (next maybe_next, r) = elim (stable_task maybe_next r) [
    | some t ↦ run_task m duration draw t r
    | none ↦ wait_and_run waits r
  ]

  -- The current task cannot be switched away from.
  unfoldable pub stay : ℕ → Round W → Option (Outcome W)
  stay c r =
      if m.is_running r.tracees c
      then return_if_valid (record r { tracees = m.wait r.tracees c; by_waitpid = true })
      else return_if_valid r

  unfoldable pub start_round : Bool → (ℕ → Bool) → Scheduler → W → Round W
  start_round due low s w = record {
    scheduler =
        maybe_reset_priorities due low (record s { must_run_task = none; enable_poll = false });
    by_waitpid = false;
    tracees = w;
  }

  unfoldable pub reschedule :
      ℕ → List Bool → ℕ → Bool → Bool → (ℕ → Bool) → Scheduler → W → Option (Outcome W)
  reschedule fuel intervals waits prevent_switch due low s w =
      let r = start_round due low s w in
      elim (if prevent_switch then r.scheduler.current else none) [
        | some c ↦ stay c r
        | none ↦ elim (choose m shuffle fuel intervals r) [
          | none ↦ none
          | some choice ↦ after_choice waits choice
        ]
      ]
