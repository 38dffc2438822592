-- ===== src/Scheduler/Waiting.antt =====
-- scheduler.rs: the loop of `reschedule` over waitpid. What waitpid reports, and what is done with it
-- outside of the scheduler, is the parameter `Waits`. `none` is a failed assertion or a panic.
use rd.Prelude.{ℕ, zero, suc, ◌==◌, if◌then◌else◌, Bool, false, not, ◌||◌, Option, none, some}
use rd.Scheduler.State.{set_task}
use rd.Scheduler.Runnable.{Tracees, Round, set_tracees, has_must_run}

-- What waitpid tells of a task.
pub record Report : Type 0 where
  pub tid : ℕ
  pub is_exec : Bool
  pub is_exit : Bool

pub record Waits (W : Type 0) : Type 0 where
  -- `none` when a signal interrupts the wait
  pub waitpid : W → Option Report × W
  pub find_task_from_rec_tid : W → ℕ → Option ℕ
  pub revive_task_for_exec : W → ℕ → ℕ × W
  pub did_waitpid : W → ℕ → Report → W

-- How a round of the loop over waitpid ends; `ignored` is where it goes on.
pub data Waited (W : Type 0) : Type 0 where
  interrupted : Round W → Waited W
  ignored : Round W → Waited W
  changed : ℕ → Round W → Waited W

unfoldable pub is_other_tgid : Option ℕ → ℕ → Bool
is_other_tgid none tgid = false
is_other_tgid (some exec) tgid = not (tgid == exec)

module _ {W : Type 0} (m : Tracees W) (o : Waits W) where
  unfoldable pub clear_unstable : ℕ → Round W → Round W
  clear_unstable t r = record r {
    scheduler = set_task t (record (r.scheduler.tasks t) { unstable = false }) r.scheduler;
  }

  -- The task of a report.
  unfoldable pub task_of : Report → Round W → Option ℕ × Round W
  task_of p r = elim (o.find_task_from_rec_tid r.tracees p.tid) [
    | some t ↦ (some t, if p.is_exec then clear_unstable t r else r)
    | none ↦
        let (t, w) = o.revive_task_for_exec r.tracees p.tid in
        if p.is_exec then (some t, set_tracees w r) else (none, r)
  ]

  unfoldable pub tell_task : ℕ → Report → Round W → Round W
  tell_task t p r = set_tracees (o.did_waitpid r.tracees t p) r

  unfoldable pub take_report : Report → Option ℕ × Round W → Option (Waited W)
  take_report p (none, r) = some (ignored r)
  take_report p (some t, r) =
      if (r.scheduler.tasks t).unstable || m.may_be_blocked r.tracees t || p.is_exit
      then some (
          let r' = tell_task t p r in
          if is_other_tgid r'.scheduler.in_exec_tgid (r'.scheduler.tasks t).tgid
          then ignored r'
          else changed t r')
      else none

  unfoldable pub interrupt : Round W → Option (Waited W)
  interrupt r = elim r.scheduler.current [
    | none ↦ none
    | some c ↦ if has_must_run r.scheduler then none else some (interrupted r)
  ]

  unfoldable pub wait_round : Round W → Option (Waited W)
  wait_round r =
      let (status, w) = o.waitpid r.tracees in
      elim status [
        | none ↦ interrupt (set_tracees w r)
        | some p ↦ take_report p (task_of p (set_tracees w r))
      ]

  -- The loop over waitpid; `ignored` when it is still waiting after as many reports.
  unfoldable pub wait_for_change : ℕ → Round W → Option (Waited W)
  wait_for_change zero r = some (ignored r)
  wait_for_change (suc n) r = elim (wait_round r) [
    | none ↦ none
    | some waited ↦ elim waited [
      | interrupted r' ↦ some (interrupted r')
      | ignored r' ↦ wait_for_change n r'
      | changed t r' ↦ some (changed t r')
    ]
  ]
