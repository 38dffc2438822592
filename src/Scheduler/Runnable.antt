-- ===== src/Scheduler/Runnable.antt =====
-- scheduler.rs: whether a task can run, and the search for the next one. What the scheduler asks of a
-- tracee (through RecordTask, by ptrace and waitpid) is the parameter `Tracees`: W is the state of
-- the tracees, which waiting and resuming change. `none` is a failed assertion or an overflow.
use rd.Prelude.{
  ℕ, zero, suc, ◌+◌, ltb, ◌==◌, if◌then◌else◌, Bool, true, false, not, ◌&&◌, List, [], ◌∷◌, ◌++◌,
  length, Option, none, some, gt, min, ◌%◌, ◌^◌,
}
use rd.Scheduler.PrioritySet.{PriorityTup, cmp, contains}
use rd.Scheduler.State.{Scheduler, tup, front, zero_priority}

pub record Tracees (W : Type 0) : Type 0 where
  pub may_be_blocked : W → ℕ → Bool
  -- emulated_stop_type is not NotStopped
  pub is_stopped : W → ℕ → Bool
  -- a SIGCONT is pending
  pub is_signal_pending : W → ℕ → Bool
  -- emulate_sigcont, then resume_execution
  pub resume_execution : W → ℕ → W
  pub try_wait : W → ℕ → Bool × W
  pub is_dying : W → ℕ → Bool
  pub is_running : W → ℕ → Bool
  -- the task is in a system call that treat_syscall_as_nonblocking accepts
  pub in_nonblocking_syscall : W → ℕ → Bool
  pub wait : W → ℕ → W
  -- which waiting changes, by did_waitpid
  pub tick_count : W → ℕ → ℕ

-- What a search reads and writes: the scheduler, `by_waitpid`, and the tracees.
pub record Round (W : Type 0) : Type 0 where
  pub scheduler : Scheduler
  pub by_waitpid : Bool
  pub tracees : W

unfoldable pub set_must_run : {W : Type 0} → ℕ → Round W → Round W
set_must_run t r = record r {
  by_waitpid = true;
  scheduler = record r.scheduler { must_run_task = some t };
}

unfoldable pub set_enable_poll : {W : Type 0} → Round W → Round W
set_enable_poll r = record r { scheduler = record r.scheduler { enable_poll = true } }

unfoldable pub set_tracees : {W : Type 0} → W → Round W → Round W
set_tracees w r = record r { tracees = w }

unfoldable pub treat_as_high_priority : ℕ → Scheduler → Bool
treat_as_high_priority t s =
    ltb 1 (length s.task_priority_set) && ((s.tasks t).priority == zero_priority)

unfoldable pub has_must_run : Scheduler → Bool
has_must_run s = elim s.must_run_task [ none ↦ false | some t ↦ true ]

module _ {W : Type 0} (m : Tracees W) where
  -- The part of `is_task_runnable` for a task that is stopped by ptrace or a signal.
  unfoldable pub stopped_runnable : ℕ → Round W → Bool × Round W
  stopped_runnable t r =
      if m.is_signal_pending r.tracees t
      then (true, set_must_run t (set_tracees (m.resume_execution r.tracees t) r))
      else (let (_, w) = m.try_wait r.tracees t in
          (m.is_dying w t, set_enable_poll (set_tracees w r)))

  -- The part for a task that waits for a change of its state.
  unfoldable pub waiting_runnable : ℕ → Round W → Bool × Round W
  waiting_runnable t r =
      if not (m.is_running r.tracees t)
      then (true, set_must_run t r)
      else if m.in_nonblocking_syscall r.tracees t
      then (true, set_must_run t (set_tracees (m.wait r.tracees t) r))
      else (let (ready, w) = m.try_wait r.tracees t in
          if ready then (true, set_must_run t (set_tracees w r)) else (false, set_tracees w r))

  unfoldable pub is_task_runnable : ℕ → Round W → Option (Bool × Round W)
  is_task_runnable t r =
      if has_must_run r.scheduler
      then none
      else some (
          if (r.scheduler.tasks t).unstable
          then (true, r)
          else if not (m.may_be_blocked r.tracees t)
          then (true, r)
          else if m.is_stopped r.tracees t
          then stopped_runnable t r
          else waiting_runnable t r)

  -- The loop of `find_next_runnable_task` over tasks of one priority.
  unfoldable pub first_runnable : List PriorityTup → Round W → Option (Option ℕ × Round W)
  first_runnable [] r = some (none, r)
  first_runnable (p ∷ ps) r = elim (is_task_runnable p.task r) [
    | none ↦ none
    | some answer ↦ if answer.0 then some (some p.task, answer.1) else first_runnable ps answer.1
  ]

-- p is not greater than q.
unfoldable pub at_most : PriorityTup → PriorityTup → Bool
at_most p q = elim (cmp p q) [ gt ↦ false | _ ↦ true ]

unfoldable pub filter : (PriorityTup → Bool) → List PriorityTup → List PriorityTup
filter f [] = []
filter f (p ∷ set) = if f p then p ∷ filter f set else filter f set

-- PriorityTup(priority, 0, Weak::new())
unfoldable pub first_of : ℕ → PriorityTup
first_of priority = record { priority = priority; stable_serial = 0; task = 0 }

-- BTreeSet::range, from an element and between two
unfoldable pub range_from : PriorityTup → List PriorityTup → List PriorityTup
range_from start = filter (at_most start)

unfoldable pub range_between : PriorityTup → PriorityTup → List PriorityTup → List PriorityTup
range_between start end = filter (λ q. at_most start q && not (at_most end q))

-- The tasks of a range that follow the tuple, then the others.
unfoldable pub rotate : PriorityTup → List PriorityTup → List PriorityTup
rotate p range = filter (λ q. not (at_most q p)) range ++ filter (λ q. at_most q p) range

-- The tasks of one priority in the order in which they are asked; `shuffle` is the random one.
unfoldable pub ask_order :
    (List PriorityTup → List PriorityTup) → Option ℕ → ℕ → Scheduler → List PriorityTup
ask_order shuffle maybe_t priority s =
    let range = range_between (first_of priority) (first_of (suc priority)) s.task_priority_set in
    if s.enable_chaos then shuffle range else elim maybe_t [
      | none ↦ range
      | some t ↦
          if ((s.tasks t).priority == priority) && contains (tup s t) s.task_priority_set
          then rotate (tup s t) range
          else range
    ]

-- i32::MAX, shifted.
abbrev pub max_priority : ℕ
max_priority = 4294967295

module _ {W : Type 0} (m : Tracees W) (shuffle : List PriorityTup → List PriorityTup) where
  -- The outer loop, over `range`. With the priority i32::MAX the end of the range overflows.
  unfoldable pub find_from :
      ℕ → Option ℕ → ℕ → List PriorityTup → Round W → Option (Option ℕ × Round W)
  find_from zero maybe_t threshold range r = none
  find_from (suc n) maybe_t threshold [] r = some (none, r)
  find_from (suc n) maybe_t threshold (p ∷ range) r =
      if ltb threshold p.priority
      then some (none, r)
      else if p.priority == max_priority
      then none
      else elim (first_runnable m (ask_order shuffle maybe_t p.priority r.scheduler) r) [
        | none ↦ none
        | some found ↦ elim found.0 [
          | some t ↦ some (some t, found.1)
          | none ↦
              find_from n maybe_t threshold
                (range_from (first_of (suc p.priority)) r.scheduler.task_priority_set) found.1
        ]
      ]

  unfoldable pub find_next_runnable_task : Option ℕ → ℕ → Round W → Option (Option ℕ × Round W)
  find_next_runnable_task maybe_t threshold r =
      find_from (suc (length r.scheduler.task_priority_set)) maybe_t threshold
        r.scheduler.task_priority_set (record r { by_waitpid = false })

unfoldable pub agrees : Option ℕ → ℕ → Bool
agrees none c = true
agrees (some t) c = t == c

-- validate_scheduled_task, its assertions
unfoldable pub validate_scheduled_task : Scheduler → Bool
validate_scheduled_task s = elim s.current [
  | none ↦ false
  | some c ↦ agrees s.must_run_task c && agrees (front s.task_round_robin_queue) c
]

-- `duration` is the length that was drawn for a timeslice of chaos mode, `draw` the random number;
-- `tick_count` the ticks of each task; `none` when there is no current task, or for a remainder by 0.
unfoldable pub start_timeslice : ℕ → ℕ → (ℕ → ℕ) → Option ℕ → Scheduler → Option Scheduler
start_timeslice duration draw tick_count none s = none
start_timeslice duration draw tick_count (some t) s =
    let bound = min s.max_ticks (if s.enable_chaos then duration else s.max_ticks) in
    if bound == 0
    then none
    else some (record s { current_timeslice_end = (tick_count t + draw % bound) % 2 ^ 64 })

unfoldable pub setup_new_timeslice : ℕ → ℕ → (ℕ → ℕ) → Scheduler → Option Scheduler
setup_new_timeslice duration draw tick_count s =
    start_timeslice duration draw tick_count s.current s
