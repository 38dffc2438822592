-- ===== src/Scheduler/Choose.antt =====
-- scheduler.rs: the first loop of `reschedule`. Whether a round of it is in a high-priority-only interval
-- of chaos mode is given by a list, for the rounds in turn, and is false after it. `none` is a failed
-- assertion, an overflow, or a loop that is out of fuel.
use rd.Prelude.{
  ℕ, zero, suc, ◌-◌, ltb, ◌==◌, if◌then◌else◌, Bool, false, not, ◌&&◌, ◌||◌, List, [], ◌∷◌, Option,
  none, some,
}
use rd.Scheduler.PrioritySet.{PriorityTup}
use rd.Scheduler.State.{Scheduler, front, maybe_pop_round_robin_task}
use rd.Scheduler.Runnable.{
  Tracees, Round, treat_as_high_priority, is_task_runnable, find_next_runnable_task, max_priority,
  agrees,
}

-- How the first loop ends: the current task carries on, or there is a next one or none.
pub data Choice : Type 0 where
  carry_on : Choice
  next : (maybe_next : Option ℕ) → Choice

-- What a round of the first loop comes to.
pub data Turn (W : Type 0) : Type 0 where
  leave : Choice → Round W → Turn W
  again : Round W → Turn W

unfoldable pub pop_task : {W : Type 0} → ℕ → Round W → Round W
pop_task t r = record r { scheduler = maybe_pop_round_robin_task t r.scheduler }

unfoldable pub set_interval : {W : Type 0} → Bool → Round W → Round W
set_interval interval r = record r {
  scheduler = record r.scheduler { high_priority_only = interval };
}

-- The conditions on carrying on with the task c but the last, with its ticks.
unfoldable pub may_carry_on : ℕ → ℕ → Scheduler → Bool
may_carry_on c tick_count s =
    not (s.tasks c).unstable
    && not s.always_switch
    && agrees (front s.task_round_robin_queue) c
    && (treat_as_high_priority c s || not s.high_priority_only)
    && ltb tick_count s.current_timeslice_end

-- A low-priority task in an interval is not woken, unless it was by a wait.
unfoldable pub sleeps : {W : Type 0} → Option ℕ → Round W → Bool
sleeps none r = false
sleeps (some t) r =
    not (treat_as_high_priority t r.scheduler) && r.scheduler.high_priority_only && not r.by_waitpid

module _ {W : Type 0} (m : Tracees W) (shuffle : List PriorityTup → List PriorityTup) where
  -- A round after the current task was rejected.
  unfoldable pub try_others : Round W → Option (Turn W)
  try_others r = elim (front r.scheduler.task_round_robin_queue) [
    | some t ↦ elim (is_task_runnable m t r) [
      | none ↦ none
      | some a ↦ some (if a.0 then leave (next (some t)) a.1 else again (pop_task t a.1))
    ]
    | none ↦ elim (find_next_runnable_task m shuffle r.scheduler.current max_priority r) [
      | none ↦ none
      | some found ↦
          some (if sleeps found.0 found.1 then again found.1 else leave (next found.0) found.1)
    ]
  ]

  unfoldable pub try_current : ℕ → Round W → Option (Bool × Round W)
  try_current c r =
      if may_carry_on c (m.tick_count r.tracees c) r.scheduler
      then is_task_runnable m c r
      else some (false, r)

  unfoldable pub keep_or_try : ℕ → Round W → Option (Turn W)
  keep_or_try c r = elim (try_current c r) [
    | none ↦ none
    | some a ↦ if a.0 then some (leave carry_on a.1) else try_others (pop_task c a.1)
  ]

  -- A round with a current task: one of higher priority goes first, when the queue is empty.
  unfoldable pub try_higher : ℕ → Round W → Option (Turn W)
  try_higher c r =
      if (r.scheduler.tasks c).priority == 0
      then none
      else elim (find_next_runnable_task m shuffle (some c) ((r.scheduler.tasks c).priority - 1)
          r) [
            | none ↦ none
            | some found ↦ elim found.0 [
              | some t ↦ some (leave (next (some t)) found.1)
              | none ↦ keep_or_try c found.1
            ]
          ]

  unfoldable pub round : Round W → Option (Turn W)
  round r = elim r.scheduler.in_exec_tgid [
    | some tgid ↦ some (leave (next none) r)
    | none ↦ elim r.scheduler.current [
      | none ↦ try_others r
      | some c ↦ elim (front r.scheduler.task_round_robin_queue) [
        | none ↦ try_higher c r
        | some t ↦ keep_or_try c r
      ]
    ]
  ]

  -- The first loop.
  unfoldable pub choose : ℕ → List Bool → Round W → Option (Choice × Round W)
  choose zero intervals r = none
  choose (suc n) [] r = elim (round (set_interval false r)) [
    | none ↦ none
    | some turn ↦ elim turn [ leave c r' ↦ some (c, r') | again r' ↦ choose n [] r' ]
  ]
  choose (suc n) (i ∷ intervals) r = elim (round (set_interval i r)) [
    | none ↦ none
    | some turn ↦ elim turn [ leave c r' ↦ some (c, r') | again r' ↦ choose n intervals r' ]
  ]
