-- ===== src/Scheduler/State.antt =====
-- scheduler.rs: the state of the scheduler and the operations that move tasks between the set of
-- priorities and the round-robin queue. A weak pointer to a task is its identity, and the cells of
-- RecordTask that the scheduler reads and writes are looked up by it; a pointer never dangles while
-- `Placed` (Scheduler/Placed) holds. `none` is an assertion that fails.
use rd.Prelude.{
  ℕ, zero, suc, ◌==◌, if◌then◌else◌, Bool, true, false, not, ◌&&◌, List, [], ◌∷◌, ◌++◌, Option,
  none, some,
}
use rd.Scheduler.PrioritySet.{PriorityTup, insert, remove}

pub record RecordTask : Type 0 where
  pub priority : ℕ
  pub stable_serial : ℕ
  pub tgid : ℕ
  pub tid : ℕ
  pub in_round_robin_queue : Bool
  pub stable_exit : Bool
  pub unstable : Bool

pub record Scheduler : Type 0 where
  pub task_priority_set : List PriorityTup
  pub task_round_robin_queue : List ℕ
  pub current : Option ℕ
  pub current_timeslice_end : ℕ
  pub max_ticks : ℕ
  pub must_run_task : Option ℕ
  pub in_exec_tgid : Option ℕ
  pub always_switch : Bool
  pub enable_chaos : Bool
  pub enable_poll : Bool
  -- last_reschedule_in_high_priority_only_interval
  pub high_priority_only : Bool
  pub tasks : ℕ → RecordTask

-- The i32 0, shifted.
abbrev pub zero_priority : ℕ
zero_priority = 2147483648

unfoldable pub set_task : ℕ → RecordTask → Scheduler → Scheduler
set_task t task s = record s { tasks = λ x. if x == t then task else s.tasks x }

-- The tuple that stands for a task in the set.
unfoldable pub tup : Scheduler → ℕ → PriorityTup
tup s t = record {
  priority = (s.tasks t).priority;
  stable_serial = (s.tasks t).stable_serial;
  task = t;
}

unfoldable pub set_priority : ℕ → ℕ → Scheduler → Scheduler
set_priority t value s = set_task t (record (s.tasks t) { priority = value }) s

unfoldable pub set_in_round_robin_queue : ℕ → Bool → Scheduler → Scheduler
set_in_round_robin_queue t b s = set_task t (record (s.tasks t) { in_round_robin_queue = b }) s

unfoldable pub insert_task : ℕ → Scheduler → Scheduler
insert_task t s = record s { task_priority_set = insert (tup s t) s.task_priority_set }

unfoldable pub remove_task : ℕ → Scheduler → Scheduler
remove_task t s = record s { task_priority_set = remove (tup s t) s.task_priority_set }

-- -9999, shifted: the priority of a task in a stable exit.
abbrev pub exit_priority : ℕ
exit_priority = 2147473649

unfoldable pub forced_priority : Scheduler → ℕ → ℕ → ℕ
forced_priority s t value =
    if (s.tasks t).stable_exit && not s.enable_chaos then exit_priority else value

unfoldable pub move_to_priority : ℕ → ℕ → Scheduler → Scheduler
move_to_priority t value s =
    if (s.tasks t).priority == value
    then s
    else if (s.tasks t).in_round_robin_queue
    then set_priority t value s
    else insert_task t (set_priority t value (remove_task t s))

unfoldable pub update_task_priority_internal : ℕ → ℕ → Scheduler → Scheduler
update_task_priority_internal t value s = move_to_priority t (forced_priority s t value) s

unfoldable pub update_task_priority : ℕ → ℕ → Scheduler → Scheduler
update_task_priority t value s =
    if not s.enable_chaos then update_task_priority_internal t value s else s

unfoldable pub in_stable_exit : ℕ → Scheduler → Scheduler
in_stable_exit t s = update_task_priority_internal t (s.tasks t).priority s

-- get_round_robin_task
unfoldable pub front : List ℕ → Option ℕ
front [] = none
front (t ∷ queue) = some t

unfoldable pub pop_front : ℕ → List ℕ → Scheduler → Scheduler
pop_front t [] s = s
pop_front t (x ∷ queue) s =
    if x == t
    then insert_task t
        (set_in_round_robin_queue t false (record s { task_round_robin_queue = queue }))
    else s

unfoldable pub maybe_pop_round_robin_task : ℕ → Scheduler → Scheduler
maybe_pop_round_robin_task t s = pop_front t s.task_round_robin_queue s

unfoldable pub push_back : ℕ → Scheduler → Scheduler
push_back t s =
    set_in_round_robin_queue t true
      (record s { task_round_robin_queue = s.task_round_robin_queue ++ t ∷ [] })

-- The loop of `schedule_one_round_robin` over the set, and its body.
unfoldable pub queue_other : ℕ → ℕ → Scheduler → Scheduler
queue_other t u s =
    if not (u == t) && not (s.tasks u).in_round_robin_queue then push_back u s else s

unfoldable pub queue_others : ℕ → List PriorityTup → Scheduler → Scheduler
queue_others t [] s = s
queue_others t (p ∷ set) s = queue_others t set (queue_other t p.task s)

unfoldable pub expire_timeslice : Scheduler → Scheduler
expire_timeslice s = record s { current_timeslice_end = 0 }

unfoldable pub is_current : ℕ → Scheduler → Bool
is_current t s = elim s.current [ none ↦ false | some c ↦ c == t ]

-- What `schedule_one_round_robin` does when its assertions hold, once `t` is off the queue.
unfoldable pub queue_all : ℕ → Scheduler → Scheduler
queue_all t s =
    let queued = queue_others t s.task_priority_set s in
    expire_timeslice (push_back t (record queued { task_priority_set = [] }))

unfoldable pub schedule_one_round_robin : ℕ → Scheduler → Option Scheduler
schedule_one_round_robin t s =
    let popped = maybe_pop_round_robin_task t s in
    if is_current t s && not (popped.tasks t).in_round_robin_queue
    then some (queue_all t popped)
    else none

-- `low` is the outcome of the random draw.
unfoldable pub choose_random_priority : Bool → ℕ
choose_random_priority low = if low then suc zero_priority else zero_priority

unfoldable pub on_create_task : Bool → ℕ → Scheduler → Scheduler
on_create_task low t s =
    insert_task t (if s.enable_chaos then set_priority t (choose_random_priority low) s else s)

unfoldable pub remove_first : ℕ → List ℕ → List ℕ
remove_first t [] = []
remove_first t (x ∷ queue) = if x == t then queue else x ∷ remove_first t queue

unfoldable pub forget_current : ℕ → Scheduler → Scheduler
forget_current t s = if is_current t s then record s { current = none } else s

unfoldable pub is_exec_tgid : ℕ → Scheduler → Bool
is_exec_tgid tgid s = elim s.in_exec_tgid [ none ↦ false | some g ↦ g == tgid ]

-- `group_size` is the number of tasks in the thread group of `t`.
unfoldable pub forget_exec : ℕ → ℕ → Scheduler → Scheduler
forget_exec group_size t s =
    if is_exec_tgid (s.tasks t).tgid s && (group_size == 1)
    then record s { in_exec_tgid = none }
    else s

unfoldable pub drop_task : ℕ → Scheduler → Scheduler
drop_task t s =
    if (s.tasks t).in_round_robin_queue
    then record s { task_round_robin_queue = remove_first t s.task_round_robin_queue }
    else remove_task t s

unfoldable pub on_destroy_task : ℕ → ℕ → Scheduler → Scheduler
on_destroy_task group_size t s = drop_task t (forget_exec group_size t (forget_current t s))

unfoldable pub did_enter_execve : ℕ → Scheduler → Option Scheduler
did_enter_execve t s = elim s.in_exec_tgid [
  | none ↦ some (record s { in_exec_tgid = some (s.tasks t).tgid })
  | some g ↦ none
]

unfoldable pub did_exit_execve : ℕ → Scheduler → Option Scheduler
did_exit_execve t s =
    if is_exec_tgid (s.tasks t).tgid s then some (record s { in_exec_tgid = none }) else none

unfoldable pub tasks_of : List PriorityTup → List ℕ
tasks_of [] = []
tasks_of (p ∷ set) = p.task ∷ tasks_of set

unfoldable pub update_each : (ℕ → Bool) → List ℕ → Scheduler → Scheduler
update_each low [] s = s
update_each low (t ∷ ts) s =
    update_each low ts (update_task_priority_internal t (choose_random_priority (low t)) s)

-- `due` tells whether the time for the next refresh has come, `low` the random draws.
unfoldable pub maybe_reset_priorities : Bool → (ℕ → Bool) → Scheduler → Scheduler
maybe_reset_priorities due low s =
    if s.enable_chaos && due
    then update_each low (tasks_of s.task_priority_set ++ s.task_round_robin_queue) s
    else s

-- Scheduler::new
unfoldable pub new : ℕ → Bool → (ℕ → RecordTask) → Scheduler
new max_ticks always_switch tasks = record {
  task_priority_set = [];
  task_round_robin_queue = [];
  current = none;
  current_timeslice_end = 0;
  max_ticks = max_ticks;
  must_run_task = none;
  in_exec_tgid = none;
  always_switch = always_switch;
  enable_chaos = false;
  enable_poll = false;
  high_priority_only = false;
  tasks = tasks;
}

-- The loop of `reschedule` that clears the queue; `none` when the fuel is used up.
unfoldable pub clear_queue : ℕ → Scheduler → Option Scheduler
clear_queue zero s = none
clear_queue (suc n) s = elim (front s.task_round_robin_queue) [
  | none ↦ some s
  | some t ↦ clear_queue n (maybe_pop_round_robin_task t s)
]
