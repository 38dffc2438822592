-- ===== src/Scheduler/Reachable.antt =====
-- scheduler.rs: the operations of a recording as steps, and what holds of every state they lead to.
use rd.Prelude.{
  ℕ, Bool, Bool-cases, Option-cases, false, true, Option, none, some, ◌≡◌, ◌≢◌, refl, arith, length,
  ◌<◌, not, ◌&&◌, if-both, List, [], ◌∷◌, ◌++◌, ap, sym, ◌∙◌, subst, inl, inr, ==_refl, ◌==◌,
  if◌then◌else◌,
}
use rd.Scheduler.PrioritySet.{PriorityTup, Sorted}
use rd.Scheduler.Entries.{entries}
use rd.Scheduler.State.{
  RecordTask, Scheduler, new, set_task, update_task_priority, update_task_priority_internal,
  in_stable_exit, schedule_one_round_robin, maybe_pop_round_robin_task, on_create_task,
  on_destroy_task, did_enter_execve, did_exit_execve, maybe_reset_priorities, clear_queue,
  queue_all, is_current, is_exec_tgid, tasks_of,
}
use rd.Scheduler.Placed.{Placed, Keyed, occurrences, with_task, without_task}
use rd.Scheduler.Moves.{Fresh}
use rd.Scheduler.Keep.{
  move_to_priority-Placed, maybe_pop_round_robin_task-Placed, on_create_task-Placed,
  on_destroy_task-Placed, AllLive, update_each-Placed, Placed-fields,
}
use rd.Scheduler.Queue.{queue_all-Placed}
use rd.Scheduler.Clear.{clear_queue-Placed}

-- The states that the operations lead to, with the tasks that are live. A task that is created is not
-- marked as queued, and its serial is not that of a live task; the other operations are called for
-- live tasks. `reschedule` is made of `look`, `mark`, `refresh`, `reject`, `give_up` and `switch`.
pub data Reachable : (ℕ → Bool) → Scheduler → Type 0 where
  start :
      (max_ticks : ℕ) (always_switch : Bool) (tasks : ℕ → RecordTask)
      → Reachable (λ _. false) (new max_ticks always_switch tasks)
  create :
      (live : ℕ → Bool) (s : Scheduler) (low : Bool) (t : ℕ)
      → Reachable live s
      → live t ≡ false
      → (s.tasks t).in_round_robin_queue ≡ false
      → Fresh live s t
      → Reachable (with_task t live) (on_create_task low t s)
  destroy :
      (live : ℕ → Bool) (s : Scheduler) (group_size t : ℕ)
      → Reachable live s
      → live t ≡ true
      → Reachable (without_task t live) (on_destroy_task group_size t s)
  set_nice :
      (live : ℕ → Bool) (s : Scheduler) (t value : ℕ)
      → Reachable live s
      → live t ≡ true
      → Reachable live (update_task_priority t value s)
  stable_exit :
      (live : ℕ → Bool) (s : Scheduler) (t : ℕ)
      → Reachable live s
      → live t ≡ true
      → Reachable live (in_stable_exit t s)
  yield_to_all :
      (live : ℕ → Bool) (s : Scheduler) (t : ℕ) (r : Scheduler)
      → Reachable live s
      → live t ≡ true
      → schedule_one_round_robin t s ≡ some r
      → Reachable live r
  reject :
      (live : ℕ → Bool) (s : Scheduler) (t : ℕ)
      → Reachable live s
      → Reachable live (maybe_pop_round_robin_task t s)
  give_up :
      (live : ℕ → Bool) (s : Scheduler) (fuel : ℕ) (r : Scheduler)
      → Reachable live s
      → length s.task_round_robin_queue < fuel
      → clear_queue fuel s ≡ some r
      → Reachable live r
  switch :
      (live : ℕ → Bool) (s : Scheduler) (to : Option ℕ) (timeslice_end : ℕ)
      → Reachable live s
      → Reachable live (record s { current = to; current_timeslice_end = timeslice_end })
  enter_execve :
      (live : ℕ → Bool) (s : Scheduler) (t : ℕ) (r : Scheduler)
      → Reachable live s
      → did_enter_execve t s ≡ some r
      → Reachable live r
  exit_execve :
      (live : ℕ → Bool) (s : Scheduler) (t : ℕ) (r : Scheduler)
      → Reachable live s
      → did_exit_execve t s ≡ some r
      → Reachable live r
  refresh :
      (live : ℕ → Bool) (s : Scheduler) (due : Bool) (low : ℕ → Bool)
      → Reachable live s
      → Reachable live (maybe_reset_priorities due low s)
  chaos :
      (live : ℕ → Bool) (s : Scheduler) (b : Bool)
      → Reachable live s
      → Reachable live (record s { enable_chaos = b })
  -- What the loops of `reschedule` write between these operations, and set_max_ticks.
  look :
      (live : ℕ → Bool) (s : Scheduler) (must_run_task : Option ℕ) (poll interval : Bool)
      (max_ticks : ℕ)
      → Reachable live s
      → Reachable live (record s {
        must_run_task = must_run_task;
        enable_poll = poll;
        high_priority_only = interval;
        max_ticks = max_ticks;
      })
  mark :
      (live : ℕ → Bool) (s : Scheduler) (t : ℕ) (unstable : Bool)
      → Reachable live s
      → Reachable live (set_task t (record (s.tasks t) { unstable = unstable }) s)

-- A mark leaves the priority, the serial and the place of every task.
as-marked :
    (t : ℕ) (unstable : Bool) (tasks : ℕ → RecordTask) (x : ℕ)
    → let task = if x == t then record (tasks t) { unstable = unstable } else tasks x in
      (task.priority ≡ (tasks x).priority)
      × (task.stable_serial ≡ (tasks x).stable_serial)
      × (task.in_round_robin_queue ≡ (tasks x).in_round_robin_queue)
as-marked t unstable tasks x = elim (Bool-cases (x == t)) [
  | inl e ↦
      let same : x ≡ t = ground arith in
      (
        rw e (ap (λ (y : ℕ). (tasks y).priority) (sym same)),
        rw e (ap (λ (y : ℕ). (tasks y).stable_serial) (sym same)),
        rw e (ap (λ (y : ℕ). (tasks y).in_round_robin_queue) (sym same)),
      )
  | inr e ↦ (rw e refl, rw e refl, rw e refl)
]

Keyed-mark :
    (t : ℕ) (unstable : Bool) (tasks : ℕ → RecordTask) (set : List PriorityTup)
    → Keyed tasks set
    → Keyed (λ x. if x == t then record (tasks t) { unstable = unstable } else tasks x) set
unfolding Keyed
Keyed-mark t unstable tasks [] k = tt
Keyed-mark t unstable tasks (p ∷ set) k =
    let same = as-marked t unstable tasks p.task in
    (k.0 ∙ sym same.0, k.1 ∙ sym same.1, Keyed-mark t unstable tasks set k.2)

marked :
    (live : ℕ → Bool) (s : Scheduler) (t : ℕ) (unstable : Bool)
    → Placed live s
    → Placed live (set_task t (record (s.tasks t) { unstable = unstable }) s)
unfolding set_task
marked live s t unstable p = record {
  sorted = p.sorted;
  keyed = Keyed-mark t unstable s.tasks s.task_priority_set p.keyed;
  in_set = λ x. ground (arith, p.in_set x, as-marked t unstable s.tasks x);
  in_queue = λ x. ground (arith, p.in_queue x, as-marked t unstable s.tasks x);
  serials = λ x y a c h.
      p.serials x y a c
        (sym (as-marked t unstable s.tasks x).1 ∙ h ∙ (as-marked t unstable s.tasks y).1);
}

some-eq : {a b : Scheduler} → some a ≡ some b → a ≡ b
some-eq h = cc

yielded :
    (live : ℕ → Bool) (s : Scheduler) (t : ℕ) (r : Scheduler)
    → Placed live s
    → live t ≡ true
    → schedule_one_round_robin t s ≡ some r
    → Placed live r
unfolding schedule_one_round_robin
yielded live s t r p alive h =
    let popped = maybe_pop_round_robin_task t s in
    elim (Bool-cases (is_current t s && not (popped.tasks t).in_round_robin_queue)) [
      | inl e ↦
          let same : queue_all t popped ≡ r = some-eq (sym (rw e refl) ∙ h) in
          subst (Placed live) same (
            queue_all-Placed live popped t (maybe_pop_round_robin_task-Placed live s t p) alive
              (ground (arith, e)))
      | inr e ↦ absurd (ground (arith, e, h))
    ]

abbrev enter_with : Scheduler → ℕ → Option ℕ → Option Scheduler
enter_with s t exec = elim exec [
  | none ↦ some (record s { in_exec_tgid = some (s.tasks t).tgid })
  | some g ↦ none
]

none-some : {r : Scheduler} → none ≢ some r
none-some h = cc

entered :
    (live : ℕ → Bool) (s : Scheduler) (t : ℕ) (r : Scheduler) (exec : Option ℕ)
    → Placed live s
    → some (record s { in_exec_tgid = exec }) ≡ some r
    → Placed live r
entered live s t r exec p h =
    subst (Placed live) (some-eq h)
      (Placed-fields live s (record s { in_exec_tgid = exec }) p refl refl refl)

entered_execve :
    (live : ℕ → Bool) (s : Scheduler) (t : ℕ) (r : Scheduler)
    → Placed live s
    → did_enter_execve t s ≡ some r
    → Placed live r
unfolding did_enter_execve
entered_execve live s t r p h = elim (Option-cases s.in_exec_tgid) [
  | inl e ↦ entered live s t r (some (s.tasks t).tgid) p (sym (ap (enter_with s t) e) ∙ h)
  | inr (g, e) ↦ absurd (none-some (sym (ap (enter_with s t) e) ∙ h))
]

exited_execve :
    (live : ℕ → Bool) (s : Scheduler) (t : ℕ) (r : Scheduler)
    → Placed live s
    → did_exit_execve t s ≡ some r
    → Placed live r
unfolding did_exit_execve
exited_execve live s t r p h = elim (Bool-cases (is_exec_tgid (s.tasks t).tgid s)) [
  | inl e ↦ entered live s t r none p (sym (rw e refl) ∙ h)
  | inr e ↦ absurd (none-some (sym (rw e refl) ∙ h))
]

tasks_of-AllLive :
    (live : ℕ → Bool) (set : List PriorityTup) (queue : List ℕ)
    → ((t : ℕ) → live t ≡ false → entries t set ≡ 0)
    → ((t : ℕ) → live t ≡ false → occurrences t queue ≡ 0)
    → AllLive live (tasks_of set ++ queue)
unfolding AllLive tasks_of entries occurrences
tasks_of-AllLive live [] [] h k = tt
tasks_of-AllLive live [] (t ∷ queue) h k = (
  elim (Bool-cases (live t)) [ inl e ↦ e | inr e ↦ absurd (ground (arith, k t e, ==_refl t)) ],
  tasks_of-AllLive live [] queue h (λ u e. ground (arith, k u e)),
)
tasks_of-AllLive live (p ∷ set) queue h k = (
  elim (Bool-cases (live p.task)) [
    | inl e ↦ e
    | inr e ↦ absurd (ground (arith, h p.task e, ==_refl p.task))
  ],
  tasks_of-AllLive live set queue (λ u e. ground (arith, h u e)) k,
)

refreshed :
    (live : ℕ → Bool) (s : Scheduler) (due : Bool) (low : ℕ → Bool)
    → Placed live s
    → Placed live (maybe_reset_priorities due low s)
unfolding maybe_reset_priorities
refreshed live s due low p =
    if-both (Placed live) (s.enable_chaos && due) _ s
      (λ _.
        update_each-Placed live low (tasks_of s.task_priority_set ++ s.task_round_robin_queue) s p (
          tasks_of-AllLive live s.task_priority_set s.task_round_robin_queue
            (λ t e. ground (arith, p.in_set t, e)) (λ t e. ground (arith, p.in_queue t, e))))
      (λ _. p)

-- In every state that the operations lead to, each live task stands once in the set of priorities,
-- under its priority, or once in the round-robin queue, as its mark says, and no other task does.
pub Reachable-Placed : {live : ℕ → Bool} {s : Scheduler} → Reachable live s → Placed live s
unfolding new update_task_priority in_stable_exit update_task_priority_internal Sorted Keyed entries
    occurrences
Reachable-Placed (start m a tasks) = record {
  sorted = tt;
  keyed = tt;
  in_set = λ t. ground arith;
  in_queue = λ t. ground arith;
  serials = λ t u e. absurd cc;
}
Reachable-Placed (create live s low t r away out fresh) =
    on_create_task-Placed live s low t (Reachable-Placed r) away out fresh
Reachable-Placed (destroy live s n t r alive) =
    on_destroy_task-Placed live s n t (Reachable-Placed r) alive
Reachable-Placed (set_nice live s t value r alive) =
    if-both (Placed live) (not s.enable_chaos) _ s
      (λ _. move_to_priority-Placed live s t _ (Reachable-Placed r) alive) (λ _. Reachable-Placed r)
Reachable-Placed (stable_exit live s t r alive) =
    move_to_priority-Placed live s t _ (Reachable-Placed r) alive
Reachable-Placed (yield_to_all live s t r before alive h) =
    yielded live s t r (Reachable-Placed before) alive h
Reachable-Placed (reject live s t r) =
    maybe_pop_round_robin_task-Placed live s t (Reachable-Placed r)
Reachable-Placed (give_up live s fuel r before enough h) =
    let (q, ran, placed, _) = clear_queue-Placed live fuel s (Reachable-Placed before) enough in
    subst (Placed live) (some-eq (sym ran ∙ h)) placed
Reachable-Placed (switch live s to e r) = Placed-fields live s _ (Reachable-Placed r) refl refl refl
Reachable-Placed (chaos live s b r) = Placed-fields live s _ (Reachable-Placed r) refl refl refl
Reachable-Placed (look live s must_run_task poll interval max_ticks r) =
    Placed-fields live s _ (Reachable-Placed r) refl refl refl
Reachable-Placed (mark live s t unstable r) = marked live s t unstable (Reachable-Placed r)
Reachable-Placed (enter_execve live s t r before h) =
    entered_execve live s t r (Reachable-Placed before) h
Reachable-Placed (exit_execve live s t r before h) =
    exited_execve live s t r (Reachable-Placed before) h
Reachable-Placed (refresh live s due low r) = refreshed live s due low (Reachable-Placed r)
