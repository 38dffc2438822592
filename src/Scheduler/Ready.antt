-- ===== src/Scheduler/Ready.antt =====
-- scheduler.rs: what the rounds of the first loop of `reschedule` start from, and keep.
use rd.Prelude.{
  ℕ, ◌<◌, ◌≤◌, ◌==◌, Bool-cases, true, List, [], ◌∷◌, length, some, ◌≡◌, refl, sym, ap, subst, inl,
  inr, arith,
}
use rd.Scheduler.PrioritySet.{PriorityTup, insert, cmp}
use rd.Scheduler.Entries.{Ordering-cases}
use rd.Scheduler.State.{
  RecordTask, Scheduler, tup, front, pop_front, maybe_pop_round_robin_task, insert_task,
  set_in_round_robin_queue, set_task,
}
use rd.Scheduler.Runnable.{Round, max_priority}
use rd.Scheduler.Search.{Idle, Same, BelowMax}
use rd.Scheduler.Choose.{pop_task}

-- No task has the greatest priority or the least.
abbrev pub Between : (ℕ → RecordTask) → Type 0
Between tasks = (t : ℕ) → (0 < (tasks t).priority) × ((tasks t).priority < max_priority)

pub record Ready {W : Type 0} (r : Round W) : Type 0 where
  pub idle : Idle r
  pub below : BelowMax r.scheduler.task_priority_set
  pub between : Between r.scheduler.tasks
  pub ticks : 0 < r.scheduler.max_ticks

pub Ready-Same :
    {W : Type 0} (r r' : Round W) → Ready r → Same r.scheduler r'.scheduler → Idle r' → Ready r'
Ready-Same r r' a e i = record {
  idle = i;
  below = subst BelowMax (sym e.set) a.below;
  between = subst Between (sym e.tasks) a.between;
  ticks = subst (λ k. 0 < k) (sym e.ticks) a.ticks;
}

BelowMax-insert :
    (p : PriorityTup) (set : List PriorityTup)
    → p.priority < max_priority
    → BelowMax set
    → BelowMax (insert p set)
unfolding BelowMax insert
BelowMax-insert p [] h b = (h, tt)
BelowMax-insert p (q ∷ set) h b =
    let rest = BelowMax-insert p set h b.1 in
    elim (Ordering-cases (cmp p q)) [
      | inl e ↦ rw (e, BelowMax, insert) (h, b)
      | inr (inl e) ↦ rw (e, BelowMax, insert) b
      | inr (inr e) ↦ rw (e, BelowMax, insert) (b.0, rest)
    ]

popped_front :
    {W : Type 0} (t : ℕ) (r : Round W) (queue : List ℕ)
    → Ready r
    → Ready (record r { scheduler = pop_front t queue r.scheduler })
unfolding pop_front insert_task set_in_round_robin_queue set_task tup
popped_front t r [] a = a
popped_front t r (x ∷ queue) a = elim (Bool-cases (x == t)) [
  | inl e ↦ rw e (record {
    idle = record { must_run = a.idle.must_run; waited = a.idle.waited };
    below = BelowMax-insert _ _ (ground (arith, a.between t)) a.below;
    between = λ u. ground (arith, a.between u, a.between t);
    ticks = a.ticks;
  })
  | inr e ↦ rw e a
]

pub pop_task-Ready : {W : Type 0} (t : ℕ) (r : Round W) → Ready r → Ready (pop_task t r)
unfolding pop_task maybe_pop_round_robin_task
pop_task-Ready t r a = popped_front t r r.scheduler.task_round_robin_queue a

pop_front-length :
    (t : ℕ) (queue : List ℕ) (s : Scheduler)
    → queue ≡ s.task_round_robin_queue
    → length (pop_front t queue s).task_round_robin_queue ≤ length s.task_round_robin_queue
unfolding pop_front insert_task set_in_round_robin_queue set_task
pop_front-length t [] s e = omega arith
pop_front-length t (x ∷ queue) s e0 = elim (Bool-cases (x == t)) [
  | inl e ↦ rw e (omega (arith, ap length e0))
  | inr e ↦ rw e (omega arith)
]

pub pop_task-length :
    {W : Type 0} (t : ℕ) (r : Round W)
    → length (pop_task t r).scheduler.task_round_robin_queue
      ≤ length r.scheduler.task_round_robin_queue
unfolding pop_task maybe_pop_round_robin_task
pop_task-length t r = pop_front-length t r.scheduler.task_round_robin_queue r.scheduler refl

pop_front-length_lt :
    (t : ℕ) (queue : List ℕ) (s : Scheduler)
    → queue ≡ s.task_round_robin_queue
    → front queue ≡ some t
    → length (pop_front t queue s).task_round_robin_queue < length s.task_round_robin_queue
unfolding pop_front insert_task set_in_round_robin_queue set_task front
pop_front-length_lt t [] s e h = absurd cc
pop_front-length_lt t (x ∷ queue) s e h =
    let same : (x == t) ≡ true = ground (arith, h) in rw same (omega (arith, ap length e))

pub pop_task-length_lt :
    {W : Type 0} (t : ℕ) (r : Round W)
    → front r.scheduler.task_round_robin_queue ≡ some t
    → length (pop_task t r).scheduler.task_round_robin_queue
      < length r.scheduler.task_round_robin_queue
unfolding pop_task maybe_pop_round_robin_task
pop_task-length_lt t r h =
    pop_front-length_lt t r.scheduler.task_round_robin_queue r.scheduler refl h

pop_front-interval :
    (t : ℕ) (queue : List ℕ) (s : Scheduler)
    → (pop_front t queue s).high_priority_only ≡ s.high_priority_only
unfolding pop_front insert_task set_in_round_robin_queue set_task
pop_front-interval t [] s = refl
pop_front-interval t (x ∷ queue) s = elim (Bool-cases (x == t)) [
  | inl e ↦ rw e refl
  | inr e ↦ rw e refl
]

pub pop_task-interval :
    {W : Type 0} (t : ℕ) (r : Round W)
    → (pop_task t r).scheduler.high_priority_only ≡ r.scheduler.high_priority_only
unfolding pop_task maybe_pop_round_robin_task
pop_task-interval t r = pop_front-interval t r.scheduler.task_round_robin_queue r.scheduler
