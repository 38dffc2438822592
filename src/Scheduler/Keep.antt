-- ===== src/Scheduler/Keep.antt =====
-- scheduler.rs: the operations on one task keep every task in its place.
use rd.Prelude.{
  ℕ, ◌-◌, ◌==◌, ==_iff, ==_refl, if◌then◌else◌, Bool, Bool-cases, if-both, true, false, ◌&&◌, List,
  [], ◌∷◌, none, ◌≡◌, refl, ap, sym, inl, inr, arith, ◌∙◌,
}
use rd.Scheduler.State.{
  Scheduler, insert_task, remove_task, set_in_round_robin_queue, set_priority, move_to_priority,
  update_task_priority_internal, pop_front, maybe_pop_round_robin_task, on_create_task,
  choose_random_priority, on_destroy_task, drop_task, forget_current, forget_exec, remove_first,
  is_current, is_exec_tgid, update_each,
}
use rd.Scheduler.Placed.{Placed, occurrences, with_task, without_task, Placed-same}
use rd.Scheduler.Moves.{
  Fresh, at, queued, enter_set-Placed, remove_task-Placed, insert_task-Placed, set_priority-Placed,
  pop_queue-Placed,
}

put_back :
    (live : ℕ → Bool) (t : ℕ)
    → live t ≡ true
    → (x : ℕ) → with_task t (without_task t live) x ≡ live x
put_back live t alive x = ground (arith, alive, at live x t)

Fresh-without :
    (live : ℕ → Bool) (s : Scheduler) (t : ℕ)
    → Placed live s
    → live t ≡ true
    → Fresh (without_task t live) s t
unfolding Fresh
Fresh-without live s t p alive u e same = p.serials t u alive (ground arith) same

reinsert-Placed :
    (live : ℕ → Bool) (s : Scheduler) (t value : ℕ)
    → Placed live s
    → live t ≡ true
    → (s.tasks t).in_round_robin_queue ≡ false
    → Placed live (insert_task t (set_priority t value (remove_task t s)))
unfolding set_priority remove_task Fresh
reinsert-Placed live s t value p alive out =
    Placed-same (with_task t (without_task t live)) live _ (put_back live t alive) (
      enter_set-Placed (without_task t live) (remove_task t s) t
        (record (s.tasks t) { priority = value }) (remove_task-Placed live s t p alive out)
        (ground arith) (Fresh-without live s t p alive) out refl)

pub move_to_priority-Placed :
    (live : ℕ → Bool) (s : Scheduler) (t value : ℕ)
    → Placed live s
    → live t ≡ true
    → Placed live (move_to_priority t value s)
unfolding move_to_priority
move_to_priority-Placed live s t value p alive = elim (Bool-cases ((s.tasks t).priority == value)) [
  | inl e ↦ rw e p
  | inr e ↦ elim (Bool-cases (s.tasks t).in_round_robin_queue) [
    | inl q ↦ rw (e, q) (set_priority-Placed live s t value p q)
    | inr q ↦ rw (e, q) (reinsert-Placed live s t value p alive q)
  ]
]

-- A task in the queue is live and is marked as queued.
pub at_head :
    (live : ℕ → Bool) (s : Scheduler) (t : ℕ) (queue : List ℕ)
    → Placed live s
    → s.task_round_robin_queue ≡ t ∷ queue
    → (live t ≡ true) × ((s.tasks t).in_round_robin_queue ≡ true)
unfolding occurrences
at_head live s t queue p e =
    let count = sym (ap (occurrences t) e) ∙ p.in_queue t in ground (arith, count, ==_refl t)

-- Taking the head of the queue back to the set.
requeue-Placed :
    (live : ℕ → Bool) (s : Scheduler) (t : ℕ) (queue : List ℕ)
    → Placed live s
    → s.task_round_robin_queue ≡ t ∷ queue
    → Placed live (
        insert_task t
          (set_in_round_robin_queue t false (record s { task_round_robin_queue = queue })))
unfolding set_in_round_robin_queue Fresh
requeue-Placed live s t queue p e =
    let alive = (at_head live s t queue p e).0 in
    Placed-same (with_task t (without_task t live)) live _ (put_back live t alive) (
      enter_set-Placed (without_task t live) (record s { task_round_robin_queue = queue }) t
        (record (s.tasks t) { in_round_robin_queue = false }) (pop_queue-Placed live s t queue p e)
        (ground arith) (Fresh-without live s t p alive) refl refl)

pop_front-Placed :
    (live : ℕ → Bool) (s : Scheduler) (t : ℕ) (queue : List ℕ)
    → Placed live s
    → s.task_round_robin_queue ≡ queue
    → Placed live (pop_front t queue s)
unfolding pop_front
pop_front-Placed live s t [] p e = p
pop_front-Placed live s t (x ∷ queue) p e = elim (Bool-cases (x == t)) [
  | inl h ↦ rw h (requeue-Placed live s t queue p (e ∙ ap (λ y. y ∷ queue) ((==_iff x t).0 h)))
  | inr h ↦ rw h p
]

pub maybe_pop_round_robin_task-Placed :
    (live : ℕ → Bool) (s : Scheduler) (t : ℕ)
    → Placed live s
    → Placed live (maybe_pop_round_robin_task t s)
unfolding maybe_pop_round_robin_task
maybe_pop_round_robin_task-Placed live s t p =
    pop_front-Placed live s t s.task_round_robin_queue p refl

pub on_create_task-Placed :
    (live : ℕ → Bool) (s : Scheduler) (low : Bool) (t : ℕ)
    → Placed live s
    → live t ≡ false
    → (s.tasks t).in_round_robin_queue ≡ false
    → Fresh live s t
    → Placed (with_task t live) (on_create_task low t s)
unfolding on_create_task set_priority
on_create_task-Placed live s low t p away out fresh =
    if-both (λ r. Placed (with_task t live) (insert_task t r)) s.enable_chaos _ s
      (λ e.
        enter_set-Placed live s t (record (s.tasks t) { priority = choose_random_priority low }) p
          away fresh out refl)
      (λ e. insert_task-Placed live s t p away out fresh)

occurrences-remove_first :
    (u t : ℕ) (queue : List ℕ)
    → occurrences u (remove_first t queue) ≡ occurrences u queue - (if t == u then 1 else 0)
unfolding occurrences remove_first
occurrences-remove_first u t [] = omega arith
occurrences-remove_first u t (x ∷ queue) = ground (arith, occurrences-remove_first u t queue)

pub drop_task-Placed :
    (live : ℕ → Bool) (s : Scheduler) (t : ℕ)
    → Placed live s
    → live t ≡ true
    → Placed (without_task t live) (drop_task t s)
unfolding drop_task
drop_task-Placed live s t p alive =
    if-both (Placed (without_task t live)) (s.tasks t).in_round_robin_queue _ _
      (λ q. record {
        sorted = p.sorted;
        keyed = p.keyed;
        in_set = λ u. ground (arith, p.in_set u, q, at live u t, at (queued s) u t);
        in_queue = λ u. ground (
          arith,
          occurrences-remove_first u t s.task_round_robin_queue,
          p.in_queue u,
          q,
          alive,
          at live u t,
          at (queued s) u t,
        );
        serials = λ u v e f. p.serials u v (ground arith) (ground arith);
      })
      (λ q. remove_task-Placed live s t p alive q)

-- What is said of the two collections does not depend on the other fields.
pub Placed-fields :
    (live : ℕ → Bool) (s r : Scheduler)
    → Placed live s
    → r.task_priority_set ≡ s.task_priority_set
    → r.task_round_robin_queue ≡ s.task_round_robin_queue
    → r.tasks ≡ s.tasks
    → Placed live r
Placed-fields live s r p e f g = record {
  sorted = rw e p.sorted;
  keyed = rw (e, g) p.keyed;
  in_set = rw (e, g) p.in_set;
  in_queue = rw (f, g) p.in_queue;
  serials = rw g p.serials;
}

forget_current-Placed :
    (live : ℕ → Bool) (s : Scheduler) (t : ℕ) → Placed live s → Placed live (forget_current t s)
unfolding forget_current
forget_current-Placed live s t p =
    if-both (Placed live) (is_current t s) (record s { current = none }) s
      (λ _. Placed-fields live s _ p refl refl refl) (λ _. p)

forget_exec-Placed :
    (live : ℕ → Bool) (s : Scheduler) (group_size t : ℕ)
    → Placed live s
    → Placed live (forget_exec group_size t s)
unfolding forget_exec
forget_exec-Placed live s group_size t p =
    if-both (Placed live) (is_exec_tgid (s.tasks t).tgid s && (group_size == 1))
      (record s { in_exec_tgid = none }) s (λ _. Placed-fields live s _ p refl refl refl) (λ _. p)

pub on_destroy_task-Placed :
    (live : ℕ → Bool) (s : Scheduler) (group_size t : ℕ)
    → Placed live s
    → live t ≡ true
    → Placed (without_task t live) (on_destroy_task group_size t s)
unfolding on_destroy_task
on_destroy_task-Placed live s group_size t p alive =
    drop_task-Placed live (forget_exec group_size t (forget_current t s)) t
      (forget_exec-Placed live (forget_current t s) group_size t (forget_current-Placed live s t p))
      alive

-- Every task of a list that the update goes through is live.
unfoldable pub AllLive : (ℕ → Bool) → List ℕ → Type 0
AllLive live [] = Unit
AllLive live (t ∷ ts) = (live t ≡ true) × AllLive live ts

pub update_each-Placed :
    (live : ℕ → Bool) (low : ℕ → Bool) (ts : List ℕ) (s : Scheduler)
    → Placed live s
    → AllLive live ts
    → Placed live (update_each low ts s)
unfolding update_each AllLive update_task_priority_internal
update_each-Placed live low [] s p a = p
update_each-Placed live low (t ∷ ts) s p a =
    update_each-Placed live low ts _ (move_to_priority-Placed live s t _ p a.0) a.1
