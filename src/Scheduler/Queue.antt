-- ===== src/Scheduler/Queue.antt =====
-- scheduler.rs: `schedule_one_round_robin` moves every task from the set to the queue.
use rd.Prelude.{
  ℕ, ◌+◌, ◌==◌, ==_refl, if◌then◌else◌, ◌≤◌, Bool, Bool-cases, true, false, ◌||◌, List, [], ◌∷◌,
  ◌++◌, some, ◌≡◌, refl, ap, sym, ◌⊎◌, inl, inr, arith, subst, ◌∙◌,
}
use rd.Scheduler.PrioritySet.{PriorityTup, Sorted}
use rd.Scheduler.Entries.{entries}
use rd.Scheduler.State.{
  Scheduler, push_back, queue_other, queue_others, queue_all, schedule_one_round_robin, set_task,
  set_in_round_robin_queue, expire_timeslice, front, pop_front, maybe_pop_round_robin_task,
  insert_task, is_current,
}
use rd.Scheduler.Keep.{at_head, maybe_pop_round_robin_task-Placed}
use rd.Scheduler.Placed.{Placed, Keyed, occurrences}
use rd.Scheduler.Moves.{occurrences-append, at, at_number, queued, serial}

-- What pushing one task changes.
pushed :
    (s : Scheduler) (t u : ℕ)
    → (occurrences u (push_back t s).task_round_robin_queue
        ≡ occurrences u s.task_round_robin_queue + (if t == u then 1 else 0))
      × (queued (push_back t s) u ≡ (if u == t then true else queued s u))
      × (serial (push_back t s) u ≡ serial s u)
unfolding push_back set_in_round_robin_queue set_task occurrences
pushed s t u = (
  ground (arith, occurrences-append u s.task_round_robin_queue (t ∷ [])),
  ground arith,
  ground (arith, at_number (serial s) u t),
)

queue_other-moved :
    (s : Scheduler) (t v u : ℕ)
    → queued s v ≡ false
    → (occurrences u (queue_other t v s).task_round_robin_queue
        ≡ occurrences u s.task_round_robin_queue + (if v == t then 0 else if v == u then 1 else 0))
      × (queued (queue_other t v s) u
          ≡ (if v == t then queued s u else if u == v then true else queued s u))
      × (serial (queue_other t v s) u ≡ serial s u)
unfolding queue_other
queue_other-moved s t v u h = elim (Bool-cases (v == t)) [
  | inl e ↦ rw e (ground (arith, e), ground (arith, e), refl)
  | inr e ↦
      rw (e, h)
        (ground (arith, e, (pushed s v u).0), ground (arith, e, (pushed s v u).1), (pushed s v u).2)
]

-- None of the tasks of the elements is in the queue yet, and none stands in two elements.
unfoldable pub Unqueued : Scheduler → List PriorityTup → Type 0
Unqueued s set = (u : ℕ) → entries u set ≤ (if queued s u then 0 else 1)

-- The loop adds each task of the set but t once to the queue, and marks it.
pub queue_others-moved :
    (t : ℕ) (set : List PriorityTup) (s : Scheduler)
    → Unqueued s set
    → (u : ℕ)
    → (occurrences u (queue_others t set s).task_round_robin_queue
        ≡ occurrences u s.task_round_robin_queue + (if u == t then 0 else entries u set))
      × (queued (queue_others t set s) u
          ≡ (if u == t then queued s u else queued s u || (entries u set == 1)))
      × (serial (queue_others t set s) u ≡ serial s u)
unfolding queue_others entries Unqueued
queue_others-moved t [] s h u = (ground arith, ground arith, refl)
queue_others-moved t (p ∷ set) s h u =
    let out : queued s p.task ≡ false = ground (arith, h p.task, ==_refl p.task) in
    let one = queue_other-moved s t p.task u out in
    let rest =
      queue_others-moved t set (queue_other t p.task s)
        (λ v.
          ground (arith, h v, out, (queue_other-moved s t p.task v out).1, at (queued s) v p.task))
        u in
    (
      ground (arith, rest.0, one.0, h u, out, at (queued s) u p.task),
      ground (arith, rest.1, one.1, h u, out, at (queued s) u p.task),
      rest.2 ∙ one.2,
    )

emptied : (s : Scheduler) (t : ℕ) → (queue_all t s).task_priority_set ≡ []
unfolding queue_all expire_timeslice push_back set_in_round_robin_queue set_task
emptied s t = refl

pub queue_all-Placed :
    (live : ℕ → Bool) (s : Scheduler) (t : ℕ)
    → Placed live s
    → live t ≡ true
    → queued s t ≡ false
    → Placed live (queue_all t s)
unfolding queue_all expire_timeslice Unqueued entries Sorted Keyed
queue_all-Placed live s t p alive out =
    let moved = queue_others-moved t s.task_priority_set s (λ u. ground (arith, p.in_set u)) in
    let mid : Scheduler = record (queue_others t s.task_priority_set s) {
      task_priority_set = [];
    } in
    record {
      sorted = subst Sorted (sym (emptied s t)) tt;
      keyed = subst (Keyed (queue_all t s).tasks) (sym (emptied s t)) tt;
      in_set = λ u. ground (
        arith,
        ap (entries u) (emptied s t),
        (pushed mid t u).1,
        (moved u).1,
        p.in_set u,
        p.in_queue u,
        at live u t,
        at (queued s) u t,
      );
      in_queue = λ u. ground (
        arith,
        (pushed mid t u).0,
        (pushed mid t u).1,
        (moved u).0,
        (moved u).1,
        p.in_set u,
        p.in_queue u,
        alive,
        out,
        at live u t,
        at (queued s) u t,
      );
      serials = λ u v e f same.
          p.serials u v e f
            (sym ((pushed mid t u).2 ∙ (moved u).2) ∙ same ∙ (pushed mid t v).2 ∙ (moved v).2);
    }

queue_all_order :
    (s : Scheduler) (t : ℕ)
    → (queue : List ℕ) × ((queue_all t s).task_round_robin_queue ≡ queue ++ t ∷ [])
unfolding queue_all expire_timeslice push_back set_in_round_robin_queue set_task
queue_all_order s t = ((queue_others t s.task_priority_set s).task_round_robin_queue, refl)

queue_all_expired : (s : Scheduler) (t : ℕ) → (queue_all t s).current_timeslice_end ≡ 0
unfolding queue_all expire_timeslice
queue_all_expired s t = refl

-- After its turn at the head of the queue a task is no longer marked.
popped_out :
    (live : ℕ → Bool) (s : Scheduler) (t : ℕ) (queue : List ℕ)
    → Placed live s
    → s.task_round_robin_queue ≡ queue
    → (queued s t ≡ false) ⊎ (front queue ≡ some t)
    → queued (pop_front t queue s) t ≡ false
unfolding pop_front front set_in_round_robin_queue set_task insert_task
popped_out live s t [] p e (inl h) = h
popped_out live s t [] p e (inr h) = cc
popped_out live s t (x ∷ queue) p e (inl h) =
    ground (arith, (at_head live s x queue p e).1, at (queued s) x t, h)
popped_out live s t (x ∷ queue) p e (inr h) =
    let same : x ≡ t = cc in ground (arith, same, ==_refl t)

current_is : (s : Scheduler) (t : ℕ) → s.current ≡ some t → is_current t s ≡ true
unfolding is_current
current_is s t h = rw h (==_refl t)

-- If `t` is the current task, is live, and is not queued or stands at the head of the queue, then
-- `schedule_one_round_robin` does not fail, and afterwards the set is empty, every live task stands
-- once in the queue, `t` last, and the timeslice is over.
pub schedule_one_round_robin-Placed :
    (live : ℕ → Bool) (s : Scheduler) (t : ℕ)
    → Placed live s
    → live t ≡ true
    → s.current ≡ some t
    → (queued s t ≡ false) ⊎ (front s.task_round_robin_queue ≡ some t)
    → (r : Scheduler) × (schedule_one_round_robin t s ≡ some r)
      × Placed live r
      × (r.task_priority_set ≡ [])
      × ((u : ℕ) → live u ≡ true → occurrences u r.task_round_robin_queue ≡ 1)
      × ((queue : List ℕ) × (r.task_round_robin_queue ≡ queue ++ t ∷ []))
      × (r.current_timeslice_end ≡ 0)
unfolding schedule_one_round_robin maybe_pop_round_robin_task entries
schedule_one_round_robin-Placed live s t p alive now turn =
    let popped = maybe_pop_round_robin_task t s in
    let out = popped_out live s t s.task_round_robin_queue p refl turn in
    let placed =
      queue_all-Placed live popped t (maybe_pop_round_robin_task-Placed live s t p) alive out in
    (
      queue_all t popped,
      ground (arith, current_is s t now, out),
      placed,
      emptied popped t,
      (λ u e.
          ground (arith, placed.in_set u, placed.in_queue u, ap (entries u) (emptied popped t), e)),
      queue_all_order popped t,
      queue_all_expired popped t,
    )
