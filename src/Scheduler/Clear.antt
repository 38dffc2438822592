-- ===== src/Scheduler/Clear.antt =====
-- scheduler.rs: the loop that clears the round-robin queue.
use rd.Prelude.{
  ℕ, zero, suc, ◌<◌, ==_refl, Bool, List, [], ◌∷◌, length, none, some, ◌≡◌, refl, ap, arith, ◌∙◌,
}
use rd.Scheduler.State.{
  Scheduler, clear_queue, front, maybe_pop_round_robin_task, pop_front, insert_task,
  set_in_round_robin_queue, set_task,
}
use rd.Scheduler.Placed.{Placed}
use rd.Scheduler.Keep.{maybe_pop_round_robin_task-Placed}

pub popped_queue :
    (s : Scheduler) (t : ℕ) (queue : List ℕ)
    → s.task_round_robin_queue ≡ t ∷ queue
    → (maybe_pop_round_robin_task t s).task_round_robin_queue ≡ queue
unfolding maybe_pop_round_robin_task pop_front insert_task set_in_round_robin_queue set_task
popped_queue s t queue e = ap (λ q. (pop_front t q s).task_round_robin_queue) e ∙ (rw ==_refl refl)

clear :
    (live : ℕ → Bool) (fuel : ℕ) (s : Scheduler) (queue : List ℕ)
    → Placed live s
    → s.task_round_robin_queue ≡ queue
    → length queue < fuel
    → (r : Scheduler) × (clear_queue fuel s ≡ some r)
      × Placed live r
      × (r.task_round_robin_queue ≡ [])
unfolding clear_queue front
clear live zero s queue p e h = absurd (omega arith)
clear live (suc n) s [] p e h = (s, rw e refl, p, e)
clear live (suc n) s (t ∷ queue) p e h =
    let (r, ran, placed, empty) =
      clear live n (maybe_pop_round_robin_task t s) queue
        (maybe_pop_round_robin_task-Placed live s t p) (popped_queue s t queue e) (omega arith) in
    (
      r,
      ap
            (λ q. elim (front q) [
              | none ↦ some s
              | some u ↦ clear_queue n (maybe_pop_round_robin_task u s)
            ])
            e
          ∙ ran,
      placed,
      empty,
    )

-- The loop ends after as many rounds as there are tasks in the queue, and one more; then the queue
-- is empty, and each live task stands in the set.
pub clear_queue-Placed :
    (live : ℕ → Bool) (fuel : ℕ) (s : Scheduler)
    → Placed live s
    → length s.task_round_robin_queue < fuel
    → (r : Scheduler) × (clear_queue fuel s ≡ some r)
      × Placed live r
      × (r.task_round_robin_queue ≡ [])
clear_queue-Placed live fuel s p h = clear live fuel s s.task_round_robin_queue p refl h
