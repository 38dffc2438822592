-- ===== src/Scheduler/Placed.antt =====
-- scheduler.rs: what the comment on the fields of `Scheduler` promises of the set of priorities and
-- the round-robin queue, and how the steps that move one task keep it.
use rd.Prelude.{
  ℕ, ◌+◌, ◌==◌, ==_refl, if◌then◌else◌, Bool, Bool-cases, true, false, not, ◌&&◌, List, [], ◌∷◌,
  ◌≡◌, inl, inr, arith, subst,
}
use rd.Scheduler.PrioritySet.{PriorityTup, insert, remove, Sorted, same_key, cmp}
use rd.Scheduler.Entries.{Ordering-cases, entries, Matches}
use rd.Scheduler.State.{RecordTask, Scheduler, tup}

-- How often a task stands in the queue.
unfoldable pub occurrences : ℕ → List ℕ → ℕ
occurrences t [] = 0
occurrences t (x ∷ queue) = (if x == t then 1 else 0) + occurrences t queue

-- Every element of the set has the priority and the serial of its task.
unfoldable pub Keyed : (ℕ → RecordTask) → List PriorityTup → Type 0
Keyed tasks [] = Unit
Keyed tasks (p ∷ set) =
    (p.priority ≡ (tasks p.task).priority)
    × (p.stable_serial ≡ (tasks p.task).stable_serial)
    × Keyed tasks set

-- Each live task stands once in the set, under its priority, when in_round_robin_queue is false,
-- and once in the queue when it is true; no other task stands in either.
pub record Placed (live : ℕ → Bool) (s : Scheduler) : Type 0 where
  pub sorted : Sorted s.task_priority_set
  pub keyed : Keyed s.tasks s.task_priority_set
  pub in_set :
      (t : ℕ)
      → entries t s.task_priority_set
        ≡ (if live t && not (s.tasks t).in_round_robin_queue then 1 else 0)
  pub in_queue :
      (t : ℕ)
      → occurrences t s.task_round_robin_queue
        ≡ (if live t && (s.tasks t).in_round_robin_queue then 1 else 0)
  pub serials :
      (t u : ℕ)
      → live t ≡ true
      → live u ≡ true
      → (s.tasks t).stable_serial ≡ (s.tasks u).stable_serial
      → t ≡ u

abbrev pub with_task : ℕ → (ℕ → Bool) → ℕ → Bool
with_task t live x = if x == t then true else live x

abbrev pub without_task : ℕ → (ℕ → Bool) → ℕ → Bool
without_task t live x = if x == t then false else live x

pub Placed-same :
    (live live' : ℕ → Bool) (s : Scheduler)
    → ((x : ℕ) → live x ≡ live' x)
    → Placed live s
    → Placed live' s
Placed-same live live' s h p = subst (λ l. Placed l s) (λ i x. h x i) p

pub Keyed-insert :
    (tasks : ℕ → RecordTask) (p : PriorityTup) (set : List PriorityTup)
    → p.priority ≡ (tasks p.task).priority
    → p.stable_serial ≡ (tasks p.task).stable_serial
    → Keyed tasks set
    → Keyed tasks (insert p set)
unfolding Keyed insert
Keyed-insert tasks p [] h k e = ground arith
Keyed-insert tasks p (q ∷ set) h k e = elim (Ordering-cases (cmp p q)) [
  | inl o ↦ rw (o, Keyed) (h, k, e)
  | inr (inl o) ↦ rw (o, Keyed) e
  | inr (inr o) ↦ rw (o, Keyed) (e.0, e.1, Keyed-insert tasks p set h k e.2)
]

pub Keyed-remove :
    (tasks : ℕ → RecordTask) (p : PriorityTup) (set : List PriorityTup)
    → Keyed tasks set
    → Keyed tasks (remove p set)
unfolding Keyed remove
Keyed-remove tasks p [] e = e
Keyed-remove tasks p (q ∷ set) e = elim (Ordering-cases (cmp p q)) [
  | inl o ↦ rw (o, Keyed) e
  | inr (inl o) ↦ rw (o, Keyed) e.2
  | inr (inr o) ↦ rw (o, Keyed) (e.0, e.1, Keyed-remove tasks p set e.2)
]

pub Keyed-set_task :
    (t : ℕ) (task : RecordTask) (tasks : ℕ → RecordTask) (set : List PriorityTup)
    → entries t set ≡ 0
    → Keyed tasks set
    → Keyed (λ x. if x == t then task else tasks x) set
unfolding Keyed entries
Keyed-set_task t task tasks [] h e = e
Keyed-set_task t task tasks (q ∷ set) h e = ground (arith, Keyed-set_task t task tasks set)

AllLive : (ℕ → Bool) → List PriorityTup → Type 0
AllLive live [] = Unit
AllLive live (q ∷ set) = (live q.task ≡ true) × AllLive live set

all_live :
    (live : ℕ → Bool) (set : List PriorityTup)
    → ((t : ℕ) → live t ≡ false → entries t set ≡ 0)
    → AllLive live set
unfolding entries AllLive
all_live live [] h = tt
all_live live (q ∷ set) h = (
  elim (Bool-cases (live q.task)) [
    | inl e ↦ e
    | inr e ↦ absurd (ground (arith, h q.task e, ==_refl q.task))
  ],
  all_live live set (λ t e. ground (arith, h t e)),
)

matches :
    (live : ℕ → Bool) (s : Scheduler) (t : ℕ) (set : List PriorityTup)
    → ((u : ℕ) → live u ≡ true → (s.tasks t).stable_serial ≡ (s.tasks u).stable_serial → t ≡ u)
    → AllLive live set
    → Keyed s.tasks set
    → Matches (tup s t) set
unfolding AllLive Keyed Matches tup same_key
matches live s t [] f a k = tt
matches live s t (q ∷ set) f a k =
    (ground (arith, f q.task a.0, k.0, k.1), matches live s t set f a.1 k.2)

-- An element has the key of a task exactly if it is for that task, when no live task shares its
-- serial.
pub Placed-Matches :
    (live : ℕ → Bool) (s : Scheduler) (t : ℕ)
    → Placed live s
    → ((u : ℕ) → live u ≡ true → (s.tasks t).stable_serial ≡ (s.tasks u).stable_serial → t ≡ u)
    → Matches (tup s t) s.task_priority_set
Placed-Matches live s t p f =
    matches live s t s.task_priority_set f
      (all_live live s.task_priority_set (λ u e. ground (arith, p.in_set u, e))) p.keyed
