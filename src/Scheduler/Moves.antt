-- ===== src/Scheduler/Moves.antt =====
-- scheduler.rs: the moves that every operation is made of (a task leaves the set or the queue, changes
-- while it stands in neither, and enters one of them) keep each other task in its place.
use rd.Prelude.{
  ℕ, ◌+◌, ==_refl, if◌then◌else◌, Bool, true, false, ◌&&◌, List, [], ◌∷◌, ◌++◌, ◌≡◌, refl, ap,
  arith, subst,
}
use rd.Scheduler.PrioritySet.{contains}
use rd.Scheduler.Entries.{
  Sorted-insert, Sorted-remove, entries-insert, entries-remove, contains-entries,
}
use rd.Scheduler.State.{
  RecordTask, Scheduler, set_task, tup, insert_task, remove_task, push_back,
  set_in_round_robin_queue, set_priority,
}
use rd.Scheduler.Placed.{
  Placed, occurrences, with_task, without_task, Placed-Matches, Keyed-insert, Keyed-remove,
  Keyed-set_task,
}

-- No live task but perhaps t itself has the serial of t.
unfoldable pub Fresh : (ℕ → Bool) → Scheduler → ℕ → Type 0
Fresh live s t =
    (u : ℕ) → live u ≡ true → (s.tasks t).stable_serial ≡ (s.tasks u).stable_serial → t ≡ u

pub at : (f : ℕ → Bool) (u t : ℕ) → u ≡ t → f u ≡ f t
at f u t e = ap f e

pub at_number : (f : ℕ → ℕ) (u t : ℕ) → u ≡ t → f u ≡ f t
at_number f u t e = ap f e

abbrev pub serial : Scheduler → ℕ → ℕ
serial s t = (s.tasks t).stable_serial

abbrev pub queued : Scheduler → ℕ → Bool
queued s t = (s.tasks t).in_round_robin_queue

serials_with :
    (live : ℕ → Bool) (s : Scheduler) (t : ℕ)
    → Placed live s
    → Fresh live s t
    → (u v : ℕ) → with_task t live u ≡ true
    → with_task t live v ≡ true
    → (s.tasks u).stable_serial ≡ (s.tasks v).stable_serial
    → u ≡ v
unfolding Fresh
serials_with live s t p fresh u v e f same = ground (
  arith,
  p.serials u v,
  fresh u,
  fresh v,
  at_number (serial s) u t,
  at_number (serial s) v t,
  same,
)

pub remove_task-Placed :
    (live : ℕ → Bool) (s : Scheduler) (t : ℕ)
    → Placed live s
    → live t ≡ true
    → (s.tasks t).in_round_robin_queue ≡ false
    → Placed (without_task t live) (remove_task t s)
unfolding remove_task tup
remove_task-Placed live s t p alive out =
    let m = Placed-Matches live s t p (λ u. p.serials t u alive) in
    record {
      sorted = Sorted-remove (tup s t) s.task_priority_set p.sorted;
      keyed = Keyed-remove s.tasks (tup s t) s.task_priority_set p.keyed;
      in_set = λ u. ground (
        arith,
        entries-remove u (tup s t) s.task_priority_set p.sorted m,
        p.in_set u,
        alive,
        out,
        at live u t,
        at (queued s) u t,
      );
      in_queue = λ u. ground (arith, p.in_queue u, alive, out, at live u t, at (queued s) u t);
      serials = λ u v e f. p.serials u v (ground arith) (ground arith);
    }

pub insert_task-Placed :
    (live : ℕ → Bool) (s : Scheduler) (t : ℕ)
    → Placed live s
    → live t ≡ false
    → (s.tasks t).in_round_robin_queue ≡ false
    → Fresh live s t
    → Placed (with_task t live) (insert_task t s)
unfolding insert_task Fresh tup
insert_task-Placed live s t p away out fresh =
    let m = Placed-Matches live s t p fresh in
    let absent : contains (tup s t) s.task_priority_set ≡ false =
      contains-entries (tup s t) s.task_priority_set m (ground (arith, p.in_set t)) in
    record {
      sorted = Sorted-insert (tup s t) s.task_priority_set p.sorted;
      keyed = Keyed-insert s.tasks (tup s t) s.task_priority_set refl refl p.keyed;
      in_set = λ u. ground (
        arith,
        entries-insert u (tup s t) s.task_priority_set absent,
        p.in_set u,
        away,
        out,
        at live u t,
        at (queued s) u t,
      );
      in_queue = λ u. ground (arith, p.in_queue u, away, out, at live u t, at (queued s) u t);
      serials = serials_with live s t p fresh;
    }

pub set_task-Placed :
    (live : ℕ → Bool) (s : Scheduler) (t : ℕ) (task : RecordTask)
    → Placed live s
    → live t ≡ false
    → Placed live (set_task t task s)
unfolding set_task
set_task-Placed live s t task p away = record {
  sorted = p.sorted;
  keyed = Keyed-set_task t task s.tasks s.task_priority_set (ground (arith, p.in_set t)) p.keyed;
  in_set = λ u. ground (arith, p.in_set u, away, at live u t);
  in_queue = λ u. ground (arith, p.in_queue u, away, at live u t);
  serials = λ u v e f. ground (arith, p.serials u v e f, away, at live u t, at live v t);
}

pub set_priority-Placed :
    (live : ℕ → Bool) (s : Scheduler) (t value : ℕ)
    → Placed live s
    → (s.tasks t).in_round_robin_queue ≡ true
    → Placed live (set_priority t value s)
unfolding set_priority set_task
set_priority-Placed live s t value p waits = record {
  sorted = p.sorted;
  keyed =
      Keyed-set_task t (record (s.tasks t) { priority = value }) s.tasks s.task_priority_set
        (ground (arith, p.in_set t)) p.keyed;
  in_set = λ u. ground (arith, p.in_set u, at (queued s) u t);
  in_queue = λ u. ground (arith, p.in_queue u, at (queued s) u t);
  serials = λ u v e f.
      ground (arith, p.serials u v e f, at_number (serial s) u t, at_number (serial s) v t);
}

pub occurrences-append :
    (t : ℕ) (xs ys : List ℕ) → occurrences t (xs ++ ys) ≡ occurrences t xs + occurrences t ys
unfolding occurrences
occurrences-append t [] ys = omega arith
occurrences-append t (x ∷ xs) ys = ground (arith, occurrences-append t xs ys)

pub push_back-Placed :
    (live : ℕ → Bool) (s : Scheduler) (t : ℕ)
    → Placed live s
    → live t ≡ false
    → Fresh live s t
    → Placed (with_task t live) (push_back t s)
unfolding push_back set_in_round_robin_queue set_task occurrences
push_back-Placed live s t p away fresh = record {
  sorted = p.sorted;
  keyed =
      Keyed-set_task t (record (s.tasks t) { in_round_robin_queue = true }) s.tasks
        s.task_priority_set (ground (arith, p.in_set t)) p.keyed;
  in_set = λ u. ground (arith, p.in_set u, away, at live u t);
  in_queue = λ u. ground (
    arith,
    occurrences-append u s.task_round_robin_queue (t ∷ []),
    p.in_queue u,
    away,
    at live u t,
  );
  serials = λ u v e f. ground (
    arith,
    serials_with live s t p fresh u v e f,
    at_number (serial s) u t,
    at_number (serial s) v t,
  );
}

pub pop_queue-Placed :
    (live : ℕ → Bool) (s : Scheduler) (t : ℕ) (queue : List ℕ)
    → Placed live s
    → s.task_round_robin_queue ≡ t ∷ queue
    → Placed (without_task t live) (record s { task_round_robin_queue = queue })
unfolding occurrences
pop_queue-Placed live s t queue p e =
    let count : (u : ℕ)
        → occurrences u (t ∷ queue)
          ≡ (if live u && (s.tasks u).in_round_robin_queue then 1 else 0) =
      subst
        (λ q.
          (u : ℕ) → occurrences u q ≡ (if live u && (s.tasks u).in_round_robin_queue then 1 else 0))
        e p.in_queue in
    record {
      sorted = p.sorted;
      keyed = p.keyed;
      in_set = λ u. ground (arith, p.in_set u, count t, at live u t, at (queued s) u t);
      in_queue = λ u. ground (arith, count u, count t, at live u t, at (queued s) u t);
      serials = λ u v f g. p.serials u v (ground arith) (ground arith);
    }

-- A task that changes while it is nowhere, and enters the set.
pub enter_set-Placed :
    (live : ℕ → Bool) (s : Scheduler) (t : ℕ) (task : RecordTask)
    → Placed live s
    → live t ≡ false
    → Fresh live s t
    → task.in_round_robin_queue ≡ false
    → task.stable_serial ≡ (s.tasks t).stable_serial
    → Placed (with_task t live) (insert_task t (set_task t task s))
unfolding set_task Fresh
enter_set-Placed live s t task p away fresh out same =
    insert_task-Placed live (set_task t task s) t (set_task-Placed live s t task p away) away
      (rw ==_refl out)
      (λ u e f. ground (arith, fresh u e, same, f, ==_refl t, at_number (serial s) u t))
