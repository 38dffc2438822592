-- ===== src/Scheduler/WaitKept.antt =====
-- scheduler.rs: what the loop of `reschedule` over waitpid keeps.
use rd.Prelude.{
  ℕ, zero, suc, ◌<◌, ◌==◌, Bool-cases, ◌||◌, List, [], ◌∷◌, length, Option, Option-cases, none,
  some, ◌≡◌, ◌∙◌, refl, sym, ap, subst, inl, inr, arith, if◌then◌else◌, if-both,
}
use rd.Scheduler.State.{
  Scheduler, front, set_task, clear_queue, maybe_pop_round_robin_task, pop_front, insert_task,
  set_in_round_robin_queue,
}
use rd.Scheduler.Clear.{popped_queue}
use rd.Scheduler.Runnable.{Tracees, Round, set_tracees, has_must_run}
use rd.Scheduler.Waiting.{
  Report, Waits, Waited, interrupted, ignored, changed, clear_unstable, is_other_tgid, task_of,
  tell_task, take_report, interrupt, wait_round, wait_for_change,
}

-- The queue is empty, nobody must run, and a timeslice has a length.
abbrev pub Kept : Scheduler → Type 0
Kept s = (s.task_round_robin_queue ≡ []) × (s.must_run_task ≡ none) × (0 < s.max_ticks)

popped_rest :
    (t : ℕ) (queue : List ℕ) (s : Scheduler)
    → ((pop_front t queue s).must_run_task ≡ s.must_run_task)
      × ((pop_front t queue s).max_ticks ≡ s.max_ticks)
unfolding pop_front insert_task set_in_round_robin_queue set_task
popped_rest t [] s = (refl, refl)
popped_rest t (x ∷ queue) s = elim (Bool-cases (x == t)) [
  | inl e ↦ rw e (refl, refl)
  | inr e ↦ rw e (refl, refl)
]

pub cleared :
    (n : ℕ) (s : Scheduler) (queue : List ℕ)
    → s.task_round_robin_queue ≡ queue
    → s.must_run_task ≡ none
    → 0 < s.max_ticks
    → length queue < n
    → (s' : Scheduler) × (clear_queue n s ≡ some s') × Kept s'
unfolding clear_queue front maybe_pop_round_robin_task
cleared zero s queue e must ticks fuel = absurd (omega arith)
cleared (suc n) s [] e must ticks fuel = (s, rw e refl, (e, must, ticks))
cleared (suc n) s (t ∷ queue) e must ticks fuel =
    let rest = popped_rest t s.task_round_robin_queue s in
    let (s', ran, kept) =
      cleared n (maybe_pop_round_robin_task t s) queue (popped_queue s t queue e) (rest.0 ∙ must)
        (subst (λ k. 0 < k) (sym rest.1) ticks) (omega arith) in
    (
      s',
      ap
            (λ q. elim (front q) [
              | none ↦ some s
              | some u ↦ clear_queue n (maybe_pop_round_robin_task u s)
            ])
            e
          ∙ ran,
      kept,
    )

abbrev pub KeptWaited : {W : Type 0} → Waited W → Type 0
KeptWaited (interrupted r) = Kept r.scheduler
KeptWaited (ignored r) = Kept r.scheduler
KeptWaited (changed t r) = Kept r.scheduler

-- A round fails, or keeps this.
abbrev pub KeptOr : {W : Type 0} → Option (Waited W) → Type 0
KeptOr none = Unit
KeptOr (some waited) = KeptWaited waited

module _ {W : Type 0} (m : Tracees W) (o : Waits W) where
  Kept-take_report :
      (p : Report) (t : Option ℕ) (r : Round W)
      → Kept r.scheduler
      → KeptOr (take_report m o p (t, r))
  unfolding take_report tell_task set_tracees
  Kept-take_report p none r k = k
  Kept-take_report p (some t) r k =
      if-both KeptOr ((r.scheduler.tasks t).unstable || m.may_be_blocked r.tracees t || p.is_exit) _
        none
        (λ _.
          let r' = tell_task m o t p r in
          if-both (KeptWaited {W = W})
            (is_other_tgid r'.scheduler.in_exec_tgid (r'.scheduler.tasks t).tgid) (ignored r')
            (changed t r') (λ _. k) (λ _. k))
        (λ _. tt)

  Kept-task_of : (p : Report) (r : Round W) → Kept r.scheduler → Kept (task_of m o p r).1.scheduler
  unfolding task_of clear_unstable set_task set_tracees
  Kept-task_of p r k = elim (Option-cases (o.find_task_from_rec_tid r.tracees p.tid)) [
    | inr (t, e) ↦
        rw (e, task_of)
          (if-both {A = Round W} (λ q. Kept q.scheduler) p.is_exec _ _ (λ _. k) (λ _. k))
    | inl e ↦
        rw (e, task_of)
          (if-both {A = Option ℕ × Round W} (λ q. Kept q.1.scheduler) p.is_exec _ _ (λ _. k)
            (λ _. k))
  ]

  Kept-interrupt : (r : Round W) → Kept r.scheduler → KeptOr (interrupt m o r)
  unfolding interrupt
  Kept-interrupt r k = go r.scheduler.current
    where
      go :
          (current : Option ℕ)
          → KeptOr {W = W} (elim current [
            | none ↦ none
            | some c ↦ if has_must_run r.scheduler then none else some (interrupted r)
          ])
      go none = tt
      go (some c) =
          if-both (KeptOr {W = W}) (has_must_run r.scheduler) none (some (interrupted r)) (λ _. tt)
            (λ _. k)

  pub Kept-wait_round : (r : Round W) → Kept r.scheduler → KeptOr (wait_round m o r)
  unfolding wait_round set_tracees
  Kept-wait_round r k = elim (Option-cases (o.waitpid r.tracees).0) [
    | inr (p, e) ↦
        let r1 = set_tracees (o.waitpid r.tracees).1 r in
        rw (e, wait_round)
          (Kept-take_report p (task_of m o p r1).0 (task_of m o p r1).1 (Kept-task_of p r1 k))
    | inl e ↦ rw (e, wait_round) (Kept-interrupt (set_tracees (o.waitpid r.tracees).1 r) k)
  ]

  pub Kept-wait_for_change :
      (n : ℕ) (r : Round W) → Kept r.scheduler → KeptOr (wait_for_change m o n r)
  unfolding wait_for_change
  Kept-wait_for_change zero r k = k
  Kept-wait_for_change (suc n) r k =
      go (wait_round m o r) refl (Kept-wait_round r k) (Kept-wait_for_change n)
    where
      go :
          (w : Option (Waited W))
          → wait_round m o r ≡ w
          → KeptOr w
          → ((r' : Round W) → Kept r'.scheduler → KeptOr (wait_for_change m o n r'))
          → KeptOr (wait_for_change m o (suc n) r)
      go none e h later = rw (e, wait_for_change) tt
      go (some (interrupted r')) e h later = rw (e, wait_for_change) h
      go (some (ignored r')) e h later = rw (e, wait_for_change) (later r' h)
      go (some (changed t r')) e h later = rw (e, wait_for_change) h
