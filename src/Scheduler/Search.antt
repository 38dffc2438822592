-- ===== src/Scheduler/Search.antt =====
-- scheduler.rs: `find_next_runnable_task` ends, and never asks again once a task must run.
use rd.Prelude.{
  ℕ, ◌<◌, ◌≤◌, if-both, Bool, Bool-cases, true, false, not, List, [], ◌∷◌, length, Option, none,
  some, ◌≡◌, ◌∙◌, refl, sym, ap, subst, ◌⊎◌, inl, inr, arith,
}
use rd.Scheduler.PrioritySet.{PriorityTup}
use rd.Scheduler.State.{RecordTask, Scheduler}
use rd.Scheduler.Runnable.{
  Tracees, Round, set_must_run, set_enable_poll, set_tracees, has_must_run, stopped_runnable,
  waiting_runnable, is_task_runnable, first_runnable, filter, max_priority,
}

-- Nobody must run, and no wait has been noted.
pub record Idle {W : Type 0} (r : Round W) : Type 0 where
  pub must_run : r.scheduler.must_run_task ≡ none
  pub waited : r.by_waitpid ≡ false

-- What asking a task leaves as it is.
pub record Same (s s' : Scheduler) : Type 0 where
  pub set : s'.task_priority_set ≡ s.task_priority_set
  pub queue : s'.task_round_robin_queue ≡ s.task_round_robin_queue
  pub tasks : s'.tasks ≡ s.tasks
  pub current : s'.current ≡ s.current
  pub interval : s'.high_priority_only ≡ s.high_priority_only
  pub ticks : s'.max_ticks ≡ s.max_ticks

pub Same-trans : (s s' s'' : Scheduler) → Same s s' → Same s' s'' → Same s s''
Same-trans s s' s'' a b = record {
  set = b.set ∙ a.set;
  queue = b.queue ∙ a.queue;
  tasks = b.tasks ∙ a.tasks;
  current = b.current ∙ a.current;
  interval = b.interval ∙ a.interval;
  ticks = b.ticks ∙ a.ticks;
}

pub Same-refl : (s : Scheduler) → Same s s
Same-refl s = record {
  set = refl;
  queue = refl;
  tasks = refl;
  current = refl;
  interval = refl;
  ticks = refl;
}

-- Nobody must run, or the task t, which a wait showed to be ready.
abbrev pub May : {W : Type 0} → ℕ → (ℕ → RecordTask) → Round W → Type 0
May t tasks r =
    Idle r
    ⊎ ((r.scheduler.must_run_task ≡ some t) × (r.by_waitpid ≡ true) × ((tasks t).unstable ≡ false))

-- What an answer about the task t, asked in the round r, tells.
pub record Answered {W : Type 0} (t : ℕ) (r : Round W) (a : Bool × Round W) : Type 0 where
  pub same : Same r.scheduler a.1.scheduler
  pub refused : a.0 ≡ false → Idle a.1
  pub accepted : May t r.scheduler.tasks a.1

module _ {W : Type 0} (m : Tracees W) where
  must :
      (t : ℕ) (r r' : Round W)
      → Same r.scheduler r'.scheduler
      → (r.scheduler.tasks t).unstable ≡ false
      → Answered t r (true, set_must_run t r')
  unfolding set_must_run
  must t r r' e stable = record {
    same = record {
      set = e.set;
      queue = e.queue;
      tasks = e.tasks;
      current = e.current;
      interval = e.interval;
      ticks = e.ticks;
    };
    refused = λ h. absurd cc;
    accepted = inr (refl, refl, stable);
  }

  idle :
      (t : ℕ) (b : Bool) (r r' : Round W)
      → Same r.scheduler r'.scheduler
      → Idle r'
      → Answered t r (b, r')
  idle t b r r' e i = record { same = e; refused = λ h. i; accepted = inl i }

  stopped :
      (t : ℕ) (r : Round W)
      → Idle r
      → (r.scheduler.tasks t).unstable ≡ false
      → Answered t r (stopped_runnable m t r)
  unfolding stopped_runnable set_tracees set_enable_poll
  stopped t r i stable =
      if-both (Answered t r) (m.is_signal_pending r.tracees t) _ _
        (λ _. must t r _ (Same-refl r.scheduler) stable)
        (λ _.
          idle t _ r _
            (record {
              set = refl;
              queue = refl;
              tasks = refl;
              current = refl;
              interval = refl;
              ticks = refl;
            })
            (record { must_run = i.must_run; waited = i.waited }))

  waiting :
      (t : ℕ) (r : Round W)
      → Idle r
      → (r.scheduler.tasks t).unstable ≡ false
      → Answered t r (waiting_runnable m t r)
  unfolding waiting_runnable set_tracees
  waiting t r i stable =
      let same = Same-refl r.scheduler in
      if-both (Answered t r) (not (m.is_running r.tracees t)) _ _ (λ _. must t r _ same stable)
        (λ _.
          if-both (Answered t r) (m.in_nonblocking_syscall r.tracees t) _ _
            (λ _. must t r _ same stable)
            (λ _.
              if-both (Answered t r) (m.try_wait r.tracees t).0 _ _ (λ _. must t r _ same stable)
                (λ _. idle t _ r _ same (record { must_run = i.must_run; waited = i.waited }))))

  -- While nobody must run, a task can be asked. It is refused without a wait; if it is accepted
  -- after a wait, it is the one that must run.
  pub is_task_runnable-Answered :
      (t : ℕ) (r : Round W)
      → Idle r
      → (a : Bool × Round W) × (is_task_runnable m t r ≡ some a) × Answered t r a
  unfolding is_task_runnable has_must_run
  is_task_runnable-Answered t r i = (
    _,
    rw i.must_run refl,
    if-both (Answered t r) (r.scheduler.tasks t).unstable _ _
        (λ _. idle t true r r (Same-refl r.scheduler) i)
        (λ stable.
          if-both (Answered t r) (not (m.may_be_blocked r.tracees t)) _ _
            (λ _. idle t true r r (Same-refl r.scheduler) i)
            (λ _.
              if-both (Answered t r) (m.is_stopped r.tracees t) _ _ (λ _. stopped t r i stable)
                (λ _. waiting t r i stable))),
  )

-- What a search from the round r that ends with `found` tells.
pub record Found {W : Type 0} (r : Round W) (found : Option ℕ × Round W) : Type 0 where
  pub same : Same r.scheduler found.1.scheduler
  pub nothing : found.0 ≡ none → Idle found.1
  pub chosen : (t : ℕ) → found.0 ≡ some t → May t r.scheduler.tasks found.1

pub Found-later :
    {W : Type 0} (r r' : Round W) (found : Option ℕ × Round W)
    → Same r.scheduler r'.scheduler
    → Found r' found
    → Found r found
Found-later r r' found e f = record {
  same = Same-trans r.scheduler r'.scheduler found.1.scheduler e f.same;
  nothing = f.nothing;
  chosen = λ t h. subst (λ tasks. May t tasks found.1) e.tasks (f.chosen t h);
}

-- Every priority in the set is less than i32::MAX.
unfoldable pub BelowMax : List PriorityTup → Type 0
BelowMax [] = Unit
BelowMax (p ∷ set) = (p.priority < max_priority) × BelowMax set

pub BelowMax-filter :
    (f : PriorityTup → Bool) (set : List PriorityTup) → BelowMax set → BelowMax (filter f set)
unfolding BelowMax filter
BelowMax-filter f [] h = h
BelowMax-filter f (p ∷ set) h =
    if-both BelowMax (f p) _ _ (λ _. (h.0, BelowMax-filter f set h.1))
      (λ _. BelowMax-filter f set h.1)

pub length-filter :
    (f g : PriorityTup → Bool) (set : List PriorityTup)
    → ((q : PriorityTup) → f q ≡ true → g q ≡ true)
    → length (filter f set) ≤ length (filter g set)
unfolding filter
length-filter f g [] h = omega arith
length-filter f g (q ∷ set) h = ground (arith, h q, length-filter f g set h)

pub cons_head : {p q : PriorityTup} {xs ys : List PriorityTup} → p ∷ xs ≡ q ∷ ys → p ≡ q
cons_head e = cc

-- A range that starts after the head of another is shorter.
pub length-filter_lt :
    (f g : PriorityTup → Bool) (set : List PriorityTup) (p : PriorityTup) (range : List PriorityTup)
    → ((q : PriorityTup) → f q ≡ true → g q ≡ true)
    → filter g set ≡ p ∷ range
    → f p ≡ false
    → length (filter f set) < length (filter g set)
unfolding filter
length-filter_lt f g [] p range h e out = absurd cc
length-filter_lt f g (q ∷ set) p range h e out = elim (Bool-cases (g q)) [
  | inl yes_g ↦
      let kept : filter g (q ∷ set) ≡ q ∷ filter g set = rw yes_g refl in
      let head : q ≡ p = cons_head (sym kept ∙ e) in
      let cut : f q ≡ false = ap f head ∙ out in ground (arith, cut, yes_g, length-filter f g set h)
  | inr no_g ↦
      let skipped : filter g (q ∷ set) ≡ filter g set = rw no_g refl in
      ground (arith, h q, no_g, length-filter_lt f g set p range h (sym skipped ∙ e) out)
]

module _ {W : Type 0} (m : Tracees W) where
  pub first_runnable-Found :
      (ps : List PriorityTup) (r : Round W)
      → Idle r
      → (found : Option ℕ × Round W) × (first_runnable m ps r ≡ some found) × Found r found
  unfolding first_runnable
  first_runnable-Found [] r i = (
    (none, r),
    refl,
    record { same = Same-refl r.scheduler; nothing = λ _. i; chosen = λ t e. absurd cc },
  )
  first_runnable-Found (p ∷ ps) r i =
      let (a, ran, answered) = is_task_runnable-Answered m p.task r i in
      elim (Bool-cases a.0) [
        | inl yes_a ↦ (
          (some p.task, a.1),
          rw (ran, first_runnable, yes_a) refl,
          record {
            same = answered.same;
            nothing = λ e. absurd cc;
            chosen = λ t e.
                let same : p.task ≡ t = cc in
                subst (λ u. May u r.scheduler.tasks a.1) same answered.accepted;
          },
        )
        | inr no_a ↦
            (let (found, went, f) = first_runnable-Found ps a.1 (answered.refused no_a) in
              (found, rw (ran, first_runnable, no_a) went, Found-later r a.1 found answered.same f))
      ]
