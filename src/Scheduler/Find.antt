-- ===== src/Scheduler/Find.antt =====
-- scheduler.rs: the outer loop of `find_next_runnable_task` ends.
use rd.Prelude.{
  ℕ, zero, suc, ◌<◌, ltb, ◌==◌, Bool, Bool-cases, Option-cases, true, false, List, [], ◌∷◌, length,
  Option, none, some, ◌≡◌, ◌∙◌, refl, sym, ap, subst, inl, inr, arith,
}
use rd.Scheduler.PrioritySet.{PriorityTup, cmp}
use rd.Scheduler.Runnable.{
  Tracees, Round, filter, at_most, first_of, range_from, ask_order, max_priority, find_from,
  find_next_runnable_task,
}
use rd.Scheduler.Search.{
  Idle, Found, Same-refl, Found-later, BelowMax, BelowMax-filter, length-filter_lt, cons_head,
  first_runnable-Found,
}

-- A range that holds p holds all that is above p.
Upward : (PriorityTup → Bool) → Type 0
Upward g =
    (p q : PriorityTup) → g p ≡ true → at_most (first_of (suc p.priority)) q ≡ true → g q ≡ true

Upward-range : (start : PriorityTup) → Upward (at_most start)
unfolding Upward at_most cmp first_of
Upward-range start p q h k = ground (arith, h, k)

above_self : (p : PriorityTup) → at_most (first_of (suc p.priority)) p ≡ false
unfolding at_most cmp first_of
above_self p = ground arith

head_kept :
    (g : PriorityTup → Bool) (set : List PriorityTup) (p : PriorityTup) (range : List PriorityTup)
    → filter g set ≡ p ∷ range
    → g p ≡ true
unfolding filter
head_kept g [] p range e = absurd cc
head_kept g (q ∷ set) p range e = elim (Bool-cases (g q)) [
  | inl y ↦
      let kept : filter g (q ∷ set) ≡ q ∷ filter g set = rw y refl in
      ap g (sym (cons_head (sym kept ∙ e))) ∙ y
  | inr n ↦
      let skipped : filter g (q ∷ set) ≡ filter g set = rw n refl in
      head_kept g set p range (sym skipped ∙ e)
]

filter_all : (set : List PriorityTup) → filter (λ _. true) set ≡ set
unfolding filter
filter_all [] = refl
filter_all (p ∷ set) = ap (λ l. p ∷ l) (filter_all set)

kept_answer :
    {W : Type 0} (a : Option ℕ × Round W) (t : ℕ) (k : Option (Option ℕ × Round W))
    → a.0 ≡ some t
    → (elim a.0 [ some u ↦ some (some u, a.1) | none ↦ k ]) ≡ some a
kept_answer (some u, r) t k e = refl
kept_answer (none, r) t k e = absurd cc

module _ {W : Type 0} (m : Tracees W) (shuffle : List PriorityTup → List PriorityTup) where
  find_from-Found :
      (n : ℕ) (maybe_t : Option ℕ) (threshold : ℕ) (g : PriorityTup → Bool)
      (range : List PriorityTup) (r : Round W)
      → Idle r
      → Upward g
      → filter g r.scheduler.task_priority_set ≡ range
      → BelowMax r.scheduler.task_priority_set
      → length range < n
      → (found : Option ℕ × Round W) × (find_from m shuffle n maybe_t threshold range r
          ≡ some found)
        × Found r found
  unfolding find_from Upward BelowMax range_from
  find_from-Found zero maybe_t threshold g range r i up e below h = absurd (omega arith)
  find_from-Found (suc n) maybe_t threshold g [] r i up e below h = (
    (none, r),
    refl,
    record { same = Same-refl r.scheduler; nothing = λ _. i; chosen = λ t e. absurd cc },
  )
  find_from-Found (suc n) maybe_t threshold g (p ∷ range) r i up e below h =
      let set = r.scheduler.task_priority_set in
      let f = at_most (first_of (suc p.priority)) in
      let under : p.priority < max_priority = (subst BelowMax e (BelowMax-filter g set below)).0 in
      let (a, ran, found) =
        first_runnable-Found m (ask_order shuffle maybe_t p.priority r.scheduler) r i in
      let shorter : length (filter f set) < length (filter g set) =
        length-filter_lt f g set p range (λ q. up p q (head_kept g set p range e)) e
          (above_self p) in
      let small : (p.priority == max_priority) ≡ false = ground (arith, under) in
      let measure : length (filter g set) ≡ length (p ∷ range) = ap length e in
      elim (Bool-cases (ltb threshold p.priority)) [
        | inl over ↦ (
          (none, r),
          rw over refl,
          record { same = Same-refl r.scheduler; nothing = λ _. i; chosen = λ t e. absurd cc },
        )
        | inr within ↦ elim (Option-cases a.0) [
          | inl nobody ↦
              let (b, went, later) =
                find_from-Found n maybe_t threshold f (filter f set) a.1 (found.nothing nobody)
                  (Upward-range (first_of (suc p.priority))) (ap (filter f) found.same.set)
                  (rw found.same.set below) (omega arith) in
              (b, rw (within, small, ran, nobody) went, Found-later r a.1 b found.same later)
          | inr (t, somebody) ↦ (a, rw (within, small, ran) (kept_answer a t _ somebody), found)
        ]
      ]

  -- While no task must run and no priority in the set is i32::MAX, the search ends without a failed
  -- assertion or an overflow. If it finds no task, none must run. If it finds one by a wait
  -- (by_waitpid), that one must run; otherwise none must.
  pub find_next_runnable_task-Found :
      (maybe_t : Option ℕ) (threshold : ℕ) (r : Round W)
      → r.scheduler.must_run_task ≡ none
      → BelowMax r.scheduler.task_priority_set
      → (found : Option ℕ × Round W) × (find_next_runnable_task m shuffle maybe_t threshold r
          ≡ some found)
        × Found r found
  unfolding find_next_runnable_task Upward
  find_next_runnable_task-Found maybe_t threshold r i below =
      let s = r.scheduler in
      let r0 : Round W = record r { by_waitpid = false } in
      let (found, ran, f) =
        find_from-Found (suc (length s.task_priority_set)) maybe_t threshold (λ _. true)
          s.task_priority_set r0 (record { must_run = i; waited = refl }) (λ p q h k. refl)
          (filter_all s.task_priority_set) below (omega arith) in
      (found, ran, Found-later r r0 found (Same-refl s) f)
