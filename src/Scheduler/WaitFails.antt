-- ===== src/Scheduler/WaitFails.antt =====
-- scheduler.rs: the assertions that fail in the loop of `reschedule` over waitpid.
use rd.Prelude.{
  ℕ, zero, suc, Bool-cases, ◌||◌, Option, Option-cases, none, some, false, ◌≡◌, refl, ap, inl, inr,
  ◌⊎◌, arith,
}
use rd.Scheduler.Runnable.{Tracees, Round, set_tracees, has_must_run}
use rd.Scheduler.Waiting.{
  Report, Waits, Waited, interrupted, ignored, changed, task_of, take_report, interrupt, wait_round,
  wait_for_change,
}
use rd.Scheduler.WaitKept.{Kept, KeptOr, Kept-wait_round}

module _ {W : Type 0} (m : Tracees W) (o : Waits W) where
  -- waitpid is interrupted where there is no current task, or it reports a task that is not unstable,
  -- may not be blocked and did not exit.
  abbrev pub FailsNow : Round W → Type 0
  FailsNow r =
      (((o.waitpid r.tracees).0 ≡ none) × (r.scheduler.current ≡ none))
      ⊎ ((p : Report) × (t : ℕ) × (r' : Round W) × ((o.waitpid r.tracees).0 ≡ some p)
          × (task_of m o p (set_tracees (o.waitpid r.tracees).1 r) ≡ (some t, r'))
          × ((r'.scheduler.tasks t).unstable ≡ false)
          × (m.may_be_blocked r'.tracees t ≡ false)
          × (p.is_exit ≡ false))

  -- One of the first rounds does, and those before it go on.
  abbrev pub Fails : ℕ → Round W → Type 0
  Fails zero r = ⊥
  Fails (suc n) r =
      FailsNow r ⊎ ((r' : Round W) × (wait_round m o r ≡ some (ignored r')) × Fails n r')

  interrupt-none :
      (r : Round W)
      → r.scheduler.must_run_task ≡ none
      → interrupt m o r ≡ none
      → r.scheduler.current ≡ none
  unfolding interrupt has_must_run
  interrupt-none r must h = elim (Option-cases r.scheduler.current) [
    | inl e ↦ e
    | inr (c, e) ↦ absurd (ground (arith, must, e, h))
  ]

  take_report-none :
      (p : Report) (t : Option ℕ) (r : Round W)
      → take_report m o p (t, r) ≡ none
      → (u : ℕ) × (t ≡ some u)
        × ((r.scheduler.tasks u).unstable ≡ false)
        × (m.may_be_blocked r.tracees u ≡ false)
        × (p.is_exit ≡ false)
  unfolding take_report
  take_report-none p none r h = absurd (cc)
  take_report-none p (some t) r h =
      elim (Bool-cases
        ((r.scheduler.tasks t).unstable || m.may_be_blocked r.tracees t || p.is_exit)) [
          | inl e ↦ absurd (ground (arith, e, h))
          | inr e ↦ (t, refl, ground (arith, e), ground (arith, e), ground (arith, e))
        ]

  wait_round-none : (r : Round W) → Kept r.scheduler → wait_round m o r ≡ none → FailsNow r
  unfolding wait_round set_tracees
  wait_round-none r k h =
      let r1 = set_tracees (o.waitpid r.tracees).1 r in
      elim (Option-cases (o.waitpid r.tracees).0) [
        | inl e ↦ inl (e, interrupt-none r1 k.1 (rw (e, wait_round) at h))
        | inr (p, e) ↦
            let (t, is, stable, unblocked, alive) =
              take_report-none p (task_of m o p r1).0 (task_of m o p r1).1
                (rw (e, wait_round) at h) in
            inr (
              p,
              t,
              (task_of m o p r1).1,
              e,
              ap (λ x. (x, (task_of m o p r1).1)) is,
              stable,
              unblocked,
              alive,
            )
      ]

  pub wait_for_change-none :
      (n : ℕ) (r : Round W) → Kept r.scheduler → wait_for_change m o n r ≡ none → Fails n r
  unfolding wait_for_change
  wait_for_change-none zero r k h = absurd (cc)
  wait_for_change-none (suc n) r k h =
      go (wait_for_change-none n) (wait_round m o r) refl (Kept-wait_round m o r k) h
    where
      go :
          ((r' : Round W) → Kept r'.scheduler → wait_for_change m o n r' ≡ none → Fails n r')
          → (w : Option (Waited W)) → wait_round m o r ≡ w
          → KeptOr w
          → (elim w [
            | none ↦ none
            | some waited ↦ elim waited [
              | interrupted r' ↦ some (interrupted r')
              | ignored r' ↦ wait_for_change m o n r'
              | changed t r' ↦ some (changed t r')
            ]
          ])
            ≡ none
          → Fails (suc n) r
      go later none e kept h = inl (wait_round-none r k e)
      go later (some (interrupted r')) e kept h = absurd (cc)
      go later (some (ignored r')) e kept h = inr (r', e, later r' kept h)
      go later (some (changed t r')) e kept h = absurd (cc)
