-- ===== src/Scheduler/Rounds.antt =====
-- scheduler.rs: a round of the first loop of `reschedule` fails no assertion.
use rd.Prelude.{
  ℕ, ◌-◌, ◌<◌, ◌≤◌, ◌==◌, ==_refl, Bool-cases, true, false, List, length, Option-cases, none, some,
  ◌≡◌, ◌∙◌, refl, sym, ap, subst, inl, inr, ◌⊎◌, arith, if◌then◌else◌, if-both,
}
use rd.Scheduler.PrioritySet.{PriorityTup}
use rd.Scheduler.State.{Scheduler, front}
use rd.Scheduler.Runnable.{Tracees, Round, agrees, validate_scheduled_task, max_priority}
use rd.Scheduler.Search.{Idle, May, Same, Same-refl, is_task_runnable-Answered}
use rd.Scheduler.Find.{find_next_runnable_task-Found}
use rd.Scheduler.Choose.{
  Choice, carry_on, next, Turn, leave, again, pop_task, may_carry_on, sleeps, try_others,
  try_current, keep_or_try, try_higher, round,
}
use rd.Scheduler.Ready.{
  Ready, Ready-Same, pop_task-Ready, pop_task-length, pop_task-length_lt, pop_task-interval,
}

-- The choice is sound: the current task passes the assertions, no task was found and none must run, or
-- the next task is at the head of the queue, if there is one, and is the one that must run, if there is.
unfoldable pub Picked : {W : Type 0} → Choice → Round W → Type 0
Picked carry_on r = validate_scheduled_task r.scheduler ≡ true
Picked (next none) r = Idle r
Picked (next (some t)) r =
    May t r.scheduler.tasks r × (agrees (front r.scheduler.task_round_robin_queue) t ≡ true)

abbrev pub Sound : {W : Type 0} → Choice → Round W → Type 0
Sound c r = Picked c r × (0 < r.scheduler.max_ticks)

-- A round ends with such a choice, or the queue is shorter, or it slept in an interval.
unfoldable pub Turned : {W : Type 0} → Round W → Turn W → Type 0
Turned r (leave c r') = Sound c r'
Turned r (again r') =
    Ready r'
    × (length r'.scheduler.task_round_robin_queue ≤ length r.scheduler.task_round_robin_queue)
    × ((length r'.scheduler.task_round_robin_queue < length r.scheduler.task_round_robin_queue)
        ⊎ (r.scheduler.high_priority_only ≡ true))

ticks-Same :
    {W : Type 0} (r r' : Round W)
    → Ready r
    → Same r.scheduler r'.scheduler
    → 0 < r'.scheduler.max_ticks
ticks-Same r r' a e = subst (λ k. 0 < k) (sym e.ticks) a.ticks

Turned-from :
    {W : Type 0} (r r' : Round W) (turn : Turn W)
    → length r'.scheduler.task_round_robin_queue ≤ length r.scheduler.task_round_robin_queue
    → r'.scheduler.high_priority_only ≡ r.scheduler.high_priority_only
    → Turned r' turn
    → Turned r turn
unfolding Turned
Turned-from r r' (leave c q) le e h = h
Turned-from r r' (again q) le e (ready, shorter, moved) = (
  ready,
  omega (arith, shorter, le),
  elim moved [ inl less ↦ inl (omega (arith, less, le)) | inr slept ↦ inr (sym e ∙ slept) ],
)

carries-agrees :
    (c tick_count : ℕ) (s : Scheduler)
    → may_carry_on c tick_count s ≡ true
    → agrees (front s.task_round_robin_queue) c ≡ true
unfolding may_carry_on
carries-agrees c tick_count s h = ground (arith, h)

-- A task that was asked and is runnable may carry on, when it is at the head of the queue.
pub asked-valid :
    {W : Type 0} (c : ℕ) (r : Round W)
    → r.scheduler.current ≡ some c
    → May c r.scheduler.tasks r
    → agrees (front r.scheduler.task_round_robin_queue) c ≡ true
    → validate_scheduled_task r.scheduler ≡ true
unfolding validate_scheduled_task agrees
asked-valid c r now (inl i) head = rw (validate_scheduled_task, now, i.must_run) (rw head refl)
asked-valid c r now (inr (must, _, _)) head =
    rw (validate_scheduled_task, now, must, ==_refl) (rw head refl)

module _ {W : Type 0} (m : Tracees W) (shuffle : List PriorityTup → List PriorityTup) where
  Turned-try_others :
      (r : Round W)
      → Ready r
      → (turn : Turn W) × (try_others m shuffle r ≡ some turn) × Turned r turn
  unfolding try_others Turned Picked agrees sleeps
  Turned-try_others r a = elim (Option-cases (front r.scheduler.task_round_robin_queue)) [
    | inr (t, e) ↦
        let (b, ran, answer) = is_task_runnable-Answered m t r a.idle in
        (
          (if b.0 then leave (next (some t)) b.1 else again (pop_task t b.1)),
          rw (e, try_others) (rw ran refl),
          if-both (Turned r) b.0 (leave (next (some t)) b.1) (again (pop_task t b.1))
              (λ yes_b. (
                (
                  subst (λ ts. May t ts b.1) (sym answer.same.tasks) answer.accepted,
                  ap (λ q. agrees (front q) t) answer.same.queue
                      ∙ ap (λ o. agrees o t) e
                      ∙ ==_refl t,
                ),
                ticks-Same r b.1 a answer.same,
              ))
              (λ no_b.
                (let there : front b.1.scheduler.task_round_robin_queue ≡ some t =
                    ap front answer.same.queue ∙ e in
                  let shorter = pop_task-length_lt t b.1 there in
                  (
                    pop_task-Ready t b.1 (Ready-Same r b.1 a answer.same (answer.refused no_b)),
                    omega (arith, ap length answer.same.queue),
                    inl (omega (arith, ap length answer.same.queue)),
                  ))),
        )
    | inl e ↦
        let (found, ran, f) =
          find_next_runnable_task-Found m shuffle r.scheduler.current max_priority r a.idle.must_run
            a.below in
        (
          (if sleeps found.0 found.1 then again found.1 else leave (next found.0) found.1),
          rw (e, try_others) (rw ran refl),
          if-both (Turned r) (sleeps found.0 found.1) (again found.1) (leave (next found.0) found.1)
              (λ y. elim (Option-cases found.0) [
                | inl nobody ↦ absurd (ground (arith, sym (ap (λ o. sleeps o found.1) nobody) ∙ y))
                | inr (t, somebody) ↦
                    let slept : sleeps (some t) found.1 ≡ true =
                      sym (ap (λ o. sleeps o found.1) somebody) ∙ y in
                    elim (f.chosen t somebody) [
                      | inl i ↦ (
                        Ready-Same r found.1 a f.same i,
                        omega (arith, ap length f.same.queue),
                        inr (sym f.same.interval ∙ ground (arith, slept)),
                      )
                      | inr (_, waited, _) ↦ absurd (ground (arith, slept, waited))
                    ]
              ])
              (λ n. (
                elim (Option-cases found.0) [
                  | inl nobody ↦
                      subst (λ o. Picked (next o) found.1) (sym nobody) (f.nothing nobody)
                  | inr (t, somebody) ↦
                      subst (λ o. Picked (next o) found.1) (sym somebody)
                        (
                          subst (λ ts. May t ts found.1) (sym f.same.tasks) (f.chosen t somebody),
                          ap (λ q. agrees (front q) t) f.same.queue ∙ ap (λ o. agrees o t) e,
                        )
                ],
                ticks-Same r found.1 a f.same,
              )),
        )
  ]

  Turned-rejected :
      (c : ℕ) (r r' : Round W)
      → Ready r'
      → Same r.scheduler r'.scheduler
      → (turn : Turn W) × (try_others m shuffle (pop_task c r') ≡ some turn) × Turned r turn
  Turned-rejected c r r' a e =
      let (turn, ran, h) = Turned-try_others (pop_task c r') (pop_task-Ready c r' a) in
      (
        turn,
        ran,
        Turned-from r (pop_task c r') turn (omega (arith, pop_task-length c r', ap length e.queue))
            (pop_task-interval c r' ∙ e.interval) h,
      )

  Turned-keep_or_try :
      (c : ℕ) (r : Round W)
      → Ready r
      → r.scheduler.current ≡ some c
      → (turn : Turn W) × (keep_or_try m shuffle c r ≡ some turn) × Turned r turn
  unfolding keep_or_try try_current Turned Picked
  Turned-keep_or_try c r a now =
      elim (Bool-cases (may_carry_on c (m.tick_count r.tracees c) r.scheduler)) [
        | inr may_not ↦
            let (turn, ran, h) = Turned-rejected c r r a (Same-refl r.scheduler) in
            (turn, rw (may_not, keep_or_try, try_current) ran, h)
        | inl may ↦
            let (b, ran, answer) = is_task_runnable-Answered m c r a.idle in
            elim (Bool-cases b.0) [
              | inr no_b ↦
                  let (turn, went, h) =
                    Turned-rejected c r b.1 (Ready-Same r b.1 a answer.same (answer.refused no_b))
                      answer.same in
                  (turn, rw (may, keep_or_try, try_current) (rw (ran, no_b) went), h)
              | inl yes_b ↦ (
                leave carry_on b.1,
                rw (may, keep_or_try, try_current) (rw (ran, yes_b) refl),
                (
                  asked-valid c b.1 (answer.same.current ∙ now)
                      (subst (λ ts. May c ts b.1) (sym answer.same.tasks) answer.accepted)
                      (ap (λ q. agrees (front q) c) answer.same.queue
                        ∙ carries-agrees c (m.tick_count r.tracees c) r.scheduler may),
                  ticks-Same r b.1 a answer.same,
                ),
              )
            ]
      ]

  Turned-try_higher :
      (c : ℕ) (r : Round W)
      → Ready r
      → r.scheduler.current ≡ some c
      → front r.scheduler.task_round_robin_queue ≡ none
      → (turn : Turn W) × (try_higher m shuffle c r ≡ some turn) × Turned r turn
  unfolding try_higher Turned Picked agrees
  Turned-try_higher c r a now e =
      let low : ((r.scheduler.tasks c).priority == 0) ≡ false = ground (arith, (a.between c).0) in
      let (found, ran, f) =
        find_next_runnable_task-Found m shuffle (some c) ((r.scheduler.tasks c).priority - 1) r
          a.idle.must_run a.below in
      elim (Option-cases found.0) [
        | inl nobody ↦
            let (turn, went, h) =
              Turned-keep_or_try c found.1 (Ready-Same r found.1 a f.same (f.nothing nobody))
                (f.same.current ∙ now) in
            (
              turn,
              rw (low, try_higher) (rw (ran, nobody) went),
              Turned-from r found.1 turn (omega (arith, ap length f.same.queue)) f.same.interval h,
            )
        | inr (t, somebody) ↦ (
          leave (next (some t)) found.1,
          rw (low, try_higher) (rw (ran, somebody) refl),
          (
            (
              subst (λ ts. May t ts found.1) (sym f.same.tasks) (f.chosen t somebody),
              ap (λ q. agrees (front q) t) f.same.queue ∙ ap (λ o. agrees o t) e,
            ),
            ticks-Same r found.1 a f.same,
          ),
        )
      ]

  pub Turned-round :
      (r : Round W) → Ready r → (turn : Turn W) × (round m shuffle r ≡ some turn) × Turned r turn
  unfolding round Turned Picked
  Turned-round r a = elim (Option-cases r.scheduler.in_exec_tgid) [
    | inr (tgid, exec) ↦ (leave (next none) r, ground (arith, exec), (a.idle, a.ticks))
    | inl free ↦ elim (Option-cases r.scheduler.current) [
      | inl nobody ↦
          let (turn, ran, h) = Turned-try_others r a in (turn, rw (free, round) (rw nobody ran), h)
      | inr (c, now) ↦ elim (Option-cases (front r.scheduler.task_round_robin_queue)) [
        | inl e ↦
            let (turn, ran, h) = Turned-try_higher c r a now e in
            (turn, rw (free, round) (rw now (rw e ran)), h)
        | inr (t, e) ↦
            let (turn, ran, h) = Turned-keep_or_try c r a now in
            (turn, rw (free, round) (rw now (rw e ran)), h)
      ]
    ]
  ]
