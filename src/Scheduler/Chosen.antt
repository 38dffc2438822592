-- ===== src/Scheduler/Chosen.antt =====
-- scheduler.rs: the first loop of `reschedule` ends, with a sound choice.
use rd.Prelude.{
  ℕ, zero, suc, ◌+◌, ◌<◌, Bool, false, List, [], ◌∷◌, length, some, ◌≡◌, refl, inl, inr, arith,
}
use rd.Scheduler.PrioritySet.{PriorityTup}
use rd.Scheduler.Runnable.{Tracees, Round}
use rd.Scheduler.Choose.{Choice, Turn, leave, again, set_interval, round, choose}
use rd.Scheduler.Ready.{Ready}
use rd.Scheduler.Rounds.{Sound, Turned, Turned-round}

module _ {W : Type 0} (m : Tracees W) (shuffle : List PriorityTup → List PriorityTup) where
  Ready-interval : (i : Bool) (r : Round W) → Ready r → Ready (set_interval i r)
  unfolding set_interval
  Ready-interval i r a = record {
    idle = record { must_run = a.idle.must_run; waited = a.idle.waited };
    below = a.below;
    between = a.between;
    ticks = a.ticks;
  }

  -- When nobody must run and no wait was noted, no task has the greatest or the least priority, and there
  -- is fuel for the tasks in the queue, the rounds in an interval and one more, the first loop of
  -- reschedule ends without a failed assertion or an overflow, and its choice is sound.
  pub choose-Sound :
      (n : ℕ) (intervals : List Bool) (r : Round W)
      → Ready r
      → length r.scheduler.task_round_robin_queue + length intervals < n
      → (c : Choice) × (r' : Round W) × (choose m shuffle n intervals r ≡ some (c, r')) × Sound c r'
  unfolding choose Turned set_interval
  choose-Sound zero intervals r a fuel = absurd (omega arith)
  choose-Sound (suc n) [] r a fuel =
      let (turn, ran, h) =
        Turned-round m shuffle (set_interval false r) (Ready-interval false r a) in
      go (λ r' ready fits. choose-Sound n [] r' ready (omega (arith, fits))) turn ran h
    where
      go :
          ((r' : Round W)
            → Ready r'
            → length r'.scheduler.task_round_robin_queue < n
            → (c : Choice) × (q : Round W) × (choose m shuffle n [] r' ≡ some (c, q)) × Sound c q)
          → (turn : Turn W) → round m shuffle (set_interval false r) ≡ some turn
          → Turned (set_interval false r) turn
          → (c : Choice) × (r' : Round W) × (choose m shuffle (suc n) [] r ≡ some (c, r'))
            × Sound c r'
      go later (leave c r') ran h = (c, r', rw (ran, choose) refl, h)
      go later (again r') ran (ready, _, inl less) =
          let (c, q, went, picked) = later r' ready (omega (arith, less)) in
          (c, q, rw (ran, choose) went, picked)
      go later (again r') ran (_, _, inr slept) = absurd (ground (arith, slept))
  choose-Sound (suc n) (i ∷ intervals) r a fuel =
      let (turn, ran, h) = Turned-round m shuffle (set_interval i r) (Ready-interval i r a) in
      go (λ r' ready fits. choose-Sound n intervals r' ready fits) turn ran h
    where
      go :
          ((r' : Round W)
            → Ready r'
            → length r'.scheduler.task_round_robin_queue + length intervals < n
            → (c : Choice) × (q : Round W) × (choose m shuffle n intervals r' ≡ some (c, q))
              × Sound c q)
          → (turn : Turn W) → round m shuffle (set_interval i r) ≡ some turn
          → Turned (set_interval i r) turn
          → (c : Choice) × (r' : Round W) × (choose m shuffle (suc n) (i ∷ intervals) r
              ≡ some (c, r'))
            × Sound c r'
      go later (leave c r') ran h = (c, r', rw (ran, choose) refl, h)
      go later (again r') ran (ready, shorter, _) =
          let (c, q, went, picked) = later r' ready (omega (arith, shorter)) in
          (c, q, rw (ran, choose) went, picked)
