-- ===== src/Scheduler/Timeslice.antt =====
-- scheduler.rs: the end of a timeslice.
use rd.Prelude.{ℕ, ◌+◌, ◌≤◌, ◌<◌, ◌%◌, ◌^◌, min, some, if◌then◌else◌, ◌≡◌, ap, ◌∙◌, arith}
use native.Mathlib.Nat.{mod-lt}
use rd.Scheduler.State.{Scheduler}
use rd.Scheduler.Runnable.{setup_new_timeslice, start_timeslice}

-- With a current task, a positive max_ticks and a positive drawn length, and ticks that stay below
-- 2 ^ 64, a new timeslice ends at the current ticks of the task or later, but before max_ticks more.
pub setup_new_timeslice_bounds :
    (duration draw t : ℕ) (tick_count : ℕ → ℕ) (s : Scheduler)
    → s.current ≡ some t
    → 0 < s.max_ticks
    → 0 < duration
    → tick_count t + s.max_ticks < 2 ^ 64
    → (r : Scheduler) × (setup_new_timeslice duration draw tick_count s ≡ some r)
      × (tick_count t ≤ r.current_timeslice_end)
      × (r.current_timeslice_end < tick_count t + s.max_ticks)
unfolding setup_new_timeslice start_timeslice
setup_new_timeslice_bounds duration draw t tick_count s now h k fits =
    let bound = min s.max_ticks (if s.enable_chaos then duration else s.max_ticks) in
    let within : draw % bound < bound = mod-lt draw (ground arith) in
    let limit : bound ≤ s.max_ticks = ground arith in
    let ticks = tick_count t in
    (
      record s { current_timeslice_end = (ticks + draw % bound) % 2 ^ 64 },
      ap (λ c. start_timeslice duration draw tick_count c s) now ∙ ground arith,
      ground (arith, within, limit),
      ground (arith, within, limit),
    )
