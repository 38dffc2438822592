-- ===== src/Scheduler/Examples.antt =====
-- scheduler.rs: a recording with two tasks.
use rd.Prelude.{
  ℕ, ◌+◌, ◌≤◌, ◌<◌, ◌==◌, Bool, true, false, List, [], ◌∷◌, ◌++◌, Option, some, ◌≡◌, refl, inl,
  arith,
}
use rd.Scheduler.State.{
  RecordTask, Scheduler, new, zero_priority, on_create_task, insert_task, tup,
  schedule_one_round_robin, maybe_reset_priorities,
}
use rd.Scheduler.PrioritySet.{insert, cmp}
use rd.Scheduler.Placed.{Placed, occurrences, with_task}
use rd.Scheduler.Moves.{Fresh}
use rd.Scheduler.Queue.{schedule_one_round_robin-Placed}
use rd.Scheduler.Reachable.{Reachable, start, create, switch, Reachable-Placed}
use rd.Scheduler.Runnable.{Tracees, Round, find_next_runnable_task, setup_new_timeslice}
use rd.Scheduler.Search.{Found, BelowMax}
use rd.Scheduler.Find.{find_next_runnable_task-Found}
use rd.Scheduler.Choose.{Choice, choose}
use rd.Scheduler.Ready.{Ready}
use rd.Scheduler.Chosen.{choose-Sound}
use rd.Scheduler.Rounds.{Sound}
use rd.Scheduler.Waiting.{Waits}
use rd.Scheduler.Reschedule.{start_round}
use rd.Scheduler.Timeslice.{setup_new_timeslice_bounds}

abbrev task : ℕ → RecordTask
task t = record {
  priority = zero_priority;
  stable_serial = t;
  tgid = 1;
  tid = t;
  in_round_robin_queue = false;
  stable_exit = false;
  unstable = false;
}

abbrev no_task : Scheduler
no_task = new 500000 false task

abbrev one_task : Scheduler
one_task = on_create_task false 1 no_task

abbrev two_tasks : Scheduler
two_tasks = record (on_create_task false 2 one_task) { current = some 1; current_timeslice_end = 9 }

abbrev nobody : ℕ → Bool
nobody t = false

abbrev both : ℕ → Bool
both = with_task 2 (with_task 1 nobody)

two_tasks-Reachable : Reachable both two_tasks
unfolding on_create_task insert_task new Fresh
two_tasks-Reachable = switch both (on_create_task false 2 one_task) (some 1) 9 (
    create (with_task 1 nobody) one_task false 2
      (create nobody no_task false 1 (start 500000 false task) refl refl (λ u e f. f)) refl refl
      (λ u e f. f))

Reachable-Placed_example : Placed both two_tasks
Reachable-Placed_example = Reachable-Placed two_tasks-Reachable

two_tasks-Placed : Placed both two_tasks
two_tasks-Placed = Reachable-Placed two_tasks-Reachable

still_out : (two_tasks.tasks 1).in_round_robin_queue ≡ false
unfolding on_create_task insert_task new
still_out = refl

schedule_one_round_robin-Placed_example :
    (r : Scheduler) × (schedule_one_round_robin 1 two_tasks ≡ some r)
    × Placed both r
    × (r.task_priority_set ≡ [])
    × ((u : ℕ) → both u ≡ true → occurrences u r.task_round_robin_queue ≡ 1)
    × ((queue : List ℕ) × (r.task_round_robin_queue ≡ queue ++ 1 ∷ []))
    × (r.current_timeslice_end ≡ 0)
schedule_one_round_robin-Placed_example =
    schedule_one_round_robin-Placed both two_tasks 1 two_tasks-Placed refl refl (inl still_out)

-- A tracee that is blocked until it is waited for; the state counts the waits.
abbrev tracees : Tracees ℕ
tracees = record {
  may_be_blocked = λ w t. true;
  is_stopped = λ w t. false;
  is_signal_pending = λ w t. false;
  resume_execution = λ w t. w;
  try_wait = λ w t. (t == 2, w + 1);
  is_dying = λ w t. false;
  is_running = λ w t. true;
  in_nonblocking_syscall = λ w t. false;
  wait = λ w t. w + 1;
  tick_count = λ w t. w + 7;
}

abbrev round : Round ℕ
round = record { scheduler = two_tasks; by_waitpid = false; tracees = 0 }

low_priorities : BelowMax two_tasks.task_priority_set
unfolding on_create_task insert_task new BelowMax insert cmp tup
low_priorities = (omega arith, (omega arith, tt))

find_next_runnable_task-Found_example :
    (found : Option ℕ × Round ℕ) × (find_next_runnable_task tracees
        (λ l. l)
        (some 1)
        4294967295
        round
      ≡ some found)
    × Found round found
unfolding on_create_task insert_task new
find_next_runnable_task-Found_example =
    find_next_runnable_task-Found tracees (λ l. l) (some 1) 4294967295 round refl low_priorities

setup_new_timeslice_bounds_example :
    (r : Scheduler) × (setup_new_timeslice 100 123456789 (λ t. t + 6) two_tasks ≡ some r)
    × (1 + 6 ≤ r.current_timeslice_end)
    × (r.current_timeslice_end < 1 + 6 + two_tasks.max_ticks)
unfolding on_create_task insert_task new
setup_new_timeslice_bounds_example =
    setup_new_timeslice_bounds 100 123456789 1 (λ t. t + 6) two_tasks refl (omega arith)
      (omega arith) (omega arith)

-- waitpid reports task 2 each time, which then has ten ticks.
abbrev reports : Waits ℕ
reports = record {
  waitpid = λ w. (some (record { tid = 2; is_exec = false; is_exit = false }), w + 1);
  find_task_from_rec_tid = λ w tid. some tid;
  revive_task_for_exec = λ w tid. (tid, w);
  did_waitpid = λ w t p. w + 1;
}

abbrev all_low : ℕ → Bool
all_low t = false

round-Ready : Ready (start_round tracees reports (λ l. l) 100 5 false all_low two_tasks 0)
unfolding on_create_task insert_task new BelowMax insert cmp tup start_round maybe_reset_priorities
round-Ready = record {
  idle = record { must_run = refl; waited = refl };
  below = low_priorities;
  between = λ t. (ground arith, ground arith);
  ticks = omega arith;
}

choose-Sound_example :
    (let r = start_round tracees reports (λ l. l) 100 5 false all_low two_tasks 0 in
      (c : Choice) × (r' : Round ℕ) × (choose tracees (λ l. l) 1 [] r ≡ some (c, r')) × Sound c r')
unfolding on_create_task insert_task new start_round maybe_reset_priorities
choose-Sound_example =
    choose-Sound tracees (λ l. l) 1 []
      (start_round tracees reports (λ l. l) 100 5 false all_low two_tasks 0) round-Ready
      (omega arith)
