-- ===== src/Tests/Workers/Closing.antt =====
-- The run goes on: the pool is shut down and joined.
use k_h.Base.{ℕ, ◌≡◌, ◌≤◌, ◌<◌, ◌+◌, ◌*◌, refl, true, false, none, some, arith}
use k_h.World.{update}
use k_h.KWorkerPool.{KWorkerPoolTask, System, Step, Reach, thread_step, cv_predicate, wake}
use k_h.KWorkerPool.Place.{
  head, entered, testing, taking, leaving, finished, outside, broadcasting, joining,
}
use k_h.KWorkerPool.Counting.{length, count}
use k_h.KWorkerPool.Shutdown.{Run, Run-worker_moves_le, Run-taken_le}
use k_h.KWorkerPool.Ready.{is_finished}
use k_h.KWorkerPool.Joined.{failed_joins, Reach-joined}
use k_h.Tests.Workers.{shut, shut_reached, shut_reached-failed_joins}

abbrev opened : System
opened = record {
  pool = record shut.pool { lock = none };
  place = update shut.place 1 broadcasting;
}

opened_reached : Reach 1 opened
unfolding thread_step cv_predicate
opened_reached = Reach.later shut_reached (Step.run 1 refl)

abbrev all_notified : System
all_notified = record {
  pool = opened.pool;
  place = update (λ j. wake (opened.place j)) 1 (joining 0);
}

all_notified_reached : Reach 1 all_notified
unfolding thread_step cv_predicate
all_notified_reached = Reach.later opened_reached (Step.notify_all 1 refl)

abbrev awake : System
awake = record {
  pool = record all_notified.pool { lock = some 0 };
  place = update all_notified.place 0 (testing true);
}

awake_reached : Reach 1 awake
unfolding thread_step cv_predicate
awake_reached = Reach.later all_notified_reached (Step.run 0 refl)

abbrev state_21 : System
state_21 = record { pool = awake.pool; place = update awake.place 0 (taking true) }

state_21_reached : Reach 1 state_21
unfolding thread_step cv_predicate
state_21_reached = Reach.later awake_reached (Step.run 0 refl)

abbrev state_22 : System
state_22 = record { pool = state_21.pool; place = update state_21.place 0 (leaving true none) }

state_22_reached : Reach 1 state_22
unfolding thread_step cv_predicate
state_22_reached = Reach.later state_21_reached (Step.run 0 refl)

abbrev state_23 : System
state_23 = record {
  pool = record state_22.pool { lock = none };
  place = update state_22.place 0 (head true);
}

state_23_reached : Reach 1 state_23
unfolding thread_step cv_predicate
state_23_reached = Reach.later state_22_reached (Step.run 0 refl)

abbrev state_24 : System
state_24 = record {
  pool = record state_23.pool { lock = some 0 };
  place = update state_23.place 0 (entered true);
}

state_24_reached : Reach 1 state_24
unfolding thread_step cv_predicate
state_24_reached = Reach.later state_23_reached (Step.run 0 refl)

abbrev state_25 : System
state_25 = record { pool = state_24.pool; place = update state_24.place 0 (testing false) }

state_25_reached : Reach 1 state_25
unfolding thread_step cv_predicate
state_25_reached = Reach.later state_24_reached (Step.run 0 refl)

abbrev state_26 : System
state_26 = record { pool = state_25.pool; place = update state_25.place 0 (taking false) }

state_26_reached : Reach 1 state_26
unfolding thread_step cv_predicate
state_26_reached = Reach.later state_25_reached (Step.run 0 refl)

abbrev state_27 : System
state_27 = record { pool = state_26.pool; place = update state_26.place 0 (leaving false none) }

state_27_reached : Reach 1 state_27
unfolding thread_step cv_predicate
state_27_reached = Reach.later state_26_reached (Step.run 0 refl)

abbrev state_28 : System
state_28 = record {
  pool = record state_27.pool { lock = none };
  place = update state_27.place 0 (head false);
}

state_28_reached : Reach 1 state_28
unfolding thread_step cv_predicate
state_28_reached = Reach.later state_27_reached (Step.run 0 refl)

abbrev state_29 : System
state_29 = record { pool = state_28.pool; place = update state_28.place 0 finished }

state_29_reached : Reach 1 state_29
unfolding thread_step cv_predicate
state_29_reached = Reach.later state_28_reached (Step.run 0 refl)

abbrev state_30 : System
state_30 = record { pool = state_29.pool; place = update state_29.place 1 (joining 1) }

state_30_reached : Reach 1 state_30
unfolding thread_step cv_predicate
state_30_reached = Reach.later state_29_reached (Step.join 1 0 refl (omega arith) refl)

abbrev joined : System
joined = record {
  pool = record state_30.pool { workers = 0 };
  place = update state_30.place 1 outside;
}

joined_reached : Reach 1 joined
unfolding thread_step cv_predicate
joined_reached = Reach.later state_30_reached (Step.run 1 refl)

joined_reached-failed_joins : failed_joins joined_reached ≡ 0
unfolding opened_reached all_notified_reached awake_reached state_21_reached state_22_reached
    state_23_reached state_24_reached state_25_reached state_26_reached state_27_reached
    state_28_reached state_29_reached state_30_reached joined_reached
joined_reached-failed_joins = rw shut_reached-failed_joins refl

woken_run : Run 1 shut 1 awake
unfolding thread_step cv_predicate
woken_run =
    Run.more (Run.more (Run.more Run.here (Step.run 1 refl)) (Step.notify_all 1 refl))
      (Step.run 0 refl)

Run-worker_moves_le_example : 1 ≤ 13 * 1
Run-worker_moves_le_example = Run-worker_moves_le shut_reached refl woken_run

Run-taken_le_example : length awake.pool.taken ≤ length shut.pool.taken + 2 * 1
Run-taken_le_example = Run-taken_le shut_reached refl woken_run

Reach-joined_example :
    ((i : ℕ) → i < 1 → is_finished (joined.place i) ≡ true)
    × ((t : KWorkerPoolTask)
        → count t joined.pool.posted ≡ count t joined.pool.executed + count t joined.pool.tasks)
Reach-joined_example = Reach-joined joined_reached joined_reached-failed_joins refl
