-- ===== src/Tests/Workers.antt =====
-- Runs of a pool with one worker (thread 0) and one other thread, and the theorems at its states.
mod Closing
mod Resting
use k_h.Base.{
  ℕ, ◌≡◌, ◌≤◌, ◌<◌, ◌+◌, ◌*◌, refl, Bool, true, false, Option, none, some, List, [], ◌∷◌, ◌++◌,
  arith, ltb, if◌then◌else◌,
}
use k_h.World.{update}
use k_h.KWorkerPool.{
  KWorkerPoolTask, KWorkerPool, Place, System, Step, Reach, initial, thread_step, cv_predicate,
  is_empty, wake,
}
use k_h.KWorkerPool.Place.{
  head, entered, testing, sleeping, woken, taking, leaving, executing, finished, outside,
  wants_post, posting, added, notifying, wants_close, closing, closed, broadcasting, joining,
}
use k_h.World.Loads.{load}
use k_h.KWorkerPool.Counting.{length, count}
use k_h.KWorkerPool.Lock.{holds, Reach-holds_unique}
use k_h.KWorkerPool.Tasks.{carries, Reach-accounted}
use k_h.KWorkerPool.Wakeups.{alerts}
use k_h.KWorkerPool.Wakeups.Kept.{no_lost_wakeup}
use k_h.KWorkerPool.Shutdown.{Run, Run-worker_moves_le, Run-taken_le}
use k_h.KWorkerPool.Progress.{by_itself, Reach-Next}
use k_h.KWorkerPool.Joined.{failed_joins}

abbrev pub errand : KWorkerPoolTask
errand = record { task = 7; user_data = 40 }

abbrev state_1 : System
state_1 = record {
  pool = record {
    lock = none;
    workers = 1;
    tasks = [];
    shutdown = false;
    posted = [];
    taken = [];
    executed = [];
  };
  place = update (initial 1).place 1 (wants_post errand);
}

state_1_reached : Reach 1 state_1
unfolding thread_step cv_predicate
state_1_reached = Reach.later Reach.start (Step.post 1 errand refl)

abbrev state_2 : System
state_2 = record {
  pool = record state_1.pool { lock = some 1 };
  place = update state_1.place 1 (posting errand);
}

state_2_reached : Reach 1 state_2
unfolding thread_step cv_predicate
state_2_reached = Reach.later state_1_reached (Step.run 1 refl)

abbrev state_3 : System
state_3 = record {
  pool = record state_2.pool { tasks = errand ∷ []; posted = errand ∷ [] };
  place = update state_2.place 1 added;
}

state_3_reached : Reach 1 state_3
unfolding thread_step cv_predicate
state_3_reached = Reach.later state_2_reached (Step.run 1 refl)

abbrev queued : System
queued = record {
  pool = record state_3.pool { lock = none };
  place = update state_3.place 1 notifying;
}

queued_reached : Reach 1 queued
unfolding thread_step cv_predicate
queued_reached = Reach.later state_3_reached (Step.run 1 refl)

nobody_sleeps : (j : ℕ) → wake (queued.place j) ≡ queued.place j
nobody_sleeps j = ground arith

abbrev state_5 : System
state_5 = record { pool = queued.pool; place = update queued.place 1 outside }

state_5_reached : Reach 1 state_5
unfolding thread_step cv_predicate
state_5_reached = Reach.later queued_reached (Step.notify_nobody 1 refl nobody_sleeps)

abbrev state_6 : System
state_6 = record {
  pool = record state_5.pool { lock = some 0 };
  place = update state_5.place 0 (entered true);
}

state_6_reached : Reach 1 state_6
unfolding thread_step cv_predicate
state_6_reached = Reach.later state_5_reached (Step.run 0 refl)

abbrev state_7 : System
state_7 = record { pool = state_6.pool; place = update state_6.place 0 (testing true) }

state_7_reached : Reach 1 state_7
unfolding thread_step cv_predicate
state_7_reached = Reach.later state_6_reached (Step.run 0 refl)

abbrev state_8 : System
state_8 = record { pool = state_7.pool; place = update state_7.place 0 (taking true) }

state_8_reached : Reach 1 state_8
unfolding thread_step cv_predicate
state_8_reached = Reach.later state_7_reached (Step.run 0 refl)

abbrev taken : System
taken = record {
  pool = record state_8.pool { tasks = []; taken = errand ∷ [] };
  place = update state_8.place 0 (leaving true (some errand));
}

taken_reached : Reach 1 taken
unfolding thread_step cv_predicate
taken_reached = Reach.later state_8_reached (Step.run 0 refl)

abbrev state_10 : System
state_10 = record {
  pool = record taken.pool { lock = none };
  place = update taken.place 0 (executing true errand);
}

state_10_reached : Reach 1 state_10
unfolding thread_step cv_predicate
state_10_reached = Reach.later taken_reached (Step.run 0 refl)

abbrev state_11 : System
state_11 = record {
  pool = record state_10.pool { executed = errand ∷ [] };
  place = update state_10.place 0 (head true);
}

state_11_reached : Reach 1 state_11
unfolding thread_step cv_predicate
state_11_reached = Reach.later state_10_reached (Step.run 0 refl)

abbrev state_12 : System
state_12 = record {
  pool = record state_11.pool { lock = some 0 };
  place = update state_11.place 0 (entered true);
}

state_12_reached : Reach 1 state_12
unfolding thread_step cv_predicate
state_12_reached = Reach.later state_11_reached (Step.run 0 refl)

abbrev state_13 : System
state_13 = record { pool = state_12.pool; place = update state_12.place 0 (testing true) }

state_13_reached : Reach 1 state_13
unfolding thread_step cv_predicate
state_13_reached = Reach.later state_12_reached (Step.run 0 refl)

abbrev pub state_14 : System
state_14 = record {
  pool = record state_13.pool { lock = none };
  place = update state_13.place 0 (sleeping true);
}

pub state_14_reached : Reach 1 state_14
unfolding thread_step cv_predicate
state_14_reached = Reach.later state_13_reached (Step.run 0 refl)

abbrev state_15 : System
state_15 = record { pool = state_14.pool; place = update state_14.place 1 wants_close }

state_15_reached : Reach 1 state_15
unfolding thread_step cv_predicate
state_15_reached = Reach.later state_14_reached (Step.shut 1 refl)

abbrev state_16 : System
state_16 = record {
  pool = record state_15.pool { lock = some 1 };
  place = update state_15.place 1 closing;
}

state_16_reached : Reach 1 state_16
unfolding thread_step cv_predicate
state_16_reached = Reach.later state_15_reached (Step.run 1 refl)

abbrev pub shut : System
shut = record {
  pool = record state_16.pool { shutdown = true };
  place = update state_16.place 1 closed;
}

pub shut_reached : Reach 1 shut
unfolding thread_step cv_predicate
shut_reached = Reach.later state_16_reached (Step.run 1 refl)

pub shut_reached-failed_joins : failed_joins shut_reached ≡ 0
unfolding state_1_reached state_2_reached state_3_reached queued_reached state_5_reached
    state_6_reached state_7_reached state_8_reached taken_reached state_10_reached state_11_reached
    state_12_reached state_13_reached state_14_reached state_15_reached state_16_reached
    shut_reached
shut_reached-failed_joins = refl

abbrev owner : ℕ
owner = 0

Reach-holds_unique_example : owner ≡ owner
Reach-holds_unique_example = Reach-holds_unique taken_reached 0 0 refl refl

Reach-accounted_example :
    (taken.pool.posted ≡ taken.pool.taken ++ taken.pool.tasks)
    × ((t : KWorkerPoolTask)
        → count t taken.pool.taken ≡ count t taken.pool.executed + load (carries t) 1 taken.place)
Reach-accounted_example = Reach-accounted taken_reached

no_lost_wakeup_example : (j : ℕ) × (alerts (queued.place j) ≡ true)
no_lost_wakeup_example = no_lost_wakeup queued_reached (omega arith) refl refl

Reach-Next_example : (t : System) × (st : Step queued t) × (by_itself st ≡ true)
Reach-Next_example = Reach-Next queued_reached 0 refl (λ worker. refl)
