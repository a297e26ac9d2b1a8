-- ===== src/Tests/Latches.antt =====
-- A latch with count 1, a thread that waits for it, and one that counts it down.
use k_h.Base.{ℕ, ◌≡◌, ◌≤◌, refl, true, none, some}
use k_h.World.{update}
use k_h.KCountdownLatch.{lowered}
use k_h.KCountdownLatch.Waiters.{Stage, Threads, LatchStep, Reached, new_latch, latch_step}
use k_h.KCountdownLatch.Waiters.Opened.{is_past, is_asleep, will_notify, Reached-waits}

abbrev stage_1 : Threads
stage_1 = record {
  latch = record { lock = none; count = 1; downs = 0 };
  stage = update (new_latch 1).stage 0 Stage.wants_wait;
}

stage_1_reached : Reached 1 stage_1
unfolding latch_step lowered
stage_1_reached = Reached.later Reached.start (LatchStep.call_wait 0 refl)

abbrev stage_2 : Threads
stage_2 = record {
  latch = record { lock = some 0; count = 1; downs = 0 };
  stage = update stage_1.stage 0 Stage.testing;
}

stage_2_reached : Reached 1 stage_2
unfolding latch_step lowered
stage_2_reached = Reached.later stage_1_reached (LatchStep.run 0 refl)

abbrev stage_3 : Threads
stage_3 = record {
  latch = record { lock = none; count = 1; downs = 0 };
  stage = update stage_2.stage 0 Stage.sleeping;
}

stage_3_reached : Reached 1 stage_3
unfolding latch_step lowered
stage_3_reached = Reached.later stage_2_reached (LatchStep.run 0 refl)

abbrev stage_4 : Threads
stage_4 = record {
  latch = record { lock = none; count = 1; downs = 0 };
  stage = update stage_3.stage 1 Stage.wants_down;
}

stage_4_reached : Reached 1 stage_4
unfolding latch_step lowered
stage_4_reached = Reached.later stage_3_reached (LatchStep.call_down 1 refl)

abbrev stage_5 : Threads
stage_5 = record {
  latch = record { lock = some 1; count = 1; downs = 0 };
  stage = update stage_4.stage 1 Stage.lowering;
}

stage_5_reached : Reached 1 stage_5
unfolding latch_step lowered
stage_5_reached = Reached.later stage_4_reached (LatchStep.run 1 refl)

abbrev brought_down : Threads
brought_down = record {
  latch = record { lock = some 1; count = 0; downs = 1 };
  stage = update stage_5.stage 1 (Stage.after true);
}

brought_down_reached : Reached 1 brought_down
unfolding latch_step lowered
brought_down_reached = Reached.later stage_5_reached (LatchStep.run 1 refl)

Reached-waits_example :
    ((i : ℕ) → is_past (brought_down.stage i) ≡ true → 1 ≤ brought_down.latch.downs)
    × ((i : ℕ)
        → is_asleep (brought_down.stage i) ≡ true
        → brought_down.latch.count ≡ 0
        → (j : ℕ) × (will_notify (brought_down.stage j) ≡ true))
Reached-waits_example = Reached-waits brought_down_reached
