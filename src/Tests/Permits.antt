-- ===== src/Tests/Permits.antt =====
-- Two threads and a semaphore with one permit.
use k_h.Base.{ℕ, zero, suc, ◌+◌, ◌<◌, ◌≡◌, refl, true, arith}
use k_h.World.{update}
use k_h.KSemaphore.Permits.{
  Taken, blocked, granted, SystemSemaphore, outside, waiting, inside, thread_step, wait_step,
  Threads, Step, Reach,
}
use k_h.KSemaphore.Permits.Held.{holds, Reach-held}

abbrev taken : ℕ → Taken ℕ
taken zero = blocked
taken (suc n) = granted n

taken-blocked : (n : ℕ) → taken n ≡ blocked → n ≡ 0
taken-blocked zero h = refl
taken-blocked (suc n) h = absurd cc

taken-granted : (n m : ℕ) → taken n ≡ granted m → n ≡ suc m
taken-granted zero m h = absurd cc
taken-granted (suc n) m h = ground arith

-- A semaphore whose state is its value.
abbrev single : SystemSemaphore ℕ
single = record {
  value = λ n. n;
  take = taken;
  post = λ n. (true, n + 1);
  count = 1;
  take_blocked = taken-blocked;
  take_granted = taken-granted;
  post_value = λ n. refl;
  post_below = λ n h. refl;
}

abbrev fresh : Threads ℕ
fresh = record { state = 1; place = λ i. outside }

abbrev first_waits : Threads ℕ
first_waits = record { state = 1; place = update fresh.place 0 waiting }

abbrev first_inside : Threads ℕ
first_inside = record { state = 0; place = update first_waits.place 0 inside }

abbrev second_waits : Threads ℕ
second_waits = record { state = 0; place = update first_inside.place 1 waiting }

second_waits-Reach : Reach single second_waits
unfolding thread_step wait_step
second_waits-Reach =
    Reach.later
      (Reach.later (Reach.later (Reach.start 1 refl) (Step.call_wait 0 refl)) (Step.run 0 refl))
      (Step.call_wait 1 refl)

someone_inside : (j : ℕ) × (0 < holds (second_waits.place j))
unfolding thread_step wait_step
someone_inside = Reach-held single second_waits-Reach (omega arith) 1 refl refl
