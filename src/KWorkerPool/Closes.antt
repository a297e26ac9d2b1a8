-- ===== src/KWorkerPool/Closes.antt =====
-- Who has set `shutdown` in kworker_pool.c, and how many workers are left to join.
use k_h.Base.{some_eq, ℕ, ◌≤◌, ◌≡◌, refl, Bool, true, false, some, List, [], ◌∷◌, arith, ◌⊎◌}
use k_h.KWorkerPool.{
  KWorkerPoolTask, KWorkerPool, Place, take_first, thread_step, wake, System, Step, Reach,
}
use k_h.KWorkerPool.Place.{head, sleeping, taking, closed, broadcasting, joining}
use k_h.KWorkerPool.Wakeups.{step_shutdown}

-- Whether a thread is inside `KWorkerPoolShutdown`, with `shutdown` set.
abbrev pub past_close : Place → Bool
past_close closed = true
past_close broadcasting = true
past_close (joining index) = true
past_close _ = false

pub record Closes (n : ℕ) (s : System) : Type 0 where
  pub shut : (i : ℕ) → past_close (s.place i) ≡ true → s.pool.shutdown ≡ true
  pub bound : s.pool.workers ≤ n

take_first-shutdown :
    (r : Bool) (pool : KWorkerPool) (tasks : List KWorkerPoolTask) {pool' : KWorkerPool}
    {place' : Place}
    → take_first r pool tasks ≡ (pool', place')
    → (past_close place' ≡ false) × (pool'.workers ≡ pool.workers)
take_first-shutdown r pool [] h = ground arith
take_first-shutdown r pool (t ∷ tasks) h = ground arith

step_closes :
    (i : ℕ) (pool : KWorkerPool) (place : Place) {pool' : KWorkerPool} {place' : Place}
    → thread_step i pool place ≡ some (pool', place')
    → ((past_close place' ≡ true → (past_close place ≡ true) ⊎ (pool'.shutdown ≡ true)))
      × (pool'.workers ≤ pool.workers)
unfolding thread_step
step_closes i pool (head true) h = ground arith
step_closes i pool (taking r) h = ground (arith, take_first-shutdown r pool pool.tasks (some_eq h))
step_closes i pool place h = ground arith

moved-Closes :
    (n : ℕ) (s : System) (place : ℕ → Place)
    → Closes n s
    → ((i : ℕ) → past_close (place i) ≡ true → (j : ℕ) × (past_close (s.place j) ≡ true))
    → Closes n (record s { place = place })
moved-Closes n s place v from = record {
  shut = λ i h. let (j, before) = from i h in v.shut j before;
  bound = v.bound;
}

past_close-wake : (place : Place) → past_close (wake place) ≡ past_close place
past_close-wake (sleeping r) = refl
past_close-wake place = refl

Step-Closes : {n : ℕ} {s t : System} → Step s t → Closes n s → Closes n t
Step-Closes {n} {s} (Step.run i e) v = record {
  shut = λ j h. ground (
    arith,
    step_closes i s.pool (s.place i) e,
    step_shutdown i s.pool (s.place i) e,
    v.shut i,
    v.shut j,
  );
  bound = let (_, less) = step_closes i s.pool (s.place i) e in omega (arith, v.bound, less);
}
Step-Closes {n} {s} (Step.post i task e) v = moved-Closes n s _ v λ j h. (j, ground (arith, e))
Step-Closes {n} {s} (Step.shut i e) v = moved-Closes n s _ v λ j h. (j, ground (arith, e))
Step-Closes {n} {s} (Step.spurious i r e) v = moved-Closes n s _ v λ j h. (j, ground (arith, e))
Step-Closes {n} {s} (Step.notify i k r e f) v =
    moved-Closes n s _ v λ j h. (j, ground (arith, e, f))
Step-Closes {n} {s} (Step.notify_nobody i e f) v =
    moved-Closes n s _ v λ j h. (j, ground (arith, e))
Step-Closes {n} {s} (Step.notify_all i e) v = record {
  shut = λ j h. ground (arith, e, past_close-wake (s.place j), v.shut i, v.shut j);
  bound = v.bound;
}
Step-Closes {n} {s} (Step.join i k e lt f) v = record {
  shut = λ j h. ground (arith, e, v.shut i, v.shut j);
  bound = v.bound;
}
Step-Closes {n} {s} (Step.join_fails i j k other e at lt) v = record {
  shut = λ j h. ground (arith, e, v.shut i, v.shut j);
  bound = v.bound;
}

pub Reach-Closes : {n : ℕ} {s : System} → Reach n s → Closes n s
Reach-Closes Reach.start = record { shut = λ i h. ground arith; bound = omega arith }
Reach-Closes (Reach.later r st) = Step-Closes st (Reach-Closes r)
