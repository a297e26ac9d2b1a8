-- ===== src/KWorkerPool/Tasks.antt =====
-- What becomes of the tasks of kworker_pool.c: none is lost or run twice, and they start in order.
use mathlib.Core.List.{append_assoc}
use k_h.Base.{
  some_eq, ℕ, zero, suc, ◌+◌, ◌≡◌, refl, Bool, true, false, none, some, List, [], ◌∷◌, ◌++◌, arith,
  ◌∙◌, ltb,
}
use native.Mathlib.Decide.{dec_lt}
use k_h.World.{update}
use k_h.KObject.Counts.{one_if}
use k_h.KWorkerPool.{
  KWorkerPoolTask, KWorkerPool, Place, take_first, thread_step, wake, System, Step, Reach, initial,
}
use k_h.KWorkerPool.Place.{
  head, entered, testing, sleeping, woken, taking, leaving, executing, finished, posting,
}
use k_h.World.Loads.{load, load-below, load-above}
use k_h.KWorkerPool.Counting.{same_task, count, count-append}

-- How often a thread has the task in its hands.
abbrev pub carries : KWorkerPoolTask → Place → ℕ
carries t (leaving _ (some u)) = one_if (same_task t u)
carries t (executing _ u) = one_if (same_task t u)
carries t _ = 0

abbrev pub is_worker : Place → Bool
is_worker (head _) = true
is_worker (entered _) = true
is_worker (testing _) = true
is_worker (sleeping _) = true
is_worker (woken _) = true
is_worker (taking _) = true
is_worker (leaving _ _) = true
is_worker (executing _ _) = true
is_worker finished = true
is_worker _ = false

pub step-is_worker :
    (i : ℕ) (pool : KWorkerPool) (place : Place) {pool' : KWorkerPool} {place' : Place}
    → thread_step i pool place ≡ some (pool', place')
    → is_worker place' ≡ is_worker place
unfolding thread_step
step-is_worker i pool (head true) h = ground arith
step-is_worker i pool place h = ground arith

take_first-fifo :
    (r : Bool) (pool : KWorkerPool) (tasks : List KWorkerPoolTask) {pool' : KWorkerPool}
    {place' : Place}
    → take_first r pool tasks ≡ (pool', place')
    → pool.tasks ≡ tasks
    → pool.posted ≡ pool.taken ++ tasks
    → pool'.posted ≡ pool'.taken ++ pool'.tasks
take_first-fifo r pool [] h e fifo = ground arith
take_first-fifo r pool (t ∷ tasks) h e fifo = ground (arith, append_assoc pool.taken (t ∷ []) tasks)

take_first-count :
    (r : Bool) (pool : KWorkerPool) (tasks : List KWorkerPoolTask) (t : KWorkerPoolTask)
    {pool' : KWorkerPool} {place' : Place}
    → take_first r pool tasks ≡ (pool', place')
    → (count t pool'.taken ≡ count t pool.taken + carries t place')
      × (pool'.executed ≡ pool.executed)
take_first-count r pool [] t h = ground arith
take_first-count r pool (u ∷ tasks) t h = ground (arith, count-append t pool.taken (u ∷ []))

step_fifo :
    (i : ℕ) (pool : KWorkerPool) (place : Place) {pool' : KWorkerPool} {place' : Place}
    → thread_step i pool place ≡ some (pool', place')
    → pool.posted ≡ pool.taken ++ pool.tasks
    → pool'.posted ≡ pool'.taken ++ pool'.tasks
unfolding thread_step
step_fifo i pool (taking r) h fifo = take_first-fifo r pool pool.tasks (some_eq h) refl fifo
step_fifo i pool (posting t) h fifo = ground (arith, append_assoc pool.taken pool.tasks (t ∷ []))
step_fifo i pool place h fifo = ground arith

step_count :
    (i : ℕ) (pool : KWorkerPool) (place : Place) (t : KWorkerPoolTask) {pool' : KWorkerPool}
    {place' : Place}
    → thread_step i pool place ≡ some (pool', place')
    → count t pool'.taken + carries t place + count t pool.executed
      ≡ count t pool.taken + carries t place' + count t pool'.executed
unfolding thread_step
step_count i pool (taking r) t h = ground (arith, take_first-count r pool pool.tasks t (some_eq h))
step_count i pool (leaving r none) t h = ground arith
step_count i pool (executing r u) t h = ground (arith, count-append t pool.executed (u ∷ []))
step_count i pool place t h = ground arith

pub record Accounts (n : ℕ) (s : System) : Type 0 where
  pub roles : (i : ℕ) → is_worker (s.place i) ≡ ltb i n
  pub fifo : s.pool.posted ≡ s.pool.taken ++ s.pool.tasks
  pub once :
      (t : KWorkerPoolTask)
      → count t s.pool.taken ≡ count t s.pool.executed + load (carries t) n s.place

carries-no_worker :
    (t : KWorkerPoolTask) (place : Place) → is_worker place ≡ false → carries t place ≡ 0
carries-no_worker t (head r) h = refl
carries-no_worker t place h = ground arith

-- A change of places that neither hands over a task nor makes a worker.
load_same :
    (w : Place → ℕ) (n : ℕ) (f g : ℕ → Place)
    → ((i : ℕ) → w (f i) ≡ w (g i))
    → load w n f ≡ load w n g
load_same w zero f g same = refl
load_same w (suc n) f g same = omega (arith, same n, load_same w n f g same)

moved-Accounts :
    (n : ℕ) (s : System) (place : ℕ → Place)
    → Accounts n s
    → ((i : ℕ) → is_worker (place i) ≡ is_worker (s.place i))
    → ((i : ℕ) (t : KWorkerPoolTask) → carries t (place i) ≡ carries t (s.place i))
    → Accounts n (record s { place = place })
moved-Accounts n s place v same idle = record {
  roles = λ i. same i ∙ v.roles i;
  fifo = v.fifo;
  once = λ t. omega (arith, v.once t, load_same (carries t) n place s.place (λ i. idle i t));
}

run-Accounts :
    (n : ℕ) (s : System) (i : ℕ) {pool : KWorkerPool} {place : Place}
    → Accounts n s
    → thread_step i s.pool (s.place i) ≡ some (pool, place)
    → Accounts n (record { pool = pool; place = update s.place i place })
run-Accounts n s i {pool} {place} v e = record {
  roles = λ j. ground (arith, step-is_worker i s.pool (s.place i) e, v.roles j, v.roles i);
  fifo = step_fifo i s.pool (s.place i) e v.fifo;
  once = λ t. elim (dec_lt i n) [
    | yes below ↦ omega (
      arith,
      v.once t,
      step_count i s.pool (s.place i) t e,
      load-below (carries t) s.place i place n below,
    )
    | no above ↦
        let none_here = carries-no_worker t (s.place i) (ground (arith, v.roles i)) in
        let none_then =
          carries-no_worker t place
            (ground (arith, v.roles i, step-is_worker i s.pool (s.place i) e)) in
        omega (
          arith,
          v.once t,
          step_count i s.pool (s.place i) t e,
          load-above (carries t) s.place i place n (omega arith),
        )
  ];
}

is_worker-wake : (place : Place) → is_worker (wake place) ≡ is_worker place
is_worker-wake (sleeping r) = refl
is_worker-wake place = refl

carries-wake : (t : KWorkerPoolTask) (place : Place) → carries t (wake place) ≡ carries t place
carries-wake t (sleeping r) = refl
carries-wake t place = refl

pub Step-Accounts : {n : ℕ} {s t : System} → Step s t → Accounts n s → Accounts n t
Step-Accounts {n} {s} (Step.run i e) v = run-Accounts n s i v e
Step-Accounts {n} {s} (Step.post i task e) v =
    moved-Accounts n s _ v (λ j. ground (arith, e)) (λ j t. ground (arith, e))
Step-Accounts {n} {s} (Step.shut i e) v =
    moved-Accounts n s _ v (λ j. ground (arith, e)) (λ j t. ground (arith, e))
Step-Accounts {n} {s} (Step.spurious i r e) v =
    moved-Accounts n s _ v (λ j. ground (arith, e)) (λ j t. ground (arith, e))
Step-Accounts {n} {s} (Step.notify i k r e f) v =
    moved-Accounts n s _ v (λ j. ground (arith, e, f)) (λ j t. ground (arith, e, f))
Step-Accounts {n} {s} (Step.notify_nobody i e f) v =
    moved-Accounts n s _ v (λ j. ground (arith, e)) (λ j t. ground (arith, e))
Step-Accounts {n} {s} (Step.notify_all i e) v =
    moved-Accounts n s _ v (λ j. ground (arith, e, is_worker-wake (s.place j)))
      (λ j t. ground (arith, e, carries-wake t (s.place j)))
Step-Accounts {n} {s} (Step.join i k e lt f) v =
    moved-Accounts n s _ v (λ j. ground (arith, e)) (λ j t. ground (arith, e))
Step-Accounts {n} {s} (Step.join_fails i j k other e at lt) v =
    moved-Accounts n s _ v (λ j. ground (arith, e)) (λ j t. ground (arith, e))

load_none : (n : ℕ) (w : Place → ℕ) (f : ℕ → Place) → ((i : ℕ) → w (f i) ≡ 0) → load w n f ≡ 0
load_none zero w f h = refl
load_none (suc n) w f h = omega (arith, load_none n w f h, h n)

pub Reach-Accounts : {n : ℕ} {s : System} → Reach n s → Accounts n s
Reach-Accounts {n} Reach.start = record {
  roles = λ i. ground arith;
  fifo = refl;
  once = λ t. omega (arith, load_none n (carries t) (initial n).place (λ i. ground arith));
}
Reach-Accounts (Reach.later r st) = Step-Accounts st (Reach-Accounts r)

-- In every reachable state the tasks that were posted are, in their order, those that were taken
-- off the queue and then those in it; and each task has been taken as often as it has been executed
-- and is in a worker's hands.
pub Reach-accounted :
    {n : ℕ} {s : System}
    → Reach n s
    → (s.pool.posted ≡ s.pool.taken ++ s.pool.tasks)
      × ((t : KWorkerPoolTask)
          → count t s.pool.taken ≡ count t s.pool.executed + load (carries t) n s.place)
Reach-accounted r = ((Reach-Accounts r).fifo, (Reach-Accounts r).once)
