-- ===== src/KWorkerPool/Shutdown.antt =====
-- What follows a shutdown in kworker_pool.c: the workers end, after two more tasks at most.
use k_h.Base.{
  some_eq, ℕ, ◌+◌, ◌*◌, ◌≤◌, ◌<◌, ◌≡◌, refl, Bool, true, false, some, List, [], ◌∷◌, arith, ap, ltb,
  if◌then◌else◌,
}
use native.Mathlib.Decide.{dec_lt}
use k_h.World.{update}
use k_h.KObject.Counts.{one_if}
use k_h.KWorkerPool.{
  KWorkerPoolTask, KWorkerPool, Place, cv_predicate, take_first, thread_step, wake, System, Step,
  Reach,
}
use k_h.KWorkerPool.Place.{head, entered, testing, sleeping, woken, taking, leaving, executing}
use k_h.World.Loads.{load, load-below, load-above, load_le, load_bound}
use k_h.KWorkerPool.Counting.{length, length-append}
use k_h.KWorkerPool.Tasks.{is_worker, Accounts, Reach-Accounts}
use k_h.KWorkerPool.Wakeups.{step_shutdown}

-- The steps that a worker has before it, at most, once the pool is shut down.
abbrev pub rank : Place → ℕ
rank (head r) = if r then 7 else 1
rank (entered r) = 6
rank (testing r) = if r then 11 else 5
rank (sleeping r) = if r then 13 else 7
rank (woken r) = if r then 12 else 6
rank (taking r) = if r then 10 else 4
rank (leaving r task) = if r then 9 else 3
rank (executing r task) = if r then 8 else 2
rank _ = 0

-- The tasks that it takes in these steps, at most.
abbrev pub credit : Place → ℕ
credit (head r) = one_if r
credit (entered r) = 1
credit (testing r) = 1 + one_if r
credit (sleeping r) = 1 + one_if r
credit (woken r) = 1 + one_if r
credit (taking r) = 1 + one_if r
credit (leaving r task) = one_if r
credit (executing r task) = one_if r
credit _ = 0

take_first-rank :
    (r : Bool) (pool : KWorkerPool) (tasks : List KWorkerPoolTask) {pool' : KWorkerPool}
    {place' : Place}
    → take_first r pool tasks ≡ (pool', place')
    → (rank place' < rank (taking r))
      × (length pool'.taken + credit place' ≤ length pool.taken + credit (taking r))
take_first-rank true pool [] h = ground arith
take_first-rank true pool (t ∷ tasks) h = ground (arith, length-append pool.taken (t ∷ []))
take_first-rank false pool [] h = ground arith
take_first-rank false pool (t ∷ tasks) h = ground (arith, length-append pool.taken (t ∷ []))

module _ (i : ℕ) (pool : KWorkerPool) where
  step_rank :
      (place : Place) {pool' : KWorkerPool} {place' : Place}
      → thread_step i pool place ≡ some (pool', place')
      → pool.shutdown ≡ true
      → is_worker place ≡ true
      → rank place' < rank place
  unfolding thread_step cv_predicate
  step_rank (head true) h shut worker = ground arith
  step_rank (taking r) h shut worker = ground (arith, take_first-rank r pool pool.tasks (some_eq h))
  step_rank place h shut worker = ground arith

  step_credit :
      (place : Place) {pool' : KWorkerPool} {place' : Place}
      → thread_step i pool place ≡ some (pool', place')
      → pool.shutdown ≡ true
      → length pool'.taken + credit place' ≤ length pool.taken + credit place
  unfolding thread_step cv_predicate
  step_credit (head true) h shut = ground arith
  step_credit (taking r) h shut = ground (arith, take_first-rank r pool pool.tasks (some_eq h))
  step_credit place h shut = ground arith

  step_taken :
      (place : Place) {pool' : KWorkerPool} {place' : Place}
      → thread_step i pool place ≡ some (pool', place')
      → is_worker place ≡ false
      → pool'.taken ≡ pool.taken
  unfolding thread_step
  step_taken (head true) h idle = ground arith
  step_taken (taking r) h idle = absurd cc
  step_taken place h idle = ground arith

rank-wake : (place : Place) → rank (wake place) ≤ rank place
rank-wake (sleeping r) = ground arith
rank-wake place = omega arith

credit-wake : (place : Place) → credit (wake place) ≡ credit place
credit-wake (sleeping r) = refl
credit-wake place = refl

-- Whether a step is one that a worker takes by itself.
abbrev pub worker_moves : ℕ → {s t : System} → Step s t → ℕ
worker_moves n (Step.run i e) = one_if (ltb i n)
worker_moves n _ = 0

pub record Lowers (n m : ℕ) (s t : System) : Type 0 where
  pub shut : t.pool.shutdown ≡ true
  pub ranks : load rank n t.place + m ≤ load rank n s.place
  pub credits :
      length t.pool.taken + load credit n t.place ≤ length s.pool.taken + load credit n s.place

module _ (n : ℕ) (s : System) (shut : s.pool.shutdown ≡ true) where
  moved-Lowers :
      (place : ℕ → Place)
      → ((i : ℕ) → rank (place i) ≤ rank (s.place i))
      → ((i : ℕ) → credit (place i) ≤ credit (s.place i))
      → Lowers n 0 s (record s { place = place })
  moved-Lowers place ranks credits = record {
    shut = shut;
    ranks = omega (arith, load_le rank n place s.place ranks);
    credits = omega (arith, load_le credit n place s.place credits);
  }

  run-Lowers :
      (i : ℕ) {pool : KWorkerPool} {place : Place}
      → Accounts n s
      → thread_step i s.pool (s.place i) ≡ some (pool, place)
      → Lowers n (one_if (ltb i n)) s (record { pool = pool; place = update s.place i place })
  run-Lowers i {pool} {place} a e = record {
    shut = ground (arith, step_shutdown i s.pool (s.place i) e);
    ranks = elim (dec_lt i n) [
      | yes below ↦
          let falls = step_rank i s.pool (s.place i) e shut (ground (arith, a.roles i)) in
          ground (arith, falls, load-below rank s.place i place n below)
      | no above ↦ ground (arith, load-above rank s.place i place n)
    ];
    credits = elim (dec_lt i n) [
      | yes below ↦ omega (
        arith,
        step_credit i s.pool (s.place i) e shut,
        load-below credit s.place i place n below,
      )
      | no above ↦
          let same = step_taken i s.pool (s.place i) e (ground (arith, a.roles i)) in
          omega (arith, ap length same, load-above credit s.place i place n (omega arith))
    ];
  }

Step-Lowers :
    {n : ℕ} {s t : System} (st : Step s t)
    → Accounts n s
    → s.pool.shutdown ≡ true
    → Lowers n (worker_moves n st) s t
Step-Lowers {n} {s} (Step.run i e) a shut = run-Lowers n s shut i a e
Step-Lowers {n} {s} (Step.post i task e) a shut =
    moved-Lowers n s shut _ (λ j. ground (arith, e)) (λ j. ground (arith, e))
Step-Lowers {n} {s} (Step.shut i e) a shut =
    moved-Lowers n s shut _ (λ j. ground (arith, e)) (λ j. ground (arith, e))
Step-Lowers {n} {s} (Step.spurious i r e) a shut =
    moved-Lowers n s shut _ (λ j. ground (arith, e)) (λ j. ground (arith, e))
Step-Lowers {n} {s} (Step.notify i k r e f) a shut =
    moved-Lowers n s shut _ (λ j. ground (arith, e, f)) (λ j. ground (arith, e, f))
Step-Lowers {n} {s} (Step.notify_nobody i e f) a shut =
    moved-Lowers n s shut _ (λ j. ground (arith, e)) (λ j. ground (arith, e))
Step-Lowers {n} {s} (Step.notify_all i e) a shut =
    moved-Lowers n s shut _ (λ j. ground (arith, e, rank-wake (s.place j)))
      (λ j. ground (arith, e, credit-wake (s.place j)))
Step-Lowers {n} {s} (Step.join i k e lt f) a shut =
    moved-Lowers n s shut _ (λ j. ground (arith, e)) (λ j. ground (arith, e))
Step-Lowers {n} {s} (Step.join_fails i j k other e at lt) a shut =
    moved-Lowers n s shut _ (λ j. ground (arith, e)) (λ j. ground (arith, e))

-- A sequence of steps, with the number of those that the workers take by themselves.
pub data Run (n : ℕ) (s : System) : ℕ → System → Type 0 where
  here : Run n s 0 s
  more : {k : ℕ} {t u : System} → Run n s k t → (st : Step t u) → Run n s (worker_moves n st + k) u

Run-Reach : {n : ℕ} {s : System} {k : ℕ} {t : System} → Reach n s → Run n s k t → Reach n t
Run-Reach r Run.here = r
Run-Reach r (Run.more run st) = Reach.later (Run-Reach r run) st

Run-Lowers :
    {n : ℕ} {s : System} {k : ℕ} {t : System}
    → Reach n s
    → s.pool.shutdown ≡ true
    → Run n s k t
    → Lowers n k s t
Run-Lowers r shut Run.here = record { shut = shut; ranks = omega arith; credits = omega arith }
Run-Lowers {n} r shut (Run.more {k} {t} run st) =
    let before = Run-Lowers r shut run in
    let now = Step-Lowers st (Reach-Accounts (Run-Reach r run)) before.shut in
    record {
      shut = now.shut;
      ranks = omega (arith, before.ranks, now.ranks);
      credits = omega (arith, before.credits, now.credits);
    }

rank_le : (place : Place) → rank place ≤ 13
rank_le (head r) = ground arith
rank_le (leaving r t) = ground arith
rank_le place = ground arith

credit_le : (place : Place) → credit place ≤ 2
credit_le (head r) = ground arith
credit_le (leaving r t) = ground arith
credit_le place = ground arith

-- Termination: from a reachable state of a pool with n workers that is shut down, the workers take
-- at most 13 n steps by themselves in any run, whatever the other threads do.
pub Run-worker_moves_le :
    {n k : ℕ} {s t : System} → Reach n s → s.pool.shutdown ≡ true → Run n s k t → k ≤ 13 * n
Run-worker_moves_le {n} {s = s} r shut run =
    omega (
      arith,
      (Run-Lowers r shut run).ranks,
      load_bound rank n 13 s.place (λ i. rank_le (s.place i)),
    )

-- From a reachable state of a pool with n workers that is shut down, the workers take at most 2 n
-- more tasks off the queue in any run, however many are in it.
pub Run-taken_le :
    {n k : ℕ} {s t : System}
    → Reach n s
    → s.pool.shutdown ≡ true
    → Run n s k t
    → length t.pool.taken ≤ length s.pool.taken + 2 * n
Run-taken_le {n} {s = s} r shut run = omega (
  arith,
  (Run-Lowers r shut run).credits,
  load_bound credit n 2 s.place (λ i. credit_le (s.place i)),
)
