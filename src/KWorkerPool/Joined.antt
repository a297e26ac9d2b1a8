-- ===== src/KWorkerPool/Joined.antt =====
-- What holds when `KWorkerPoolShutdown` in kworker_pool.c has joined its threads.
use k_h.Base.{
  some_eq, ℕ, suc, ◌+◌, ◌≤◌, ◌<◌, ◌≡◌, refl, Bool, true, false, some, List, [], ◌∷◌, arith, ap, ◌∙◌,
  ◌⊎◌, inl, inr,
}
use native.Mathlib.Decide.{ℕ_discrete}
use k_h.World.{update}
use k_h.KWorkerPool.{
  KWorkerPoolTask, KWorkerPool, Place, take_first, thread_step, wake, System, Step, Reach,
}
use k_h.KWorkerPool.Place.{head, sleeping, taking, leaving, finished, joining}
use k_h.World.Loads.{load_zero}
use k_h.KWorkerPool.Counting.{count, count-append}
use k_h.KWorkerPool.Tasks.{carries, Reach-Accounts}
use k_h.KObject.Counts.{one_if}
use k_h.KWorkerPool.Ready.{is_finished}

-- The number of workers that a thread has joined so far.
abbrev pub joined_count : Place → ℕ
joined_count (joining index) = index
joined_count _ = 0

pub record Joins (n : ℕ) (s : System) : Type 0 where
  pub joined : (i j : ℕ) → j < joined_count (s.place i) → is_finished (s.place j) ≡ true
  pub over : (s.pool.workers ≡ n) ⊎ ((j : ℕ) → j < n → is_finished (s.place j) ≡ true)

take_first-joined_count :
    (r : Bool) (pool : KWorkerPool) (tasks : List KWorkerPoolTask) {pool' : KWorkerPool}
    {place' : Place}
    → take_first r pool tasks ≡ (pool', place')
    → (joined_count place' ≡ 0) × (pool'.workers ≡ pool.workers)
take_first-joined_count r pool [] h = ground arith
take_first-joined_count r pool (t ∷ tasks) h = ground arith

step_joins :
    (i : ℕ) (pool : KWorkerPool) (place : Place) {pool' : KWorkerPool} {place' : Place}
    → thread_step i pool place ≡ some (pool', place')
    → (is_finished place ≡ false)
      × (joined_count place' ≡ 0)
      × ((pool'.workers ≡ pool.workers) ⊎ (pool.workers ≤ joined_count place))
unfolding thread_step
step_joins i pool (head true) h = ground arith
step_joins i pool (taking r) h =
    ground (arith, take_first-joined_count r pool pool.tasks (some_eq h))
step_joins i pool place h = ground arith

module _ {n : ℕ} (s : System) (v : Joins n s) where
  moved-Joins :
      (place : ℕ → Place)
      → ((i : ℕ) → is_finished (s.place i) ≡ true → is_finished (place i) ≡ true)
      → ((i : ℕ) → joined_count (place i) ≤ joined_count (s.place i))
      → Joins n (record s { place = place })
  moved-Joins place keeps less = record {
    joined = λ i j below. keeps j (v.joined i j (omega (arith, below, less i)));
    over = elim v.over [ inl same ↦ inl same | inr all ↦ inr (λ j below. keeps j (all j below)) ];
  }

  run-Joins :
      (i : ℕ) {pool : KWorkerPool} {place : Place}
      → thread_step i s.pool (s.place i) ≡ some (pool, place)
      → Joins n (record { pool = pool; place = update s.place i place })
  run-Joins i {pool} {place} e =
      let (busy, fresh, workers) = step_joins i s.pool (s.place i) e in
      let keeps : (j : ℕ)
          → is_finished (s.place j) ≡ true
          → is_finished (update s.place i place j) ≡ true =
        λ j h. ground (arith, busy) in
      record {
        joined = λ k j below. keeps j (v.joined k j (ground (arith, fresh)));
        over = elim v.over [
          | inr all ↦ inr (λ j below. keeps j (all j below))
          | inl same ↦ elim workers [
            | inl kept ↦ inl (kept ∙ same)
            | inr last ↦ inr (λ j below. keeps j (v.joined i j (omega (arith, same, last, below))))
          ]
        ];
      }

  join-Joins :
      (i k : ℕ)
      → s.place i ≡ joining k
      → s.place k ≡ finished
      → Joins n (record s { place = update s.place i (joining (suc k)) })
  join-Joins i k e f =
      let keeps : (j : ℕ)
          → is_finished (s.place j) ≡ true
          → is_finished (update s.place i (joining (suc k)) j) ≡ true =
        λ j h. ground (arith, e) in
      record {
        joined = λ l j below. elim (ℕ_discrete l i) [
          | yes same ↦ elim (ℕ_discrete j k) [
            | yes last ↦ keeps j (ap is_finished (ap s.place last ∙ f))
            | no early ↦ keeps j (v.joined i j (ground (arith, e, same, early)))
          ]
          | no other ↦ keeps j (v.joined l j (ground (arith, other)))
        ];
        over = elim v.over [
          | inl same ↦ inl same
          | inr all ↦ inr (λ j below. keeps j (all j below))
        ];
      }

is_finished-wake : (place : Place) → is_finished (wake place) ≡ is_finished place
is_finished-wake (sleeping r) = refl
is_finished-wake place = refl

joined_count-wake : (place : Place) → joined_count (wake place) ≡ joined_count place
joined_count-wake (sleeping r) = refl
joined_count-wake place = refl

-- Whether a step is a `pthread_join` that fails.
abbrev pub join_failed : {s t : System} → Step s t → Bool
join_failed (Step.join_fails i j index other e at below) = true
join_failed _ = false

-- How many calls of `pthread_join` failed on the way to a state.
abbrev pub failed_joins : {n : ℕ} {s : System} → Reach n s → ℕ
failed_joins Reach.start = 0
failed_joins (Reach.later r st) = failed_joins r + one_if (join_failed st)

Step-Joins : {n : ℕ} {s t : System} (st : Step s t) → join_failed st ≡ false → Joins n s → Joins n t
Step-Joins {n} {s} (Step.run i e) sole v = run-Joins s v i e
Step-Joins {n} {s} (Step.post i task e) sole v =
    moved-Joins s v _ (λ j h. ground (arith, e)) (λ j. ground (arith, e))
Step-Joins {n} {s} (Step.shut i e) sole v =
    moved-Joins s v _ (λ j h. ground (arith, e)) (λ j. ground (arith, e))
Step-Joins {n} {s} (Step.spurious i r e) sole v =
    moved-Joins s v _ (λ j h. ground (arith, e)) (λ j. ground (arith, e))
Step-Joins {n} {s} (Step.notify i k r e f) sole v =
    moved-Joins s v _ (λ j h. ground (arith, e, f)) (λ j. ground (arith, e, f))
Step-Joins {n} {s} (Step.notify_nobody i e f) sole v =
    moved-Joins s v _ (λ j h. ground (arith, e)) (λ j. ground (arith, e))
Step-Joins {n} {s} (Step.notify_all i e) sole v =
    moved-Joins s v _ (λ j h. ground (arith, e, is_finished-wake (s.place j)))
      (λ j. ground (arith, e, joined_count-wake (s.place j)))
Step-Joins {n} {s} (Step.join i k e lt f) sole v = join-Joins s v i k e f
Step-Joins {n} {s} (Step.join_fails i j k other e at lt) sole v = absurd cc

Reach-Joins : {n : ℕ} {s : System} (r : Reach n s) → failed_joins r ≡ 0 → Joins n s
Reach-Joins Reach.start sole = record { joined = λ i j below. ground arith; over = inl refl }
Reach-Joins (Reach.later r st) sole =
    Step-Joins st (ground (arith, sole)) (Reach-Joins r (omega (arith, sole)))

-- When the workers have been joined, all of them have finished.
Reach-is_finished :
    {n : ℕ} {s : System} (r : Reach n s)
    → failed_joins r ≡ 0
    → s.pool.workers ≡ 0
    → (i : ℕ) → i < n
    → is_finished (s.place i) ≡ true
Reach-is_finished r sole none_left i below = elim (Reach-Joins r sole).over [
  | inl same ↦ absurd (omega (arith, same))
  | inr all ↦ all i below
]

finished-carries :
    (t : KWorkerPoolTask) (place : Place) → is_finished place ≡ true → carries t place ≡ 0
finished-carries t (leaving r u) h = absurd cc
finished-carries t place h = ground arith

-- When the workers have been joined, each task that was posted has been executed as often as it was
-- posted, except for those still in the queue.
Reach-executed :
    {n : ℕ} {s : System} (r : Reach n s)
    → failed_joins r ≡ 0
    → s.pool.workers ≡ 0
    → (t : KWorkerPoolTask) → count t s.pool.posted ≡ count t s.pool.executed + count t s.pool.tasks
Reach-executed {n} {s} r sole none_left t =
    let a = Reach-Accounts r in
    let idle =
      load_zero (carries t) n s.place
        (λ i below. finished-carries t (s.place i) (Reach-is_finished r sole none_left i below)) in
    omega (arith, a.once t, idle, ap (count t) a.fifo, count-append t s.pool.taken s.pool.tasks)

-- When `KWorkerPoolShutdown` has joined the workers of a pool and emptied their array, in any state
-- that is reached without a `pthread_join` that fails, which one may where two threads shut the
-- pool down at once, every worker has finished, and each task has been posted as often as it has
-- been executed and is left in the queue.
pub Reach-joined :
    {n : ℕ} {s : System} (r : Reach n s)
    → failed_joins r ≡ 0
    → s.pool.workers ≡ 0
    → ((i : ℕ) → i < n → is_finished (s.place i) ≡ true)
      × ((t : KWorkerPoolTask)
          → count t s.pool.posted ≡ count t s.pool.executed + count t s.pool.tasks)
Reach-joined r sole none_left =
    (Reach-is_finished r sole none_left, Reach-executed r sole none_left)
