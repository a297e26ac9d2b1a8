-- ===== src/KWorkerPool/Quiet.antt =====
-- When kworker_pool.c comes to rest.
use k_h.Base.{
  ℕ, ◌<◌, ◌≡◌, refl, true, false, none, some, List, [], ◌∷◌, ◌++◌, arith, ap, ◌∙◌, ltb, inl, inr,
  Bool-cases, append-nil,
}
use k_h.World.Loads.{load_zero}
use k_h.KWorkerPool.{
  KWorkerPoolTask, KWorkerPool, Place, System, Step, Reach, thread_step, is_empty,
}
use k_h.KWorkerPool.Place.{head, leaving, executing, finished}
use k_h.KWorkerPool.Counting.{count}
use k_h.KWorkerPool.Tasks.{carries, is_worker, Reach-Accounts, Reach-accounted}
use k_h.KWorkerPool.Wakeups.{stopping}
use k_h.KWorkerPool.Wakeups.Kept.{Reach-Heeds}
use k_h.KWorkerPool.Ready.{is_busy, is_some, needed}
use k_h.KWorkerPool.Progress.{by_itself, Reach-Next, run-Next}

-- Nothing happens any more but new calls and wake-ups without a reason.
abbrev pub IsQuiet : System → Type 0
IsQuiet s = (t : System) (st : Step s t) → by_itself st ≡ false

-- A worker that has a task in its hands can go on by itself.
carries-some :
    (i : ℕ) (pool : KWorkerPool) (place : Place) (t : KWorkerPoolTask)
    → 0 < carries t place
    → is_some (thread_step i pool place) ≡ true
unfolding thread_step
carries-some i pool (leaving r (some u)) t h = refl
carries-some i pool (executing r u) t h = refl
carries-some i pool (leaving r none) t h = absurd (omega (arith, h))
carries-some i pool place t h = absurd (omega (arith, h))

is_empty-eq : (tasks : List KWorkerPoolTask) → is_empty tasks ≡ true → tasks ≡ []
is_empty-eq [] h = refl
is_empty-eq (t ∷ tasks) h = absurd cc

module _ {n : ℕ} {s : System} (r : Reach n s) (quiet : IsQuiet s) where
  stuck : (i : ℕ) → is_some (thread_step i s.pool (s.place i)) ≡ true → ⊥
  stuck i h = let (t, st, own) = run-Next s i h in let still = quiet t st in cc

  no_carrier : (t : KWorkerPoolTask) (i : ℕ) → carries t (s.place i) ≡ 0
  no_carrier t i = elim (Bool-cases (ltb 0 (carries t (s.place i)))) [
    | inl e ↦ absurd (stuck i (carries-some i s.pool (s.place i) t (ground (arith, e))))
    | inr e ↦ ground (arith, e)
  ]

  busy_worker :
      (place : Place) → is_worker place ≡ true → stopping place ≡ false → is_busy place ≡ true
  busy_worker (head r) worker going = refl
  busy_worker finished worker going = absurd cc
  busy_worker place worker going = ground arith

  -- A worker is there, and would take a task.
  none_queued : s.pool.shutdown ≡ false → 0 < n → is_empty s.pool.tasks ≡ true
  none_queued open_still some_worker = elim (Bool-cases (is_empty s.pool.tasks)) [
    | inl e ↦ e
    | inr e ↦
        let worker : is_worker (s.place 0) ≡ true =
          (Reach-Accounts r).roles 0 ∙ (ground (arith, some_worker)) in
        let need : needed s.pool ≡ true = ground (arith, e) in
        elim (Bool-cases (stopping (s.place 0))) [
          | inl stopped ↦ let shut = (Reach-Heeds r).heeded 0 stopped in absurd cc
          | inr going ↦
              let (t, st, own) =
                Reach-Next r 0 (busy_worker (s.place 0) worker going) (λ _. need) in
              let still = quiet t st in absurd cc
        ]
  ]

  -- No task is left behind: in any reachable state of a pool with a worker that is not shut down,
  -- if no step follows but new calls and wake-ups without a reason, the queue is empty, and each
  -- task has been executed as often as it was posted.
  pub quiet-executed :
      s.pool.shutdown ≡ false
      → 0 < n
      → (s.pool.tasks ≡ [])
        × ((t : KWorkerPoolTask) → count t s.pool.posted ≡ count t s.pool.executed)
  quiet-executed open_still some_worker =
      let none_left = is_empty-eq s.pool.tasks (none_queued open_still some_worker) in
      let all_taken : s.pool.posted ≡ s.pool.taken =
        (Reach-accounted r).0 ∙ ap (λ t. s.pool.taken ++ t) none_left ∙ append-nil s.pool.taken in
      (
        none_left,
        λ t. omega (
          arith,
          ap (count t) all_taken,
          (Reach-accounted r).1 t,
          load_zero (carries t) n s.place (λ i below. no_carrier t i),
        ),
      )
