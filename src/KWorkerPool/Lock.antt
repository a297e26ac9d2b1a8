-- ===== src/KWorkerPool/Lock.antt =====
-- The critical section of kworker_pool.c: at most one thread is in it.
use k_h.Base.{ℕ, ◌≡◌, refl, Bool, true, false, none, some, arith, sym, ◌∙◌, ◌⊎◌}
use k_h.World.{update}
use k_h.KWorkerPool.{KWorkerPool, Place, thread_step, wake, System, Step, Reach}
use k_h.KWorkerPool.Place.{
  head, entered, testing, sleeping, taking, leaving, posting, added, closing, closed,
}

-- Whether a thread is in the critical section.
abbrev pub holds : Place → Bool
holds (entered _) = true
holds (testing _) = true
holds (taking _) = true
holds (leaving _ _) = true
holds (posting _) = true
holds added = true
holds closing = true
holds closed = true
holds _ = false

-- How a step of thread `i` changes the lock.
abbrev pub LockChange : ℕ → KWorkerPool → Place → KWorkerPool → Place → Type 0
LockChange i pool place pool' place' =
    ((pool'.lock ≡ pool.lock) × (holds place' ≡ holds place))
    ⊎ ((pool.lock ≡ none) × (pool'.lock ≡ some i) × (holds place' ≡ true))
    ⊎ ((holds place ≡ true) × (pool'.lock ≡ none) × (holds place' ≡ false))

pub step_lock :
    (i : ℕ) (pool : KWorkerPool) (place : Place) {pool' : KWorkerPool} {place' : Place}
    → thread_step i pool place ≡ some (pool', place')
    → LockChange i pool place pool' place'
unfolding thread_step
step_lock i pool (head true) h = ground arith
step_lock i pool place h = ground arith

-- A thread is in the critical section exactly if it owns the lock.
pub record IsLocked (s : System) : Type 0 where
  pub owner : (i : ℕ) → holds (s.place i) ≡ true → s.pool.lock ≡ some i
  pub holder : (i : ℕ) → s.pool.lock ≡ some i → holds (s.place i) ≡ true

run-IsLocked :
    (s : System) (i : ℕ) {pool : KWorkerPool} {place : Place}
    → IsLocked s
    → thread_step i s.pool (s.place i) ≡ some (pool, place)
    → IsLocked (record { pool = pool; place = update s.place i place })
run-IsLocked s i v e = record {
  owner = λ j h. ground (arith, step_lock i s.pool (s.place i) e, v.owner i, v.owner j);
  holder = λ j h. ground (arith, step_lock i s.pool (s.place i) e, v.owner i, v.holder j);
}

-- A change of places that keeps who is in the critical section.
moved-IsLocked :
    (s : System) (place : ℕ → Place)
    → IsLocked s
    → ((i : ℕ) → holds (place i) ≡ holds (s.place i))
    → IsLocked (record s { place = place })
moved-IsLocked s place v same = record {
  owner = λ i h. v.owner i (sym (same i) ∙ h);
  holder = λ i h. same i ∙ v.holder i h;
}

holds-wake : (place : Place) → holds (wake place) ≡ holds place
holds-wake (sleeping r) = refl
holds-wake place = refl

pub Step-IsLocked : {s t : System} → Step s t → IsLocked s → IsLocked t
Step-IsLocked {s} (Step.run i e) v = run-IsLocked s i v e
Step-IsLocked {s} (Step.post i task e) v = moved-IsLocked s _ v λ j. ground (arith, e)
Step-IsLocked {s} (Step.shut i e) v = moved-IsLocked s _ v λ j. ground (arith, e)
Step-IsLocked {s} (Step.spurious i r e) v = moved-IsLocked s _ v λ j. ground (arith, e)
Step-IsLocked {s} (Step.notify i k r e f) v = moved-IsLocked s _ v λ j. ground (arith, e, f)
Step-IsLocked {s} (Step.notify_nobody i e f) v = moved-IsLocked s _ v λ j. ground (arith, e)
Step-IsLocked {s} (Step.notify_all i e) v =
    moved-IsLocked s _ v λ j. ground (arith, e, holds-wake (s.place j))
Step-IsLocked {s} (Step.join i k e lt f) v = moved-IsLocked s _ v λ j. ground (arith, e)
Step-IsLocked {s} (Step.join_fails i j k other e at lt) v =
    moved-IsLocked s _ v λ j. ground (arith, e)

pub Reach-IsLocked : {n : ℕ} {s : System} → Reach n s → IsLocked s
Reach-IsLocked {n} Reach.start = record { owner = λ i h. ground arith; holder = λ i h. cc }
Reach-IsLocked (Reach.later r st) = Step-IsLocked st (Reach-IsLocked r)

-- Mutual exclusion: in every reachable state of a pool and the threads that use it, however their
-- steps interleave and whoever is woken, at most one thread is in the critical section.
pub Reach-holds_unique :
    {n : ℕ} {s : System}
    → Reach n s
    → (i j : ℕ) → holds (s.place i) ≡ true
    → holds (s.place j) ≡ true
    → i ≡ j
Reach-holds_unique r i j in_i in_j =
    let v = Reach-IsLocked r in ground (arith, v.owner i, v.owner j)
