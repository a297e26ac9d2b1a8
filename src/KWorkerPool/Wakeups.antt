-- ===== src/KWorkerPool/Wakeups.antt =====
-- Who wakes whom in kworker_pool.c: no notification comes too early for a thread that then sleeps.
pub mod Kept
use k_h.Base.{
  some_eq, ℕ, suc, ◌<◌, ◌≡◌, ◌≢◌, refl, Bool, true, false, not, some, List, [], ◌∷◌, arith, ap, sym,
  ◌∙◌, ◌⊎◌, inl, inr,
}
use native.Mathlib.Decide.{ℕ_discrete}
use k_h.World.{update}
use k_h.KWorkerPool.{
  KWorkerPoolTask, KWorkerPool, Place, is_empty, cv_predicate, take_first, thread_step, wake,
  System, Step, Reach,
}
use k_h.KWorkerPool.Place.{
  head, entered, testing, sleeping, woken, taking, leaving, executing, finished, outside,
  wants_post, added, notifying, wants_close, closed, broadcasting, joining,
}
use k_h.World.Updates.{update_here, update_keeps, update_gives, update_elsewhere}
use k_h.KWorkerPool.Lock.{holds, IsLocked, Reach-IsLocked}
use k_h.KWorkerPool.Tasks.{is_worker, Accounts, Reach-Accounts}

abbrev pub is_sleeping : Place → Bool
is_sleeping (sleeping _) = true
is_sleeping _ = false

-- A worker that has seen the shutdown.
abbrev pub stopping : Place → Bool
stopping (head r) = not r
stopping (entered r) = not r
stopping (testing r) = not r
stopping (sleeping r) = not r
stopping (woken r) = not r
stopping (taking r) = not r
stopping (leaving r _) = not r
stopping (executing r _) = not r
stopping finished = true
stopping _ = false

-- A thread that will notify all after it has set `shutdown`.
abbrev pub alarm : Place → Bool
alarm closed = true
alarm broadcasting = true
alarm _ = false

abbrev pub is_taking : Place → Bool
is_taking (taking _) = true
is_taking _ = false

-- A thread that will look at the queue, or make another do so.
abbrev pub alerts : Place → Bool
alerts (head _) = true
alerts (entered _) = true
alerts (testing _) = true
alerts (woken _) = true
alerts (taking _) = true
alerts (leaving _ _) = true
alerts (executing _ _) = true
alerts added = true
alerts notifying = true
alerts _ = false

pub record Heeds (n : ℕ) (s : System) : Type 0 where
  pub heeded : (i : ℕ) → stopping (s.place i) ≡ true → s.pool.shutdown ≡ true
  pub proceeds : (i : ℕ) → is_taking (s.place i) ≡ true → cv_predicate s.pool ≡ false
  pub roused :
      (i : ℕ)
      → is_sleeping (s.place i) ≡ true
      → s.pool.shutdown ≡ true
      → (j : ℕ) × (alarm (s.place j) ≡ true)
  pub alert :
      is_empty s.pool.tasks ≡ false
      → s.pool.shutdown ≡ false
      → 0 < n
      → (j : ℕ) × (alerts (s.place j) ≡ true)

take_first_lem :
    (r : Bool) (pool : KWorkerPool) (tasks : List KWorkerPoolTask) {pool' : KWorkerPool}
    {place' : Place}
    → take_first r pool tasks ≡ (pool', place')
    → (pool'.shutdown ≡ pool.shutdown)
      × (stopping place' ≡ not r)
      × (is_taking place' ≡ false)
      × (is_sleeping place' ≡ false)
      × (alerts place' ≡ true)
take_first_lem r pool [] h = ground arith
take_first_lem r pool (t ∷ tasks) h = ground arith

module _ (i : ℕ) (pool : KWorkerPool) where
  pub step_shutdown :
      (place : Place) {pool' : KWorkerPool} {place' : Place}
      → thread_step i pool place ≡ some (pool', place')
      → (pool'.shutdown ≡ pool.shutdown) ⊎ ((pool'.shutdown ≡ true) × (alarm place' ≡ true))
  unfolding thread_step
  step_shutdown (head true) h = ground arith
  step_shutdown (taking r) h = ground (arith, take_first_lem r pool pool.tasks (some_eq h))
  step_shutdown place h = ground arith

  pub step_heeded :
      (place : Place) {pool' : KWorkerPool} {place' : Place}
      → thread_step i pool place ≡ some (pool', place')
      → stopping place' ≡ true
      → (stopping place ≡ true) ⊎ (pool'.shutdown ≡ true)
  unfolding thread_step
  step_heeded (head true) h = ground arith
  step_heeded (taking r) h = ground (arith, take_first_lem r pool pool.tasks (some_eq h))
  step_heeded place h = ground arith

  pub step_proceeds :
      (place : Place) {pool' : KWorkerPool} {place' : Place}
      → thread_step i pool place ≡ some (pool', place')
      → is_taking place' ≡ true
      → cv_predicate pool' ≡ false
  unfolding thread_step
  step_proceeds (head true) h = ground arith
  step_proceeds (taking r) h = ground (arith, take_first_lem r pool pool.tasks (some_eq h))
  step_proceeds place h = ground arith

  pub step_quiet :
      (place : Place) {pool' : KWorkerPool} {place' : Place}
      → thread_step i pool place ≡ some (pool', place')
      → holds place ≡ false
      → (pool'.tasks ≡ pool.tasks) × (pool'.shutdown ≡ pool.shutdown)
  unfolding thread_step
  step_quiet (head true) h = ground arith
  step_quiet place h = ground arith

  pub step_sleeps :
      (place : Place) {pool' : KWorkerPool} {place' : Place}
      → thread_step i pool place ≡ some (pool', place')
      → is_sleeping place' ≡ true
      → pool'.shutdown ≡ false
  unfolding thread_step cv_predicate
  step_sleeps (head true) h = ground arith
  step_sleeps (taking r) h = ground (arith, take_first_lem r pool pool.tasks (some_eq h))
  step_sleeps place h = ground arith

  pub step_alarm :
      (place : Place) {pool' : KWorkerPool} {place' : Place}
      → thread_step i pool place ≡ some (pool', place')
      → alarm place ≡ true
      → alarm place' ≡ true
  unfolding thread_step
  step_alarm (head true) h = ground arith
  step_alarm place h = ground arith

  pub step_alert :
      (place : Place) {pool' : KWorkerPool} {place' : Place}
      → thread_step i pool place ≡ some (pool', place')
      → is_empty pool'.tasks ≡ false
      → pool'.shutdown ≡ false
      → (alerts place' ≡ true)
        ⊎ ((is_empty pool.tasks ≡ false) × (pool.shutdown ≡ false) × (alerts place ≡ false))
        ⊎ (stopping place ≡ true)
  unfolding thread_step cv_predicate
  step_alert (head true) h = ground arith
  step_alert (taking r) h = ground (arith, take_first_lem r pool pool.tasks (some_eq h))
  step_alert place h = ground arith

pub sleeping-wake : (place : Place) → is_sleeping (wake place) ≡ false
sleeping-wake (sleeping r) = refl
sleeping-wake place = refl

pub stopping-wake : (place : Place) → stopping (wake place) ≡ stopping place
stopping-wake (sleeping r) = refl
stopping-wake place = refl

pub is_taking-wake : (place : Place) → is_taking (wake place) ≡ is_taking place
is_taking-wake (sleeping r) = refl
is_taking-wake place = refl

pub alerts-wake : (place : Place) → alerts place ≡ true → alerts (wake place) ≡ true
alerts-wake (sleeping r) h = refl
alerts-wake place h = h

-- A thread that is awake and in no critical section of a close is alert, if it is a worker.
pub worker-alerts :
    (place : Place)
    → is_worker place ≡ true
    → (alerts place ≡ true) ⊎ (is_sleeping place ≡ true) ⊎ (stopping place ≡ true)
worker-alerts (head r) h = inl refl
worker-alerts (leaving r t) h = inl refl
worker-alerts place h = ground arith

pub taking-holds : (place : Place) → is_taking place ≡ true → holds place ≡ true
taking-holds (taking r) h = refl
taking-holds place h = ground arith

pub not_owner :
    {s : System} {i j : ℕ}
    → IsLocked s
    → i ≢ j
    → holds (s.place j) ≡ true
    → holds (s.place i) ≡ false
not_owner {s} {i} {j} v other h = ground (arith, v.owner i, v.owner j h)
