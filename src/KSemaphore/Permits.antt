-- ===== src/KSemaphore/Permits.antt =====
-- Threads that wait for a semaphore of ksemaphore.c and signal it after that, in any order of their
-- steps: who has passed the wait holds a permit.
pub mod Held
use k_h.Base.{ℕ, suc, ◌+◌, ◌<◌, ◌≡◌, Bool, true, false, Option, none, some, not, if◌then◌else◌}
use k_h.World.{update}
use k_h.KObject.Counts.{one_if}
use k_h.KSemaphore.{KSemaphore}

-- What a wait at the system's semaphore comes to, once it is not interrupted.
pub data Taken (S : Type 0) : Type 0 where
  blocked : Taken S
  failed : Taken S
  granted : S → Taken S

-- A semaphore of the system, with states `S`, and what is documented of it: a wait takes one from the
-- value, and blocks only at 0; a post adds one, or fails and changes nothing; it does not fail below
-- the count that the semaphore was made with.
pub record SystemSemaphore (S : Type 0) : Type 0 where
  pub value : S → ℕ
  pub take : S → Taken S
  pub post : S → Bool × S
  pub count : ℕ
  pub take_blocked : (s : S) → take s ≡ blocked → value s ≡ 0
  pub take_granted : (s s' : S) → take s ≡ granted s' → value s ≡ suc (value s')
  pub post_value : (s : S) → value (post s).1 ≡ value s + one_if (post s).0
  pub post_below : (s : S) → value s < count → (post s).0 ≡ true

-- Where a thread stands.
pub data Place : Type 0 where
  outside : Place
  waiting : Place  -- in `KSemaphoreWait`
  inside : Place  -- the wait reported success
  signalling : Place  -- in `KSemaphoreSignal`

module _ {S : Type 0} where
  -- The end of `KSemaphoreWait`; `none` if the thread sleeps.
  unfoldable pub wait_step : SystemSemaphore S → KSemaphore → S → Option (S × Place)
  wait_step system sema s = if not sema.valid then some (s, outside) else elim (system.take s) [
    | blocked ↦ none
    | failed ↦ some (s, outside)
    | granted s' ↦ some (s', inside)
  ]

  -- The end of `KSemaphoreSignal`.
  unfoldable pub signal_step : SystemSemaphore S → KSemaphore → S → S × Place
  signal_step system sema s = if not sema.valid then (s, outside) else ((system.post s).1, outside)

  unfoldable pub thread_step : SystemSemaphore S → KSemaphore → S → Place → Option (S × Place)
  unfolding wait_step signal_step
  thread_step system sema s outside = none
  thread_step system sema s waiting = wait_step system sema s
  thread_step system sema s inside = none
  thread_step system sema s signalling = some (signal_step system sema s)

pub record Threads (S : Type 0) : Type 0 where
  pub state : S
  pub place : ℕ → Place

-- What `KSemaphoreNew` makes.
abbrev pub made : KSemaphore
made = record { valid = true }

module _ {S : Type 0} where
  -- A thread signals after a wait that reported success.
  pub data Step (system : SystemSemaphore S) (t : Threads S) : Threads S → Type 0 where
    run :
        (i : ℕ) {state : S} {place : Place}
        → thread_step system made t.state (t.place i) ≡ some (state, place)
        → Step system t (record { state = state; place = update t.place i place })
    call_wait :
        (i : ℕ)
        → t.place i ≡ outside
        → Step system t (record t { place = update t.place i waiting })
    call_signal :
        (i : ℕ)
        → t.place i ≡ inside
        → Step system t (record t { place = update t.place i signalling })

  -- From a new semaphore, and no thread in a call.
  pub data Reach (system : SystemSemaphore S) : Threads S → Type 0 where
    start :
        (state : S)
        → system.value state ≡ system.count
        → Reach system (record { state = state; place = λ i. outside })
    later : {t u : Threads S} → Reach system t → Step system t u → Reach system u
