-- ===== src/KCountdownLatch/Waiters.antt =====
-- Threads that count a latch of kcountdown_latch.c down and wait for it, in any order of their steps.
pub mod Opened
use k_h.Base.{
  ℕ, zero, suc, ◌+◌, ◌-◌, ◌≤◌, ◌<◌, ◌≡◌, refl, Bool, true, false, Option, none, some, arith, sym,
  ◌∙◌, ◌⊎◌, inl, inr, ◌==◌, if◌then◌else◌,
}
use k_h.World.{update}
use k_h.KCountdownLatch.{lowered, cv_predicate}
use k_h.World.Updates.{update_here, update_keeps, update_gives}

-- The latch's count and the thread in its critical section; `downs` records how often a thread has
-- counted down.
pub record Latch : Type 0 where
  pub lock : Option ℕ
  pub count : ℕ
  pub downs : ℕ

-- Where a thread stands in `KCountDownLatchCountDown` or `KCountDownLatchWait`.
pub data Stage : Type 0 where
  outside : Stage
  wants_down : Stage
  lowering : Stage  -- in the critical section
  after : (should_signal : Bool) → Stage  -- there, after the `switch`
  notifying : Stage
  wants_wait : Stage
  testing : Stage  -- in the critical section, before the predicate
  sleeping : Stage
  woken : Stage
  leaving : Stage  -- in the critical section, after the wait
  passed : Stage  -- the wait has returned

abbrev pub enter : ℕ → Latch → Option ℕ → Stage → Option (Latch × Stage)
enter i latch none stage = some (record latch { lock = some i }, stage)
enter i latch (some owner) stage = none

abbrev pub exit : Latch → Latch
exit latch = record latch { lock = none }

-- The step of thread `i` by itself; `none` if it waits for another.
unfoldable pub latch_step : ℕ → Latch → Stage → Option (Latch × Stage)
latch_step i latch outside = none
latch_step i latch wants_down = enter i latch latch.lock lowering
latch_step i latch lowering = some (
  record latch { count = (lowered latch.count).0; downs = suc latch.downs },
  after (lowered latch.count).1,
)
latch_step i latch (after true) = some (exit latch, notifying)
latch_step i latch (after false) = some (exit latch, outside)
latch_step i latch notifying = none
latch_step i latch wants_wait = enter i latch latch.lock testing
latch_step i latch testing =
    if cv_predicate latch.count then some (exit latch, sleeping) else some (latch, leaving)
latch_step i latch sleeping = none
latch_step i latch woken = enter i latch latch.lock testing
latch_step i latch leaving = some (exit latch, passed)
latch_step i latch passed = none

abbrev pub rouse : Stage → Stage
rouse sleeping = woken
rouse stage = stage

pub record Threads : Type 0 where
  pub latch : Latch
  pub stage : ℕ → Stage

pub data LatchStep (s : Threads) : Threads → Type 0 where
  run :
      (i : ℕ) {latch : Latch} {stage : Stage}
      → latch_step i s.latch (s.stage i) ≡ some (latch, stage)
      → LatchStep s (record { latch = latch; stage = update s.stage i stage })
  call_down :
      (i : ℕ) → s.stage i ≡ outside → LatchStep s (record s { stage = update s.stage i wants_down })
  call_wait :
      (i : ℕ) → s.stage i ≡ outside → LatchStep s (record s { stage = update s.stage i wants_wait })
  spurious :
      (i : ℕ) → s.stage i ≡ sleeping → LatchStep s (record s { stage = update s.stage i woken })
  notify_all :
      (i : ℕ)
      → s.stage i ≡ notifying
      → LatchStep s (record s { stage = update (λ j. rouse (s.stage j)) i outside })

-- A new latch with count `n`, and no thread in a call.
abbrev pub new_latch : ℕ → Threads
new_latch n = record { latch = record { lock = none; count = n; downs = 0 }; stage = λ i. outside }

pub data Reached (n : ℕ) : Threads → Type 0 where
  start : Reached n (new_latch n)
  later : {s t : Threads} → Reached n s → LatchStep s t → Reached n t
