-- ===== src/KSemaphore/Darwin.antt =====
-- ksemaphore.c, its macOS branches, over a semaphore of the dispatch library. `none` is NULL.
use k_h.Base.{ℕ, zero, suc, Bool, false, not, Option, none, some, ◌==◌, if◌then◌else◌}
use k_h.World.{null, out_of_fuel, Cmd, pure, ◌>>=◌, ◌>>◌, Env, allocate}

-- The dispatch library's semaphores. `dispatch_semaphore_wait` waits forever and answers 0 on success;
-- `dispatch_semaphore_signal` answers how many threads it woke.
pub record DispatchSemaphores : Type 0 where
  pub create : (count : ℕ) → Cmd (Option ℕ)
  pub wait_forever : (handle : ℕ) → Cmd ℕ
  pub signal_one : (handle : ℕ) → Cmd ℕ
  pub dispatch_release : (handle : ℕ) → Cmd (Unit {0})

pub record KSemaphore : Type 0 where
  pub handle : Option ℕ

unfoldable pub new : Env → DispatchSemaphores → ℕ → Cmd (Option KSemaphore)
new env system count = do
  sema ← allocate env
  if sema == null then pure none else do
    handle ← system.create count
    elim handle [ none ↦ pure none | some handle ↦ pure (some (record { handle = some handle })) ]

-- The loop of the deinitialiser, which signals until no thread is woken.
unfoldable pub wake_all : DispatchSemaphores → (fuel handle : ℕ) → Cmd (Unit {0})
wake_all system zero handle = λ _. out_of_fuel
wake_all system (suc fuel) handle = do
  woken ← system.signal_one handle
  let rest = wake_all system fuel handle
  if woken == 0 then pure tt else rest

-- The deinitialiser.
unfoldable pub deinit : DispatchSemaphores → (fuel : ℕ) → KSemaphore → Cmd (Unit {0})
unfolding wake_all
deinit system fuel sema = elim sema.handle [
  | none ↦ pure tt
  | some handle ↦ do wake_all system fuel handle; system.dispatch_release handle
]

unfoldable pub wait : DispatchSemaphores → Option KSemaphore → Cmd Bool
wait system none = pure false
wait system (some sema) = elim sema.handle [
  | none ↦ pure false
  | some handle ↦ do result ← system.wait_forever handle; pure (result == 0)
]

-- The answer is whether a thread was woken.
unfoldable pub signal : DispatchSemaphores → Option KSemaphore → Cmd Bool
signal system none = pure false
signal system (some sema) = elim sema.handle [
  | none ↦ pure false
  | some handle ↦ do woken ← system.signal_one handle; pure (not (woken == 0))
]
