-- ===== src/KSemaphore/Windows.antt =====
-- ksemaphore.c, its Windows branches. `none` is NULL.
use k_h.Base.{ℕ, ◌%◌, ◌^◌, Bool, false, Option, none, some, ◌==◌, if◌then◌else◌}
use k_h.World.{null, Cmd, pure, ◌>>=◌, Env, allocate}

-- The system's semaphores. `CreateSemaphore` answers none for NULL, and the counts are a `LONG`'s 32
-- bits; `wait_for_single_object` says whether the answer is `WAIT_OBJECT_0`, and
-- `release_semaphore`, which adds 1, whether it is `TRUE`.
pub record WindowsSemaphores : Type 0 where
  pub create_semaphore : (initial_count maximum_count : ℕ) → Cmd (Option ℕ)
  pub wait_for_single_object : (handle : ℕ) → Cmd Bool
  pub release_semaphore : (handle : ℕ) → Cmd Bool
  pub close_handle : (handle : ℕ) → Cmd (Unit {0})

-- `none` is a NULL handle.
pub record KSemaphore : Type 0 where
  pub handle : Option ℕ

unfoldable pub new : Env → WindowsSemaphores → ℕ → Cmd (Option KSemaphore)
new env system count = do
  sema ← allocate env
  if sema == null then pure none else do
    handle ← system.create_semaphore (count % 2 ^ 32) (count % 2 ^ 32)
    elim handle [ none ↦ pure none | some handle ↦ pure (some (record { handle = some handle })) ]

-- The deinitialiser.
unfoldable pub deinit : WindowsSemaphores → KSemaphore → Cmd (Unit {0})
deinit system sema = elim sema.handle [ none ↦ pure tt | some handle ↦ system.close_handle handle ]

-- The handle is not tested; the system refuses NULL.
unfoldable pub wait : WindowsSemaphores → Option KSemaphore → Cmd Bool
wait system none = pure false
wait system (some sema) = elim sema.handle [
  | none ↦ system.wait_for_single_object 0
  | some handle ↦ system.wait_for_single_object handle
]

unfoldable pub signal : WindowsSemaphores → Option KSemaphore → Cmd Bool
signal system none = pure false
signal system (some sema) = elim sema.handle [
  | none ↦ system.release_semaphore 0
  | some handle ↦ system.release_semaphore handle
]
