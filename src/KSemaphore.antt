-- ===== src/KSemaphore.antt =====
-- ksemaphore.c, its POSIX branches: a semaphore of the system. `none` is NULL.
pub mod Windows
pub mod Darwin
pub mod Permits
use k_h.Base.{ℕ, Bool, true, false, not, Option, none, some, ◌==◌, if◌then◌else◌}
use k_h.World.{null, Cmd, pure, ◌>>=◌, Env, allocate}

-- The system's semaphores: whether `sem_init`, `sem_wait`, repeated on an interruption, and `sem_post`
-- answer 0.
pub record Semaphores : Type 0 where
  pub sem_init : (count : ℕ) → Cmd Bool
  pub sem_wait : Cmd Bool
  pub sem_post : Cmd Bool

pub record KSemaphore : Type 0 where
  pub valid : Bool

unfoldable pub new : Env → Semaphores → ℕ → Cmd (Option KSemaphore)
new env system count = do
  sema ← allocate env
  if sema == null then pure none else do
    started ← system.sem_init count
    if not started then pure none else pure (some (record { valid = true }))

-- The deinitialiser; `sem_destroy` is the system's.
unfoldable pub deinit : (sem_destroy : Cmd (Unit {0})) → KSemaphore → Cmd (Unit {0})
deinit sem_destroy sema = if sema.valid then sem_destroy else pure tt

unfoldable pub wait : Semaphores → Option KSemaphore → Cmd Bool
wait system none = pure false
wait system (some sema) = if not sema.valid then pure false else system.sem_wait

unfoldable pub signal : Semaphores → Option KSemaphore → Cmd Bool
signal system none = pure false
signal system (some sema) = if not sema.valid then pure false else system.sem_post
