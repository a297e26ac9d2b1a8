-- ===== src/KMutex.antt =====
-- kmutex.c: a lock made of a semaphore with count 1. `none` is NULL.
use k_h.Base.{Bool, false, Option, none, some, ◌==◌, if◌then◌else◌}
use k_h.World.{null, Cmd, pure, ◌>>=◌, Env, allocate}
use k_h.KSemaphore
use k_h.KSemaphore.{KSemaphore, Semaphores}

pub record KMutex : Type 0 where
  pub sema : Option KSemaphore

-- `KMutexAlloc` runs `KMutexInit`, which makes the semaphore.
unfoldable pub new : Env → Semaphores → Cmd (Option KMutex)
new env system = do
  mutex ← allocate env
  if mutex == null then pure none else do
    sema ← KSemaphore.new env system 1
    elim sema [ none ↦ pure none | some sema ↦ pure (some (record { sema = some sema })) ]

-- The deinitialiser gives up the semaphore, which only the mutex keeps.
unfoldable pub deinit : (sem_destroy : Cmd (Unit {0})) → KMutex → Cmd (Unit {0})
deinit sem_destroy mutex = elim mutex.sema [
  | none ↦ pure tt
  | some sema ↦ KSemaphore.deinit sem_destroy sema
]

unfoldable pub lock : Semaphores → Option KMutex → Cmd Bool
lock system none = pure false
lock system (some mutex) = KSemaphore.wait system mutex.sema

unfoldable pub unlock : Semaphores → Option KMutex → Cmd Bool
unlock system none = pure false
unlock system (some mutex) = KSemaphore.signal system mutex.sema
