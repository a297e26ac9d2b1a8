-- ===== src/KThread.antt =====
-- kthread.c, its POSIX branches: threads of the system. `none` is NULL.
pub mod Life
pub mod Windows
use k_h.Base.{
  ℕ, zero, suc, ◌+◌, ◌*◌, ◌/◌, ◌%◌, ◌^◌, Bool, true, false, not, ◌||◌, Option, none, some, ◌==◌,
  if◌then◌else◌,
}
use k_h.World.{
  Ptr, null, KObjectRef, done, fault, out_of_fuel, Cmd, pure, ◌>>=◌, ◌>>◌, Env, k_assert,
}
use k_h.KObject

-- What `nanosleep` answers: 0, -1 with `EINTR` and the time that is left, or -1 with another error.
pub data Nap : Type 0 where
  slept : Nap
  interrupted : (tv_sec tv_nsec : ℕ) → Nap
  failed : Nap

-- The calls of the system: `pthread_create` makes a handle, or none; `sysconf` answers none for -1.
pub record Threads : Type 0 where
  pub pthread_create : (thread : KObjectRef) → Cmd (Option ℕ)
  pub pthread_join : (handle : ℕ) → Cmd (Unit {0})
  pub sysconf : Cmd (Option ℕ)
  pub nanosleep : (tv_sec tv_nsec : ℕ) → Cmd Nap

pub record KThread : Type 0 where
  pub is_joined : Bool
  pub main : Ptr
  pub user_data : Ptr
  pub handle : ℕ
  pub is_valid : Bool

-- From the call of the system on; without a thread, both references are given up.
abbrev pub start :
    Env
    → Threads
    → (thread : KObjectRef) → (proc user_data : Ptr) → Cmd (Option (KObjectRef × KThread))
start env system thread proc user_data = do
  handle ← system.pthread_create thread
  elim handle [
    | none ↦ do KObject.release env thread; KObject.release env thread; pure none
    | some handle ↦ pure (
        some (
          thread,
          record {
            is_joined = false;
            main = proc;
            user_data = user_data;
            handle = handle;
            is_valid = true;
          },
        ))
  ]

-- `clasz` is the class of threads. A thread's object is given with its fields, or NULL.
unfoldable pub new :
    Env → Threads → (clasz : Ptr) → (proc user_data : Ptr) → Cmd (Option (KObjectRef × KThread))
new env system clasz proc user_data = if proc == null then pure none else do
  thread ← KObject.new env clasz
  if thread == null
      then pure none
      else do KObject.retain thread; start env system thread proc user_data

-- `KThreadMain`, on the new thread: `call` runs a procedure.
unfoldable pub thread_main :
    Env → (call : (proc user_data : Ptr) → Cmd (Unit {0})) → KObjectRef → KThread → Cmd (Unit {0})
thread_main env call thread fields = do
  KObject.release env thread
  call fields.main fields.user_data

unfoldable pub join : Threads → Option KThread → Cmd (Option KThread)
join system none = pure none
join system (some thread) =
    if thread.is_joined || not thread.is_valid then pure (some thread) else do
      system.pthread_join thread.handle
      pure (some (record thread { is_joined = true; is_valid = false }))

-- The deinitialiser.
unfoldable pub deinit : Threads → KThread → Cmd (Unit {0})
unfolding join
deinit system thread = do _ ← join system (some thread); pure tt

-- `none` is -1; the answer 0 counts as unknown, too.
unfoldable pub get_hardware_concurrency : Threads → Cmd ℕ
get_hardware_concurrency system = do
  result ← system.sysconf
  elim result [ none ↦ pure 1 | some count ↦ if count == 0 then pure 1 else pure count ]

abbrev pub nanos_per_sec : ℕ
nanos_per_sec = 10 ^ 9

-- The loop of `KThreadSleepNS`.
unfoldable pub sleep_loop : Threads → (fuel tv_sec tv_nsec : ℕ) → Cmd (Unit {0})
sleep_loop system zero tv_sec tv_nsec = λ _. out_of_fuel
sleep_loop system (suc fuel) tv_sec tv_nsec = do
  nap ← system.nanosleep tv_sec tv_nsec
  elim nap [
    | slept ↦ pure tt
    | interrupted tv_sec tv_nsec ↦ sleep_loop system fuel tv_sec tv_nsec
    | failed ↦ pure tt
  ]

unfoldable pub sleep_ns : Threads → (fuel ns : ℕ) → Cmd (Unit {0})
unfolding sleep_loop
sleep_ns system fuel ns =
    if ns == 0 then pure tt else sleep_loop system fuel (ns / nanos_per_sec) (ns % nanos_per_sec)

-- `seconds * 1e9` is a double that is cut off to whole nanoseconds; `to_ns` is that product.
unfoldable pub sleep_seconds :
    {Double : Type 0} → (to_ns : Double → ℕ) → Threads → (fuel : ℕ) → Double → Cmd (Unit {0})
unfolding sleep_ns
sleep_seconds to_ns system fuel seconds = sleep_ns system fuel (to_ns seconds)

-- On Linux the answer of `SYS_gettid`.
unfoldable pub get_current_id : (gettid : Cmd ℕ) → Cmd ℕ
get_current_id gettid = gettid

-- On macOS; `none` is another answer than 0.
unfoldable pub get_current_id_darwin : (threadid_np : Cmd (Option ℕ)) → Cmd ℕ
get_current_id_darwin threadid_np = do
  id ← threadid_np
  elim id [ none ↦ (k_assert false >> pure 0) | some id ↦ pure id ]
