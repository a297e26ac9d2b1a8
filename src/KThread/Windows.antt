-- ===== src/KThread/Windows.antt =====
-- kthread.c, its Windows branches. `none` is NULL.
use k_h.Base.{ℕ, ◌/◌, ◌^◌, Bool, true, false, ◌||◌, Option, none, some, ◌==◌, if◌then◌else◌}
use k_h.World.{Ptr, null, KObjectRef, Cmd, pure, ◌>>=◌, ◌>>◌, Env}
use k_h.KObject

-- The calls of the system. `CreateThread` answers none for NULL, and the processors are a `DWORD`.
pub record WindowsThreads : Type 0 where
  pub create_thread : (thread : KObjectRef) → Cmd (Option ℕ)
  pub wait_for_single_object : (handle : ℕ) → Cmd (Unit {0})
  pub close_handle : (handle : ℕ) → Cmd (Unit {0})
  pub number_of_processors : Cmd ℕ
  pub sleep : (milliseconds : ℕ) → Cmd (Unit {0})
  pub get_current_thread_id : Cmd ℕ

-- `none` is a NULL handle.
pub record KThread : Type 0 where
  pub is_joined : Bool
  pub main : Ptr
  pub user_data : Ptr
  pub handle : Option ℕ

-- From the call of the system on; without a thread, both references are given up.
abbrev pub start :
    Env
    → WindowsThreads
    → (thread : KObjectRef) → (proc user_data : Ptr) → Cmd (Option (KObjectRef × KThread))
start env system thread proc user_data = do
  handle ← system.create_thread thread
  elim handle [
    | none ↦ do KObject.release env thread; KObject.release env thread; pure none
    | some handle ↦ pure (
        some (
          thread,
          record { is_joined = false; main = proc; user_data = user_data; handle = some handle },
        ))
  ]

-- `clasz` is the class of threads. A thread's object is given with its fields, or NULL.
unfoldable pub new :
    Env
    → WindowsThreads
    → (clasz : Ptr) → (proc user_data : Ptr) → Cmd (Option (KObjectRef × KThread))
new env system clasz proc user_data = if proc == null then pure none else do
  thread ← KObject.new env clasz
  if thread == null
      then pure none
      else do KObject.retain thread; start env system thread proc user_data

abbrev pub is_null : Option ℕ → Bool
is_null none = true
is_null (some handle) = false

abbrev close_waited : WindowsThreads → Option ℕ → Cmd (Unit {0})
close_waited system none = pure tt
close_waited system (some handle) = do
  system.wait_for_single_object handle
  system.close_handle handle

unfoldable pub join : WindowsThreads → Option KThread → Cmd (Option KThread)
join system none = pure none
join system (some thread) =
    if thread.is_joined || is_null thread.handle then pure (some thread) else do
      close_waited system thread.handle
      pure (some (record thread { is_joined = true; handle = none }))

-- The deinitialiser.
unfoldable pub deinit : WindowsThreads → KThread → Cmd (Unit {0})
unfolding join
deinit system thread = do _ ← join system (some thread); pure tt

-- The `DWORD` becomes an `int`, negative from 2 ^ 31 on.
unfoldable pub get_hardware_concurrency : WindowsThreads → Cmd ℕ
get_hardware_concurrency system = do
  count ← system.number_of_processors
  if (count == 0) || (count / 2 ^ 31 == 1) then pure 1 else pure count

-- `ns / 1e6`, a double, cut off to whole milliseconds: so for `ns` below 2 ^ 52.
unfoldable pub sleep_ns : WindowsThreads → (ns : ℕ) → Cmd (Unit {0})
sleep_ns system ns = if ns == 0 then pure tt else system.sleep (ns / 10 ^ 6)

unfoldable pub get_current_id : WindowsThreads → Cmd ℕ
get_current_id system = system.get_current_thread_id
