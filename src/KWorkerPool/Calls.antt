-- ===== src/KWorkerPool/Calls.antt =====
-- The functions of kworker_pool.c as calls of the other parts, one thread at a time: which objects
-- they make, keep and give up. The interleaving of the threads is in the parent.
use k_h.Base.{
  ℕ, zero, suc, ◌≡◌, refl, Bool, true, false, ◌&&◌, Option, none, some, ◌==◌, if◌then◌else◌,
}
use k_h.World.{
  Ptr, null, KObjectRef, World, aborted, fault, Cmd, pure, ◌>>=◌, ◌>>◌, Env, allocate, k_assert,
  update,
}
use k_h.KObject
use k_h.KArray
use k_h.KArray.{KArray}
use k_h.KList
use k_h.KList.{KList}
use k_h.KConditionVariable
use k_h.KConditionVariable.{KConditionVariable, Pthread}
use k_h.KThread
use k_h.KThread.{KThread, Threads}
use k_h.KWorkerPool.{KWorkerPoolTask}

-- The fields of `struct KWorkerPool`, with the fields of the threads and tasks by their objects.
pub record PoolObject : Type 0 where
  pub cv : Option KConditionVariable
  pub workers : Option KArray
  pub tasks : Option KList
  pub shutdown : Bool
  pub threads : KObjectRef → KThread
  pub posted : KObjectRef → KWorkerPoolTask

-- The procedure of a task, which is given.
abbrev pub Procedure : Type 0
Procedure = (task : Ptr) (user_data : KObjectRef) → Cmd (Unit {0})

unfoldable pub task_deinit : Env → KWorkerPoolTask → Cmd (Unit {0})
task_deinit env task = KObject.release env task.user_data

-- `KWorkerPoolTaskRelease`: with the last reference the task's deinitialiser runs, on its fields.
unfoldable pub release_task : Env → KWorkerPoolTask → (task : KObjectRef) → Cmd (Unit {0})
release_task env fields task =
    KObject.release (record env { deinit = λ isa obj. task_deinit env fields }) task

unfoldable pub task_execute : Env → Procedure → KWorkerPoolTask → Cmd KWorkerPoolTask
task_execute env call task = do
  call task.task task.user_data
  KObject.release env task.user_data
  pure (record { task = null; user_data = null })

abbrev pub with_task : KObjectRef → KWorkerPoolTask → PoolObject → PoolObject
with_task task fields pool = record pool { posted = update pool.posted task fields }

-- `clasz` is the class of tasks. The write to a task that could not be made goes through NULL.
unfoldable pub post_task :
    Env
    → Pthread
    → (clasz : Ptr) → Option PoolObject
    → (task_proc : Ptr) (user_data : KObjectRef) → Cmd (Bool × Option PoolObject)
post_task env pthread clasz none task_proc user_data = pure (false, none)
post_task env pthread clasz (some pool) task_proc user_data =
    if task_proc == null then pure (false, some pool) else do
      task ← KObject.new env clasz
      if task == null then (λ _. fault) else do
        KObject.retain user_data
        k_assert (KConditionVariable.critical_section_enter pthread pool.cv)
        (added, tasks) ← KList.add_object env pool.tasks task
        k_assert added
        k_assert (KConditionVariable.critical_section_exit pthread pool.cv)
        release_task env (record { task = task_proc; user_data = user_data }) task
        k_assert (KConditionVariable.notify_one pthread pool.cv)
        pure (
          true,
          some (
              with_task task (record { task = task_proc; user_data = user_data })
                (record pool { tasks = tasks })),
        )

-- What a worker does with a task that it took; `null` if there was none.
unfoldable pub run_task : Env → Procedure → (task : KObjectRef) → PoolObject → Cmd PoolObject
unfolding task_execute
run_task env call task pool = if task == null then pure pool else do
  fields ← task_execute env call (pool.posted task)
  release_task env fields task
  pure (with_task task fields pool)

-- What a worker does after its wait.
unfoldable pub run_next : Env → Procedure → PoolObject → Cmd PoolObject
run_next env call pool = do
  (task, tasks) ← KList.remove_object_at_index pool.tasks 0
  run_task env call task (record pool { tasks = tasks })

-- `KWorkerJoinIterator`
abbrev pub join_iterator : Threads → KObjectRef → ℕ → PoolObject → Cmd (Bool × PoolObject)
join_iterator system obj index pool = do
  thread ← KThread.join system (some (pool.threads obj))
  elim thread [
    | none ↦ pure (true, pool)
    | some thread ↦ pure (true, record pool { threads = update pool.threads obj thread })
  ]

unfoldable pub shutdown :
    Env → Pthread → Threads → Option PoolObject → Cmd (Bool × Option PoolObject)
shutdown env pthread system none = pure (false, none)
shutdown env pthread system (some pool) = do
  k_assert (KConditionVariable.critical_section_enter pthread pool.cv)
  k_assert (KConditionVariable.critical_section_exit pthread pool.cv)
  k_assert (KConditionVariable.notify_all pthread pool.cv)
  (_, pool) ←
      KArray.iterate pool.workers (some (join_iterator system)) (record pool { shutdown = true })
  (_, workers) ← KArray.remove_all_objects env pool.workers
  pure (true, some (record pool { workers = workers }))

-- The deinitialiser. The condition variable's own one makes calls of the system only.
unfoldable pub deinit : Env → Pthread → Threads → PoolObject → Cmd (Unit {0})
unfolding shutdown
deinit env pthread system pool = do
  (is_shut, after) ← shutdown env pthread system (some pool)
  k_assert is_shut
  elim after [
    | none ↦ pure tt
    | some pool ↦ (do KArray.deinit env pool.workers; KList.deinit env pool.tasks)
  ]

-- `left` threads are still to be made; `pool_ref` is the pool's address, `main` the worker's function.
unfoldable pub add_workers :
    Env → Threads → (thread_class main pool_ref : Ptr) → (left : ℕ) → PoolObject → Cmd PoolObject
add_workers env system thread_class main pool_ref zero pool = pure pool
add_workers env system thread_class main pool_ref (suc left) pool = do
  thread ← KThread.new env system thread_class main pool_ref
  elim thread [
    | none ↦ do
      (_, workers) ← KArray.add_object env pool.workers null
      add_workers env system thread_class main pool_ref left (record pool { workers = workers })
    | some (obj, fields) ↦ do
      (_, workers) ← KArray.add_object env pool.workers obj
      KObject.release env obj
      add_workers env system thread_class main pool_ref left
          (record pool { workers = workers; threads = update pool.threads obj fields })
  ]

abbrev pub is_made {ℓ} : {A : Type ℓ} → Option A → Bool
is_made none = false
is_made (some a) = true

-- The test at the end of `KWorkerPoolNew`.
abbrev pub is_complete : (worker_count : ℕ) → PoolObject → Bool
is_complete worker_count pool =
    is_made pool.cv
    && is_made pool.workers
    && is_made pool.tasks
    && (KArray.get_length pool.workers == worker_count)

abbrev pub finish :
    Env → Pthread → Threads → (worker_count : ℕ) → PoolObject → Cmd (Option PoolObject)
finish env pthread system worker_count pool =
    if is_complete worker_count pool
    then pure (some pool)
    else (do deinit env pthread system pool; pure none)

unfoldable pub new :
    Env
    → Pthread
    → Threads
    → (thread_class main : Ptr) → (worker_count : ℕ) → Cmd (Option PoolObject)
new env pthread system thread_class main worker_count = if worker_count == 0 then pure none else do
  pool ← allocate env
  if pool == null then pure none else do
    cv ← KConditionVariable.new env pthread
    workers ← KArray.new env
    tasks ← KList.new env
    pool ← add_workers env system thread_class main pool worker_count (record {
      cv = cv;
      workers = workers;
      tasks = tasks;
      shutdown = false;
      threads = λ _. record {
        is_joined = false;
        main = null;
        user_data = null;
        handle = 0;
        is_valid = false;
      };
      posted = λ _. record { task = null; user_data = null };
    })
    finish env pthread system worker_count pool

unfoldable pub get_worker_count : Option PoolObject → ℕ
get_worker_count none = 0
get_worker_count (some pool) = KArray.get_length pool.workers

-- A pool without a condition variable cannot be given up again.
finish-aborted :
    (env : Env) (pthread : Pthread) (system : Threads) (worker_count : ℕ) (pool : PoolObject)
    (w : World)
    → pool.cv ≡ none
    → finish env pthread system worker_count pool w ≡ aborted
unfolding deinit shutdown KConditionVariable.critical_section_enter
finish-aborted env pthread system worker_count pool w e = rw e refl
