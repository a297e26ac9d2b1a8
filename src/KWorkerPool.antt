-- ===== src/KWorkerPool.antt =====
-- kworker_pool.c: threads that take tasks off a shared queue, under one condition variable.
-- Each thread moves one step at a time, in any order; a step is what happens between two points
-- where another thread can see a difference. The queue is the sequence that KList keeps.
pub mod Counting
pub mod Lock
pub mod Tasks
pub mod Wakeups
pub mod Shutdown
pub mod Closes
pub mod Ready
pub mod Progress
pub mod Quiet
pub mod Joined
pub mod Calls
pub mod Posted
pub mod Ran
use k_h.Base.{
  ℕ, suc, ◌+◌, ◌≤◌, ◌<◌, ◌≡◌, ◌≢◌, Bool, true, false, not, ◌&&◌, Option, none, some, List, [], ◌∷◌,
  ◌++◌, ltb, if◌then◌else◌,
}
use k_h.World.{Ptr, KObjectRef, update}

-- `struct KWorkerPoolTask`: the procedure and what it is called with.
pub record KWorkerPoolTask : Type 0 where
  pub task : Ptr
  pub user_data : KObjectRef

-- `struct KWorkerPool`: `lock` is the thread that is in the critical section of its condition
-- variable, `workers` the length of its array. The last three fields are a record of what happened:
-- the tasks that were added to the queue, taken off it, and executed, each in order.
pub record KWorkerPool : Type 0 where
  pub lock : Option ℕ
  pub workers : ℕ
  pub tasks : List KWorkerPoolTask
  pub shutdown : Bool
  pub posted : List KWorkerPoolTask
  pub taken : List KWorkerPoolTask
  pub executed : List KWorkerPoolTask

-- Where a thread stands. A worker's `is_running` is its local variable.
pub data Place : Type 0 where
  head : (is_running : Bool) → Place  -- the test of the worker's loop
  entered : (is_running : Bool) → Place  -- in the critical section
  testing : (is_running : Bool) → Place  -- before the predicate in `KConditionVariableWait`
  sleeping : (is_running : Bool) → Place  -- in `pthread_cond_wait`
  woken : (is_running : Bool) → Place  -- there, about to enter the critical section again
  taking : (is_running : Bool) → Place  -- after the wait
  leaving : (is_running : Bool) (task : Option KWorkerPoolTask) → Place
  executing : (is_running : Bool) (task : KWorkerPoolTask) → Place
  finished : Place
  outside : Place  -- a thread that is no worker, between two calls
  wants_post : (task : KWorkerPoolTask) → Place  -- at the start of `KWorkerPoolPostTask`
  posting : (task : KWorkerPoolTask) → Place  -- in the critical section
  added : Place  -- there, with the task in the queue
  notifying : Place  -- before `KConditionVariableNotifyOne`
  wants_close : Place  -- at the start of `KWorkerPoolShutdown`
  closing : Place  -- in the critical section
  closed : Place  -- there, with `shutdown` set
  broadcasting : Place  -- before `KConditionVariableNotifyAll`
  joining : (index : ℕ) → Place  -- in the loop that joins the workers

abbrev pub is_empty : List KWorkerPoolTask → Bool
is_empty [] = true
is_empty (task ∷ tasks) = false

-- A worker sleeps as long as this is true.
unfoldable pub cv_predicate : KWorkerPool → Bool
cv_predicate pool = is_empty pool.tasks && not pool.shutdown

-- `KListRemoveObjectAtIndex(pool->tasks, 0u)`
abbrev pub take_first : Bool → KWorkerPool → List KWorkerPoolTask → KWorkerPool × Place
take_first is_running pool [] = (pool, leaving is_running none)
take_first is_running pool (task ∷ tasks) =
    (record pool { tasks = tasks; taken = pool.taken ++ task ∷ [] }, leaving is_running (some task))

abbrev pub acquire : ℕ → KWorkerPool → Option ℕ → Place → Option (KWorkerPool × Place)
acquire i pool none place = some (record pool { lock = some i }, place)
acquire i pool (some owner) place = none

abbrev pub unlocked : KWorkerPool → KWorkerPool
unlocked pool = record pool { lock = none }

-- The steps of `KWorkerPoolWorkerMain`, with the wait of its condition variable.
abbrev pub worker_step : ℕ → KWorkerPool → Place → Option (KWorkerPool × Place)
worker_step i pool (head true) = acquire i pool pool.lock (entered true)
worker_step i pool (head false) = some (pool, finished)
worker_step i pool (entered is_running) = some (pool, testing (is_running && not pool.shutdown))
worker_step i pool (testing is_running) =
    if cv_predicate pool
    then some (unlocked pool, sleeping is_running)
    else some (pool, taking is_running)
worker_step i pool (woken is_running) = acquire i pool pool.lock (testing is_running)
worker_step i pool (taking is_running) = some (take_first is_running pool pool.tasks)
worker_step i pool (leaving is_running none) = some (unlocked pool, head is_running)
worker_step i pool (leaving is_running (some task)) =
    some (unlocked pool, executing is_running task)
worker_step i pool (executing is_running task) =
    some (record pool { executed = pool.executed ++ task ∷ [] }, head is_running)
worker_step i pool place = none

-- The steps of `KWorkerPoolPostTask`.
abbrev pub post_task_step : ℕ → KWorkerPool → Place → Option (KWorkerPool × Place)
post_task_step i pool (wants_post task) = acquire i pool pool.lock (posting task)
post_task_step i pool (posting task) =
    some (record pool { tasks = pool.tasks ++ task ∷ []; posted = pool.posted ++ task ∷ [] }, added)
post_task_step i pool added = some (unlocked pool, notifying)
post_task_step i pool place = none

-- The steps of `KWorkerPoolShutdown`.
abbrev pub shutdown_step : ℕ → KWorkerPool → Place → Option (KWorkerPool × Place)
shutdown_step i pool wants_close = acquire i pool pool.lock closing
shutdown_step i pool closing = some (record pool { shutdown = true }, closed)
shutdown_step i pool closed = some (unlocked pool, broadcasting)
shutdown_step i pool (joining index) =
    if ltb index pool.workers then none else some (record pool { workers = 0 }, outside)
shutdown_step i pool place = none

-- The step of thread `i`, where what it does is up to it alone; `none` if it waits for another.
unfoldable pub thread_step : ℕ → KWorkerPool → Place → Option (KWorkerPool × Place)
thread_step i pool (wants_post task) = post_task_step i pool (wants_post task)
thread_step i pool (posting task) = post_task_step i pool (posting task)
thread_step i pool added = post_task_step i pool added
thread_step i pool wants_close = shutdown_step i pool wants_close
thread_step i pool closing = shutdown_step i pool closing
thread_step i pool closed = shutdown_step i pool closed
thread_step i pool (joining index) = shutdown_step i pool (joining index)
thread_step i pool place = worker_step i pool place

-- A notification reaches the threads that sleep.
abbrev pub wake : Place → Place
wake (sleeping is_running) = woken is_running
wake place = place

pub record System : Type 0 where
  pub pool : KWorkerPool
  pub place : ℕ → Place

-- What can happen next. A sleeping thread may also wake up by itself, and where two threads join the
-- same worker, `pthread_join` may fail in one of them, which goes on at once.
pub data Step (s : System) : System → Type 0 where
  run :
      (i : ℕ) {pool : KWorkerPool} {place : Place}
      → thread_step i s.pool (s.place i) ≡ some (pool, place)
      → Step s (record { pool = pool; place = update s.place i place })
  post :
      (i : ℕ) (task : KWorkerPoolTask)
      → s.place i ≡ outside
      → Step s (record s { place = update s.place i (wants_post task) })
  shut : (i : ℕ) → s.place i ≡ outside → Step s (record s { place = update s.place i wants_close })
  spurious :
      (i : ℕ) (is_running : Bool)
      → s.place i ≡ sleeping is_running
      → Step s (record s { place = update s.place i (woken is_running) })
  notify :
      (i j : ℕ) (is_running : Bool)
      → s.place i ≡ notifying
      → s.place j ≡ sleeping is_running
      → Step s (record s { place = update (update s.place j (woken is_running)) i outside })
  notify_nobody :
      (i : ℕ)
      → s.place i ≡ notifying
      → ((j : ℕ) → wake (s.place j) ≡ s.place j)
      → Step s (record s { place = update s.place i outside })
  notify_all :
      (i : ℕ)
      → s.place i ≡ broadcasting
      → Step s (record s { place = update (λ j. wake (s.place j)) i (joining 0) })
  join :
      (i index : ℕ)
      → s.place i ≡ joining index
      → index < s.pool.workers
      → s.place index ≡ finished
      → Step s (record s { place = update s.place i (joining (suc index)) })
  join_fails :
      (i j index : ℕ)
      → i ≢ j
      → s.place i ≡ joining index
      → s.place j ≡ joining index
      → index < s.pool.workers
      → Step s (record s { place = update s.place i (joining (suc index)) })

-- A new pool with `n` workers, and any number of other threads.
abbrev pub initial : ℕ → System
initial n = record {
  pool = record {
    lock = none;
    workers = n;
    tasks = [];
    shutdown = false;
    posted = [];
    taken = [];
    executed = [];
  };
  place = λ i. if ltb i n then head true else outside;
}

pub data Reach (n : ℕ) : System → Type 0 where
  start : Reach n (initial n)
  later : {s t : System} → Reach n s → Step s t → Reach n t
