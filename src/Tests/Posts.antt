-- ===== src/Tests/Posts.antt =====
-- A task that is posted to a pool with an empty queue, and run.
use k_h.Base.{◌≡◌, refl, true, false, none, some, [], arith}
use k_h.World.{null, KObjectRef, ◌>>=◌, done, pointwise}
use k_h.World.Returns.{Returns, returns}
use k_h.KObject.Counts.{refs}
use k_h.KObject.Made.{IsPlain}
use k_h.KList.{KList}
use k_h.KList.Links.{IsList}
use k_h.KConditionVariable
use k_h.KConditionVariable.{Pthread}
use k_h.KWorkerPool.Calls.{PoolObject, Procedure, post_task}
use k_h.KWorkerPool.Posted.{Succeeds}
use k_h.KWorkerPool.Ran.{then_run, post_task-run_next}
use k_h.Tests.{generous, generous-IsLeaf, start}

abbrev posix : Pthread
posix = record {
  mutex_init = true;
  cond_init = true;
  mutex_lock = true;
  mutex_unlock = true;
  cond_signal = true;
  cond_broadcast = true;
}

abbrev no_tasks : KList
no_tasks = record { root = null; count = 0 }

abbrev idle_pool : PoolObject
idle_pool = record {
  cv = some (record { is_valid = true });
  workers = none;
  tasks = some no_tasks;
  shutdown = false;
  threads = λ _. record {
    is_joined = false;
    main = null;
    user_data = null;
    handle = 0;
    is_valid = false;
  };
  posted = λ _. record { task = null; user_data = null };
}

idle_pool-Succeeds : Succeeds posix idle_pool
unfolding KConditionVariable.critical_section_enter KConditionVariable.critical_section_exit
    KConditionVariable.notify_one
idle_pool-Succeeds = record { entered = refl; left = refl; notified = refl }

no_tasks-IsList : IsList start.entries no_tasks []
no_tasks-IsList = record { root = refl; count = refl; links = tt; distinct = tt }

abbrev nothing : Procedure
nothing task user_data w = done tt w

generous-IsPlain : IsPlain generous 9
generous-IsPlain obj w = returns (refl, refl)

posted_and_run :
    Returns
      (λ p w'.
        ((after : KList) × (p.tasks ≡ some after) × IsList w'.entries after [])
        × ((o : KObjectRef) → refs w' o ≡ refs start o))
      ((post_task generous posix 9 (some idle_pool) 5 2 >>= then_run generous nothing) start)
posted_and_run =
    post_task-run_next generous posix nothing generous-IsLeaf
      (λ task user_data w. returns (refl, refl)) 9 idle_pool no_tasks 5 2 start idle_pool-Succeeds
      refl no_tasks-IsList generous-IsPlain refl (λ w' same. (ground arith, pointwise same _))
      (λ h. absurd cc) (λ h. absurd cc) (omega arith) (λ o. ground arith)
