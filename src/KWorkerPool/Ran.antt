-- ===== src/KWorkerPool/Ran.antt =====
-- What a worker of kworker_pool.c gives up when it takes a task off the list and runs it.
use k_h.Base.{
  ◌+◌, ◌^◌, ◌<◌, ◌≤◌, ◌≡◌, ◌≢◌, refl, Bool, false, Option, none, some, [], ◌∷◌, arith, sym, ◌∙◌, ap,
  ◌==◌,
}
use mathlib.Core.Path.{subst}
use k_h.World.{Ptr, null, KObjectRef, World, fault, Cmd, ◌>>=◌, Env, pointwise, update}
use k_h.World.Returns
use k_h.World.Returns.{Returns, returns}
use k_h.KObject
use k_h.KObject.Counts.{refs, count_of, one_if, one_if-le, IsLeaf, release-Released}
use k_h.KObject.Made.{IsPlain, IsFresh}
use k_h.KList
use k_h.KList.{KList}
use k_h.KList.Links.{IsList}
use k_h.KList.Remove.{Unlinked, remove_object_at_index-Unlinked}
use k_h.KConditionVariable.{Pthread}
use k_h.KWorkerPool.{KWorkerPoolTask}
use k_h.KWorkerPool.Calls.{
  PoolObject, Procedure, with_task, task_execute, task_deinit, release_task, post_task, run_task,
  run_next,
}
use k_h.KWorkerPool.Posted.{Succeeds, GrantsEntries, post_task-Posted}

-- A procedure that leaves the library's objects alone.
abbrev pub LeavesObjects : Procedure → Type 0
LeavesObjects call =
    (task : Ptr) (user_data : KObjectRef) (w : World)
    → Returns (λ _ w'. (w'.blocks ≡ w.blocks) × (w'.entries ≡ w.entries)) (call task user_data w)

module _ (env : Env) (call : Procedure) (leaf : IsLeaf env) (quiet : LeavesObjects call) where
  one_if_self : (o : KObjectRef) → one_if (o == o) ≡ 1
  one_if_self o = ground arith

  -- The run of the procedure gives up the data, and clears the task.
  task_execute_lem :
      (fields : KWorkerPoolTask) (w : World)
      → fields.user_data ≢ null
      → 0 < refs w fields.user_data
      → refs w fields.user_data < 2 ^ 32
      → Returns
          (λ after w'.
            (after ≡ record { task = null; user_data = null })
            × (w'.entries ≡ w.entries)
            × ((o : KObjectRef) → refs w' o + one_if (o == fields.user_data) ≡ refs w o))
          (task_execute env call fields w)
  unfolding task_execute
  task_execute_lem fields w live pos fits = Returns.bind (quiet _ _ w) λ _ w₁ (same, kept₁).
      let still : (o : KObjectRef) → refs w₁ o ≡ refs w o = λ o. ap count_of (pointwise same o) in
      Returns.bind
        (release-Released env fields.user_data w₁ leaf live
          (omega (arith, still fields.user_data, pos))
          (omega (arith, still fields.user_data, fits)))
        λ _ w₂ (given, kept₂, _).
          returns (refl, kept₂ ∙ kept₁, λ o. omega (arith, given o, still o))

  -- The deinitialiser of a task that has run has nothing to release.
  nothing_to_release : IsLeaf (record env {
    deinit = λ isa obj. task_deinit env (record { task = null; user_data = null });
  })
  unfolding task_deinit KObject.release
  nothing_to_release isa obj w = returns (refl, refl)

  run_task_lem :
      (task : KObjectRef) (pool : PoolObject) (w : World)
      → task ≢ null
      → (pool.posted task).user_data ≢ null
      → ((o : KObjectRef)
          → one_if (o == task) + one_if (o == (pool.posted task).user_data) ≤ refs w o)
      → ((o : KObjectRef) → refs w o < 2 ^ 32)
      → Returns
          (λ p w'.
            (p ≡ with_task task (record { task = null; user_data = null }) pool)
            × (w'.entries ≡ w.entries)
            × ((o : KObjectRef)
                → refs w' o + one_if (o == task) + one_if (o == (pool.posted task).user_data)
                  ≡ refs w o))
          (run_task env call task pool w)
  unfolding run_task release_task
  run_task_lem task pool w live item_live owned fits =
      let some_task : (task == null) ≡ false = ground arith in
      let item = (pool.posted task).user_data in
      rw some_task (
        Returns.bind
          (task_execute_lem (pool.posted task) w item_live
            (omega (arith, owned item, one_if_self item)) (fits item))
          λ fields w₂ (cleared, kept₂, given). rw (cleared) (
            Returns.bind
              (release-Released _ task w₂ nothing_to_release live
                (ground (arith, owned task, given task)) (ground (arith, fits task, given task)))
              λ _ w₃ (gone, kept₃, _).
                returns (refl, kept₃ ∙ kept₂, λ o. omega (arith, gone o, given o))))

  -- The worker takes the task off an otherwise empty queue.
  run_next_lem :
      (pool : PoolObject) (list : KList) (cell : Ptr) (task : KObjectRef) (w : World)
      → pool.tasks ≡ some list
      → IsList w.entries list ((cell, task) ∷ [])
      → task ≢ null
      → (pool.posted task).user_data ≢ null
      → ((o : KObjectRef)
          → one_if (o == task) + one_if (o == (pool.posted task).user_data) ≤ refs w o)
      → ((o : KObjectRef) → refs w o < 2 ^ 32)
      → Returns
          (λ p w'.
            ((after : KList) × (p.tasks ≡ some after) × IsList w'.entries after [])
            × ((o : KObjectRef)
                → refs w' o + one_if (o == task) + one_if (o == (pool.posted task).user_data)
                  ≡ refs w o))
          (run_next env call pool w)
  unfolding run_next
  run_next_lem pool list cell task w tasks is live item_live owned fits =
      Returns.bind
        (subst
          (λ (t : Option KList).
            Returns (Unlinked ((cell, task) ∷ []) cell task [] w)
              (KList.remove_object_at_index t 0 w))
          (sym tasks)
          (remove_object_at_index-Unlinked list ((cell, task) ∷ []) 0 cell task w is (omega arith)
            refl))
        λ r w₁ u.
          let same : (o : KObjectRef) → refs w₁ o ≡ refs w o =
            λ o. ap count_of (pointwise u.blocks o) in
          rw u.result (
            Returns.mono
              (run_task_lem task (record pool { tasks = some u.list }) w₁ live item_live
                (λ o. omega (arith, owned o, same o)) (λ o. omega (arith, fits o, same o)))
              λ p w₂ (e, kept, counts). (
                (
                  u.list,
                  ap (λ (q : PoolObject). q.tasks) e,
                  subst (λ m. IsList m u.list []) (sym kept) u.is_list,
                ),
                λ o. omega (arith, counts o, same o),
              ))

posted-update :
    (posted : KObjectRef → KWorkerPoolTask) (task : KObjectRef) (fields : KWorkerPoolTask)
    → (update posted task fields task).user_data ≡ fields.user_data
posted-update posted task fields = ground arith

-- The first worker that gets to the queue runs what is in it.
abbrev pub then_run : Env → Procedure → Bool × Option PoolObject → Cmd PoolObject
then_run env call (ok, none) = λ _. fault
then_run env call (ok, some pool) = run_next env call pool

module _ (env : Env) (pthread : Pthread) (call : Procedure) (leaf : IsLeaf env)
    (quiet : LeavesObjects call) where
  -- A task that is posted to a pool with an empty queue and then run by a worker, whose release of
  -- it runs the deinitialiser of tasks, leaves the queue empty and every reference count as it was,
  -- those of the task and of its data included. The calls on the condition variable succeed, the
  -- allocator grants fresh memory, the class of tasks has a plain initialiser, other deinitialisers
  -- are leaves, the procedure leaves the library's objects alone, and the counts leave room for two
  -- references.
  pub post_task-run_next :
      (clasz : Ptr) (pool : PoolObject) (list : KList) (task_proc : Ptr) (user_data : KObjectRef)
      (w : World)
      → Succeeds pthread pool
      → pool.tasks ≡ some list
      → IsList w.entries list []
      → IsPlain env clasz
      → IsFresh env w
      → GrantsEntries env w
      → task_proc ≢ null
      → user_data ≢ null
      → 0 < refs w user_data
      → ((o : KObjectRef) → refs w o + 2 < 2 ^ 32)
      → Returns
          (λ p w'.
            ((after : KList) × (p.tasks ≡ some after) × IsList w'.entries after [])
            × ((o : KObjectRef) → refs w' o ≡ refs w o))
          ((post_task env pthread clasz (some pool) task_proc user_data >>= then_run env call) w)
  post_task-run_next clasz pool list task_proc user_data w ok tasks is plain fresh grants some_proc
        live pos fits =
      Returns.bind
        (post_task-Posted env pthread leaf clasz pool list [] task_proc user_data w ok tasks is
          (omega arith) plain fresh grants some_proc live pos (fits user_data))
        λ r w₁ p.
          let fields : KWorkerPoolTask = record { task = task_proc; user_data = user_data } in
          let after : PoolObject = with_task p.task fields (record pool { tasks = some p.list }) in
          let kept : (after.posted p.task).user_data ≡ user_data =
            posted-update pool.posted p.task fields in
          rw p.result (
            Returns.mono
              (run_next_lem env call leaf quiet after p.list p.cell p.task w₁ refl p.queued p.live
                (λ h. live (sym kept ∙ h))
                (λ o. omega (arith, p.counts o, ap (λ d. one_if (o == d)) kept))
                (λ o.
                  omega (
                    arith,
                    p.counts o,
                    fits o,
                    one_if-le (o == p.task),
                    one_if-le (o == user_data),
                  )))
              λ q w₂ (empty_list, counts). (
                empty_list,
                λ o. omega (arith, counts o, p.counts o, ap (λ d. one_if (o == d)) kept),
              ))
