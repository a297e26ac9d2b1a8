-- ===== src/KWorkerPool/Posted.antt =====
-- The references to a task and its data, from the post to the end of its run, in kworker_pool.c.
use k_h.Base.{
  ◌+◌, ◌^◌, ◌<◌, ◌≡◌, ◌≢◌, refl, Bool, true, false, Option, none, some, [], ◌∷◌, ◌++◌, arith, sym,
  ◌∙◌, ◌==◌, inl, inr, length,
}
use mathlib.Core.Path.{subst}
use k_h.World.{Ptr, null, KObjectRef, World, Env}
use k_h.World.Returns
use k_h.World.Returns.{Returns, returns}
use k_h.KObject.Counts.{refs, one_if, IsLeaf, retain-Retained, release_shared}
use k_h.KObject.Made.{IsPlain, IsFresh, new-Made}
use k_h.KList
use k_h.KList.{KList}
use k_h.KList.Links.{Cells, IsList}
use k_h.KList.Add.{add_object-IsList}
use k_h.KConditionVariable
use k_h.KConditionVariable.{KConditionVariable, Pthread}
use k_h.KWorkerPool.Calls.{PoolObject, with_task, release_task, post_task}

-- The pool's condition variable is valid, and the calls on it succeed.
pub record Succeeds (pthread : Pthread) (pool : PoolObject) : Type 0 where
  pub entered : KConditionVariable.critical_section_enter pthread pool.cv ≡ true
  pub left : KConditionVariable.critical_section_exit pthread pool.cv ≡ true
  pub notified : KConditionVariable.notify_one pthread pool.cv ≡ true

-- The allocator grants memory that no list entry stands in.
abbrev pub GrantsEntries : Env → World → Type 0
GrantsEntries env w =
    (w' : World)
    → w'.entries ≡ w.entries
    → (env.malloc w' ≢ null) × (w'.entries (env.malloc w') ≡ none)

-- The task is the last of the list, and alone kept by it; it keeps the data.
pub record Posted (pool : PoolObject) (xs : Cells) (task_proc : Ptr) (user_data : KObjectRef)
    (w : World) (r : Bool × Option PoolObject) (w' : World) : Type 0 where
  pub task : KObjectRef
  pub cell : Ptr
  pub list : KList
  pub result : r ≡ (
    true,
    some (
        with_task task
          (record { task = task_proc; user_data = user_data })
          (record pool { tasks = some list })),
  )
  pub queued : IsList w'.entries list (xs ++ (cell, task) ∷ [])
  pub live : task ≢ null
  pub made : refs w task ≡ 0
  pub counts :
      (o : KObjectRef) → refs w' o ≡ refs w o + one_if (o == task) + one_if (o == user_data)

-- The task is added to the list, which refers to it.
abbrev pub Queued : Env → KObjectRef → Cells → World → Bool × Option KList → World → Type 0
Queued env task xs w r w' =
    (after : KList) × (r ≡ (true, some after))
    × IsList w'.entries after (xs ++ (env.malloc w, task) ∷ [])
    × ((o : KObjectRef) → refs w' o ≡ refs w o + one_if (o == task))

module _ (env : Env) (pthread : Pthread) (leaf : IsLeaf env) where
  -- `KListAddObject` of the task.
  queued :
      (pool : PoolObject) (list : KList) (xs : Cells) (task : KObjectRef) (w : World)
      → (env.malloc w ≢ null) × (w.entries (env.malloc w) ≡ none)
      → pool.tasks ≡ some list
      → IsList w.entries list xs
      → length xs + 1 < 2 ^ 64
      → task ≢ null
      → 0 < refs w task
      → refs w task + 1 < 2 ^ 32
      → Returns (Queued env task xs w) (KList.add_object env pool.tasks task w)
  queued pool list xs task w (granted, unused) tasks is small live pos fits =
      subst (λ (t : Option KList). Returns (Queued env task xs w) (KList.add_object env t task w))
        (sym tasks)
        (Returns.mono (add_object-IsList env list xs task w is small live pos fits granted unused)
          λ r w' (after, result, is_list, gained, _). (after, result, is_list, gained))

  pub post_task-Posted :
      (clasz : Ptr) (pool : PoolObject) (list : KList) (xs : Cells) (task_proc : Ptr)
      (user_data : KObjectRef) (w : World)
      → Succeeds pthread pool
      → pool.tasks ≡ some list
      → IsList w.entries list xs
      → length xs + 1 < 2 ^ 64
      → IsPlain env clasz
      → IsFresh env w
      → GrantsEntries env w
      → task_proc ≢ null
      → user_data ≢ null
      → 0 < refs w user_data
      → refs w user_data + 2 < 2 ^ 32
      → Returns
          (Posted pool xs task_proc user_data w)
          (post_task env pthread clasz (some pool) task_proc user_data w)
  unfolding post_task release_task
  post_task-Posted clasz pool list xs task_proc user_data w ok tasks is small plain fresh grants
        some_proc live pos fits =
      let proc_not_null : (task_proc == null) ≡ false = ground arith in
      rw proc_not_null (
        Returns.bind (new-Made env clasz w plain fresh) λ task w₁ made. elim made [
          | inl (e, refused, same) ↦ absurd ((grants w refl).0 refused)
          | inr (e, unused, kept₁, gained₁) ↦
              let task_live : task ≢ null = (λ h. ground (arith, e, h)) in
              let some_task : (task == null) ≡ false = ground (arith, e) in
              let other : (user_data == task) ≡ false = ground (arith, unused) in
              rw some_task (
                Returns.bind
                  (retain-Retained user_data w₁ live (ground (arith, gained₁ user_data))
                    (ground (arith, gained₁ user_data, other)))
                  λ _ w₂ (gained₂, kept₂).
                    let held : (o : KObjectRef)
                        → refs w₂ o ≡ refs w o + one_if (o == task) + one_if (o == user_data) =
                      λ o. omega (arith, gained₁ o, gained₂ o) in
                    let kept : w₂.entries ≡ w.entries = kept₂ ∙ kept₁ in
                    let one_made : refs w₂ task ≡ 1 = ground (arith, held task, unused, other) in
                    rw (ok.entered) (
                      Returns.bind
                        (queued pool list xs task w₂ (grants w₂ kept) tasks
                          (subst (λ m. IsList m list xs) (sym kept) is) small task_live
                          (omega (arith, one_made)) (omega (arith, one_made)))
                        λ r w₃ (after, added, is_list, gained₃).
                          rw (added, ok.left)
                            (Returns.bind
                              (release_shared _ task w₃ task_live
                                (ground (arith, gained₃ task, one_made))
                                (ground (arith, gained₃ task, one_made)))
                              λ _ w₄ (given, kept₄, _). rw (ok.notified) (
                                returns (record {
                                  task = task;
                                  cell = env.malloc w₂;
                                  list = after;
                                  result = refl;
                                  queued =
                                      subst (λ m. IsList m after (xs ++ (env.malloc w₂, task) ∷ []))
                                        (sym kept₄) is_list;
                                  live = task_live;
                                  made = unused;
                                  counts = λ o. omega (arith, given o, gained₃ o, held o);
                                })))))
        ])
