-- ===== src/KThread/Life.antt =====
-- The references to a thread of kthread.c, and how often the system joins it.
use k_h.Base.{
  ◌⊎◌, sym, ◌∙◌, ◌+◌, ◌*◌, ◌^◌, ◌<◌, ◌≡◌, ◌≢◌, refl, true, false, not, ◌||◌, Option, none, some,
  arith, ap, inl, inr, ◌==◌, Bool-cases, Option-cases,
}
use k_h.World.{
  Ptr, null, KObjectRef, World, Run, done, and_then, Env, Cmd, pure, pointwise, ◌>>=◌, ◌>>◌,
}
use k_h.World.Returns
use k_h.World.Returns.{Returns, returns}
use k_h.KObject
use k_h.KObject.{sizeof_control_block}
use k_h.KObject.Counts.{refs, count_of, one_if, IsLeaf, Released, retain-Retained, release-Released}
use k_h.KObject.Made.{IsPlain, IsFresh, new-Made}
use k_h.KThread.{KThread, Threads, new, thread_main, join}

-- The call that makes a system thread touches no object.
abbrev pub IsQuiet : Threads → Type 0
IsQuiet system =
    (thread : KObjectRef) (w : World)
    → Returns (λ _ w'. w'.blocks ≡ w.blocks) (system.pthread_create thread w)

-- The thread's own fields, and the two references to its object.
abbrev pub Started :
    Env → Threads → (proc user_data : Ptr) → World → Option (KObjectRef × KThread) → World → Type 0
Started env system proc user_data w none w' =
    ((env.malloc w ≡ null)
      ⊎ ((u v : World) × (system.pthread_create (env.malloc w + sizeof_control_block) u
            ≡ done none v)))
    × ((o : KObjectRef) → refs w' o ≡ refs w o)
Started env system proc user_data w (some (thread, fields)) w' =
    (thread ≡ env.malloc w + sizeof_control_block)
    × ((u v : World) × (system.pthread_create thread u ≡ done (some fields.handle) v))
    × (fields.main ≡ proc)
    × (fields.user_data ≡ user_data)
    × (fields.is_valid ≡ true)
    × (fields.is_joined ≡ false)
    × (thread ≢ null)
    × (refs w thread ≡ 0)
    × ((o : KObjectRef) → refs w' o ≡ refs w o + 2 * one_if (o == thread))

module _ (env : Env) (system : Threads) (leaf : IsLeaf env) (quiet : IsQuiet system) where
  -- The two releases where the system makes no thread.
  given_up_twice :
      (proc user_data : Ptr) (thread : KObjectRef) (w w' u v : World)
      → thread ≡ env.malloc w + sizeof_control_block
      → system.pthread_create thread u ≡ done none v
      → thread ≢ null
      → refs w thread ≡ 0
      → ((o : KObjectRef) → refs w' o ≡ refs w o + 2 * one_if (o == thread))
      → Returns
          (Started env system proc user_data w)
          (((KObject.release env thread) >> ((KObject.release env thread) >> pure none)) w')
  given_up_twice proc user_data thread w w' u v at refused live unused two =
      Returns.bind
        (release-Released env thread w' leaf live (ground (arith, two thread))
          (ground (arith, two thread)))
        λ _ w₁ (first, _, _).
          Returns.bind
            (release-Released env thread w₁ leaf live (ground (arith, two thread, first thread))
              (ground (arith, two thread, first thread)))
            λ _ w₂ (second, _, _). returns (
              inr (u, v, ap (λ t. system.pthread_create t u) (sym at) ∙ refused),
              λ o. ground (arith, two o, first o, second o),
            )

  -- `KThreadNew` with a procedure returns: either NULL with every count as before, if the allocator
  -- refused the object or `pthread_create` of it failed, or, with the handle that `pthread_create`
  -- answered, a valid thread that holds the procedure and its data, with two references, one for
  -- the caller and one for the new thread. Fresh memory, a plain initialiser, leaf deinitialisers,
  -- and a `pthread_create` that touches no object.
  pub new-Started :
      (clasz proc user_data : Ptr) (w : World)
      → IsPlain env clasz
      → IsFresh env w
      → proc ≢ null
      → Returns (Started env system proc user_data w) (new env system clasz proc user_data w)
  unfolding new
  new-Started clasz proc user_data w plain fresh some_proc =
      let not_null : (proc == null) ≡ false = ground arith in
      rw not_null (
        Returns.bind (new-Made env clasz w plain fresh) λ thread w₁ made. elim made [
          | inl (e, refused, same) ↦ rw e (returns (inl refused, same))
          | inr (e, unused, _, gained) ↦
              let live : thread ≢ null = (λ h. ground (arith, e, h)) in
              let some_thread : (thread == null) ≡ false = ground (arith, e) in
              rw some_thread (
                Returns.bind
                  (retain-Retained thread w₁ live (ground (arith, gained thread))
                    (ground (arith, gained thread, unused)))
                  λ _ w₂ (kept, _).
                    let (handle, w₃, answered, same) = Returns.reached (quiet thread w₂) in
                    let two : (o : KObjectRef) → refs w₃ o ≡ refs w o + 2 * one_if (o == thread) =
                      λ o. ground (arith, ap count_of (pointwise same o), kept o, gained o) in
                    rw answered (elim (Option-cases handle) [
                      | inl none_made ↦ rw none_made (
                          given_up_twice proc user_data thread w w₃ w₂ w₃ e
                            (answered ∙ ap (λ t. done t w₃) none_made) live unused two)
                      | inr (h, some_made) ↦ rw some_made (
                          returns (
                            e,
                            (w₂, w₃, answered ∙ ap (λ t. done t w₃) some_made),
                            refl,
                            refl,
                            refl,
                            refl,
                            live,
                            unused,
                            two,
                          ))
                    ]))
        ])

-- The new thread gives up its reference before it calls the procedure with the data.
thread_main-calls :
    {P : Unit {0} → World → Type 0} (env : Env) (call : (proc user_data : Ptr) → Cmd (Unit {0}))
    (thread : KObjectRef) (fields : KThread) (w : World)
    → IsLeaf env
    → thread ≢ null
    → 0 < refs w thread
    → refs w thread < 2 ^ 32
    → ((w' : World) → Released thread w w' → Returns P (call fields.main fields.user_data w'))
    → Returns P (thread_main env call thread fields w)
unfolding thread_main
thread_main-calls env call thread fields w leaf live pos fits next =
    Returns.bind (release-Released env thread w leaf live pos fits)
      λ _ w' released. next w' released

joined_again :
    (system : Threads) (thread : KThread) (r : Run (Unit {0}))
    → thread.is_joined ≡ true
    → and_then (and_then r (λ _. pure (some thread))) (join system)
      ≡ and_then r (λ _. pure (some thread))
unfolding join
joined_again system thread (done tt w) e = rw e refl
joined_again system thread Run.aborted e = refl
joined_again system thread Run.fault e = refl
joined_again system thread Run.out_of_fuel e = refl

pub join-join :
    (system : Threads) (thread : Option KThread) (w : World)
    → (join system thread >>= join system) w ≡ join system thread w
unfolding join
join-join system none w = refl
join-join system (some thread) w = elim (Bool-cases (thread.is_joined || not thread.is_valid)) [
  | inl over ↦ rw (over, over) refl
  | inr open_still ↦
      rw open_still (joined_again system _ (system.pthread_join thread.handle w) refl)
]
