-- ===== src/KAutorelease/Pool.antt =====
-- `KAutoreleaseMove` of kautorelease.c: the caller's reference goes to the pool.
use k_h.Base.{
  ◌+◌, ◌*◌, ◌^◌, ◌≤◌, ◌<◌, ◌≡◌, ◌≢◌, refl, false, some, List, [], ◌∷◌, ◌++◌, arith, ◌==◌, length,
}
use k_h.World.{null, KObjectRef, World, Env}
use k_h.World.Returns
use k_h.World.Returns.{Returns, returns}
use k_h.KObject.Counts.{refs, IsLeaf, release-Released}
use k_h.KArray.{KArray}
use k_h.KArray.Filled.{IsArray}
use k_h.KArray.Add.{add_object-IsArray}
use k_h.KAutorelease.{add_object, move}

-- Moving a live object to a pool of less than 2 ^ 28 objects, where the allocator grants the
-- buffer, appends it there and changes no reference count: the reference that the caller gave up is
-- the pool's. Deinitialisers are leaves.
pub move-IsArray :
    (env : Env) (pool : KArray) (xs : List KObjectRef) (obj : KObjectRef) (w : World)
    → IsArray pool xs
    → IsLeaf env
    → obj ≢ null
    → 0 < refs w obj
    → refs w obj + 1 < 2 ^ 32
    → (length xs + 1) * 8 ≤ 2 ^ 31
    → env.malloc w ≢ null
    → Returns
        (λ r w'.
          (pool' : KArray) × (r ≡ (obj, some pool'))
          × IsArray pool' (xs ++ obj ∷ [])
          × ((o : KObjectRef) → refs w' o ≡ refs w o))
        (move env (some pool) obj w)
unfolding move add_object
move-IsArray env pool xs obj w is leaf live pos fits small granted =
    let not_null : (obj == null) ≡ false = ground arith in
    rw not_null (
      Returns.bind (add_object-IsArray env pool xs obj w is live pos fits small granted)
        λ r w₁ (pool', e, is', (gained, _)). rw e (
          Returns.bind
            (release-Released env obj w₁ leaf live (ground (arith, gained obj))
              (ground (arith, gained obj)))
            λ _ w₂ (given, _, _).
              returns (pool', refl, is', λ o. omega (arith, given o, gained o))))
