-- ===== src/KAutorelease/Drained.antt =====
-- Objects moved to the pool of kautorelease.c, and the pool emptied.
use k_h.Base.{
  ℕ, ◌+◌, ◌^◌, ◌≤◌, ◌<◌, ◌≡◌, ◌≢◌, refl, false, Option, some, List, [], ◌∷◌, ◌++◌, arith, ap, ◌==◌,
  if◌then◌else◌, length, inl, inr, Bool-cases,
}
use k_h.World.{null, KObjectRef, World, Env, Cmd, ◌>>=◌}
use k_h.World.Returns
use k_h.World.Returns.{Returns, returns}
use k_h.KObject.Counts.{refs, one_if, IsLeaf, release-Released}
use k_h.KObject.Owned.{count, HasRoom, HasRoom-IsOwned, covered_null}
use k_h.KArray.{KArray}
use k_h.KArray.Filled.{IsArray}
use k_h.KArray.History.{limit}
use k_h.KArray.History.Steps.{add_object-any}
use k_h.KArray.Remove.{remove_all_objects-IsArray}
use k_h.KAutorelease.{add_object, move, pop}

-- `KAutoreleaseMove` of one object after the other, and `KAutoreleasePoolPop`.
unfoldable pub run_scope : Env → List KObjectRef → Option KArray → Cmd (ℕ × Option KArray)
run_scope env [] pool = pop env pool
run_scope env (obj ∷ objs) pool = do (_, pool) ← move env pool obj; run_scope env objs pool

-- The pool has a reference for each of its objects and the caller one for each that it will move, and
-- counts and length leave room.
pub record CanMove (w : World) (xs objs : List KObjectRef) : Type 0 where
  pub pool_null : count null xs ≡ 0
  pub no_null : count null objs ≡ 0
  pub covered : (o : KObjectRef) → count o xs + count o objs ≤ refs w o
  pub counts : (o : KObjectRef) → refs w o + length objs < 2 ^ 32
  pub short : length xs + length objs ≤ limit

-- What a move leaves of the pool, whether the array took the object or not.
record Passed (w : World) (xs : List KObjectRef) (obj : KObjectRef) (pool : KArray)
    (ys : List KObjectRef) (w' : World) : Type 0 where
  is_array : IsArray pool ys
  no_null : count null ys ≡ 0
  passed :
      (o : KObjectRef)
      → o ≢ null
      → refs w' o + one_if (o == obj) + count o xs ≡ refs w o + count o ys
  few : (o : KObjectRef) → refs w' o ≤ refs w o + 1
  short : length ys ≤ length xs + 1

has_room :
    (w : World) (xs objs : List KObjectRef) → CanMove w xs objs → HasRoom limit w xs (length objs)
has_room w xs objs can = record {
  no_null = can.pool_null;
  covered = λ o. omega (arith, can.covered o);
  counts = can.counts;
  short = can.short;
}

module _ (env : Env) (leaf : IsLeaf env) where
  move-Passed :
      (pool : KArray) (xs : List KObjectRef) (obj : KObjectRef) (objs : List KObjectRef) (w : World)
      → IsArray pool xs
      → CanMove w xs (obj ∷ objs)
      → Returns
          (λ r w'.
            (pool' : KArray) × (ys : List KObjectRef) × (r.1 ≡ some pool')
            × Passed w xs obj pool' ys w')
          (move env (some pool) obj w)
  unfolding move add_object
  move-Passed pool xs obj objs w is can =
      let live : obj ≢ null = (λ e. ground (arith, can.no_null, e)) in
      let not_null : (obj == null) ≡ false = ground arith in
      let here : one_if (obj == obj) ≡ 1 = ground arith in
      rw not_null (
        Returns.bind
          (add_object-any env pool xs obj (length objs) w is (has_room w xs (obj ∷ objs) can)
            (λ _. omega (arith, can.covered obj, here)))
          λ r w₁ (ok, (pool', e, is', m), _, _). rw e (
            Returns.bind
              (release-Released env obj w₁ leaf live
                (omega (arith, m.moved obj live, can.covered obj, here))
                (omega (arith, m.few obj, can.counts obj)))
              λ _ w₂ (given, _, _).
                let ys : List KObjectRef = if ok then xs ++ obj ∷ [] else xs in
                let done_well : Passed w xs obj pool' ys w₂ = record {
                  is_array = is';
                  no_null = m.no_null;
                  passed = λ o live'. omega (arith, m.moved o live', given o);
                  few = λ o. omega (arith, m.few o, given o);
                  short = m.short;
                } in
                elim (Bool-cases ok) [
                  | inl added ↦ rw added (returns (pool', ys, refl, done_well))
                  | inr refused ↦ rw refused (returns (pool', ys, refl, done_well))
                ]))

  CanMove-after :
      (w : World) (xs : List KObjectRef) (obj : KObjectRef) (objs : List KObjectRef) (pool : KArray)
      (ys : List KObjectRef) (w' : World)
      → CanMove w xs (obj ∷ objs)
      → Passed w xs obj pool ys w'
      → CanMove w' ys objs
  CanMove-after w xs obj objs pool ys w' can p = record {
    pool_null = p.no_null;
    no_null = omega (arith, can.no_null);
    covered = λ o. elim (Bool-cases (o == null)) [
      | inl e ↦ omega (
        arith,
        covered_null ys o 0 p.no_null e,
        covered_null objs o 0 (omega (arith, can.no_null)) e,
      )
      | inr e ↦ omega (arith, p.passed o (ground arith), can.covered o)
    ];
    counts = λ o. omega (arith, p.few o, can.counts o);
    short = omega (arith, p.short, can.short);
  }

  -- However many objects are moved to a pool one after the other, and whether there is memory for
  -- each or not: once the pool is emptied, each object has lost one reference for each time that it
  -- was moved and one for each place that it had in the pool before, and the pool is empty.
  -- Deinitialisers are leaves, the references of the pool and of the caller are there, length and
  -- moves together are at most 2 ^ 28, and the counts leave room for the moves.
  pub run_scope-drained :
      (objs : List KObjectRef) (pool : KArray) (xs : List KObjectRef) (w : World)
      → IsArray pool xs
      → CanMove w xs objs
      → Returns
          (λ r w'.
            (pool' : KArray) × (r.1 ≡ some pool')
            × IsArray pool' []
            × ((o : KObjectRef) → o ≢ null → refs w' o + count o xs + count o objs ≡ refs w o))
          (run_scope env objs (some pool) w)
  unfolding run_scope pop
  run_scope-drained [] pool xs w is can =
      Returns.mono
        (remove_all_objects-IsArray env pool xs w is leaf
          (HasRoom-IsOwned limit w xs 0 (has_room w xs [] can)))
        λ r w' (pool', e, is', counts).
          (pool', ap (λ (t : ℕ × Option KArray). t.1) e, is', λ o live. omega (arith, counts o))
  run_scope-drained (obj ∷ objs) pool xs w is can =
      Returns.bind (move-Passed pool xs obj objs w is can) λ r w₁ (pool₁, ys, e, p). rw e (
        Returns.mono
          (run_scope-drained objs pool₁ ys w₁ p.is_array
            (CanMove-after w xs obj objs pool₁ ys w₁ can p))
          λ r₂ w₂ (pool₂, e₂, is₂, counts).
            (pool₂, e₂, is₂, λ o live. omega (arith, counts o live, p.passed o live)))
