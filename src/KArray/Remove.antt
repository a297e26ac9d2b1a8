-- ===== src/KArray/Remove.antt =====
-- `KArrayRemoveObjectAtIndex`, `KArrayRemoveAllObjects` and `KArrayGetObjectAtIndex` of karray.c.
use k_h.Base.{
  ℕ, suc, ◌+◌, ◌-◌, ◌^◌, ◌<◌, ◌≡◌, ◌≢◌, refl, true, false, none, some, List, [], ◌∷◌, ◌++◌, arith,
  ap, ◌∙◌, length, length-append, ltb, get_elem?, remove_at, inl, inr, Option-cases, get_elem?-lt,
  get_elem?-le, around,
}
use k_h.World.{null, KObjectRef, World, done, Env}
use k_h.World.Returns
use k_h.World.Returns.{Returns, returns}
use k_h.KObject.Counts.{refs, IsLeaf, Released, release-Released}
use k_h.KObject.Owned.{count, IsOwned}
use k_h.KAllocation.{Slots}
use k_h.KArray.{
  KArray, load, remove_object_at_index, get_object_at_index, release_slots, remove_all_objects,
}
use k_h.KArray.Filled.{IsArray, filled, filled-append, load-filled, load-filled_end, shift-filled}

-- Reading an array at an index within bounds yields the object there, and reading any other index
-- yields NULL; the read changes nothing.
pub get_object_at_index-get_elem? :
    (array : KArray) (xs : List KObjectRef) (index : ℕ) (w : World)
    → IsArray array xs
    → get_object_at_index (some array) index w
      ≡ done (elim (get_elem? xs index) [ none ↦ null | some o ↦ o ]) w
unfolding get_object_at_index
get_object_at_index-get_elem? array xs index w is = elim (Option-cases (get_elem? xs index)) [
  | inl e ↦
      let out : ltb index (length xs) ≡ false = ground (arith, get_elem?-le xs index e) in
      rw (is.length, out, e)
  | inr (o, e) ↦
      let within : ltb index (length xs) ≡ true = ground (arith, get_elem?-lt xs index e) in
      rw (is.length, within, is.items, is.buffer, load-filled xs is.rest index o w e, e)
]

-- Removing a live object from an array at an index within bounds closes the gap, keeps the order of
-- the other objects, and gives up one reference to the object that stood there. Deinitialisers are
-- leaves.
pub remove_object_at_index-IsArray :
    (env : Env) (array : KArray) (xs : List KObjectRef) (index : ℕ) (o : KObjectRef) (w : World)
    → IsArray array xs
    → IsLeaf env
    → get_elem? xs index ≡ some o
    → o ≢ null
    → 0 < refs w o
    → refs w o < 2 ^ 32
    → Returns
        (λ r w'.
          (array' : KArray) × (r ≡ (true, some array'))
          × IsArray array' (remove_at xs index)
          × Released o w w')
        (remove_object_at_index env (some array) index w)
unfolding remove_object_at_index
remove_object_at_index-IsArray env array xs index o w is leaf e live pos fits =
    let a = around xs index o e in
    let within : ltb index array.length ≡ true =
      ground (arith, get_elem?-lt xs index e, is.length) in
    let found : load is.allocation.buffer index w ≡ done o w =
      rw is.buffer (load-filled xs is.rest index o w e) in
    let split : is.allocation.buffer ≡ filled a.front (some o ∷ filled a.back is.rest) =
      is.buffer ∙ ap (λ t. filled t is.rest) a.whole ∙ filled-append a.front (o ∷ a.back) is.rest in
    let lengths : length xs ≡ length a.front + suc (length a.back) =
      ap length a.whole ∙ length-append a.front (o ∷ a.back) in
    let left : array.length - (index + 1) ≡ length a.back = omega (arith, is.length, a.place) in
    let next : index + 1 ≡ length a.front + 1 = omega (arith, a.place) in
    rw (within, is.items, found)
      (Returns.bind (release-Released env o w leaf live pos fits) λ _ w' given.
        let (last, run) = shift-filled a.back a.front o is.rest w' in
        rw (left, next, split, run)
          (returns (
            record {
              length = array.length - 1;
              items = some (record is.allocation {
                buffer = filled (a.front ++ a.back) (some last ∷ is.rest);
              });
            },
            refl,
            record {
              allocation = record is.allocation {
                buffer = filled (a.front ++ a.back) (some last ∷ is.rest);
              };
              rest = some last ∷ is.rest;
              length = omega (arith, is.length, ap length a.removed, length-append a.front a.back);
              items = refl;
              buffer = rw a.removed;
            },
            given,
          )))

release_slots-Released :
    (env : Env) (before xs : List KObjectRef) (rest : Slots) (w : World)
    → IsLeaf env
    → IsOwned w xs
    → Returns
        (λ _ w'. ((o : KObjectRef) → refs w' o + count o xs ≡ refs w o) × (w'.entries ≡ w.entries))
        (release_slots env (length xs) (length before) (filled before (filled xs rest)) w)
unfolding release_slots
release_slots-Released env before [] rest w leaf owned = returns (λ o. omega arith, refl)
release_slots-Released env before (x ∷ xs) rest w leaf owned =
    let live : x ≢ null = ground (arith, owned.0) in
    let next : length before + 1 ≡ length (before ++ x ∷ []) =
      omega (arith, length-append before (x ∷ [])) in
    rw (load-filled_end before x (filled xs rest) w) (
      Returns.bind (release-Released env x w leaf live (ground (arith, owned.1 x)) (owned.1 x).1)
        λ _ w' given.
          rw (next, ← filled-append before (x ∷ []) (filled xs rest))
            (Returns.mono
              (release_slots-Released env (before ++ x ∷ []) xs rest w' leaf
                (ground (arith, owned.0), λ o. ground (arith, owned.1 o, given.0 o)))
              λ _ w'' after. (λ o. ground (arith, after.0 o, given.0 o), after.1 ∙ given.1)))

-- Emptying an array that holds a reference to each of its objects is free of faults: it reports
-- their number, gives up exactly one reference for each place, and leaves an empty array.
-- Deinitialisers are leaves.
pub remove_all_objects-IsArray :
    (env : Env) (array : KArray) (xs : List KObjectRef) (w : World)
    → IsArray array xs
    → IsLeaf env
    → IsOwned w xs
    → Returns
        (λ r w'.
          (array' : KArray) × (r ≡ (length xs, some array'))
          × IsArray array' []
          × ((o : KObjectRef) → refs w' o + count o xs ≡ refs w o))
        (remove_all_objects env (some array) w)
unfolding remove_all_objects
remove_all_objects-IsArray env array xs w is leaf owned =
    rw (is.items, is.length, is.buffer)
      (Returns.bind (release_slots-Released env [] xs is.rest w leaf owned) λ _ w' after. returns (
        record { length = 0; items = some (record is.allocation { buffer = filled xs is.rest }) },
        refl,
        record {
          allocation = record is.allocation { buffer = filled xs is.rest };
          rest = filled xs is.rest;
          length = refl;
          items = refl;
          buffer = refl;
        },
        after.0,
      ))
