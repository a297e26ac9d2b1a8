-- ===== src/KList/History/Refines.antt =====
-- The runs of klist.c's operations on a list are those of a sequence of objects.
use k_h.Base.{
  get_or, ℕ, suc, not, ◌==◌, ◌+◌, ◌<◌, ◌≡◌, ◌≢◌, refl, Option, some, List, [], ◌∷◌, arith, sym, ◌∙◌,
  length,
}
use mathlib.Core.Path.{subst}
use k_h.World.{null, KObjectRef, World, Env, pure, and_then}
use k_h.World.Returns
use k_h.World.Returns.{Returns, returns}
use k_h.KObject.Counts.{refs, IsLeaf}
use k_h.KList.{KList, get_count}
use k_h.KList.Links.{Cells, IsList}
use k_h.KList.Read.{get_object_at_index-item_at, contains_object-member}
use k_h.KObject.Owned.{count, HasRoom, HasRoom-after, Moved, Moved-same}
use k_h.KList.History.Items.{items, is_in, at-items, is_in-items, length-items}
use k_h.KList.History.{
  Op, add_op, remove_op, get_op, contains_op, count_op, clear_op, OpAnswer, was_added, was_removed,
  was_found, was_contained, was_counted, was_cleared, run_list, GivesUnused, Explains, handed,
  AreSpare, Explained,
}
use k_h.KList.History.Steps.{
  limit, add_object-Added, remove_object_at_index-Gave, remove_all_objects-Moved,
}

AreSpare-mono :
    (w w' : World) (xs ys : List KObjectRef) (ops : List Op)
    → ((o : KObjectRef) → o ≢ null → count o xs < refs w o → count o ys < refs w' o)
    → AreSpare w xs ops
    → AreSpare w' ys ops
AreSpare-mono w w' xs ys [] more h = tt
AreSpare-mono w w' xs ys (add_op obj ∷ ops) more (spare, h) =
    (λ live. more obj live (spare live), AreSpare-mono w w' xs ys ops more h)
AreSpare-mono w w' xs ys (contains_op obj ∷ ops) more (live, h) =
    (live, AreSpare-mono w w' xs ys ops more h)
AreSpare-mono w w' xs ys (remove_op index ∷ ops) more h = AreSpare-mono w w' xs ys ops more h
AreSpare-mono w w' xs ys (get_op index ∷ ops) more h = AreSpare-mono w w' xs ys ops more h
AreSpare-mono w w' xs ys (count_op ∷ ops) more h = AreSpare-mono w w' xs ys ops more h
AreSpare-mono w w' xs ys (clear_op ∷ ops) more h = AreSpare-mono w w' xs ys ops more h

-- What the operation does and answers, where the sequence it acts on is `before` and the next ones
-- act on `after`.
record Done (op : Op) (answer : OpAnswer) (given : KObjectRef → ℕ) (before after : List KObjectRef)
    : Type 0 where
  adds :
      (o : KObjectRef) (answers : List OpAnswer)
      → handed o (answer ∷ answers) ≡ given o + handed o answers
  explains :
      {ops : List Op} {answers : List OpAnswer} {zs : List KObjectRef}
      → Explains after ops answers zs
      → Explains before (op ∷ ops) (answer ∷ answers) zs

Explains-along :
    {xs ys : List KObjectRef} {ops : List Op} {answers : List OpAnswer} {zs : List KObjectRef}
    → xs ≡ ys
    → Explains xs ops answers zs
    → Explains ys ops answers zs
Explains-along {ops} {answers} {zs} e h = subst (λ t. Explains t ops answers zs) e h

-- One more operation in front of the others.
Explained-after :
    {w : World} {xs : List KObjectRef} {given : KObjectRef → ℕ} {ys : List KObjectRef} {w₁ : World}
    {op : Op} {answer : OpAnswer} {ops : List Op} (r : List OpAnswer × Option KList) (w' : World)
    → Moved w xs given ys w₁
    → Done op answer given xs ys
    → Explained w₁ ys ops r w'
    → Explained w xs (op ∷ ops) (answer ∷ r.0, r.1) w'
Explained-after (answers, last) w' m d (zs, list', e, is, explained, counts) = (
  zs,
  list',
  e,
  is,
  d.explains explained,
  λ o live. omega (arith, m.moved o live, counts o live, d.adds o answers),
)

get_count-items :
    (list : KList) (xs : Cells) (w : World)
    → IsList w.entries list xs
    → get_count (some list) ≡ length (items xs)
unfolding get_count
get_count-items list xs w is = is.count ∙ sym (length-items xs)

module _ (env : Env) (unused : GivesUnused env) (leaf : IsLeaf env) where
  -- The run goes on where an operation has left the list.
  run_on :
      (ops : List Op) (xs : List KObjectRef) (w : World) (op : Op) (answer : OpAnswer)
      (given : KObjectRef → ℕ) (ys : List KObjectRef) (list : KList) (w₁ : World)
      → HasRoom limit w xs (suc (length ops))
      → AreSpare w xs ops
      → Moved w xs given ys w₁
      → Done op answer given xs ys
      → (HasRoom limit w₁ ys (length ops)
          → AreSpare w₁ ys ops
          → Returns (Explained w₁ ys ops) (run_list env ops (some list) w₁))
      → Returns
          (Explained w xs (op ∷ ops))
          (and_then (run_list env ops (some list) w₁) (λ r. pure (answer ∷ r.0, r.1)))
  run_on ops xs w op answer given ys list w₁ room spare m d next =
      Returns.bind
        (next (HasRoom-after w xs limit given ys w₁ (length ops) m room)
          (AreSpare-mono w w₁ xs ys ops (λ o live h. omega (arith, m.moved o live, h)) spare))
        λ r w₂ all. returns (Explained-after r w₂ m d all)

  -- The same after an operation that only reads.
  read_on :
      (ops : List Op) (xs : List KObjectRef) (w : World) (op : Op) (answer : OpAnswer)
      (list : KList)
      → HasRoom limit w xs (suc (length ops))
      → AreSpare w xs ops
      → Done op answer (λ o. 0) xs xs
      → (HasRoom limit w xs (length ops)
          → AreSpare w xs ops
          → Returns (Explained w xs ops) (run_list env ops (some list) w))
      → Returns
          (Explained w xs (op ∷ ops))
          (and_then (run_list env ops (some list) w) (λ r. pure (answer ∷ r.0, r.1)))
  read_on ops xs w op answer list room spare =
      run_on ops xs w op answer (λ o. 0) xs list w room spare (Moved-same w xs w room.no_null refl)

  -- Any sequence of `KListAddObject`, `KListRemoveObjectAtIndex`, `KListGetObjectAtIndex`,
  -- `KListContainsObject`, `KListGetCount` and `KListRemoveAllObjects` on a linked list returns,
  -- whatever the allocator answers: the answers are those of a sequence of objects, an addition
  -- succeeds exactly if the object is not NULL and the allocator has memory at that moment, the
  -- list holds that sequence at the end, and the references outside the list to each object grow by
  -- as many as removals handed over. The allocator gives unused addresses, deinitialisers are
  -- leaves, the list holds a reference to each item, objects that are added have one beside those,
  -- objects that are looked for are not NULL, and counts and length leave room for the operations.
  pub run_list-Explained :
      (ops : List Op) (list : KList) (xs : Cells) (w : World)
      → IsList w.entries list xs
      → HasRoom limit w (items xs) (length ops)
      → AreSpare w (items xs) ops
      → Returns (Explained w (items xs) ops) (run_list env ops (some list) w)
  unfolding run_list
  run_list-Explained [] list xs w is room spare =
      returns (xs, list, refl, is, Explains.over, λ o live. omega arith)
  run_list-Explained (add_op obj ∷ ops) list xs w is room (one, rest) =
      Returns.bind (add_object-Added env unused list xs obj (length ops) w is room one)
        λ r w₁ (ok, list₁, ys, e, is₁, m, added, exact). rw e (
          run_on ops (items xs) w (add_op obj) (was_added (not (env.malloc w == null)) ok) (λ o. 0)
            (items ys) list₁ w₁ room rest m
            (record {
              adds = λ o answers. omega arith;
              explains = λ next. Explains.add_one exact (Explains-along added next);
            })
            (run_list-Explained ops list₁ ys w₁ is₁))
  run_list-Explained (remove_op index ∷ ops) list xs w is room rest =
      Returns.bind (remove_object_at_index-Gave list xs index (length ops) w is room)
        λ r w₁ (list₁, ys, e, is₁, m, removed). rw e (
          run_on ops (items xs) w (remove_op index) (was_removed (get_or (items xs) index null)) _
            (items ys) list₁ w₁ room rest m
            (record {
              adds = λ o answers. refl;
              explains = λ next. Explains.remove_one (Explains-along removed next);
            })
            (run_list-Explained ops list₁ ys w₁ is₁))
  run_list-Explained (get_op index ∷ ops) list xs w is room rest =
      rw (get_object_at_index-item_at list xs index w is, at-items xs index)
        (read_on ops (items xs) w (get_op index) (was_found (get_or (items xs) index null)) list
          room rest
          (record { adds = λ o answers. omega arith; explains = λ next. Explains.get_one next })
          (run_list-Explained ops list xs w is))
  run_list-Explained (contains_op obj ∷ ops) list xs w is room (live, rest) =
      rw (contains_object-member list xs obj w is live, is_in-items obj xs)
        (read_on ops (items xs) w (contains_op obj) (was_contained (is_in obj (items xs))) list room
          rest
          (record {
            adds = λ o answers. omega arith;
            explains = λ next. Explains.contains_one next;
          })
          (run_list-Explained ops list xs w is))
  run_list-Explained (count_op ∷ ops) list xs w is room rest = rw (get_count-items list xs w is) (
      read_on ops (items xs) w count_op (was_counted (length (items xs))) list room rest
        (record { adds = λ o answers. omega arith; explains = λ next. Explains.count_one next })
        (run_list-Explained ops list xs w is))
  run_list-Explained (clear_op ∷ ops) list xs w is room rest =
      Returns.bind (remove_all_objects-Moved env list xs (length ops) w leaf is room)
        λ r w₁ (list₁, e, is₁, m). rw e (
          run_on ops (items xs) w clear_op (was_cleared (length (items xs))) (λ o. 0) [] list₁ w₁
            room rest m
            (record { adds = λ o answers. omega arith; explains = λ next. Explains.clear_one next })
            (run_list-Explained ops list₁ [] w₁ is₁))
