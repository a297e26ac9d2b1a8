-- ===== src/KArray/History/Refines.antt =====
-- The runs of karray.c's operations on an array are those of a sequence of objects.
use k_h.Base.{
  suc, ◌<◌, ◌≢◌, refl, Option, some, List, [], ◌∷◌, ◌++◌, arith, if◌then◌else◌, length, ltb, get_or,
  remove_at,
}
use k_h.World.{null, KObjectRef, World, Env, pure, and_then}
use k_h.World.Returns
use k_h.World.Returns.{Returns, returns}
use k_h.KObject.Counts.{refs, IsLeaf}
use k_h.KObject.Owned.{count, HasRoom, HasRoom-after, Moved, Moved-same}
use k_h.KArray.{KArray}
use k_h.KArray.Filled.{IsArray}
use k_h.KArray.History.{
  Op, add_op, remove_op, get_op, length_op, clear_op, OpAnswer, was_added, was_removed, was_found,
  was_counted, was_cleared, run_array, Explains, AreSpare, Explained, limit,
}
use k_h.KArray.History.Steps.{
  add_object-any, remove_object_at_index-After, remove_all_objects-Cleared,
  get_object_at_index-get_or, get_length-length,
}

AreSpare-mono :
    (w w' : World) (xs ys : List KObjectRef) (ops : List Op)
    → ((o : KObjectRef) → o ≢ null → count o xs < refs w o → count o ys < refs w' o)
    → AreSpare w xs ops
    → AreSpare w' ys ops
AreSpare-mono w w' xs ys [] more h = tt
AreSpare-mono w w' xs ys (add_op obj ∷ ops) more (spare, h) =
    (λ live. more obj live (spare live), AreSpare-mono w w' xs ys ops more h)
AreSpare-mono w w' xs ys (remove_op index ∷ ops) more h = AreSpare-mono w w' xs ys ops more h
AreSpare-mono w w' xs ys (get_op index ∷ ops) more h = AreSpare-mono w w' xs ys ops more h
AreSpare-mono w w' xs ys (length_op ∷ ops) more h = AreSpare-mono w w' xs ys ops more h
AreSpare-mono w w' xs ys (clear_op ∷ ops) more h = AreSpare-mono w w' xs ys ops more h

-- An operation takes `xs` to `ys` and gives this answer.
abbrev IsStep : Env → Op → OpAnswer → (xs ys : List KObjectRef) → Type 0
IsStep env op answer xs ys =
    (ops : List Op) (answers : List OpAnswer) (zs : List KObjectRef)
    → Explains env ys ops answers zs
    → Explains env xs (op ∷ ops) (answer ∷ answers) zs

-- One more operation in front of the others.
Explained-after :
    (env : Env) (w : World) (xs ys : List KObjectRef) (w₁ : World) (op : Op) (answer : OpAnswer)
    (ops : List Op) (r : List OpAnswer × Option KArray) (w' : World)
    → Moved w xs (λ o. 0) ys w₁
    → IsStep env op answer xs ys
    → Explained env w₁ ys ops r w'
    → Explained env w xs (op ∷ ops) (answer ∷ r.0, r.1) w'
Explained-after env w xs ys w₁ op answer ops (answers, last) w' m step
      (zs, array', e, is, explained, counts) =
    (
      zs,
      array',
      e,
      is,
      step ops answers zs explained,
      λ o live. omega (arith, m.moved o live, counts o live),
    )

module _ (env : Env) (leaf : IsLeaf env) where
  -- The run goes on where an operation has left the array.
  run_on :
      (ops : List Op) (xs : List KObjectRef) (w : World) (op : Op) (answer : OpAnswer)
      (ys : List KObjectRef) (array : KArray) (w₁ : World)
      → HasRoom limit w xs (suc (length ops))
      → AreSpare w xs ops
      → Moved w xs (λ o. 0) ys w₁
      → IsStep env op answer xs ys
      → (HasRoom limit w₁ ys (length ops)
          → AreSpare w₁ ys ops
          → Returns (Explained env w₁ ys ops) (run_array env ops (some array) w₁))
      → Returns
          (Explained env w xs (op ∷ ops))
          (and_then (run_array env ops (some array) w₁) (λ r. pure (answer ∷ r.0, r.1)))
  run_on ops xs w op answer ys array w₁ room spare m step next =
      Returns.bind
        (next (HasRoom-after w xs limit (λ o. 0) ys w₁ (length ops) m room)
          (AreSpare-mono w w₁ xs ys ops (λ o live h. omega (arith, m.moved o live, h)) spare))
        λ r w₂ all. returns (Explained-after env w xs ys w₁ op answer ops r w₂ m step all)

  -- Any sequence of `KArrayAddObject`, `KArrayRemoveObjectAtIndex`, `KArrayGetObjectAtIndex`,
  -- `KArrayGetLength` and `KArrayRemoveAllObjects` on an array returns, whatever the allocator
  -- answers: the answers are those of a sequence of objects, an addition is refused only for NULL
  -- or where there is not always memory, the array holds that sequence at the end, and the
  -- references outside the array to each object are as many as before. Deinitialisers are leaves,
  -- the array holds a reference to each object, objects that are added have one beside those, and
  -- length and operations together are at most 2 ^ 28, which the counts leave room for.
  pub run_array-Explained :
      (ops : List Op) (array : KArray) (xs : List KObjectRef) (w : World)
      → IsArray array xs
      → HasRoom limit w xs (length ops)
      → AreSpare w xs ops
      → Returns (Explained env w xs ops) (run_array env ops (some array) w)
  unfolding run_array
  run_array-Explained [] array xs w is room spare =
      returns (xs, array, refl, is, Explains.over, λ o live. omega arith)
  run_array-Explained (add_op obj ∷ ops) array xs w is room (one, rest) =
      Returns.bind (add_object-any env array xs obj (length ops) w is room one)
        λ r w₁ (ok, (array₁, e, is₁, m), refused, granted). rw e (
          run_on ops xs w (add_op obj) (was_added ok) (if ok then xs ++ obj ∷ [] else xs) array₁ w₁
            room rest m (λ _ _ _. Explains.add_one refused granted)
            (run_array-Explained ops array₁ (if ok then xs ++ obj ∷ [] else xs) w₁ is₁))
  run_array-Explained (remove_op index ∷ ops) array xs w is room rest =
      Returns.bind (remove_object_at_index-After env array xs index (length ops) w leaf is room)
        λ r w₁ (array₁, e, is₁, m). rw e (
          run_on ops xs w (remove_op index) (was_removed (ltb index (length xs)))
            (remove_at xs index) array₁ w₁ room rest m (λ _ _ _. Explains.remove_one)
            (run_array-Explained ops array₁ (remove_at xs index) w₁ is₁))
  run_array-Explained (get_op index ∷ ops) array xs w is room rest =
      rw (get_object_at_index-get_or array xs index w is) (
        run_on ops xs w (get_op index) (was_found (get_or xs index null)) xs array w room rest
          (Moved-same w xs w room.no_null refl) (λ _ _ _. Explains.get_one)
          (run_array-Explained ops array xs w is))
  run_array-Explained (length_op ∷ ops) array xs w is room rest =
      rw (get_length-length array xs is) (
        run_on ops xs w length_op (was_counted (length xs)) xs array w room rest
          (Moved-same w xs w room.no_null refl) (λ _ _ _. Explains.length_one)
          (run_array-Explained ops array xs w is))
  run_array-Explained (clear_op ∷ ops) array xs w is room rest =
      Returns.bind (remove_all_objects-Cleared env array xs (length ops) w leaf is room)
        λ r w₁ (array₁, e, is₁, m). rw e (
          run_on ops xs w clear_op (was_cleared (length xs)) [] array₁ w₁ room rest m
            (λ _ _ _. Explains.clear_one) (run_array-Explained ops array₁ [] w₁ is₁))
