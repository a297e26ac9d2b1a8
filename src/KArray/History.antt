-- ===== src/KArray/History.antt =====
-- A run of karray.c's operations on one array, against a sequence of objects.
pub mod Steps
pub mod Refines
use k_h.Base.{
  ℕ, ◌+◌, ◌-◌, ◌^◌, ◌<◌, ◌≡◌, ◌≢◌, Bool, true, false, Option, none, some, List, [], ◌∷◌, ◌++◌,
  if◌then◌else◌, length, get_or, ltb, remove_at,
}
use k_h.World.{null, KObjectRef, World, Env, Cmd, pure, ◌>>=◌}
use k_h.KObject.Counts.{refs}
use k_h.KObject.Owned.{count}
use k_h.KArray.{
  KArray, add_object, remove_object_at_index, get_object_at_index, get_length, remove_all_objects,
}
use k_h.KArray.Filled.{IsArray}

pub data Op : Type 0 where
  add_op : (obj : KObjectRef) → Op
  remove_op : (index : ℕ) → Op
  get_op : (index : ℕ) → Op
  length_op : Op
  clear_op : Op

pub data OpAnswer : Type 0 where
  was_added : Bool → OpAnswer
  was_removed : Bool → OpAnswer
  was_found : KObjectRef → OpAnswer
  was_counted : ℕ → OpAnswer
  was_cleared : ℕ → OpAnswer

unfoldable pub run_array : Env → List Op → Option KArray → Cmd (List OpAnswer × Option KArray)
run_array env [] array = pure ([], array)
run_array env (add_op obj ∷ ops) array = do
  (ok, array) ← add_object env array obj
  (answers, array) ← run_array env ops array
  pure (was_added ok ∷ answers, array)
run_array env (remove_op index ∷ ops) array = do
  (ok, array) ← remove_object_at_index env array index
  (answers, array) ← run_array env ops array
  pure (was_removed ok ∷ answers, array)
run_array env (get_op index ∷ ops) array = do
  obj ← get_object_at_index array index
  (answers, array) ← run_array env ops array
  pure (was_found obj ∷ answers, array)
run_array env (length_op ∷ ops) array = do
  (answers, after) ← run_array env ops array
  pure (was_counted (get_length array) ∷ answers, after)
run_array env (clear_op ∷ ops) array = do
  (removed, array) ← remove_all_objects env array
  (answers, array) ← run_array env ops array
  pure (was_cleared removed ∷ answers, array)

abbrev pub AlwaysGives : Env → Type 0
AlwaysGives env = (w : World) → env.malloc w ≢ null

-- The answers are those of a sequence of objects, from `xs` to `ys`. An addition may be refused, but
-- not one of an object where there is always memory.
pub data Explains (env : Env)
    : List KObjectRef → List Op → List OpAnswer → List KObjectRef → Type 0 where
  over : {xs : List KObjectRef} → Explains env xs [] [] xs
  add_one :
      {xs ys : List KObjectRef} {obj : KObjectRef} {ok : Bool} {ops : List Op}
      {answers : List OpAnswer}
      → (obj ≡ null → ok ≡ false)
      → (AlwaysGives env → obj ≢ null → ok ≡ true)
      → Explains env (if ok then xs ++ obj ∷ [] else xs) ops answers ys
      → Explains env xs (add_op obj ∷ ops) (was_added ok ∷ answers) ys
  remove_one :
      {xs ys : List KObjectRef} {index : ℕ} {ops : List Op} {answers : List OpAnswer}
      → Explains env (remove_at xs index) ops answers ys
      → Explains env xs (remove_op index ∷ ops) (was_removed (ltb index (length xs)) ∷ answers) ys
  get_one :
      {xs ys : List KObjectRef} {index : ℕ} {ops : List Op} {answers : List OpAnswer}
      → Explains env xs ops answers ys
      → Explains env xs (get_op index ∷ ops) (was_found (get_or xs index null) ∷ answers) ys
  length_one :
      {xs ys : List KObjectRef} {ops : List Op} {answers : List OpAnswer}
      → Explains env xs ops answers ys
      → Explains env xs (length_op ∷ ops) (was_counted (length xs) ∷ answers) ys
  clear_one :
      {xs ys : List KObjectRef} {ops : List Op} {answers : List OpAnswer}
      → Explains env [] ops answers ys
      → Explains env xs (clear_op ∷ ops) (was_cleared (length xs) ∷ answers) ys

-- The objects that are added have a reference beside those of the array.
abbrev pub AreSpare : World → List KObjectRef → List Op → Type 0
AreSpare w xs [] = Unit
AreSpare w xs (add_op obj ∷ ops) = (obj ≢ null → count obj xs < refs w obj) × AreSpare w xs ops
AreSpare w xs (remove_op index ∷ ops) = AreSpare w xs ops
AreSpare w xs (get_op index ∷ ops) = AreSpare w xs ops
AreSpare w xs (length_op ∷ ops) = AreSpare w xs ops
AreSpare w xs (clear_op ∷ ops) = AreSpare w xs ops

abbrev pub Explained :
    Env → World → List KObjectRef → List Op → List OpAnswer × Option KArray → World → Type 0
Explained env w xs ops (answers, array) w' =
    (ys : List KObjectRef) × (array' : KArray) × (array ≡ some array')
    × IsArray array' ys
    × Explains env xs ops answers ys
    × ((o : KObjectRef) → o ≢ null → refs w' o + count o xs ≡ refs w o + count o ys)

-- The most objects for which the size of the buffer does not wrap.
abbrev pub limit : ℕ
limit = 2 ^ 28
