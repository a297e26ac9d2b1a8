-- ===== src/KList/History.antt =====
-- A run of klist.c's operations on one list, against a sequence of objects.
pub mod Items
pub mod Steps
pub mod Refines
use k_h.Base.{
  get_or, ℕ, zero, suc, ◌+◌, ◌^◌, ◌≤◌, ◌<◌, ◌≡◌, ◌≢◌, refl, Bool, true, false, not, ◌&&◌, Option,
  none, some, List, [], ◌∷◌, ◌++◌, arith, ap, sym, ◌∙◌, ◌==◌, if◌then◌else◌, length, length-append,
  inl, inr, Bool-cases, Option-cases, remove_at, get_elem?, get_elem?-le, get_elem?-lt,
  length-remove_at,
}
use mathlib.Core.Path.{subst}
use k_h.World.{Ptr, null, KObjectRef, World, done, Env, Cmd, pure, ◌>>=◌, and_then, pointwise}
use k_h.World.Returns
use k_h.World.Returns.{Returns, returns}
use k_h.KObject.Counts.{refs, one_if, one_if-le, IsLeaf, count_of}
use k_h.KList.{
  KList, calloc_entry, add_object, remove_object_at_index, get_object_at_index, contains_object,
  get_count, remove_all_objects,
}
use k_h.KList.Links.{Cells, IsList}
use k_h.KList.Add.{add_object-IsList}
use k_h.KList.Remove.{Unlinked, remove_object_at_index-Unlinked, remove_object_at_index-null}
use k_h.KList.Read.{item_at, member, get_object_at_index-item_at, contains_object-member}
use k_h.KObject.Owned.{
  count, HasRoom, HasRoom-IsOwned, HasRoom-after, Moved, Moved-same, Moved-added, Moved-removed,
  Moved-cleared, get_or-some, get_or-none, not_null-count,
}
use k_h.KList.History.Items.{
  items, is_in, at-items, is_in-items, items-append, items-remove_at, length-items, count-items,
  get_elem?-items, IsOwned-items,
}

pub data Op : Type 0 where
  add_op : (obj : KObjectRef) → Op
  remove_op : (index : ℕ) → Op
  get_op : (index : ℕ) → Op
  contains_op : (obj : KObjectRef) → Op
  count_op : Op
  clear_op : Op

pub data OpAnswer : Type 0 where
  was_added : (has_memory ok : Bool) → OpAnswer
  was_removed : KObjectRef → OpAnswer
  was_found : KObjectRef → OpAnswer
  was_contained : Bool → OpAnswer
  was_counted : ℕ → OpAnswer
  was_cleared : ℕ → OpAnswer

-- Whether the allocator would grant the next request.
abbrev pub memory : Env → Cmd Bool
memory env w = done (not (env.malloc w == null)) w

-- Each addition is answered with whether there was memory for it, at that moment.
unfoldable pub run_list : Env → List Op → Option KList → Cmd (List OpAnswer × Option KList)
run_list env [] list = pure ([], list)
run_list env (add_op obj ∷ ops) list = do
  has_memory ← memory env
  (ok, list) ← add_object env list obj
  (answers, list) ← run_list env ops list
  pure (was_added has_memory ok ∷ answers, list)
run_list env (remove_op index ∷ ops) list = do
  (obj, list) ← remove_object_at_index list index
  (answers, list) ← run_list env ops list
  pure (was_removed obj ∷ answers, list)
run_list env (get_op index ∷ ops) list = do
  obj ← get_object_at_index list index
  (answers, list) ← run_list env ops list
  pure (was_found obj ∷ answers, list)
run_list env (contains_op obj ∷ ops) list = do
  found ← contains_object list obj
  (answers, list) ← run_list env ops list
  pure (was_contained found ∷ answers, list)
run_list env (count_op ∷ ops) list = do
  (answers, after) ← run_list env ops list
  pure (was_counted (get_count list) ∷ answers, after)
run_list env (clear_op ∷ ops) list = do
  (removed, list) ← remove_all_objects env list
  (answers, list) ← run_list env ops list
  pure (was_cleared removed ∷ answers, list)

-- What is documented of `malloc`: an address that it gives is unused.
abbrev pub GivesUnused : Env → Type 0
GivesUnused env = (w : World) → env.malloc w ≢ null → w.entries (env.malloc w) ≡ none

-- The answers are those of a sequence of objects, from `xs` to `ys`. An addition succeeds exactly
-- where there is memory for it, of an object that is not NULL.
pub data Explains : List KObjectRef → List Op → List OpAnswer → List KObjectRef → Type 0 where
  over : {xs : List KObjectRef} → Explains xs [] [] xs
  add_one :
      {xs ys : List KObjectRef} {obj : KObjectRef} {has_memory ok : Bool} {ops : List Op}
      {answers : List OpAnswer}
      → ok ≡ (has_memory && not (obj == null))
      → Explains (if ok then xs ++ obj ∷ [] else xs) ops answers ys
      → Explains xs (add_op obj ∷ ops) (was_added has_memory ok ∷ answers) ys
  remove_one :
      {xs ys : List KObjectRef} {index : ℕ} {ops : List Op} {answers : List OpAnswer}
      → Explains (remove_at xs index) ops answers ys
      → Explains xs (remove_op index ∷ ops) (was_removed (get_or xs index null) ∷ answers) ys
  get_one :
      {xs ys : List KObjectRef} {index : ℕ} {ops : List Op} {answers : List OpAnswer}
      → Explains xs ops answers ys
      → Explains xs (get_op index ∷ ops) (was_found (get_or xs index null) ∷ answers) ys
  contains_one :
      {xs ys : List KObjectRef} {obj : KObjectRef} {ops : List Op} {answers : List OpAnswer}
      → Explains xs ops answers ys
      → Explains xs (contains_op obj ∷ ops) (was_contained (is_in obj xs) ∷ answers) ys
  count_one :
      {xs ys : List KObjectRef} {ops : List Op} {answers : List OpAnswer}
      → Explains xs ops answers ys
      → Explains xs (count_op ∷ ops) (was_counted (length xs) ∷ answers) ys
  clear_one :
      {xs ys : List KObjectRef} {ops : List Op} {answers : List OpAnswer}
      → Explains [] ops answers ys
      → Explains xs (clear_op ∷ ops) (was_cleared (length xs) ∷ answers) ys

-- How often a removal answered an object, with the reference that the list had to it.
abbrev pub handed : KObjectRef → List OpAnswer → ℕ
handed o [] = 0
handed o (was_removed x ∷ answers) = one_if (o == x) + handed o answers
handed o (was_added has_memory ok ∷ answers) = handed o answers
handed o (was_found x ∷ answers) = handed o answers
handed o (was_contained found ∷ answers) = handed o answers
handed o (was_counted n ∷ answers) = handed o answers
handed o (was_cleared n ∷ answers) = handed o answers

-- The objects that are added have a reference beside those of the list, and those that are looked
-- for are not NULL.
abbrev pub AreSpare : World → List KObjectRef → List Op → Type 0
AreSpare w xs [] = Unit
AreSpare w xs (add_op obj ∷ ops) = (obj ≢ null → count obj xs < refs w obj) × AreSpare w xs ops
AreSpare w xs (contains_op obj ∷ ops) = (obj ≢ null) × AreSpare w xs ops
AreSpare w xs (remove_op index ∷ ops) = AreSpare w xs ops
AreSpare w xs (get_op index ∷ ops) = AreSpare w xs ops
AreSpare w xs (count_op ∷ ops) = AreSpare w xs ops
AreSpare w xs (clear_op ∷ ops) = AreSpare w xs ops

abbrev pub Explained :
    World → List KObjectRef → List Op → List OpAnswer × Option KList → World → Type 0
Explained w xs ops (answers, list) w' =
    (ys : Cells) × (list' : KList) × (list ≡ some list')
    × IsList w'.entries list' ys
    × Explains xs ops answers (items ys)
    × ((o : KObjectRef)
        → o ≢ null
        → refs w' o + count o xs ≡ refs w o + count o (items ys) + handed o answers)
