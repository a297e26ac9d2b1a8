-- ===== src/Tests/Runs.antt =====
-- Several operations on a list, on an array and on a pool.
use k_h.Base.{
  ◌≢◌, ℕ, ◌+◌, ◌≡◌, refl, Bool, none, some, List, [], ◌∷◌, arith, inl, inr, Option-cases, ltb, ◌==◌,
  if◌then◌else◌,
}
use k_h.World.{null, KObjectRef, World, Run, done, Cmd, pure, Env}
use k_h.World.Returns.{Returns, returns}
use k_h.KObject.Owned.{count}
use k_h.KObject.Counts.{refs, IsLeaf}
use k_h.KArray.{KArray}
use k_h.KArray.Filled.{IsArray}
use k_h.KArray.History as ArrayRuns
use k_h.KArray.History.Refines.{run_array-Explained}
use k_h.KAutorelease.Drained.{CanMove, run_scope, run_scope-drained}
use k_h.KList.{KList, iterate}
use k_h.KList.Links.{IsList, Cells, entry}
use k_h.KList.History.Items.{items}
use k_h.KList.Iterate.{visit_items, iterate-visit_items}
use k_h.KList.History as ListRuns
use k_h.KList.History.Refines.{run_list-Explained}
use k_h.Tests.{generous, generous-IsLeaf, start}

-- An allocator that refuses an address that is in use.
abbrev careful : Env
careful = record generous {
  malloc = λ w. elim (w.entries (w.requests + 1)) [ none ↦ w.requests + 1 | some _ ↦ 0 ];
}

careful-IsLeaf : IsLeaf careful
careful-IsLeaf isa obj w = returns (refl, refl)

careful-GivesUnused : ListRuns.GivesUnused careful
careful-GivesUnused w given = elim (Option-cases (w.entries (w.requests + 1))) [
  | inl e ↦ rw (e, e) refl
  | inr (entry, e) ↦ absurd (given (rw e))
]

abbrev no_items : KList
no_items = record { root = null; count = 0 }

no_items-IsList : IsList start.entries no_items []
no_items-IsList = record { root = refl; count = refl; links = tt; distinct = tt }

abbrev list_ops : List ListRuns.Op
list_ops =
    ListRuns.Op.add_op 1
    ∷ ListRuns.Op.add_op 2
    ∷ ListRuns.Op.add_op 1
    ∷ ListRuns.Op.get_op 1
    ∷ ListRuns.Op.contains_op 2
    ∷ ListRuns.Op.remove_op 0
    ∷ ListRuns.Op.count_op
    ∷ ListRuns.Op.clear_op
    ∷ []

eight_list_operations :
    Returns
      (ListRuns.Explained start [] list_ops)
      (ListRuns.run_list careful list_ops (some no_items) start)
eight_list_operations =
    run_list-Explained careful careful-GivesUnused careful-IsLeaf list_ops no_items [] start
      no_items-IsList
      (record {
        no_null = refl;
        covered = λ o. omega arith;
        counts = λ o. ground arith;
        short = omega arith;
      })
      (λ _. omega arith, (λ _. omega arith, (λ _. omega arith, (ground arith, tt))))

abbrev no_elements : KArray
no_elements = record { length = 0; items = some (record { size = 0; buffer = [] }) }

no_elements-IsArray : IsArray no_elements []
no_elements-IsArray = record {
  allocation = record { size = 0; buffer = [] };
  rest = [];
  length = refl;
  items = refl;
  buffer = refl;
}

abbrev array_ops : List ArrayRuns.Op
array_ops =
    ArrayRuns.Op.add_op 1
    ∷ ArrayRuns.Op.add_op 2
    ∷ ArrayRuns.Op.remove_op 0
    ∷ ArrayRuns.Op.get_op 0
    ∷ ArrayRuns.Op.length_op
    ∷ ArrayRuns.Op.remove_op 7
    ∷ ArrayRuns.Op.clear_op
    ∷ []

seven_array_operations :
    Returns
      (ArrayRuns.Explained generous start [] array_ops)
      (ArrayRuns.run_array generous array_ops (some no_elements) start)
seven_array_operations =
    run_array-Explained generous generous-IsLeaf array_ops no_elements [] start no_elements-IsArray
      (record {
        no_null = refl;
        covered = λ o. omega arith;
        counts = λ o. ground arith;
        short = omega arith;
      })
      (λ _. omega arith, (λ _. omega arith, tt))

-- A callback that adds up what it sees, and has seen enough after two items.
abbrev two_seen : KObjectRef → ℕ → ℕ → Cmd (Bool × ℕ)
two_seen obj i sum = pure (ltb i 2, sum + obj)

two_seen-KeepsEntries :
    (obj : KObjectRef) (i sum : ℕ) (w : World) (answer : Bool × ℕ) (w' : World)
    → two_seen obj i sum w ≡ done answer w'
    → w'.entries ≡ w.entries
two_seen-KeepsEntries obj i sum w answer w' e = same_world e
  where
    same_world :
        {a b : Bool × ℕ} {v v' : World}
        → ◌≡◌ {A = Run (Bool × ℕ)} (done a v) (done b v')
        → v'.entries ≡ v.entries
    same_world h = cc

abbrev one_cell : Cells
one_cell = (20, 4) ∷ []

abbrev one_entry : World
one_entry = record start { entries = λ p. if p == 20 then some (entry null null 4) else none }

abbrev one_item : KList
one_item = record { root = 20; count = 1 }

one_item-IsList : IsList one_entry.entries one_item one_cell
one_item-IsList = record {
  root = refl;
  count = refl;
  links = (ground arith, refl, tt);
  distinct = (refl, tt);
}

first_two_visited :
    iterate (some one_item) (some two_seen) 0 one_entry
    ≡ visit_items two_seen 0 (items one_cell) 0 one_entry
first_two_visited =
    iterate-visit_items two_seen two_seen-KeepsEntries one_item one_cell 0 one_entry one_item-IsList

three_moves-CanMove : CanMove start [] (1 ∷ 2 ∷ 1 ∷ [])
three_moves-CanMove = record {
  pool_null = refl;
  no_null = refl;
  covered = λ o. ground arith;
  counts = λ o. ground arith;
  short = omega arith;
}

three_moves :
    Returns
      (λ r w'.
        (pool' : KArray) × (r.1 ≡ some pool')
        × IsArray pool' []
        × ((o : KObjectRef)
            → o ≢ null
            → refs w' o + count o [] + count o (1 ∷ 2 ∷ 1 ∷ []) ≡ refs start o))
      (run_scope generous (1 ∷ 2 ∷ 1 ∷ []) (some no_elements) start)
three_moves =
    run_scope-drained generous generous-IsLeaf (1 ∷ 2 ∷ 1 ∷ []) no_elements [] start
      no_elements-IsArray three_moves-CanMove
