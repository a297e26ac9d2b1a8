-- ===== src/Tests.antt =====
-- Runs of the model on small worlds: the data of the tests, which stand in the children.
mod Files
mod Histories
mod Latches
mod Objects
mod Paths
mod Permits
mod Posts
mod Runs
mod Sequences
mod Tables
mod Windows
mod Workers
use k_h.Base.{ℕ, ◌+◌, ◌≡◌, refl, Option, none, some, ltb, if◌then◌else◌}
use k_h.World.{Ptr, KObjectRef, KControlBlock, World, done, Env}
use k_h.World.Returns.{returns}
use k_h.KObject.Counts.{IsLeaf}

-- An allocator that never refuses and never gives an address twice.
abbrev pub generous : Env
generous = record {
  malloc = λ w. w.requests + 1;
  init = λ _ _ w. done tt w;
  deinit = λ _ _ w. done tt w;
}

-- An allocator that has no memory.
abbrev pub exhausted : Env
exhausted = record generous { malloc = λ w. 0 }

pub generous-IsLeaf : IsLeaf generous
generous-IsLeaf isa obj w = returns (refl, refl)

abbrev pub five_references : KControlBlock
five_references = record { isa = 9; ref_count = 5 }

-- The objects 1 to 6 with five references each, and no list.
abbrev pub start : World
start = record {
  blocks = λ o. if ltb 0 o then (if ltb o 7 then some five_references else none) else none;
  entries = λ p. none;
  requests = 10;
}
