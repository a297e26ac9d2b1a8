-- ===== src/KObject/Made.antt =====
-- What `KObjectNew` of kobject.c gives: an object with one reference, or NULL.
use k_h.Base.{◌+◌, ◌≡◌, refl, none, arith, ap, ◌⊎◌, inl, inr, ◌==◌, Bool-cases}
use k_h.World.{Ptr, null, KObjectRef, World, Env, pointwise}
use k_h.World.Returns
use k_h.World.Returns.{Returns, returns}
use k_h.KObject.{new, sizeof_control_block}
use k_h.KObject.Counts.{refs, count_of, one_if}

-- Initialisers that set up memory of their own and call nothing of the library.
abbrev pub IsPlain : Env → Ptr → Type 0
IsPlain env isa =
    (obj : KObjectRef) (w : World)
    → Returns (λ _ w'. (w'.blocks ≡ w.blocks) × (w'.entries ≡ w.entries)) (env.init isa obj w)

-- The memory that the allocator grants next holds no object.
abbrev pub IsFresh : Env → World → Type 0
IsFresh env w = w.blocks (env.malloc w + sizeof_control_block) ≡ none

abbrev pub Made : Env → World → KObjectRef → World → Type 0
Made env w obj w' =
    ((obj ≡ null) × (env.malloc w ≡ null) × ((o : KObjectRef) → refs w' o ≡ refs w o))
    ⊎ ((obj ≡ env.malloc w + sizeof_control_block)
        × (refs w obj ≡ 0)
        × (w'.entries ≡ w.entries)
        × ((o : KObjectRef) → refs w' o ≡ refs w o + one_if (o == obj)))

pub new-Made :
    (env : Env) (isa : Ptr) (w : World)
    → IsPlain env isa
    → IsFresh env w
    → Returns (Made env w) (new env isa w)
unfolding new
new-Made env isa w plain fresh = elim (Bool-cases (env.malloc w == null)) [
  | inl e ↦ rw e (returns (inl (refl, ground (arith, e), λ o. refl)))
  | inr e ↦ rw e (
      Returns.bind (plain _ _) λ _ w' (same, kept). returns (
        inr (
          refl,
          ap count_of fresh,
          kept,
          λ o. ground (arith, pointwise same o, ap count_of fresh),
        )))
]
