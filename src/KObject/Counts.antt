-- ===== src/KObject/Counts.antt =====
-- What `KObjectRetain` and `KObjectRelease` of kobject.c do to the reference counts.
use k_h.Base.{
  ℕ, ◌+◌, ◌^◌, ◌≤◌, ◌<◌, ◌≡◌, ◌≢◌, refl, Bool, true, false, Option, none, some, arith, ap, inl, inr,
  ◌==◌, Bool-cases, Option-cases,
}
use k_h.World.{Ptr, null, KObjectRef, KControlBlock, World, Env}
use k_h.World.Returns
use k_h.World.Returns.{Returns, returns}
use k_h.KObject.{control_block, retain, release}

abbrev pub count_of : Option KControlBlock → ℕ
count_of none = 0
count_of (some cb) = cb.ref_count

-- The references to an object, 0 for one that is freed.
abbrev pub refs : World → KObjectRef → ℕ
refs w obj = count_of (w.blocks obj)

-- Whether an object has no control block.
abbrev pub is_freed : World → KObjectRef → Bool
is_freed w obj = elim (w.blocks obj) [ none ↦ true | some _ ↦ false ]

abbrev pub one_if : Bool → ℕ
one_if true = 1
one_if false = 0

pub one_if-le : (b : Bool) → one_if b ≤ 1
one_if-le true = omega arith
one_if-le false = omega arith

-- Deinitialisers that free memory of their own and call nothing of the library, as `KStringDeInit`
-- and `KAllocationDeInit` do.
abbrev pub IsLeaf : Env → Type 0
IsLeaf env =
    (isa : Ptr) (obj : KObjectRef) (w : World)
    → Returns (λ _ w'. (w'.blocks ≡ w.blocks) × (w'.entries ≡ w.entries)) (env.deinit isa obj w)

-- `w'` has one more reference to `obj` than `w`, and differs in nothing else.
abbrev pub Retained : KObjectRef → World → World → Type 0
Retained obj w w' =
    ((o : KObjectRef) → refs w' o ≡ refs w o + one_if (o == obj)) × (w'.entries ≡ w.entries)

-- `w'` has one reference to `obj` less than `w`, which is freed if that was the last, and differs in
-- no other count and no entry.
abbrev pub Released : KObjectRef → World → World → Type 0
Released obj w w' =
    ((o : KObjectRef) → refs w' o + one_if (o == obj) ≡ refs w o)
    × (w'.entries ≡ w.entries)
    × (is_freed w' obj ≡ (refs w obj == 1))

live-ne-none : (obj : KObjectRef) (w : World) → 0 < refs w obj → w.blocks obj ≢ none
live-ne-none obj w h e = ground arith

block_of :
    (obj : KObjectRef) (w : World)
    → 0 < refs w obj
    → (cb : KControlBlock) × (w.blocks obj ≡ some cb)
block_of obj w h = elim (Option-cases (w.blocks obj)) [
  | inl e ↦ absurd (live-ne-none obj w h e)
  | inr found ↦ found
]

-- Retaining a live object adds one to its count alone.
pub retain-Retained :
    (obj : KObjectRef) (w : World)
    → obj ≢ null
    → 0 < refs w obj
    → refs w obj + 1 < 2 ^ 32
    → Returns (λ _. Retained obj w) (retain obj w)
unfolding retain
retain-Retained obj w live pos fits =
    let (cb, e) = block_of obj w pos in
    let not_null : (obj == null) ≡ false = ground arith in
    rw (not_null, e, control_block) (returns (λ o. ground (arith, ap count_of e), refl))

-- Releasing a live object with a leaf deinitialiser takes one from its reference count alone,
-- changes no list entry, and frees the object exactly if that was the last reference.
pub release-Released :
    (env : Env) (obj : KObjectRef) (w : World)
    → IsLeaf env
    → obj ≢ null
    → 0 < refs w obj
    → refs w obj < 2 ^ 32
    → Returns (λ _. Released obj w) (release env obj w)
unfolding release
release-Released env obj w leaf live pos fits =
    let (cb, e) = block_of obj w pos in
    let not_null : (obj == null) ≡ false = ground arith in
    elim (Bool-cases (cb.ref_count == 1)) [
      | inl last ↦
          rw (not_null, e, control_block, last)
            (Returns.bind (leaf cb.isa obj _) λ _ w' (same, kept). returns (
              λ o.
                  ground (
                    arith,
                    ap count_of e,
                    ap (λ (f : KObjectRef → Option KControlBlock). f o) same,
                  ),
              kept,
              ground (arith, ap count_of e),
            ))
      | inr more ↦
          rw (not_null, e, control_block, more)
            (returns (λ o. ground (arith, ap count_of e), refl, ground (arith, ap count_of e)))
    ]

-- The release of one of several references runs no deinitialiser.
pub release_shared :
    (env : Env) (obj : KObjectRef) (w : World)
    → obj ≢ null
    → 1 < refs w obj
    → refs w obj < 2 ^ 32
    → Returns (λ _. Released obj w) (release env obj w)
unfolding release
release_shared env obj w live shared fits =
    let (cb, e) = block_of obj w (omega arith) in
    let not_null : (obj == null) ≡ false = ground arith in
    let more : (cb.ref_count == 1) ≡ false = ground (arith, ap count_of e) in
    rw (not_null, e, control_block, more)
      (returns (λ o. ground (arith, ap count_of e), refl, ground (arith, ap count_of e)))
