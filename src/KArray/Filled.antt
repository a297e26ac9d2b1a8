-- ===== src/KArray/Filled.antt =====
-- Buffers whose first slots hold the objects of a sequence.
use mathlib.Core.List.{append_assoc, append-nil}
use k_h.Base.{
  ℕ, zero, suc, ◌+◌, ◌-◌, ◌≤◌, ◌≡◌, refl, Option, some, List, [], ◌∷◌, ◌++◌, arith, ap, length,
  length-append, get_elem?, set, ◌∙◌,
}
use k_h.World.{KObjectRef, World, done}
use k_h.KAllocation.{KAllocation, Slots, resize}
use k_h.KArray.{KArray, load, load_slot, store, shift}

abbrev pub filled : List KObjectRef → Slots → Slots
filled [] rest = rest
filled (o ∷ xs) rest = some o ∷ filled xs rest

-- The array holds the objects `xs` in this order, and `rest` stands behind them in its buffer.
pub record IsArray (array : KArray) (xs : List KObjectRef) : Type 0 where
  pub allocation : KAllocation
  pub rest : Slots
  pub length : array.length ≡ length xs
  pub items : array.items ≡ some allocation
  pub buffer : allocation.buffer ≡ filled xs rest

pub filled-append :
    (xs ys : List KObjectRef) (rest : Slots) → filled (xs ++ ys) rest ≡ filled xs (filled ys rest)
filled-append [] ys rest = refl
filled-append (x ∷ xs) ys rest = ap (λ t. some x ∷ t) (filled-append xs ys rest)

pub resize-filled :
    (n : ℕ) (xs : List KObjectRef) (rest : Slots)
    → length xs ≤ n
    → resize n (filled xs rest) ≡ filled xs (resize (n - length xs) rest)
unfolding resize
resize-filled n [] rest h = ap (λ k. resize k rest) (omega arith)
resize-filled zero (x ∷ xs) rest h = absurd (omega arith)
resize-filled (suc n) (x ∷ xs) rest h =
    ap (λ t. some x ∷ t)
      (resize-filled n xs rest (omega arith) ∙ ap (λ k. filled xs (resize k rest)) (omega arith))

get_elem?-filled_end :
    (xs : List KObjectRef) (rest : Slots)
    → get_elem? (filled xs rest) (length xs) ≡ get_elem? rest 0
get_elem?-filled_end [] rest = refl
get_elem?-filled_end (x ∷ xs) rest = get_elem?-filled_end xs rest

set-filled_end :
    (xs : List KObjectRef) (s v : Option KObjectRef) (rest : Slots)
    → set (filled xs (s ∷ rest)) (length xs) v ≡ filled xs (v ∷ rest)
set-filled_end [] s v rest = refl
set-filled_end (x ∷ xs) s v rest = ap (λ t. some x ∷ t) (set-filled_end xs s v rest)

get_elem?-filled :
    (xs : List KObjectRef) (rest : Slots) (i : ℕ) (o : KObjectRef)
    → get_elem? xs i ≡ some o
    → get_elem? (filled xs rest) i ≡ some (some o)
get_elem?-filled [] rest i o e = cc
get_elem?-filled (x ∷ xs) rest zero o e = cc
get_elem?-filled (x ∷ xs) rest (suc i) o e = get_elem?-filled xs rest i o e

-- A write at the end of the objects, where the buffer has a slot left.
pub store-filled :
    (xs : List KObjectRef) (s v : Option KObjectRef) (rest : Slots) (w : World)
    → store (filled xs (s ∷ rest)) (length xs) v w ≡ done (filled xs (v ∷ rest)) w
unfolding store
store-filled xs s v rest w =
    rw (get_elem?-filled_end xs (s ∷ rest), store, set-filled_end xs s v rest)

pub load-filled :
    (xs : List KObjectRef) (rest : Slots) (i : ℕ) (o : KObjectRef) (w : World)
    → get_elem? xs i ≡ some o
    → load (filled xs rest) i w ≡ done o w
unfolding load
load-filled xs rest i o w e = rw (get_elem?-filled xs rest i o e, load_slot)

get_elem?-filled_after :
    (xs : List KObjectRef) (gap s : Option KObjectRef) (rest : Slots)
    → get_elem? (filled xs (gap ∷ s ∷ rest)) (suc (length xs)) ≡ some s
get_elem?-filled_after [] gap s rest = refl
get_elem?-filled_after (x ∷ xs) gap s rest = get_elem?-filled_after xs gap s rest

-- One round of the loop of `KArrayRemoveObjectAtIndex`.
shift_step :
    (xs : List KObjectRef) (gap y : KObjectRef) (rest : Slots) (n : ℕ) (w : World)
    → shift (suc n) (length xs + 1) (filled xs (some gap ∷ some y ∷ rest)) w
      ≡ shift n (length (xs ++ y ∷ []) + 1) (filled (xs ++ y ∷ []) (some y ∷ rest)) w
unfolding shift
shift_step xs gap y rest n w =
    let next : length xs + 1 ≡ suc (length xs) = omega arith in
    let back : suc (length xs) - 1 ≡ length xs = omega arith in
    let after : length (xs ++ y ∷ []) ≡ suc (length xs) =
      omega (arith, length-append xs (y ∷ [])) in
    rw
      (
        next,
        get_elem?-filled_after xs (some gap) (some y) rest,
        load_slot,
        back,
        store-filled xs (some gap) (some y) (some y ∷ rest) w,
        after,
        filled-append,
      )
      refl

pub load-filled_end :
    (xs : List KObjectRef) (o : KObjectRef) (rest : Slots) (w : World)
    → load (filled xs (some o ∷ rest)) (length xs) w ≡ done o w
unfolding load
load-filled_end xs o rest w = rw (get_elem?-filled_end xs (some o ∷ rest), load_slot)

-- The loop of `KArrayRemoveObjectAtIndex` moves what stands behind the gap one slot down, and the
-- last object stays in its old slot too.
pub shift-filled :
    (ys : List KObjectRef) (xs : List KObjectRef) (gap : KObjectRef) (rest : Slots) (w : World)
    → (last : KObjectRef) × (shift
          (length ys)
          (length xs + 1)
          (filled xs (some gap ∷ filled ys rest))
          w
        ≡ done (filled (xs ++ ys) (some last ∷ rest)) w)
shift-filled [] xs gap rest w = (gap, unfold shift in rw append-nil)
shift-filled (y ∷ ys) xs gap rest w =
    let (last, run) = shift-filled ys (xs ++ y ∷ []) y rest w in
    (last, shift_step xs gap y (filled ys rest) (length ys) w ∙ run ∙ rw append_assoc)
