-- ===== src/KArray/Add.antt =====
-- `KArrayAddObject` of karray.c, and how far an array can grow.
use k_h.Base.{
  ℕ, zero, suc, ◌+◌, ◌-◌, ◌*◌, ◌/◌, ◌^◌, ◌≤◌, ◌<◌, ◌≡◌, ◌≢◌, refl, true, false, Option, none, some,
  List, [], ◌∷◌, ◌++◌, arith, length, length-append, ◌==◌, u32, u64, ◌⊎◌, inl, inr, Bool-cases,
}
use k_h.World.{null, KObjectRef, World, done, fault, Env}
use k_h.World.Returns
use k_h.World.Returns.{Returns, returns}
use k_h.KObject.Counts.{refs, Retained, retain-Retained}
use k_h.KAllocation.{KAllocation, Slots, resize, truncate}
use k_h.KAllocation.PowerOfTwo.{next_power_of_two_size-IsLeast, next_power_of_two_size_wraps}
use k_h.KArray.{KArray, wanted_size, add_object}
use k_h.KArray.Filled.{IsArray, filled, filled-append, resize-filled, store-filled}

-- The allocator has answered one more request.
abbrev pub asked : World → World
asked w = record w { requests = w.requests + 1 }

wanted_size_fits : (n : ℕ) → (n + 1) * 8 ≤ 2 ^ 31 → (n + 1) * 8 ≤ wanted_size n
wanted_size_fits n h =
    let (k, _, e, lo, _) = next_power_of_two_size-IsLeast ((n + 1) * 8) (omega arith) h in
    let same : u32 (u64 ((n + 1) * 8)) ≡ (n + 1) * 8 = omega arith in rw same (omega arith)

wanted_size_wraps : (n : ℕ) → 2 ^ 28 ≤ n → n < 2 ^ 29 - 1 → wanted_size n ≡ 0
wanted_size_wraps n lo hi =
    let same : u32 (u64 ((n + 1) * 8)) ≡ (n + 1) * 8 = omega arith in
    rw same (next_power_of_two_size_wraps ((n + 1) * 8) (omega arith) (omega arith))

resize-room :
    (n : ℕ) (rest : Slots) → 0 < n → (s : Option KObjectRef) × (r : Slots) × (resize n rest ≡ s ∷ r)
unfolding resize
resize-room zero rest h = absurd (omega arith)
resize-room (suc n) [] h = (none, resize n [], refl)
resize-room (suc n) (s ∷ rest) h = (s, resize n rest, refl)

-- A size that has room for one more object leaves the objects in place and a slot behind them.
truncate-room :
    (env : Env) (allocation : KAllocation) (xs : List KObjectRef) (rest : Slots) (size : ℕ)
    (w : World)
    → allocation.buffer ≡ filled xs rest
    → (length xs + 1) * 8 ≤ size
    → env.malloc w ≢ null
    → (s : Option KObjectRef) × (r : Slots) × (truncate env (some allocation) size w
        ≡ done (true, some (record { size = size; buffer = filled xs (s ∷ r) })) (asked w))
unfolding truncate
truncate-room env allocation xs rest size w e fits granted =
    let (s, r, room) = resize-room (size / 8 - length xs) rest (omega arith) in
    let not_null : (env.malloc w == null) ≡ false = ground arith in
    let some_size : (size == 0) ≡ false = ground arith in
    (s, r, rw (some_size, not_null, e, resize-filled (size / 8) xs rest (omega arith), room) refl)

-- Adding a live object to an array of less than 2 ^ 28 objects, where the allocator grants the
-- buffer, appends the object within the buffer, keeps the others, and takes one reference to it.
pub add_object-IsArray :
    (env : Env) (array : KArray) (xs : List KObjectRef) (obj : KObjectRef) (w : World)
    → IsArray array xs
    → obj ≢ null
    → 0 < refs w obj
    → refs w obj + 1 < 2 ^ 32
    → (length xs + 1) * 8 ≤ 2 ^ 31
    → env.malloc w ≢ null
    → Returns
        (λ r w'.
          (array' : KArray) × (r ≡ (true, some array'))
          × IsArray array' (xs ++ obj ∷ [])
          × Retained obj w w')
        (add_object env (some array) obj w)
unfolding add_object
add_object-IsArray env array xs obj w is live pos fits small granted =
    let not_null : (obj == null) ≡ false = ground arith in
    let (s, r, run) =
      truncate-room env is.allocation xs is.rest (wanted_size (length xs)) w is.buffer
        (wanted_size_fits (length xs) small) granted in
    rw (not_null, is.items, is.length, run)
      (Returns.bind (retain-Retained obj (asked w) live pos fits) λ _ w' kept.
        rw (store-filled xs s (some obj) r w') (
          returns (
            record {
              length = u64 (length xs + 1);
              items =
                  some
                    (record { size = wanted_size (length xs); buffer = filled xs (some obj ∷ r) });
            },
            refl,
            record {
              allocation = record {
                size = wanted_size (length xs);
                buffer = filled xs (some obj ∷ r);
              };
              rest = r;
              length = omega (arith, length-append xs (obj ∷ []));
              items = refl;
              buffer = rw filled-append;
            },
            kept,
          )))

-- Adding NULL, adding to NULL, and adding when the allocator refuses all report failure and change
-- neither the array, of less than 2 ^ 28 objects, nor an object nor a list entry.
pub add_object_refused :
    (env : Env) (array : Option KArray) (xs : List KObjectRef) (obj : KObjectRef) (w : World)
    → ((a : KArray) → array ≡ some a → IsArray a xs)
    → length xs < 2 ^ 28
    → (array ≡ none) ⊎ ((obj ≡ null) ⊎ (env.malloc w ≡ null))
    → Returns
        (λ r w'. (r ≡ (false, array)) × (w'.blocks ≡ w.blocks) × (w'.entries ≡ w.entries))
        (add_object env array obj w)
unfolding add_object truncate
add_object_refused env none xs obj w is short why = returns (refl, refl, refl)
add_object_refused env (some array) xs obj w is short why =
    let items = (is array refl).items in
    elim (Bool-cases (obj == null)) [
      | inl e ↦ rw e (returns (refl, refl, refl))
      | inr e ↦
          let refused : (env.malloc w == null) ≡ true = ground arith in
          let some_size : (wanted_size (length xs) == 0) ≡ false =
            ground (arith, wanted_size_fits (length xs) (omega arith)) in
          rw (e, items, (is array refl).length, truncate, some_size, refused)
            (returns (refl, refl, refl))
    ]

-- The size that `KArrayAddObject` asks for is 0 at 2 ^ 28 or more objects, up to 2 ^ 29 - 2, and
-- adding an object is undefined there, whatever the allocator answers.
pub add_object_full :
    (env : Env) (array : KArray) (xs : List KObjectRef) (obj : KObjectRef) (w : World)
    → IsArray array xs
    → obj ≢ null
    → 2 ^ 28 ≤ length xs
    → length xs < 2 ^ 29 - 1
    → (wanted_size array.length ≡ 0) × (add_object env (some array) obj w ≡ fault)
unfolding add_object truncate
add_object_full env array xs obj w is live lo hi =
    let not_null : (obj == null) ≡ false = ground arith in
    let wraps = wanted_size_wraps (length xs) lo hi in
    (rw is.length wraps, rw (not_null, is.items, is.length, wraps, truncate) refl)
