-- ===== src/KObject/Owned.antt =====
-- A sequence that holds a reference to each of its objects, as arrays and lists do, and how the
-- reference counts follow its changes.
use k_h.Base.{
  ℕ, zero, suc, ◌+◌, ◌^◌, ◌≤◌, ◌<◌, ◌≡◌, ◌≢◌, refl, true, false, none, some, List, [], ◌∷◌, ◌++◌,
  arith, ap, inl, inr, ◌==◌, Bool-cases, length, length-append, get_elem?, get_elem?-lt, get_or,
  remove_at, length-remove_at,
}
use k_h.World.{null, KObjectRef, World, pointwise}
use k_h.KObject.Counts.{refs, one_if, one_if-le, count_of}

-- How often an object stands in a sequence.
abbrev pub count : KObjectRef → List KObjectRef → ℕ
count o [] = 0
count o (x ∷ xs) = one_if (o == x) + count o xs

-- Each of the objects is an object, and holds at least as many references as it has places here.
abbrev pub IsOwned : World → List KObjectRef → Type 0
IsOwned w xs =
    (count null xs ≡ 0) × ((o : KObjectRef) → (count o xs ≤ refs w o) × (refs w o < 2 ^ 32))

pub count-append :
    (o : KObjectRef) (xs ys : List KObjectRef) → count o (xs ++ ys) ≡ count o xs + count o ys
count-append o [] ys = omega arith
count-append o (x ∷ xs) ys = omega (arith, count-append o xs ys)

-- What stands at an index, and what is left without it.
pub count-remove_at :
    (o : KObjectRef) (xs : List KObjectRef) (i : ℕ) {x : KObjectRef}
    → get_elem? xs i ≡ some x
    → one_if (o == x) + count o (remove_at xs i) ≡ count o xs
count-remove_at o [] i e = absurd (cc)
count-remove_at o (y ∷ xs) zero e = ground arith
count-remove_at o (y ∷ xs) (suc i) e = omega (arith, count-remove_at o xs i e)

pub get_or-some :
    (xs : List KObjectRef) (i : ℕ) {x : KObjectRef} → get_elem? xs i ≡ some x → get_or xs i null ≡ x
get_or-some [] i e = absurd (cc)
get_or-some (y ∷ xs) zero e = ground arith
get_or-some (y ∷ xs) (suc i) e = get_or-some xs i e

-- Past the end nothing stands, and nothing is removed.
pub get_or-none :
    (xs : List KObjectRef) (i : ℕ)
    → get_elem? xs i ≡ none
    → (get_or xs i null ≡ null) × (remove_at xs i ≡ xs)
get_or-none [] i e = (refl, refl)
get_or-none (y ∷ xs) zero e = absurd (cc)
get_or-none (y ∷ xs) (suc i) e = let rest = get_or-none xs i e in (rest.0, ap (λ t. y ∷ t) rest.1)

count-null_append :
    (xs : List KObjectRef) (obj : KObjectRef)
    → count null xs ≡ 0
    → obj ≢ null
    → count null (xs ++ obj ∷ []) ≡ 0
count-null_append xs obj none_there live =
    let other : (null == obj) ≡ false = ground arith in
    omega (arith, count-append null xs (obj ∷ []), none_there, ap one_if other)

pub not_null-count : (o : KObjectRef) → o ≢ null → one_if (o == null) ≡ 0
not_null-count o live = let other : (o == null) ≡ false = ground arith in ap one_if other

-- The sequence holds a reference to each of its objects, and the counts and the limit of its length
-- leave room for `n` more.
pub record HasRoom (limit : ℕ) (w : World) (xs : List KObjectRef) (n : ℕ) : Type 0 where
  pub no_null : count null xs ≡ 0
  pub covered : (o : KObjectRef) → count o xs ≤ refs w o
  pub counts : (o : KObjectRef) → refs w o + n < 2 ^ 32
  pub short : length xs + n ≤ limit

pub HasRoom-IsOwned :
    (limit : ℕ) (w : World) (xs : List KObjectRef) (n : ℕ) → HasRoom limit w xs n → IsOwned w xs
HasRoom-IsOwned limit w xs n room =
    (room.no_null, λ o. (room.covered o, omega (arith, room.counts o)))

-- The references outside the sequence to each object grow by what is `given`.
pub record Moved (w : World) (xs : List KObjectRef) (given : KObjectRef → ℕ) (ys : List KObjectRef)
    (w' : World) : Type 0 where
  pub no_null : count null ys ≡ 0
  pub moved : (o : KObjectRef) → o ≢ null → refs w' o + count o xs ≡ refs w o + count o ys + given o
  pub few : (o : KObjectRef) → refs w' o ≤ refs w o + 1
  pub short : length ys ≤ length xs + 1

-- NULL has no place in the sequence.
pub covered_null :
    (ys : List KObjectRef) (o : KObjectRef) (n : ℕ)
    → count null ys ≡ 0
    → (o == null) ≡ true
    → count o ys ≤ n
covered_null ys o n none_there e =
    let same : o ≡ null = ground arith in
    omega (arith, ap (λ (p : KObjectRef). count p ys) same, none_there)

module _ (w : World) (xs : List KObjectRef) where
  pub HasRoom-after :
      (limit : ℕ) (given : KObjectRef → ℕ) (ys : List KObjectRef) (w' : World) (n : ℕ)
      → Moved w xs given ys w'
      → HasRoom limit w xs (suc n)
      → HasRoom limit w' ys n
  HasRoom-after limit given ys w' n m room = record {
    no_null = m.no_null;
    covered = λ o. elim (Bool-cases (o == null)) [
      | inl e ↦ covered_null ys o (refs w' o) m.no_null e
      | inr e ↦ omega (arith, m.moved o (ground arith), room.covered o)
    ];
    counts = λ o. omega (arith, m.few o, room.counts o);
    short = omega (arith, m.short, room.short);
  }

  module _ (w' : World) (no_null : count null xs ≡ 0) where
    -- No count and no object of the sequence changes.
    pub Moved-same : w'.blocks ≡ w.blocks → Moved w xs (λ o. 0) xs w'
    Moved-same blocks = record {
      no_null = no_null;
      moved = λ o live. omega (arith, ap count_of (pointwise blocks o));
      few = λ o. omega (arith, ap count_of (pointwise blocks o));
      short = omega arith;
    }

    -- The sequence takes a reference.
    pub Moved-added :
        (obj : KObjectRef)
        → obj ≢ null
        → ((o : KObjectRef) → refs w' o ≡ refs w o + one_if (o == obj))
        → Moved w xs (λ o. 0) (xs ++ obj ∷ []) w'
    Moved-added obj live counts = record {
      no_null = count-null_append xs obj no_null live;
      moved = λ o live'. omega (arith, counts o, count-append o xs (obj ∷ []));
      few = λ o. omega (arith, counts o, one_if-le (o == obj));
      short = omega (arith, length-append xs (obj ∷ []));
    }

    -- An object leaves the sequence, and its reference goes to the caller, or is given up.
    pub Moved-removed :
        (index : ℕ) {x : KObjectRef} (given : KObjectRef → ℕ)
        → get_elem? xs index ≡ some x
        → ((o : KObjectRef) → refs w' o + one_if (o == x) ≡ refs w o + given o)
        → ((o : KObjectRef) → given o ≤ 1)
        → Moved w xs given (remove_at xs index) w'
    Moved-removed index {x} given e counts few = record {
      no_null = omega (arith, count-remove_at null xs index e, no_null);
      moved = λ o live. omega (arith, counts o, count-remove_at o xs index e);
      few = λ o. omega (arith, counts o, few o);
      short = omega (arith, length-remove_at xs index (get_elem?-lt xs index e));
    }

    -- The sequence gives up all its references.
    pub Moved-cleared :
        ((o : KObjectRef) → refs w' o + count o xs ≡ refs w o) → Moved w xs (λ o. 0) [] w'
    Moved-cleared counts = record {
      no_null = refl;
      moved = λ o live. omega (arith, counts o);
      few = λ o. omega (arith, counts o);
      short = omega arith;
    }
