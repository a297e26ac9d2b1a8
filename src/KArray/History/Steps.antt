-- ===== src/KArray/History/Steps.antt =====
-- What each operation of karray.c does to the sequence of an array's objects and to the counts.
use k_h.Base.{
  ℕ, zero, suc, ◌<◌, ◌≡◌, ◌≢◌, refl, Bool, true, false, Option, none, some, List, [], ◌∷◌, ◌++◌,
  arith, ap, ◌∙◌, ◌==◌, if◌then◌else◌, length, inl, inr, Option-cases, ltb, get_or, get_elem?,
  get_elem?-le, get_elem?-lt, remove_at, some_eq,
}
use mathlib.Core.Path.{subst}
use mathlib.Core.Logic.{◌⊎◌}
use native.Mathlib.Decide.{ℕ_discrete}
use k_h.World.{null, KObjectRef, World, done, Env}
use k_h.World.Returns
use k_h.World.Returns.{Returns, returns}
use k_h.KObject.Counts.{refs, one_if, IsLeaf}
use k_h.KObject.Owned.{
  count, count-remove_at, HasRoom, HasRoom-IsOwned, Moved, Moved-same, Moved-added, Moved-removed,
  Moved-cleared, get_or-none,
}
use k_h.KArray.{
  KArray, add_object, remove_object_at_index, get_object_at_index, get_length, remove_all_objects,
}
use k_h.KArray.Filled.{IsArray}
use k_h.KArray.Add.{add_object-IsArray, add_object_refused}
use k_h.KArray.Remove.{
  get_object_at_index-get_elem?, remove_object_at_index-IsArray, remove_all_objects-IsArray,
}
use k_h.KArray.History.{AlwaysGives, limit}

-- What an operation answers, and the array and the sequence that it leaves.
abbrev pub After :
    World → List KObjectRef → Bool → List KObjectRef → Bool × Option KArray → World → Type 0
After w xs ok ys r w' =
    (array' : KArray) × (r ≡ (ok, some array')) × IsArray array' ys × Moved w xs (λ o. 0) ys w'

module _ (env : Env) where
  abbrev pub Added : World → List KObjectRef → KObjectRef → Bool × Option KArray → World → Type 0
  Added w xs obj r w' =
      (ok : Bool) × After w xs ok (if ok then xs ++ obj ∷ [] else xs) r w'
      × (obj ≡ null → ok ≡ false)
      × (AlwaysGives env → obj ≢ null → ok ≡ true)

  -- An addition that is granted.
  add_object-Added :
      (array : KArray) (xs : List KObjectRef) (obj : KObjectRef) (n : ℕ) (w : World)
      → IsArray array xs
      → HasRoom limit w xs (suc n)
      → (obj ≢ null → count obj xs < refs w obj)
      → obj ≢ null
      → env.malloc w ≢ null
      → Returns (Added w xs obj) (add_object env (some array) obj w)
  add_object-Added array xs obj n w is room spare live granted =
      Returns.mono
        (add_object-IsArray env array xs obj w is live (omega (arith, spare live))
          (omega (arith, room.counts obj)) (omega (arith, room.short)) granted)
        λ r w' (array', e, is', kept). (
          true,
          (array', e, is', Moved-added w xs w' room.no_null obj live kept.0),
          λ is_null. absurd (live is_null),
          λ _ _. refl,
        )

  -- One that is not.
  add_object_refused-Added :
      (array : KArray) (xs : List KObjectRef) (obj : KObjectRef) (n : ℕ) (w : World)
      → IsArray array xs
      → HasRoom limit w xs (suc n)
      → (obj ≡ null) ⊎ (env.malloc w ≡ null)
      → (AlwaysGives env → obj ≢ null → false ≡ true)
      → Returns (Added w xs obj) (add_object env (some array) obj w)
  add_object_refused-Added array xs obj n w is room why never =
      Returns.mono
        (add_object_refused env (some array) xs obj w
          (λ a e. subst (λ t. IsArray t xs) (some_eq e) is) (omega (arith, room.short)) (inr why))
        λ r w' (e, blocks, _).
          (false, (array, e, is, Moved-same w xs w' room.no_null blocks), λ _. refl, never)

  pub add_object-any :
      (array : KArray) (xs : List KObjectRef) (obj : KObjectRef) (n : ℕ) (w : World)
      → IsArray array xs
      → HasRoom limit w xs (suc n)
      → (obj ≢ null → count obj xs < refs w obj)
      → Returns (Added w xs obj) (add_object env (some array) obj w)
  add_object-any array xs obj n w is room spare = elim (ℕ_discrete obj null) [
    | yes e ↦ add_object_refused-Added array xs obj n w is room (inl e) (λ _ live. absurd (live e))
    | no live ↦ elim (ℕ_discrete (env.malloc w) null) [
      | yes e ↦
          add_object_refused-Added array xs obj n w is room (inr e) (λ gives. absurd (gives w e))
      | no granted ↦ add_object-Added array xs obj n w is room spare live granted
    ]
  ]

live_of :
    (xs : List KObjectRef) (i : ℕ) {x : KObjectRef}
    → get_elem? xs i ≡ some x
    → count null xs ≡ 0
    → x ≢ null
live_of xs i {x} e none_there is_null =
    let here : (null == x) ≡ true = ground arith in
    omega (arith, count-remove_at null xs i e, none_there, ap one_if here)

pub remove_object_at_index-After :
    (env : Env) (array : KArray) (xs : List KObjectRef) (index n : ℕ) (w : World)
    → IsLeaf env
    → IsArray array xs
    → HasRoom limit w xs (suc n)
    → Returns
        (After w xs (ltb index (length xs)) (remove_at xs index))
        (remove_object_at_index env (some array) index w)
unfolding remove_object_at_index
remove_object_at_index-After env array xs index n w leaf is room =
    elim (Option-cases (get_elem? xs index)) [
      | inl e ↦
          let past = get_elem?-le xs index e in
          let out : ltb index (length xs) ≡ false = ground (arith, past) in
          let out' : ltb index array.length ≡ false = ground (arith, past, is.length) in
          rw (out', out, (get_or-none xs index e).1)
            (returns (array, refl, is, Moved-same w xs w room.no_null refl))
      | inr (x, e) ↦
          let within : ltb index (length xs) ≡ true = ground (arith, get_elem?-lt xs index e) in
          let live = live_of xs index e room.no_null in
          let here : (x == x) ≡ true = ground arith in
          let counted = count-remove_at x xs index e in
          rw within (
            Returns.mono
              (remove_object_at_index-IsArray env array xs index x w is leaf e live
                (omega (arith, counted, ap one_if here, room.covered x))
                (omega (arith, room.counts x)))
              λ r w' (array', e', is', given). (
                array',
                e',
                is',
                Moved-removed w xs w' room.no_null index (λ o. 0) e (λ o. omega (arith, given.0 o))
                    (λ o. omega arith),
              ))
    ]

pub remove_all_objects-Cleared :
    (env : Env) (array : KArray) (xs : List KObjectRef) (n : ℕ) (w : World)
    → IsLeaf env
    → IsArray array xs
    → HasRoom limit w xs (suc n)
    → Returns
        (λ r w'.
          (array' : KArray) × (r ≡ (length xs, some array'))
          × IsArray array' []
          × Moved w xs (λ o. 0) [] w')
        (remove_all_objects env (some array) w)
remove_all_objects-Cleared env array xs n w leaf is room =
    Returns.mono
      (remove_all_objects-IsArray env array xs w is leaf (HasRoom-IsOwned limit w xs (suc n) room))
      λ r w' (array', e, is', counts). (array', e, is', Moved-cleared w xs w' room.no_null counts)

pub get_object_at_index-get_or :
    (array : KArray) (xs : List KObjectRef) (index : ℕ) (w : World)
    → IsArray array xs
    → get_object_at_index (some array) index w ≡ done (get_or xs index null) w
get_object_at_index-get_or array xs index w is =
    get_object_at_index-get_elem? array xs index w is ∙ ap (λ o. done o w) (same xs index)
  where
    same :
        (ys : List KObjectRef) (i : ℕ)
        → elim (get_elem? ys i) [ none ↦ null | some o ↦ o ] ≡ get_or ys i null
    same [] i = refl
    same (y ∷ ys) zero = refl
    same (y ∷ ys) (suc i) = same ys i

pub get_length-length :
    (array : KArray) (xs : List KObjectRef) → IsArray array xs → get_length (some array) ≡ length xs
unfolding get_length
get_length-length array xs is = is.length
