-- ===== src/KList/History/Steps.antt =====
-- What each operation of klist.c does to the sequence of a list's items and to the counts.
use k_h.Base.{
  ◌&&◌, not, get_or, ℕ, suc, ◌-◌, ◌^◌, ◌≤◌, ◌<◌, ◌≡◌, ◌≢◌, refl, Bool, true, false, Option, some,
  [], ◌∷◌, ◌++◌, arith, ap, sym, ◌∙◌, ◌==◌, if◌then◌else◌, length, inl, inr, Bool-cases,
  Option-cases, remove_at, get_elem?, get_elem?-le, get_elem?-none,
}
use mathlib.Core.Path.{subst}
use k_h.World.{null, KObjectRef, World, Env, pointwise}
use k_h.World.Returns
use k_h.World.Returns.{Returns, returns}
use k_h.KObject.Counts.{refs, one_if, one_if-le, IsLeaf, count_of}
use k_h.KList.{KList, calloc_entry, add_object, remove_object_at_index, remove_all_objects}
use k_h.KList.Links.{Cells, IsList}
use k_h.KList.Add.{add_object-IsList}
use k_h.KList.Remove.{remove_object_at_index-Unlinked, remove_object_at_index-null}
use k_h.KList.Clear.{remove_all_objects-Without}
use k_h.KObject.Owned.{
  count, HasRoom, HasRoom-IsOwned, Moved, Moved-same, Moved-added, Moved-removed, Moved-cleared,
  get_or-some, get_or-none, not_null-count,
}
use k_h.KList.History.Items.{
  items, items-append, items-remove_at, length-items, count-items, get_elem?-items, IsOwned-items,
}
use k_h.KList.History.{GivesUnused}

-- The most entries that a list counts.
abbrev pub limit : ℕ
limit = 2 ^ 64 - 1

and_false : (b : Bool) → (b && false) ≡ false
and_false true = refl
and_false false = refl

module _ (env : Env) (unused : GivesUnused env) where
  abbrev pub Added : Cells → KObjectRef → World → Bool × Option KList → World → Type 0
  Added xs obj w r w' =
      (ok : Bool) × (list' : KList) × (ys : Cells) × (r ≡ (ok, some list'))
      × IsList w'.entries list' ys
      × Moved w (items xs) (λ o. 0) (items ys) w'
      × (items ys ≡ (if ok then items xs ++ obj ∷ [] else items xs))
      × (ok ≡ (not (env.malloc w == null) && not (obj == null)))

  -- An addition, granted or not.
  pub add_object-Added :
      (list : KList) (xs : Cells) (obj : KObjectRef) (n : ℕ) (w : World)
      → IsList w.entries list xs
      → HasRoom limit w (items xs) (suc n)
      → (obj ≢ null → count obj (items xs) < refs w obj)
      → Returns (Added xs obj w) (add_object env (some list) obj w)
  unfolding add_object calloc_entry
  add_object-Added list xs obj n w is room spare = elim (Bool-cases (obj == null)) [
    | inl e ↦
        let same : obj ≡ null = ground arith in
        subst (λ o. Returns (Added xs o w) (add_object env (some list) o w)) (sym same)
          (returns (
            false,
            list,
            xs,
            refl,
            is,
            Moved-same w (items xs) w room.no_null refl,
            refl,
            sym (and_false (not (env.malloc w == null))),
          ))
    | inr e ↦ elim (Bool-cases (env.malloc w == null)) [
      | inl refused ↦
          rw (e, refused)
            (returns (
              false,
              list,
              xs,
              refl,
              is,
              Moved-same w (items xs) _ room.no_null refl,
              refl,
              rw (refused) refl,
            ))
      | inr granted ↦
          let live : obj ≢ null = ground arith in
          let new : Cells = (env.malloc w, obj) ∷ [] in
          Returns.mono
            (add_object-IsList env list xs obj w is (omega (arith, room.short, length-items xs))
              live (omega (arith, spare live)) (omega (arith, room.counts obj)) (ground arith)
              (unused w (ground arith)))
            λ r w' (list', e', is', counts, _). (
              true,
              list',
              xs ++ new,
              e',
              is',
              subst (λ t. Moved w (items xs) (λ o. 0) t w') (sym (items-append xs new))
                  (Moved-added w (items xs) w' room.no_null obj live counts),
              items-append xs new,
              rw (granted, e) refl,
            )
    ]
  ]

-- The removal at an index answers `x`.
abbrev pub Gave : World → Cells → ℕ → KObjectRef → KObjectRef × Option KList → World → Type 0
Gave w xs index x r w' =
    (list' : KList) × (ys : Cells) × (r ≡ (x, some list'))
    × IsList w'.entries list' ys
    × Moved w (items xs) (λ o. one_if (o == x)) (items ys) w'
    × (items ys ≡ remove_at (items xs) index)

-- A removal, within bounds or not.
pub remove_object_at_index-Gave :
    (list : KList) (xs : Cells) (index n : ℕ) (w : World)
    → IsList w.entries list xs
    → HasRoom limit w (items xs) (suc n)
    → Returns
        (Gave w xs index (get_or (items xs) index null))
        (remove_object_at_index (some list) index w)
remove_object_at_index-Gave list xs index n w is room = elim (Option-cases (get_elem? xs index)) [
  | inl e ↦
      let out : length xs ≤ index = get_elem?-le xs index e in
      let past =
        get_or-none (items xs) index
          (get_elem?-none (items xs) index (omega (arith, out, length-items xs))) in
      rw (remove_object_at_index-null list xs index w is out, past.0)
        (returns (
          list,
          xs,
          refl,
          is,
          record {
            no_null = room.no_null;
            moved = λ o live. omega (arith, not_null-count o live);
            few = λ o. omega arith;
            short = omega arith;
          },
          sym past.1,
        ))
  | inr ((p, x), e) ↦
      let there = get_elem?-items xs index e in
      rw (get_or-some (items xs) index there) (
        Returns.mono
          (remove_object_at_index-Unlinked list xs index p x w is
            (omega (arith, room.short, length-items xs)) e)
          λ r w' u. (
            u.list,
            remove_at xs index,
            u.result,
            u.is_list,
            subst (λ t. Moved w (items xs) (λ o. one_if (o == x)) t w')
                (sym (items-remove_at xs index))
                (Moved-removed w (items xs) w' room.no_null index (λ o. one_if (o == x)) there
                  (λ o. omega (arith, ap count_of (pointwise u.blocks o)))
                  (λ o. one_if-le (o == x))),
            items-remove_at xs index,
          ))
]

pub remove_all_objects-Moved :
    (env : Env) (list : KList) (xs : Cells) (n : ℕ) (w : World)
    → IsLeaf env
    → IsList w.entries list xs
    → HasRoom limit w (items xs) (suc n)
    → Returns
        (λ r w'.
          (list' : KList) × (r ≡ (length (items xs), some list'))
          × IsList w'.entries list' []
          × Moved w (items xs) (λ o. 0) [] w')
        (remove_all_objects env (some list) w)
remove_all_objects-Moved env list xs n w leaf is room =
    Returns.mono
      (remove_all_objects-Without env list xs w is leaf
        (IsOwned-items w xs (HasRoom-IsOwned limit w (items xs) (suc n) room)))
      λ r w' (list', e, is', _, counts). (
        list',
        e ∙ ap (λ (k : ℕ). (k, some list')) (sym (length-items xs)),
        is',
        Moved-cleared w (items xs) w' room.no_null (λ o. omega (arith, counts o, count-items o xs)),
      )
