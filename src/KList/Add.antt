-- ===== src/KList/Add.antt =====
-- `KListAddObject` of klist.c.
use k_h.Base.{
  ℕ, zero, suc, ◌+◌, ◌^◌, ◌<◌, ◌≡◌, ◌≢◌, refl, true, false, none, some, [], ◌∷◌, ◌++◌, arith, ap,
  ◌∙◌, ◌==◌, length, length-append, u64,
}
use k_h.World.{Ptr, null, KObjectRef, World, Env, update, pointwise}
use k_h.World.Returns
use k_h.World.Returns.{Returns, returns}
use k_h.KObject.Counts.{refs, count_of, one_if, retain-Retained}
use k_h.KList.{KList, zeroed, link_last, attach, add_object}
use k_h.KList.Access.{with_entry, load-ok, set_next-ok, set_prev-ok, set_item-ok}
use k_h.KList.Links.{
  Cells, entry, has, Distinct, Links, IsList, SameOutside, Links-frame, Links-update,
  Distinct-append, unused-not_has, update_other,
}

-- A run of at least one entry, with a new entry linked behind it.
link_last-Links :
    (k : ℕ) (new : Ptr) (obj : KObjectRef) (b p : Ptr) (o : KObjectRef) (xs : Cells) (w : World)
    → Links w.entries b ((p, o) ∷ xs) null
    → Distinct ((p, o) ∷ xs)
    → new ≢ null
    → has new ((p, o) ∷ xs) ≡ false
    → w.entries new ≡ some (entry null null obj)
    → length xs < k
    → Returns
        (λ _ w'.
          Links w'.entries b (((p, o) ∷ xs) ++ (new, obj) ∷ []) null
          × SameOutside ((new, obj) ∷ (p, o) ∷ xs) w.entries w'.entries
          × (w'.blocks ≡ w.blocks))
        (link_last k p new w)
unfolding link_last
link_last-Links zero new obj b p o xs w h d live out e fuel = absurd (omega arith)
link_last-Links (suc k) new obj b p o [] w h d live out e fuel =
    let e' = entry b null o in
    let w' = with_entry w p (some (entry b new o)) in
    let e_new : w'.entries new ≡ some (entry null null obj) = ground arith in
    rw
      (
        load-ok p e' w h.0 h.1,
        set_next-ok p e' w h.0 h.1 new,
        set_prev-ok new (entry null null obj) w' live e_new p,
      )
      (returns ((h.0, ground arith, (live, ground arith, tt)), λ a o. ground arith, refl))
link_last-Links (suc k) new obj b p o ((q, oq) ∷ xs) w h d live out e fuel =
    let not_null : (q == null) ≡ false = ground (arith, h.2) in
    rw (load-ok p (entry b q o) w h.0 h.1, not_null)
      (Returns.mono
        (link_last-Links k new obj p q oq xs w h.2 d.1 live (ground arith) e (omega arith))
        λ _ w' (links, same, blocks).
          ((h.0, same p (ground arith) ∙ h.1, links), λ a i. same a (ground arith), blocks))

module _ (new : Ptr) (obj : KObjectRef) (live : new ≢ null) where
  attach-IsList :
      (list : KList) (xs : Cells) (w : World)
      → IsList w.entries list xs
      → length xs + 1 < 2 ^ 64
      → has new xs ≡ false
      → w.entries new ≡ some (entry null null obj)
      → Returns
          (λ r w'.
            (list' : KList) × (r ≡ (true, some list'))
            × IsList w'.entries list' (xs ++ (new, obj) ∷ [])
            × SameOutside ((new, obj) ∷ xs) w.entries w'.entries
            × (w'.blocks ≡ w.blocks))
          (attach list new w)
  unfolding attach
  attach-IsList list [] w is small out e = rw (is.root) (
      returns (
        record { root = new; count = u64 (list.count + 1) },
        refl,
        record {
          root = refl;
          count = omega (arith, is.count);
          links = (live, e, tt);
          distinct = (refl, tt);
        },
        λ a o. refl,
        refl,
      ))
  attach-IsList list ((p, o) ∷ xs) w is small out e =
      let not_null : (p == null) ≡ false = ground (arith, is.links) in
      rw (is.root, is.count, not_null)
        (Returns.bind
          (link_last-Links (suc (length xs) + 1) new obj null p o xs w is.links is.distinct live out
            e (omega arith))
          λ _ w' (links, same, blocks). returns (
            record { root = p; count = u64 (suc (length xs) + 1) },
            refl,
            record {
              root = refl;
              count = omega (arith, length-append xs ((new, obj) ∷ []));
              links = links;
              distinct =
                  Distinct-append ((p, o) ∷ xs) ((new, obj) ∷ []) is.distinct (refl, tt)
                    (λ a i. ground (arith, ap (λ (c : Ptr). has c ((p, o) ∷ xs))));
            },
            same,
            blocks,
          ))

-- Adding a live object to a linked list of less than 2 ^ 64 - 1 entries, where the allocator gives
-- an unused address, links a new entry behind the last one in both directions, takes one reference
-- to the object, and changes no entry outside the list.
pub add_object-IsList :
    (env : Env) (list : KList) (xs : Cells) (obj : KObjectRef) (w : World)
    → IsList w.entries list xs
    → length xs + 1 < 2 ^ 64
    → obj ≢ null
    → 0 < refs w obj
    → refs w obj + 1 < 2 ^ 32
    → env.malloc w ≢ null
    → w.entries (env.malloc w) ≡ none
    → Returns
        (λ r w'.
          (list' : KList) × (r ≡ (true, some list'))
          × IsList w'.entries list' (xs ++ (env.malloc w, obj) ∷ [])
          × ((o : KObjectRef) → refs w' o ≡ refs w o + one_if (o == obj))
          × SameOutside ((env.malloc w, obj) ∷ xs) w.entries w'.entries)
        (add_object env (some list) obj w)
unfolding add_object
add_object-IsList env list xs obj w is small live pos fits granted unused =
    let new = env.malloc w in
    let obj_not_null : (obj == null) ≡ false = ground arith in
    let new_not_null : (new == null) ≡ false = ground arith in
    let out = unused-not_has w.entries new null xs null is.links unused in
    rw (obj_not_null, new_not_null, new_not_null)
      (Returns.bind (retain-Retained obj (with_entry _ new (some zeroed)) live pos fits)
        λ _ w₂ (counts, kept).
          let here : w₂.entries new ≡ some zeroed = pointwise kept new ∙ (ground arith) in
          rw (set_item-ok new zeroed w₂ granted here obj) (
            Returns.mono
              (attach-IsList new obj granted list xs
                (with_entry w₂ new (some (entry null null obj)))
                (record {
                  root = is.root;
                  count = is.count;
                  links =
                      Links-update w₂.entries new _ null xs null
                        (Links-frame (update w.entries new (some zeroed)) w₂.entries null xs null
                          (Links-update w.entries new (some zeroed) null xs null is.links out)
                          (λ a i. pointwise kept a))
                        out;
                  distinct = is.distinct;
                })
                small out (ground arith))
              λ r w' (list', e, is', same, blocks). (
                list',
                e,
                is',
                λ o. ground (arith, counts o, ap count_of (pointwise blocks o)),
                λ a o.
                    same a o
                    ∙ update_other w₂.entries new _ a (ground arith)
                    ∙ pointwise kept a
                    ∙ update_other w.entries new _ a (ground arith),
              )))
