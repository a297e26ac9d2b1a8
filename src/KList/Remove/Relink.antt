-- ===== src/KList/Remove/Relink.antt =====
-- The two writes by which `KListRemoveObjectAtIndex` of klist.c bridges an entry.
use k_h.Base.{◌≡◌, ◌≢◌, refl, false, Option, [], ◌∷◌, arith, ◌∙◌, ◌==◌}
use k_h.World.{Ptr, null, KObjectRef, KListEntry, World}
use k_h.World.Returns
use k_h.World.Returns.{Returns, returns}
use k_h.KList.{set_next, set_prev, unless_null}
use k_h.KList.Access.{set_next-ok, set_prev-ok}
use k_h.KList.Links.{Cells, entry, Distinct, first, last, Links, SameOutside, Links-update}

last-ne-null :
    (m : Ptr → Option KListEntry) (b q : Ptr) (oq : KObjectRef) (xs : Cells) (s : Ptr)
    → Links m b ((q, oq) ∷ xs) s
    → last q xs ≢ null
last-ne-null m b q oq [] s h = h.0
last-ne-null m b q oq ((r, or) ∷ xs) s h = last-ne-null m q r or xs s h.2

set_last :
    (b q : Ptr) (oq : KObjectRef) (xs : Cells) (s s' : Ptr) (w : World)
    → Links w.entries b ((q, oq) ∷ xs) s
    → Distinct ((q, oq) ∷ xs)
    → Returns
        (λ _ w'.
          Links w'.entries b ((q, oq) ∷ xs) s'
          × SameOutside ((q, oq) ∷ xs) w.entries w'.entries
          × (w'.blocks ≡ w.blocks))
        (set_next (last q xs) s' w)
set_last b q oq [] s s' w h d =
    rw (set_next-ok q (entry b s oq) w h.0 h.1 s')
      (returns ((h.0, ground arith, tt), λ a o. ground arith, refl))
set_last b q oq ((r, or) ∷ xs) s s' w h d =
    Returns.mono (set_last q r or xs s s' w h.2 d.1) λ _ w' (links, same, blocks).
      ((h.0, same q d.0 ∙ h.1, links), λ a o. same a (ground arith), blocks)

-- The last entry of a run is linked on to `s'`; an empty run has none.
pub relink_next :
    (xs : Cells) (s s' : Ptr) (w : World)
    → Links w.entries null xs s
    → Distinct xs
    → Returns
        (λ _ w'.
          Links w'.entries null xs s'
          × SameOutside xs w.entries w'.entries
          × (w'.blocks ≡ w.blocks))
        (unless_null (last null xs) (set_next (last null xs) s') w)
relink_next [] s s' w h d = returns (tt, λ a o. refl, refl)
relink_next ((q, oq) ∷ xs) s s' w h d =
    let not_null : (last q xs == null) ≡ false =
      ground (arith, last-ne-null w.entries null q oq xs s h) in
    rw not_null (set_last null q oq xs s s' w h d)

-- The first entry of a run is linked back to `b'`.
pub relink_prev :
    (xs : Cells) (b b' : Ptr) (w : World)
    → Links w.entries b xs null
    → Distinct xs
    → Returns
        (λ _ w'.
          Links w'.entries b' xs null
          × SameOutside xs w.entries w'.entries
          × (w'.blocks ≡ w.blocks))
        (unless_null (first xs null) (set_prev (first xs null) b') w)
relink_prev [] b b' w h d = returns (tt, λ a o. refl, refl)
relink_prev ((q, oq) ∷ xs) b b' w h d =
    let not_null : (q == null) ≡ false = ground (arith, h.0) in
    rw (not_null, set_prev-ok q (entry b (first xs null) oq) w h.0 h.1 b')
      (returns (
        (h.0, ground arith, Links-update w.entries q _ q xs null h.2 d.0),
        λ a o. ground arith,
        refl,
      ))
