-- ===== src/KList/Remove.antt =====
-- `KListRemoveObjectAtIndex` of klist.c.
mod Relink
use k_h.Base.{
  ℕ, zero, suc, ◌+◌, ◌-◌, ◌^◌, ◌≤◌, ◌<◌, ◌≡◌, ◌≢◌, refl, Bool, true, false, Option, none, some,
  List, [], ◌∷◌, ◌++◌, arith, ap, sym, ◌∙◌, ◌==◌, length, length-append, u64, if◌then◌else◌,
  get_elem?, Around, around, remove_at,
}
use mathlib.Core.Path.{subst, subst₂}
use k_h.World.{Ptr, null, KObjectRef, KListEntry, World, Run, done, Cmd, update, ◌>>=◌, and_then}
use k_h.World.Returns
use k_h.World.Returns.{Returns, returns}
use k_h.KList.{KList, remove_loop, unlink, remove_object_at_index}
use k_h.KList.Access.{with_entry, load-ok, free-ok}
use k_h.KList.Links.{
  Cells, Entries, entry, has, Distinct, first, last, Links, IsList, SameOutside, Links-frame,
  Links-update, Links-append, Links-split, Distinct-split, Distinct-append, has-append,
  update_other,
}
use Relink.{relink_next, relink_prev}

-- The loop reaches the entry at the index.
remove_loop-unlink :
    (k index i : ℕ) (b p : Ptr) (o : KObjectRef) (front back : Cells) (list : KList) (w : World)
    → Links w.entries b (front ++ (p, o) ∷ back) null
    → length front < k
    → i + length front ≡ index
    → remove_loop k index i (first (front ++ (p, o) ∷ back) null) list w
      ≡ unlink p (entry (last b front) (first back null) o) index list w
unfolding remove_loop
remove_loop-unlink zero index i b p o front back list w h fuel e = absurd (omega arith)
remove_loop-unlink (suc k) index i b p o [] back list w h fuel e =
    let not_null : (p == null) ≡ false = ground (arith, h.0) in
    let same : i ≡ index = omega arith in
    let found : (index == index) ≡ true = ground arith in
    rw (not_null, load-ok p _ w h.0 h.1, same, found) refl
remove_loop-unlink (suc k) index i b p o ((q, oq) ∷ front) back list w h fuel e =
    let not_null : (q == null) ≡ false = ground (arith, h.0) in
    let other : (i == index) ≡ false = ground arith in
    rw (not_null, load-ok q _ w h.0 h.1, other)
      (remove_loop-unlink k index (i + 1) q p o front back list w h.2 (omega arith) (omega arith))

-- Or it runs off the end.
remove_loop-null :
    (k index i : ℕ) (b : Ptr) (xs : Cells) (list : KList) (w : World)
    → Links w.entries b xs null
    → length xs < k
    → i + length xs ≤ index
    → remove_loop k index i (first xs null) list w ≡ done (null, some list) w
unfolding remove_loop
remove_loop-null zero index i b xs list w h fuel e = absurd (omega arith)
remove_loop-null (suc k) index i b [] list w h fuel e = refl
remove_loop-null (suc k) index i b ((q, oq) ∷ xs) list w h fuel e =
    let not_null : (q == null) ≡ false = ground (arith, h.0) in
    let other : (i == index) ≡ false = ground arith in
    rw (not_null, load-ok q _ w h.0 h.1, other)
      (remove_loop-null k index (i + 1) q xs list w h.2 (omega arith) (omega arith))

root_after :
    (front : Cells) (p : Ptr) (o : KObjectRef) (back : Cells)
    → (if length front == 0 then first back null else first (front ++ (p, o) ∷ back) null)
      ≡ first (front ++ back) null
root_after [] p o back = refl
root_after (x ∷ front) p o back = ground arith

-- `w'` is `w` with the entry `p` freed and `o` returned, and the list holds the cells `xs`.
pub record Unlinked (all : Cells) (p : Ptr) (o : KObjectRef) (xs : Cells) (w : World)
    (r : KObjectRef × Option KList) (w' : World) : Type 0 where
  pub list : KList
  pub result : r ≡ (o, some list)
  pub is_list : IsList w'.entries list xs
  pub freed : w'.entries p ≡ none
  pub outside : SameOutside all w.entries w'.entries
  pub blocks : w'.blocks ≡ w.blocks

unlink-Unlinked :
    (p : Ptr) (o : KObjectRef) (front back : Cells) (list : KList) (w : World)
    → IsList w.entries list (front ++ (p, o) ∷ back)
    → length (front ++ (p, o) ∷ back) < 2 ^ 64
    → Returns
        (Unlinked (front ++ (p, o) ∷ back) p o (front ++ back) w)
        (unlink p (entry (last null front) (first back null) o) (length front) list w)
unfolding unlink
unlink-Unlinked p o front back list w is small =
    let (before, (live, here, behind)) =
      Links-split w.entries null front ((p, o) ∷ back) null is.links in
    let (d_front, (out_back, d_back), apart) = Distinct-split front ((p, o) ∷ back) is.distinct in
    let out_front : has p front ≡ false = ground (arith, apart p) in
    Returns.bind (relink_next front p (first back null) w before d_front)
      λ _ w₁ (front₁, same₁, blocks₁).
        Returns.bind
          (relink_prev back p (last null front) w₁
            (Links-frame w.entries w₁.entries p back null behind
              λ a i. same₁ a (ground (arith, apart a)))
            d_back)
          λ _ w₂ (back₂, same₂, blocks₂).
            rw
              (free-ok p (entry (last null front) (first back null) o) w₂ live
                (same₂ p out_back ∙ same₁ p out_front ∙ here))
              (returns (record {
                list = record {
                  root = if length front == 0 then first back null else list.root;
                  count = u64 (list.count + 2 ^ 64 - 1);
                };
                result = refl;
                is_list = record {
                  root = rw is.root (root_after front p o back);
                  count = omega (
                    arith,
                    is.count,
                    length-append front ((p, o) ∷ back),
                    length-append front back,
                  );
                  links =
                      Links-append (update w₂.entries p none) null front back null
                        (Links-update w₂.entries p none null front (first back null)
                          (Links-frame w₁.entries w₂.entries null front (first back null) front₁
                            λ a i. same₂ a (ground (arith, apart a)))
                          out_front)
                        (Links-update w₂.entries p none (last null front) back null back₂ out_back);
                  distinct =
                      Distinct-append front back d_front d_back λ a i. ground (arith, apart a);
                };
                freed = ground arith;
                outside = λ a i.
                    update_other w₂.entries p none a
                      (ground (arith, has-append a front ((p, o) ∷ back)))
                    ∙ same₂ a (ground (arith, has-append a front ((p, o) ∷ back)))
                    ∙ same₁ a (ground (arith, has-append a front ((p, o) ∷ back)));
                blocks = blocks₂ ∙ blocks₁;
              }))

-- At an index within bounds, in a linked list of less than 2 ^ 64 entries, the entry is unlinked
-- from both neighbours and freed, its item is returned, the other entries stay linked both ways in
-- their order, the count is one less, and neither an entry outside the list nor a reference count
-- changes.
pub remove_object_at_index-Unlinked :
    (list : KList) (xs : Cells) (index : ℕ) (p : Ptr) (o : KObjectRef) (w : World)
    → IsList w.entries list xs
    → length xs < 2 ^ 64
    → get_elem? xs index ≡ some (p, o)
    → Returns (Unlinked xs p o (remove_at xs index) w) (remove_object_at_index (some list) index w)
unfolding remove_object_at_index
remove_object_at_index-Unlinked list xs index p o w is small e =
    let a = around xs index (p, o) e in
    let is' = subst (IsList w.entries list) a.whole is in
    let small' = subst (λ t. length t < 2 ^ 64) a.whole small in
    let run =
      remove_loop-unlink (list.count + 1) index 0 null p o a.front a.back list w is'.links
        (omega (arith, is'.count, length-append a.front ((p, o) ∷ a.back)))
        (omega (arith, a.place)) in
    let prog =
      ap (λ r. remove_loop (list.count + 1) index 0 r list w) is'.root
      ∙ run
      ∙ ap (λ i. unlink p (entry (last null a.front) (first a.back null) o) i list w) a.place in
    subst (Returns (Unlinked xs p o (remove_at xs index) w)) (sym prog) (
      Returns.mono (unlink-Unlinked p o a.front a.back list w is' small')
        λ r w' u. subst₂ (λ all left. Unlinked all p o left w r w') (sym a.whole) (sym a.removed) u)

-- Past the end of a linked list `KListRemoveObjectAtIndex` returns NULL and changes nothing.
pub remove_object_at_index-null :
    (list : KList) (xs : Cells) (index : ℕ) (w : World)
    → IsList w.entries list xs
    → length xs ≤ index
    → remove_object_at_index (some list) index w ≡ done (null, some list) w
unfolding remove_object_at_index
remove_object_at_index-null list xs index w is out =
    ap (λ r. remove_loop (list.count + 1) index 0 r list w) is.root
    ∙ remove_loop-null (list.count + 1) index 0 null xs list w is.links (omega (arith, is.count))
        (omega arith)
