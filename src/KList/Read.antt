-- ===== src/KList/Read.antt =====
-- `KListGetObjectAtIndex`, `KListContainsObject` and `KListIterate` of klist.c.
use k_h.Base.{
  ℕ, zero, suc, ◌+◌, ◌<◌, ◌≡◌, ◌≢◌, refl, Bool, true, false, ◌||◌, some, [], ◌∷◌, arith, ap, ◌∙◌,
  ◌==◌, length, Bool-cases, inl, inr,
}
use k_h.World.{Ptr, null, KObjectRef, World, done}
use k_h.KList.{KList, get_loop, get_object_at_index, contains_loop, contains_object}
use k_h.KList.Access.{load-ok}
use k_h.KList.Links.{Cells, first, Links, IsList}

-- The item at an index, NULL past the end.
abbrev pub item_at : Cells → ℕ → KObjectRef
item_at [] i = null
item_at ((p, o) ∷ xs) zero = o
item_at ((p, o) ∷ xs) (suc i) = item_at xs i

abbrev pub member : KObjectRef → Cells → Bool
member obj [] = false
member obj ((p, o) ∷ xs) = (o == obj) || member obj xs

get_loop-item_at :
    (k j i : ℕ) (b : Ptr) (xs : Cells) (w : World)
    → Links w.entries b xs null
    → length xs < k
    → get_loop k (i + j) i (first xs null) w ≡ done (item_at xs j) w
unfolding get_loop
get_loop-item_at zero j i b xs w h fuel = absurd (omega arith)
get_loop-item_at (suc k) j i b [] w h fuel = refl
get_loop-item_at (suc k) zero i b ((p, o) ∷ xs) w h fuel =
    let not_null : (p == null) ≡ false = ground (arith, h.0) in
    let found : (i == i + 0) ≡ true = ground arith in rw (not_null, load-ok p _ w h.0 h.1, found)
get_loop-item_at (suc k) (suc j) i b ((p, o) ∷ xs) w h fuel =
    let not_null : (p == null) ≡ false = ground (arith, h.0) in
    let other : (i == i + suc j) ≡ false = ground arith in
    let shift : i + suc j ≡ i + 1 + j = omega arith in
    rw (not_null, load-ok p _ w h.0 h.1, other, shift)
      (get_loop-item_at k j (i + 1) p xs w h.2 (omega arith))

-- `KListGetObjectAtIndex` on a linked list reads the item at the index and NULL past the end, and
-- changes nothing.
pub get_object_at_index-item_at :
    (list : KList) (xs : Cells) (index : ℕ) (w : World)
    → IsList w.entries list xs
    → get_object_at_index (some list) index w ≡ done (item_at xs index) w
unfolding get_object_at_index
get_object_at_index-item_at list xs index w is =
    ap (λ r. get_loop (list.count + 1) index 0 r w) is.root
    ∙ ap (λ j. get_loop (list.count + 1) j 0 (first xs null) w) (omega arith)
    ∙ get_loop-item_at (list.count + 1) index 0 null xs w is.links (omega (arith, is.count))

contains_loop-member :
    (k : ℕ) (obj : KObjectRef) (b : Ptr) (xs : Cells) (w : World)
    → Links w.entries b xs null
    → length xs < k
    → contains_loop k (first xs null) obj w ≡ done (member obj xs) w
unfolding contains_loop
contains_loop-member zero obj b xs w h fuel = absurd (omega arith)
contains_loop-member (suc k) obj b [] w h fuel = refl
contains_loop-member (suc k) obj b ((p, o) ∷ xs) w h fuel =
    let not_null : (p == null) ≡ false = ground (arith, h.0) in
    let rest = contains_loop-member k obj p xs w h.2 (omega arith) in
    elim (Bool-cases (o == obj)) [
      | inl e ↦ rw (not_null, load-ok p _ w h.0 h.1, e)
      | inr e ↦ rw (not_null, load-ok p _ w h.0 h.1, e) rest
    ]

-- `KListContainsObject` on a linked list decides whether an object that is not NULL is among the
-- items, and changes nothing.
pub contains_object-member :
    (list : KList) (xs : Cells) (obj : KObjectRef) (w : World)
    → IsList w.entries list xs
    → obj ≢ null
    → contains_object (some list) obj w ≡ done (member obj xs) w
unfolding contains_object
contains_object-member list xs obj w is live =
    let not_null : (obj == null) ≡ false = ground arith in
    rw not_null (
      ap (λ r. contains_loop (list.count + 1) r obj w) is.root
      ∙ contains_loop-member (list.count + 1) obj null xs w is.links (omega (arith, is.count)))
