-- ===== src/Tests/Sequences.antt =====
-- Arrays and lists.
use k_h.Base.{
  some_eq, ℕ, zero, suc, ◌+◌, ◌^◌, ◌≡◌, refl, none, some, List, [], ◌∷◌, true, false, arith, inr,
  ◌==◌, if◌then◌else◌, length,
}
use mathlib.Core.Path.{subst}
use k_h.World.{fault, null, KObjectRef, World}
use k_h.World.Returns.{Returns}
use k_h.KObject.Counts.{refs, Released}
use k_h.KObject.Owned.{IsOwned}
use k_h.KArray
use k_h.KArray.{KArray}
use k_h.KArray.Filled.{IsArray, filled}
use k_h.KArray.Add.{add_object_refused, add_object_full}
use k_h.KArray.Remove.{remove_object_at_index-IsArray}
use k_h.KList
use k_h.KList.{KList}
use k_h.KList.Links.{Cells, entry, IsList}
use k_h.KList.Remove.{Unlinked, remove_object_at_index-Unlinked}
use k_h.KList.Clear
use k_h.KList.Clear.{Without, remove_all_objects-Without}
use k_h.Tests.{generous, exhausted, generous-IsLeaf, start}

abbrev pair : KArray
pair = record { length = 2; items = some (record { size = 16; buffer = some 1 ∷ some 2 ∷ [] }) }

pair-IsArray : IsArray pair (1 ∷ 2 ∷ [])
pair-IsArray = record {
  allocation = record { size = 16; buffer = some 1 ∷ some 2 ∷ [] };
  rest = [];
  length = refl;
  items = refl;
  buffer = refl;
}

no_memory :
    Returns
      (λ r w'. (r ≡ (false, some pair)) × (w'.blocks ≡ start.blocks) × (w'.entries ≡ start.entries))
      (KArray.add_object exhausted (some pair) 3 start)
no_memory =
    add_object_refused exhausted (some pair) (1 ∷ 2 ∷ []) 3 start
      (λ a e. subst (λ t. IsArray t (1 ∷ 2 ∷ [])) (some_eq e) pair-IsArray) (omega arith)
      (inr (inr refl))

one_element :
    Returns
      (λ r w'.
        (array' : KArray) × (r ≡ (true, some array'))
        × IsArray array' (2 ∷ [])
        × Released 1 start w')
      (KArray.remove_object_at_index generous (some pair) 0 start)
one_element =
    remove_object_at_index-IsArray generous pair (1 ∷ 2 ∷ []) 0 1 start pair-IsArray generous-IsLeaf
      refl (ground arith) (omega arith) (omega arith)

pair-IsOwned : IsOwned start (1 ∷ 2 ∷ [])
pair-IsOwned = (refl, λ o. ground arith)

unfoldable ones : ℕ → List KObjectRef
ones zero = []
ones (suc n) = 1 ∷ ones n

length-ones : (n : ℕ) → length (ones n) ≡ n
unfolding ones
length-ones zero = refl
length-ones (suc n) = omega (arith, length-ones n)

abbrev many : List KObjectRef
many = ones (2 ^ 28)

abbrev full_array : KArray
full_array = record {
  length = length many;
  items = some (record { size = 2 ^ 31; buffer = filled many [] });
}

full_array-IsArray : IsArray full_array many
full_array-IsArray = record {
  allocation = record { size = 2 ^ 31; buffer = filled many [] };
  rest = [];
  length = refl;
  items = refl;
  buffer = refl;
}

no_room :
    (KArray.wanted_size full_array.length ≡ 0)
    × (KArray.add_object generous (some full_array) 2 start ≡ fault)
no_room =
    add_object_full generous full_array many 2 start full_array-IsArray (ground arith)
      (omega (arith, length-ones (2 ^ 28))) (omega (arith, length-ones (2 ^ 28)))

abbrev cells : Cells
cells = (20, 1) ∷ (21, 2) ∷ (22, 1) ∷ []

abbrev linked : World
linked = record start {
  entries = λ p.
      if p == 20
      then some (entry null 21 1)
      else (if p == 21
          then some (entry 20 22 2)
          else (if p == 22 then some (entry 21 null 1) else none));
}

abbrev three : KList
three = record { root = 20; count = 3 }

three-IsList : IsList linked.entries three cells
three-IsList = record {
  root = refl;
  count = refl;
  links = (ground arith, refl, (ground arith, refl, (ground arith, refl, tt)));
  distinct = (refl, (refl, (refl, tt)));
}

two_items :
    Returns
      (Unlinked cells 21 2 ((20, 1) ∷ (22, 1) ∷ []) linked)
      (KList.remove_object_at_index (some three) 1 linked)
two_items =
    remove_object_at_index-Unlinked three cells 1 21 2 linked three-IsList (omega arith) refl

cells-IsOwned : KList.Clear.IsOwned linked cells
cells-IsOwned = (refl, λ o. ground arith)

items_given_up :
    Returns
      (λ r w'.
        (list' : KList) × (r ≡ (3, some list'))
        × IsList w'.entries list' []
        × Without cells linked.entries w'.entries
        × ((o : KObjectRef) → refs w' o + KList.Clear.count o cells ≡ refs linked o))
      (KList.remove_all_objects generous (some three) linked)
items_given_up =
    remove_all_objects-Without generous three cells linked three-IsList generous-IsLeaf
      cells-IsOwned
