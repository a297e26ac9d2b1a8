-- ===== src/KList/History/Items.antt =====
-- The items of a list's entries, as a sequence of objects.
use k_h.Base.{
  ℕ, zero, suc, ◌≡◌, refl, Bool, false, ◌||◌, some, List, [], ◌∷◌, ◌++◌, arith, ap, ◌==◌, length,
  remove_at, get_elem?, get_or,
}
use k_h.World.{Ptr, null, KObjectRef, World}
use k_h.KList.Links.{Cells}
use k_h.KList.Read.{item_at, member}
use k_h.KList.Clear
use k_h.KObject.Owned.{count, IsOwned}

abbrev pub items : Cells → List KObjectRef
items [] = []
items ((p, o) ∷ xs) = o ∷ items xs

abbrev pub is_in : KObjectRef → List KObjectRef → Bool
is_in obj [] = false
is_in obj (x ∷ xs) = (x == obj) || is_in obj xs

pub at-items : (xs : Cells) (i : ℕ) → item_at xs i ≡ get_or (items xs) i null
at-items [] i = refl
at-items ((p, o) ∷ xs) zero = refl
at-items ((p, o) ∷ xs) (suc i) = at-items xs i

pub is_in-items : (obj : KObjectRef) (xs : Cells) → member obj xs ≡ is_in obj (items xs)
is_in-items obj [] = refl
is_in-items obj ((p, o) ∷ xs) = ap (λ (t : Bool). (o == obj) || t) (is_in-items obj xs)

pub items-append : (xs ys : Cells) → items (xs ++ ys) ≡ items xs ++ items ys
items-append [] ys = refl
items-append ((p, o) ∷ xs) ys = ap (λ t. o ∷ t) (items-append xs ys)

pub items-remove_at : (xs : Cells) (i : ℕ) → items (remove_at xs i) ≡ remove_at (items xs) i
items-remove_at [] i = refl
items-remove_at ((p, o) ∷ xs) zero = refl
items-remove_at ((p, o) ∷ xs) (suc i) = ap (λ t. o ∷ t) (items-remove_at xs i)

pub length-items : (xs : Cells) → length (items xs) ≡ length xs
length-items [] = refl
length-items (x ∷ xs) = ap suc (length-items xs)

-- What stands at an index, in the entries and in the sequence.
pub get_elem?-items :
    (xs : Cells) (i : ℕ) {p : Ptr} {o : KObjectRef}
    → get_elem? xs i ≡ some (p, o)
    → get_elem? (items xs) i ≡ some o
get_elem?-items [] i e = absurd (cc)
get_elem?-items ((q, x) ∷ xs) zero e = cc
get_elem?-items ((q, x) ∷ xs) (suc i) e = get_elem?-items xs i e

pub count-items : (o : KObjectRef) (xs : Cells) → Clear.count o xs ≡ count o (items xs)
count-items o [] = refl
count-items o ((p, x) ∷ xs) = omega (arith, count-items o xs)

pub IsOwned-items : (w : World) (xs : Cells) → IsOwned w (items xs) → Clear.IsOwned w xs
IsOwned-items w xs (none_there, owned) = (
  omega (arith, count-items null xs, none_there),
  λ o. (omega (arith, count-items o xs, (owned o).0), (owned o).1),
)
