-- ===== src/KList/Clear.antt =====
-- `KListRemoveAllObjects` and `KListDeInit` of klist.c.
use k_h.Base.{
  ℕ, zero, suc, ◌+◌, ◌^◌, ◌≤◌, ◌<◌, ◌≡◌, ◌≢◌, refl, true, false, none, some, [], ◌∷◌, arith, ap,
  ◌∙◌, ◌==◌, length, if◌then◌else◌,
}
use k_h.World.{Ptr, null, KObjectRef, World, Env, pointwise}
use k_h.World.Returns
use k_h.World.Returns.{Returns, returns}
use k_h.KObject.Counts.{refs, one_if, IsLeaf, release-Released}
use k_h.KList.{KList, clear_loop, remove_all_objects}
use k_h.KList.Access.{with_entry, load-ok, free-ok}
use k_h.KList.Links.{Cells, Entries, has, Distinct, first, Links, IsList, Links-frame, Links-update}

-- How often an object is an item.
abbrev pub count : KObjectRef → Cells → ℕ
count o [] = 0
count o ((p, x) ∷ xs) = one_if (o == x) + count o xs

-- Each item is an object that holds at least as many references as it has entries here.
abbrev pub IsOwned : World → Cells → Type 0
IsOwned w xs =
    (count null xs ≡ 0) × ((o : KObjectRef) → (count o xs ≤ refs w o) × (refs w o < 2 ^ 32))

-- The entries of `xs` are freed, and the others as before.
abbrev pub Without : Cells → Entries → Entries → Type 0
Without xs m m' = (a : Ptr) → m' a ≡ (if has a xs then none else m a)

clear_loop-Without :
    (env : Env) (k : ℕ) (b : Ptr) (xs : Cells) (n : ℕ) (w : World)
    → IsLeaf env
    → Links w.entries b xs null
    → Distinct xs
    → IsOwned w xs
    → length xs < k
    → Returns
        (λ r w'.
          (r ≡ n + length xs)
          × Without xs w.entries w'.entries
          × ((o : KObjectRef) → refs w' o + count o xs ≡ refs w o))
        (clear_loop env k (first xs null) n w)
unfolding clear_loop
clear_loop-Without env zero b xs n w leaf h d owned fuel = absurd (omega arith)
clear_loop-Without env (suc k) b [] n w leaf h d owned fuel =
    returns (omega arith, λ a. refl, λ o. omega arith)
clear_loop-Without env (suc k) b ((p, x) ∷ xs) n w leaf h d owned fuel =
    let not_null : (p == null) ≡ false = ground (arith, h.0) in
    let live : x ≢ null = ground (arith, owned.0) in
    rw (not_null, load-ok p _ w h.0 h.1)
      (Returns.bind (release-Released env x w leaf live (ground (arith, owned.1 x)) (owned.1 x).1)
        λ _ w' (counts, kept, _). rw (free-ok p _ w' h.0 (pointwise kept p ∙ h.1)) (
          Returns.mono
            (clear_loop-Without env k p xs (n + 1) (with_entry w' p none) leaf
              (Links-update w'.entries p none p xs null
                (Links-frame w.entries w'.entries p xs null h.2 (λ a i. pointwise kept a)) d.0)
              d.1 (ground (arith, owned.0), λ o. ground (arith, owned.1 o, counts o)) (omega arith))
            λ r w'' (e, gone, rest). (
              omega (arith, e),
              λ a. ground (arith, gone a, pointwise kept a),
              λ o. ground (arith, rest o, counts o),
            )))

-- A linked list that holds a reference to each of its items is emptied without fault or failed
-- assertion: exactly its entries are freed, one reference is given up for each, and their number is
-- returned. Deinitialisers are leaves.
pub remove_all_objects-Without :
    (env : Env) (list : KList) (xs : Cells) (w : World)
    → IsList w.entries list xs
    → IsLeaf env
    → IsOwned w xs
    → Returns
        (λ r w'.
          (list' : KList) × (r ≡ (length xs, some list'))
          × IsList w'.entries list' []
          × Without xs w.entries w'.entries
          × ((o : KObjectRef) → refs w' o + count o xs ≡ refs w o))
        (remove_all_objects env (some list) w)
unfolding remove_all_objects
remove_all_objects-Without env list xs w is leaf owned =
    let start : clear_loop env (list.count + 1) list.root 0 w
        ≡ clear_loop env (list.count + 1) (first xs null) 0 w =
      ap (λ p. clear_loop env (list.count + 1) p 0 w) is.root in
    rw start (
      Returns.bind
        (clear_loop-Without env (list.count + 1) null xs 0 w leaf is.links is.distinct owned
          (omega (arith, is.count)))
        λ r w' (e, gone, counts).
          let passed : (r == list.count) ≡ true = ground (arith, e, is.count) in
          rw passed (
            returns (
              record { root = null; count = 0 },
              ground arith,
              record { root = refl; count = refl; links = tt; distinct = tt },
              gone,
              counts,
            )))
