-- ===== src/KList/Iterate.antt =====
-- `KListIterate` of klist.c.
use k_h.Base.{
  ℕ, zero, suc, ◌+◌, ◌<◌, ◌≡◌, refl, Bool, false, some, List, [], ◌∷◌, arith, ap, ◌∙◌, ◌==◌, length,
  inl, inr, Bool-cases, if◌then◌else◌,
}
use k_h.World.{Ptr, null, KObjectRef, World, Run, done, Cmd, pure, and_then, ◌>>=◌, pointwise}
use k_h.KList.{KList, iterate, iterate_loop}
use k_h.KList.Access.{load-ok}
use k_h.KList.Links.{Cells, first, Links, IsList, Links-frame}
use k_h.KList.History.Items.{items}

module _ {S : Type 0} (iterator : KObjectRef → ℕ → S → Cmd (Bool × S)) where
  -- The visits that are asked for: one item after another with the number of those visited, this one
  -- included, until the callback says that it has seen enough.
  pub visit_items : (i : ℕ) → List KObjectRef → S → Cmd (ℕ × S)
  visit_items i [] user_data = pure (i, user_data)
  visit_items i (obj ∷ xs) user_data = do
    (more, user_data) ← iterator obj (i + 1) user_data
    let rest = visit_items (i + 1) xs user_data
    if more then rest else pure (i + 1, user_data)

  -- The callback leaves the entries of lists alone.
  abbrev pub KeepsEntries : Type 0
  KeepsEntries =
      (obj : KObjectRef) (i : ℕ) (user_data : S) (w : World) (answer : Bool × S) (w' : World)
      → iterator obj i user_data w ≡ done answer w'
      → w'.entries ≡ w.entries

  -- Commands that end alike where the callback keeps the entries.
  ends_alike :
      (r : Run (Bool × S)) (w : World) (k k' : Bool × S → Cmd (ℕ × S))
      → ((answer : Bool × S) (w' : World) → r ≡ done answer w' → w'.entries ≡ w.entries)
      → ((answer : Bool × S) (w' : World) → w'.entries ≡ w.entries → k answer w' ≡ k' answer w')
      → and_then r k ≡ and_then r k'
  ends_alike (done answer w') w k k' kept same = same answer w' (kept answer w' refl)
  ends_alike Run.aborted w k k' kept same = refl
  ends_alike Run.fault w k k' kept same = refl
  ends_alike Run.out_of_fuel w k k' kept same = refl

  module _ (keeps : KeepsEntries) where
    iterate_loop-visit_items :
        (fuel i : ℕ) (before : Ptr) (xs : Cells) (user_data : S) (w : World)
        → Links w.entries before xs null
        → length xs < fuel
        → iterate_loop iterator fuel i (first xs null) user_data w
          ≡ visit_items i (items xs) user_data w
    unfolding iterate_loop visit_items
    iterate_loop-visit_items zero i before xs user_data w h enough = absurd (omega arith)
    iterate_loop-visit_items (suc fuel) i before [] user_data w h enough = refl
    iterate_loop-visit_items (suc fuel) i before ((p, o) ∷ xs) user_data w h enough =
        let not_null : (p == null) ≡ false = ground (arith, h.0) in
        rw (not_null, load-ok p _ w h.0 h.1)
          (ends_alike (iterator o (i + 1) user_data w) w _ _ (keeps o (i + 1) user_data w)
            λ (more, after) w₁ kept. elim (Bool-cases more) [
              | inl goes_on ↦
                  let here = pointwise kept p ∙ h.1 in
                  rw (goes_on, load-ok p _ w₁ h.0 here)
                    (iterate_loop-visit_items fuel (i + 1) p xs after w₁
                      (Links-frame w.entries w₁.entries p xs null h.2 (λ a _. pointwise kept a))
                      (omega arith))
              | inr stops ↦ rw stops refl
            ])

    -- `KListIterate` with a callback that leaves the entries of lists alone makes the same calls,
    -- with the same result, as visiting the items one by one in their order, each with the number
    -- of those visited, this one included, until the callback answers false.
    pub iterate-visit_items :
        (list : KList) (xs : Cells) (user_data : S) (w : World)
        → IsList w.entries list xs
        → iterate (some list) (some iterator) user_data w ≡ visit_items 0 (items xs) user_data w
    unfolding iterate
    iterate-visit_items list xs user_data w is =
        ap (λ p. iterate_loop iterator (list.count + 1) 0 p user_data w) is.root
        ∙ iterate_loop-visit_items (list.count + 1) 0 null xs user_data w is.links
            (omega (arith, is.count))
