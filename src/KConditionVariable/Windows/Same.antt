-- ===== src/KConditionVariable/Windows/Same.antt =====
-- The wait of kcondition_variable.c is the same on Windows and elsewhere.
use k_h.Base.{Bool, true, ◌≡◌, refl, Option, none, some, List, [], ◌∷◌, Bool-cases, inl, inr}
use k_h.KConditionVariable
use k_h.KConditionVariable.{Wait}
use k_h.KConditionVariable.Windows.{wait, wait_loop}

module _ {S : Type 0} (cv : KConditionVariable.KConditionVariable)
    (valid : cv.is_valid ≡ true) where
  wait_loop-same :
      (pred : S → Bool) (shared : S) (wakes : List (Option S))
      → wait_loop pred shared wakes ≡ KConditionVariable.wait_loop cv pred shared wakes
  unfolding wait_loop KConditionVariable.wait_loop
  wait_loop-same pred shared [] = elim (Bool-cases (pred shared)) [
    | inl e ↦ rw (e, valid) refl
    | inr e ↦ rw e refl
  ]
  wait_loop-same pred shared (none ∷ wakes) = elim (Bool-cases (pred shared)) [
    | inl e ↦ rw e refl
    | inr e ↦ rw e refl
  ]
  wait_loop-same pred shared (some next ∷ wakes) = elim (Bool-cases (pred shared)) [
    | inl e ↦ rw (e, valid) (wait_loop-same pred next wakes)
    | inr e ↦ rw e refl
  ]

  pub wait-same :
      (pred : Option (S → Bool)) (shared : S) (wakes : List (Option S))
      → wait (some tt) pred shared wakes ≡ KConditionVariable.wait (some cv) pred shared wakes
  unfolding wait KConditionVariable.wait
  wait-same none shared wakes = refl
  wait-same (some pred) shared wakes = wait_loop-same pred shared wakes
