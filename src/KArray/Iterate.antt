-- ===== src/KArray/Iterate.antt =====
-- `KArrayIterate` of karray.c.
use k_h.Base.{
  ℕ, zero, suc, ◌+◌, ◌≡◌, refl, Bool, some, List, [], ◌∷◌, ◌++◌, arith, sym, length, length-append,
  get_or, inl, inr, Bool-cases, if◌then◌else◌,
}
use mathlib.Core.List.{append_assoc}
use mathlib.Core.Path.{subst}
use k_h.World.{null, KObjectRef, World, Cmd, pure, and_then-same, ◌>>=◌}
use k_h.KArray.{KArray, iterate, iterate_loop}
use k_h.KArray.Filled.{IsArray}
use k_h.KArray.History.Steps.{get_object_at_index-get_or, get_length-length}

get_or-middle :
    (before : List KObjectRef) (obj : KObjectRef) (xs : List KObjectRef) (i : ℕ)
    → i ≡ length before
    → get_or (before ++ obj ∷ xs) i null ≡ obj
get_or-middle [] obj xs i e = rw e refl
get_or-middle (x ∷ before) obj xs zero e = absurd (omega (arith, e))
get_or-middle (x ∷ before) obj xs (suc i) e = get_or-middle before obj xs i (omega (arith, e))

module _ {S : Type 0} (iterator : KObjectRef → ℕ → S → Cmd (Bool × S)) where
  -- The visits that are asked for, from index `i` on: one after another, until the callback says that
  -- it has seen enough.
  pub visit : (i : ℕ) → List KObjectRef → S → Cmd (ℕ × S)
  visit i [] user_data = pure (i, user_data)
  visit i (obj ∷ xs) user_data = do
    (more, user_data) ← iterator obj i user_data
    let rest = visit (i + 1) xs user_data
    if more then rest else pure (i + 1, user_data)

  iterate_loop-visit :
      (array : KArray) (xs before : List KObjectRef) (i : ℕ) (user_data : S) (w : World)
      → IsArray array (before ++ xs)
      → i ≡ length before
      → iterate_loop (some array) iterator (length xs) i i user_data w ≡ visit i xs user_data w
  unfolding iterate_loop visit
  iterate_loop-visit array [] before i user_data w is place = refl
  iterate_loop-visit array (obj ∷ xs) before i user_data w is place =
      rw
        (
          get_object_at_index-get_or array (before ++ obj ∷ xs) i w is,
          get_or-middle before obj xs i place,
        )
        (and_then-same (iterator obj i user_data w) _ _ λ (more, after) w₁. elim (Bool-cases more) [
          | inl goes_on ↦ rw goes_on (
              iterate_loop-visit array xs (before ++ obj ∷ []) (i + 1) after w₁
                (subst (IsArray array) (sym (append_assoc before (obj ∷ []) xs)) is)
                (omega (arith, place, length-append before (obj ∷ []))))
          | inr stops ↦ rw stops refl
        ])

  pub iterate-visit :
      (array : KArray) (xs : List KObjectRef) (user_data : S) (w : World)
      → IsArray array xs
      → iterate (some array) (some iterator) user_data w ≡ visit 0 xs user_data w
  unfolding iterate
  iterate-visit array xs user_data w is =
      rw (get_length-length array xs is) (iterate_loop-visit array xs [] 0 user_data w is refl)
