-- ===== src/KFilePath/Range.antt =====
-- `KFilePathAddStringFromRange` of kfile_path.c and its two calls in `KFilePathNewWithString`.
use mathlib.Core.List.{append_assoc, append-nil}
use k_h.Base.{
  ℕ, zero, suc, ◌+◌, ◌-◌, ◌≡◌, refl, true, false, List, [], ◌∷◌, ◌++◌, map, arith, ap, sym, ◌∙◌,
  ◌==◌, ltb, if◌then◌else◌, length, length-append, take, drop,
}
use k_h.World.{null, World, Env, pure}
use k_h.World.Returns
use k_h.World.Returns.{Returns, returns}
use k_h.KString
use k_h.KString.{KString, content}
use k_h.KFilePath.{KFilePath, with_component, add_string, add_range}
use k_h.World.{Grants}
use k_h.KFilePath.Pieces.{flush, made, drop-front, take-front}

module _ (env : Env) (grants : Grants env) where
  pub granted : (w : World) → (env.malloc w == null) ≡ false
  granted w = ground (arith, grants w)

  abbrev pub asks : ℕ → World → World
  asks zero w = w
  asks (suc n) w = asks n (record w { requests = w.requests + 1 })

  add_range-extended :
      (buffer : List ℕ) (start count : ℕ) (path : KFilePath) (w : World)
      → Returns
          (λ r w'.
            (r ≡ with_component path (made (take count (drop start buffer))))
            × (w'.blocks ≡ w.blocks))
          (add_range env buffer start count path w)
  unfolding add_range add_string KString.new_with_data
  add_range-extended buffer start count path w =
      rw (granted w, granted (asks 1 w), granted (asks 2 w)) (returns (refl, refl))

  -- What follows a separator, and the end: the pending run becomes a component if it has a byte.
  pub flush_range :
      (rest front pending buffer : List ℕ) (i start : ℕ) (path : KFilePath) (w : World)
      → buffer ≡ (front ++ pending) ++ rest
      → i ≡ length (front ++ pending)
      → start ≡ length front
      → Returns
          (λ r w'.
            (r.components ≡ path.components ++ map made (flush pending))
            × (r.is_absolute ≡ path.is_absolute)
            × (w'.blocks ≡ w.blocks))
          ((if ltb 0 (i - start) then add_range env buffer start (i - start) path else pure path) w)
  flush_range rest front [] buffer i start path w whole at from =
      let none_pending : ltb 0 (i - start) ≡ false = ground (arith, length-append front []) in
      rw none_pending (returns (sym (append-nil path.components), refl, refl))
  flush_range rest front (p ∷ pending) buffer i start path w whole at from =
      let some_pending : ltb 0 (i - start) ≡ true =
        ground (arith, length-append front (p ∷ pending)) in
      let width : i - start ≡ length (p ∷ pending) =
        omega (arith, at, from, length-append front (p ∷ pending)) in
      let run : take (i - start) (drop start buffer) ≡ p ∷ pending =
        ap (λ (k : ℕ). take k (drop start buffer)) width
        ∙ ap (λ (k : ℕ). take (length (p ∷ pending)) (drop k buffer)) from
        ∙ ap (λ t. take (length (p ∷ pending)) (drop (length front) t))
            (whole ∙ append_assoc front (p ∷ pending) rest)
        ∙ ap (λ t. take (length (p ∷ pending)) t) (drop-front front ((p ∷ pending) ++ rest))
        ∙ take-front (p ∷ pending) rest in
      rw some_pending (
        Returns.mono (add_range-extended buffer start (i - start) path w) λ r w' (e, same). (
          ap (λ (t : KFilePath). t.components) e ∙ ap (λ t. path.components ++ made t ∷ []) run,
          ap (λ (t : KFilePath). t.is_absolute) e,
          same,
        ))

  pub pending_range :
      (front pending buffer : List ℕ) (i start : ℕ) (path : KFilePath) (w : World)
      → buffer ≡ front ++ pending
      → i ≡ length buffer
      → start ≡ length front
      → Returns
          (λ r w'.
            (r.components ≡ path.components ++ map made (flush pending))
            × (r.is_absolute ≡ path.is_absolute)
            × (w'.blocks ≡ w.blocks))
          ((if ltb start i then add_range env buffer start (i - start) path else pure path) w)
  pending_range front pending buffer i start path w whole at from =
      let same_test : ltb start i ≡ ltb 0 (i - start) = ground arith in
      rw same_test (
        flush_range [] front pending buffer i start path w
          (whole ∙ sym (append-nil (front ++ pending))) (at ∙ ap length whole) from)
