-- ===== src/KFileHandle/Windows/Used.antt =====
-- What becomes of a file handle of kfile_handle.c on Windows once it is closed.
use k_h.Base.{
  ℕ, ◌≡◌, refl, Bool, true, false, not, Option, none, some, List, ◌∙◌, sym, ◌==◌, Bool-cases, inl,
  inr,
}
use k_h.World.{Ptr, World, done, Cmd, pure, and_then, ◌>>=◌, Env}
use k_h.KMapping.{KMapping}
use k_h.KFileHandle.{KFileHandle}
use k_h.KFileHandle.Uses.{Use, Platform, refused, perform, perform-refused, marked, marked-closed}
use k_h.KFileHandle.Windows.{WindowsFiles, close, get_size, new_mapping}

-- A `BOOL` that is not 0.
abbrev is_true : ℕ → Bool
is_true answer = not (answer == 0)

module _ (env : Env) (system : WindowsFiles) where
  close-open :
      (handle : KFileHandle) (w : World)
      → handle.closed ≡ false
      → close system (some handle) w
        ≡ and_then (system.close_handle handle.handle w) (marked is_true handle)
  unfolding close
  close-open handle w e = rw e refl

  pub close-already :
      (handle : KFileHandle) (w : World)
      → handle.closed ≡ true
      → close system (some handle) w ≡ done (true, some handle) w
  unfolding close
  close-already handle w e = rw e refl

  close-marked :
      (handle after : Option KFileHandle) (w : World) {w' : World}
      → close system handle w ≡ done (true, after) w'
      → (left : KFileHandle) × (after ≡ some left) × (left.closed ≡ true)
  unfolding close
  close-marked none after w h = absurd cc
  close-marked (some handle) after w {w'} h = elim (Bool-cases handle.closed) [
    | inl already ↦
        let same : done (true, some handle) w ≡ done (true, after) w' =
          sym (close-already handle w already) ∙ h in
        (handle, cc, already)
    | inr was_open ↦ (
      record handle { closed = true },
      marked-closed is_true (system.close_handle handle.handle w) handle
          (sym (close-open handle w was_open) ∙ h),
      refl,
    )
  ]

  pub mapping_of : Ptr → Option KFileHandle → (size protections : ℕ) → Cmd (Option KMapping)
  mapping_of clasz handle size protections = do
    (result, _, _) ← new_mapping env system clasz handle size protections
    pure result

  pub mapping_of-closed :
      (clasz : Ptr) (handle : KFileHandle) (size protections : ℕ) (w : World)
      → handle.closed ≡ true
      → mapping_of clasz (some handle) size protections w ≡ done none w
  unfolding mapping_of new_mapping
  mapping_of-closed clasz handle size protections w e = rw e refl

  pub get_size-closed :
      (handle : KFileHandle) (has_out : Bool) (w : World)
      → handle.closed ≡ true
      → get_size system (some handle) has_out w ≡ done none w
  unfolding get_size
  get_size-closed handle has_out w e = rw e refl

  abbrev pub windows : Platform
  windows = record {
    close = close system;
    get_size = get_size system;
    new_mapping = mapping_of;
    close_closed = close-already;
    get_size_closed = get_size-closed;
    new_mapping_closed = mapping_of-closed;
  }

  pub closed-refused :
      (handle after : Option KFileHandle) (w : World) {w' : World}
      → close system handle w ≡ done (true, after) w'
      → (uses : List Use) (v : World) → perform windows uses after v ≡ done (refused uses, after) v
  closed-refused handle after w h uses v =
      let (left, e, closed) = close-marked handle after w h in
      rw e (perform-refused windows uses left v closed)
