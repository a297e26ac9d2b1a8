-- ===== src/KFileHandle/Uses.antt =====
-- Sequences of uses of a file handle of kfile_handle.c, on any system.
use k_h.Base.{ℕ, ◌≡◌, refl, Bool, true, false, Option, none, some, List, [], ◌∷◌}
use k_h.World.{Ptr, World, Run, done, Cmd, pure, and_then, ◌>>=◌}
use k_h.KMapping.{KMapping}
use k_h.KFileHandle.{KFileHandle}

-- What can be asked of a handle.
pub data Use : Type 0 where
  closing : Use
  sizing : (has_out : Bool) → Use
  mapping : (clasz : Ptr) (size protections : ℕ) → Use

pub data Outcome : Type 0 where
  closes : Bool → Outcome
  sizes : Option ℕ → Outcome
  maps : Option KMapping → Outcome

-- What a closed handle answers.
abbrev pub refused : List Use → List Outcome
refused [] = []
refused (closing ∷ uses) = closes true ∷ refused uses
refused (sizing has_out ∷ uses) = sizes none ∷ refused uses
refused (mapping clasz size protections ∷ uses) = maps none ∷ refused uses

-- A system's branches of `KFileHandleClose`, `KFileHandleGetSize` and `KFileHandleNewMapping`, and
-- what each of them makes of a handle that is marked as closed.
pub record Platform : Type 0 where
  pub close : Option KFileHandle → Cmd (Bool × Option KFileHandle)
  pub get_size : Option KFileHandle → (has_out : Bool) → Cmd (Option ℕ)
  pub new_mapping :
      (clasz : Ptr) → Option KFileHandle → (size protections : ℕ) → Cmd (Option KMapping)
  pub close_closed :
      (handle : KFileHandle) (w : World)
      → handle.closed ≡ true
      → close (some handle) w ≡ done (true, some handle) w
  pub get_size_closed :
      (handle : KFileHandle) (has_out : Bool) (w : World)
      → handle.closed ≡ true
      → get_size (some handle) has_out w ≡ done none w
  pub new_mapping_closed :
      (clasz : Ptr) (handle : KFileHandle) (size protections : ℕ) (w : World)
      → handle.closed ≡ true
      → new_mapping clasz (some handle) size protections w ≡ done none w

-- A use on a system.
unfoldable pub use_once : Platform → Use → Option KFileHandle → Cmd (Outcome × Option KFileHandle)
use_once platform closing handle = do
  (is_closed, handle) ← platform.close handle
  pure (closes is_closed, handle)
use_once platform (sizing has_out) handle = do
  size ← platform.get_size handle has_out
  pure (sizes size, handle)
use_once platform (mapping clasz size protections) handle = do
  result ← platform.new_mapping clasz handle size protections
  pure (maps result, handle)

unfoldable pub perform :
    Platform → List Use → Option KFileHandle → Cmd (List Outcome × Option KFileHandle)
unfolding use_once
perform platform [] handle = pure ([], handle)
perform platform (one ∷ uses) handle = do
  (outcome, handle) ← use_once platform one handle
  (outcomes, handle) ← perform platform uses handle
  pure (outcome ∷ outcomes, handle)

-- A handle that is marked as closed is used without effect.
pub perform-refused :
    (platform : Platform) (uses : List Use) (handle : KFileHandle) (w : World)
    → handle.closed ≡ true
    → perform platform uses (some handle) w ≡ done (refused uses, some handle) w
unfolding perform use_once
perform-refused platform [] handle w e = refl
perform-refused platform (closing ∷ uses) handle w e =
    rw (platform.close_closed handle w e, perform-refused platform uses handle w e) refl
perform-refused platform (sizing has_out ∷ uses) handle w e =
    rw (platform.get_size_closed handle has_out w e, perform-refused platform uses handle w e) refl
perform-refused platform (mapping clasz size protections ∷ uses) handle w e =
    rw
      (
        platform.new_mapping_closed clasz handle size protections w e,
        perform-refused platform uses handle w e,
      )
      refl

-- The end of a close: the handle is marked with what the system's answer says.
abbrev pub marked {ℓ} :
    {A : Type ℓ} → (A → Bool) → KFileHandle → A → Cmd (Bool × Option KFileHandle)
marked is_success handle answer =
    pure (is_success answer, some (record handle { closed = is_success answer }))

marked_once :
    (b : Bool) (handle : KFileHandle) (w : World) {after : Option KFileHandle} {w' : World}
    → ◌≡◌ {A = Run (Bool × Option KFileHandle)}
        (done (b, some (record handle { closed = b })) w)
        (done (true, after) w')
    → after ≡ some (record handle { closed = true })
marked_once true handle w h = cc
marked_once false handle w h = absurd cc

-- A close that reports success leaves the handle marked.
pub marked-closed :
    {A : Type 0} (is_success : A → Bool) (result : Run A) (handle : KFileHandle)
    {after : Option KFileHandle} {w' : World}
    → and_then result (marked is_success handle) ≡ done (true, after) w'
    → after ≡ some (record handle { closed = true })
marked-closed is_success (done answer w) handle h = marked_once (is_success answer) handle w h
marked-closed is_success Run.aborted handle h = absurd cc
marked-closed is_success Run.fault handle h = absurd cc
marked-closed is_success Run.out_of_fuel handle h = absurd cc
