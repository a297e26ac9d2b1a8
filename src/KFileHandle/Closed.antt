-- ===== src/KFileHandle/Closed.antt =====
-- What becomes of a file handle of kfile_handle.c once it is closed.
use k_h.Base.{
  ℕ, zero, suc, ◌+◌, ◌<◌, ◌≡◌, refl, Bool, true, false, Option, none, some, List, arith, ap, sym,
  ◌∙◌, Bool-cases, inl, inr,
}
use k_h.World.{Ptr, World, Run, done, Cmd, pure, and_then, ◌>>=◌, Env}
use k_h.KMapping.{KMapping}
use k_h.KFileHandle.Uses.{Use, Platform, refused, perform, perform-refused, marked, marked-closed}
use k_h.KFileHandle.{
  Answer, Files, KFileHandle, handle_eintr, is_zero, close, get_size, new_mapping,
}

-- What `K_HANDLE_EINTR` makes of an answer that is no interruption.
abbrev pub result_of : Answer → Option ℕ
result_of (Answer.answered result) = some result
result_of _ = none

abbrev pub is_interrupted : Answer → Bool
is_interrupted Answer.interrupted = true
is_interrupted _ = false

at_attempt :
    (call : ℕ → Cmd Answer) (w : World) {k attempt : ℕ} {r : Run Answer}
    → attempt ≡ k
    → call k w ≡ r
    → call attempt w ≡ r
at_attempt call w e h = ap (λ k. call k w) e ∙ h

-- A call that is interrupted `times` times is repeated until it answers, which needs one round more.
pub handle_eintr-result_of :
    (call : ℕ → Cmd Answer) (times fuel attempt : ℕ) (answer : Answer) {w w' : World}
    → ((k : ℕ) → k < times → call (attempt + k) w ≡ done Answer.interrupted w)
    → call (attempt + times) w ≡ done answer w'
    → is_interrupted answer ≡ false
    → times < fuel
    → handle_eintr call fuel attempt w ≡ done (result_of answer) w'
unfolding handle_eintr
handle_eintr-result_of call times zero attempt answer waits answers final enough =
    absurd (omega arith)
handle_eintr-result_of call zero (suc fuel) attempt Answer.interrupted waits answers final enough =
    absurd cc
handle_eintr-result_of call zero (suc fuel) attempt Answer.failed {w} waits answers final enough =
    let here = at_attempt call w {attempt = attempt} (omega arith) answers in rw here refl
handle_eintr-result_of call zero (suc fuel) attempt (Answer.answered result) {w} waits answers final
      enough =
    let here = at_attempt call w {attempt = attempt} (omega arith) answers in rw here refl
handle_eintr-result_of call (suc times) (suc fuel) attempt answer {w} waits answers final enough =
    let here = at_attempt call w {attempt = attempt} (omega arith) (waits 0 (omega arith)) in
    rw here (
      handle_eintr-result_of call times fuel (suc attempt) answer
        (λ k below.
          at_attempt call w {attempt = suc attempt + k} (omega arith)
            (waits (suc k) (omega (arith, below))))
        (at_attempt call w {attempt = suc attempt + times} (omega arith) answers) final
        (omega arith))

module _ (env : Env) (system : Files) (fuel : ℕ) where
  close-open :
      (handle : KFileHandle) (w : World)
      → handle.closed ≡ false
      → close system fuel (some handle) w
        ≡ and_then (handle_eintr (system.close_file handle.handle) fuel 0 w) (marked is_zero handle)
  unfolding close
  close-open handle w e = rw e refl

  pub close-already :
      (handle : KFileHandle) (w : World)
      → handle.closed ≡ true
      → close system fuel (some handle) w ≡ done (true, some handle) w
  unfolding close
  close-already handle w e = rw e refl

  close-marked :
      (handle after : Option KFileHandle) (w : World) {w' : World}
      → close system fuel handle w ≡ done (true, after) w'
      → (left : KFileHandle) × (after ≡ some left) × (left.closed ≡ true)
  unfolding close
  close-marked none after w h = absurd cc
  close-marked (some handle) after w {w'} h = elim (Bool-cases handle.closed) [
    | inl already ↦
        let same : done (true, some handle) w ≡ done (true, after) w' =
          sym (close-already handle w already) ∙ h in
        (handle, cc, already)
    | inr was_open ↦ (
      record handle { closed = true },
      marked-closed is_zero (handle_eintr (system.close_file handle.handle) fuel 0 w) handle
          (sym (close-open handle w was_open) ∙ h),
      refl,
    )
  ]

  pub mapping_of : Ptr → Option KFileHandle → (size protections : ℕ) → Cmd (Option KMapping)
  mapping_of clasz handle size protections = do
    (result, _, _) ← new_mapping env system clasz handle size protections
    pure result

  pub mapping_of-closed :
      (clasz : Ptr) (handle : KFileHandle) (size protections : ℕ) (w : World)
      → handle.closed ≡ true
      → mapping_of clasz (some handle) size protections w ≡ done none w
  unfolding mapping_of new_mapping
  mapping_of-closed clasz handle size protections w e = rw e refl

  pub get_size-closed :
      (handle : KFileHandle) (has_out : Bool) (w : World)
      → handle.closed ≡ true
      → get_size system (some handle) has_out w ≡ done none w
  unfolding get_size
  get_size-closed handle has_out w e = rw e refl

  abbrev pub posix : Platform
  posix = record {
    close = close system fuel;
    get_size = get_size system;
    new_mapping = mapping_of;
    close_closed = close-already;
    get_size_closed = get_size-closed;
    new_mapping_closed = mapping_of-closed;
  }

  -- After a close of a file handle that reports success, any sequence of further uses of the handle
  -- makes no system call and changes nothing: a close reports success, the size and a mapping are
  -- refused.
  pub close-refused :
      (handle after : Option KFileHandle) (w : World) {w' : World}
      → close system fuel handle w ≡ done (true, after) w'
      → (uses : List Use) (v : World) → perform posix uses after v ≡ done (refused uses, after) v
  close-refused handle after w h uses v =
      let (left, e, closed) = close-marked handle after w h in
      rw e (perform-refused posix uses left v closed)
