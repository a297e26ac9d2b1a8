-- ===== src/KConditionVariable.antt =====
-- kcondition_variable.c, its POSIX branches: a mutex and a condition in one object.
-- `none` is NULL. `Pthread` says which of the pthread calls answer 0.
pub mod Windows
use k_h.Base.{Bool, true, false, not, ◌==◌, ◌&&◌, Option, none, some, List, [], ◌∷◌, if◌then◌else◌}
use k_h.World.{null, Cmd, pure, ◌>>=◌, ◌>>◌, Env, allocate}

pub record Pthread : Type 0 where
  pub mutex_init : Bool
  pub cond_init : Bool
  pub mutex_lock : Bool
  pub mutex_unlock : Bool
  pub cond_signal : Bool
  pub cond_broadcast : Bool

pub record KConditionVariable : Type 0 where
  pub is_valid : Bool

unfoldable pub new : Env → Pthread → Cmd (Option KConditionVariable)
new env pthread = do
  cv ← allocate env
  if cv == null
      then pure none
      else (if not pthread.mutex_init
          then pure none
          else (if not pthread.cond_init
              then pure none
              else pure (some (record { is_valid = true }))))

-- The deinitialiser; `mutex_destroy` and `cond_destroy` are pthread's.
unfoldable pub deinit :
    (mutex_destroy cond_destroy : Cmd (Unit {0})) → KConditionVariable → Cmd (Unit {0})
deinit mutex_destroy cond_destroy cv =
    if cv.is_valid then (mutex_destroy >> cond_destroy) else pure tt

unfoldable pub notify_one : Pthread → Option KConditionVariable → Bool
notify_one pthread none = false
notify_one pthread (some cv) = cv.is_valid && pthread.cond_signal

unfoldable pub notify_all : Pthread → Option KConditionVariable → Bool
notify_all pthread none = false
notify_all pthread (some cv) = cv.is_valid && pthread.cond_broadcast

unfoldable pub critical_section_enter : Pthread → Option KConditionVariable → Bool
critical_section_enter pthread none = false
critical_section_enter pthread (some cv) = cv.is_valid && pthread.mutex_lock

unfoldable pub critical_section_exit : Pthread → Option KConditionVariable → Bool
critical_section_exit pthread none = false
critical_section_exit pthread (some cv) = cv.is_valid && pthread.mutex_unlock

-- `blocked` is a thread that still sleeps when the wake-ups that are given have been used.
pub data Wait (S : Type 0) : Type 0 where
  returned : Bool → S → Wait S
  blocked : Wait S

module _ {S : Type 0} where
  -- The loop, from shared state `shared` on. Each wake-up is what `pthread_cond_wait` answers: `none` for
  -- a failure, else the state that the other threads left, for a wake-up that may be spurious.
  unfoldable pub wait_loop : KConditionVariable → (S → Bool) → S → List (Option S) → Wait S
  wait_loop cv pred shared [] =
      if not (pred shared)
      then returned true shared
      else (if not cv.is_valid then returned false shared else blocked)
  wait_loop cv pred shared (none ∷ wakes) =
      if not (pred shared) then returned true shared else returned false shared
  wait_loop cv pred shared (some next ∷ wakes) =
      let rest = wait_loop cv pred next wakes in
      if not (pred shared)
      then returned true shared
      else (if not cv.is_valid then returned false shared else rest)

  unfoldable pub wait : Option KConditionVariable → Option (S → Bool) → S → List (Option S) → Wait S
  unfolding wait_loop
  wait none pred shared wakes = returned false shared
  wait (some cv) none shared wakes = returned false shared
  wait (some cv) (some pred) shared wakes = wait_loop cv pred shared wakes
