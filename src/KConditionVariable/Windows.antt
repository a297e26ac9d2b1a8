-- ===== src/KConditionVariable/Windows.antt =====
-- kcondition_variable.c, its Windows branches: a critical section and a condition, whose calls do not
-- fail but for the sleep. `none` is NULL.
pub mod Same
use k_h.Base.{Bool, true, false, not, Option, none, some, List, [], ◌∷◌, ◌==◌, if◌then◌else◌}
use k_h.World.{null, Cmd, pure, ◌>>=◌, ◌>>◌, Env, allocate}
use k_h.KConditionVariable.{Wait, returned, blocked}

pub record WindowsConditions : Type 0 where
  pub initialize_critical_section : Cmd (Unit {0})
  pub initialize_condition_variable : Cmd (Unit {0})
  pub delete_critical_section : Cmd (Unit {0})
  pub enter_critical_section : Cmd (Unit {0})
  pub leave_critical_section : Cmd (Unit {0})
  pub wake_condition_variable : Cmd (Unit {0})
  pub wake_all_condition_variable : Cmd (Unit {0})

-- The fields are the system's.
abbrev pub KConditionVariable : Type 0
KConditionVariable = Unit {0}

unfoldable pub new : Env → WindowsConditions → Cmd (Option KConditionVariable)
new env system = do
  cv ← allocate env
  if cv == null then pure none else do
    system.initialize_critical_section
    system.initialize_condition_variable
    pure (some tt)

-- The deinitialiser.
unfoldable pub deinit : WindowsConditions → KConditionVariable → Cmd (Unit {0})
deinit system cv = system.delete_critical_section

-- A call that cannot fail, on a condition variable that may be NULL.
abbrev pub call_on : Option KConditionVariable → Cmd (Unit {0}) → Cmd Bool
call_on none call = pure false
call_on (some cv) call = call >> pure true

unfoldable pub notify_one : WindowsConditions → Option KConditionVariable → Cmd Bool
notify_one system cv = call_on cv system.wake_condition_variable

unfoldable pub notify_all : WindowsConditions → Option KConditionVariable → Cmd Bool
notify_all system cv = call_on cv system.wake_all_condition_variable

unfoldable pub critical_section_enter : WindowsConditions → Option KConditionVariable → Cmd Bool
critical_section_enter system cv = call_on cv system.enter_critical_section

unfoldable pub critical_section_exit : WindowsConditions → Option KConditionVariable → Cmd Bool
critical_section_exit system cv = call_on cv system.leave_critical_section

module _ {S : Type 0} where
  -- The loop of `KConditionVariableWait`. Each wake-up is what `SleepConditionVariableCS` answers: `none`
  -- for 0, else the state that the other threads left.
  unfoldable pub wait_loop : (S → Bool) → S → List (Option S) → Wait S
  wait_loop pred shared [] = if not (pred shared) then returned true shared else blocked
  wait_loop pred shared (none ∷ wakes) = returned (not (pred shared)) shared
  wait_loop pred shared (some next ∷ wakes) =
      let rest = wait_loop pred next wakes in
      if not (pred shared) then returned true shared else rest

  unfoldable pub wait : Option KConditionVariable → Option (S → Bool) → S → List (Option S) → Wait S
  unfolding wait_loop
  wait none pred shared wakes = returned false shared
  wait (some cv) none shared wakes = returned false shared
  wait (some cv) (some pred) shared wakes = wait_loop pred shared wakes
