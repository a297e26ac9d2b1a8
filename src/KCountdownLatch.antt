-- ===== src/KCountdownLatch.antt =====
-- kcountdown_latch.c: a count that threads bring down to 0, and others wait for. `none` is NULL.
pub mod Down
pub mod Waiters
use k_h.Base.{
  ℕ, zero, suc, ◌+◌, Bool, true, false, not, ◌||◌, Option, none, some, List, ◌==◌, if◌then◌else◌,
}
use k_h.World.{
  null, World, Run, done, aborted, fault, out_of_fuel, Cmd, pure, ◌>>=◌, ◌>>◌, Env, allocate,
  k_assert,
}
use k_h.KConditionVariable
use k_h.KConditionVariable.{Pthread, KConditionVariable, Wait}

pub record KCountdownLatch : Type 0 where
  pub cv : Option KConditionVariable
  pub count : ℕ

-- The object is written unchecked, so a refused one is a fault.
unfoldable pub new : Env → Pthread → ℕ → Cmd (Option KCountdownLatch)
new env pthread count = if count == 0 then pure none else do
  cdl ← allocate env
  if cdl == null then (λ _. fault) else do
    cv ← KConditionVariable.new env pthread
    elim cv [
      | none ↦ (λ _. aborted)
      | some cv ↦ pure (some (record { cv = some cv; count = count }))
    ]

-- The deinitialiser gives up the condition variable, which only the latch keeps.
unfoldable pub deinit :
    (mutex_destroy cond_destroy : Cmd (Unit {0})) → KCountdownLatch → Cmd (Unit {0})
deinit mutex_destroy cond_destroy cdl = elim cdl.cv [
  | none ↦ pure tt
  | some cv ↦ KConditionVariable.deinit mutex_destroy cond_destroy cv
]

-- The `switch`: the count after it, and `should_signal`.
unfoldable pub lowered : ℕ → ℕ × Bool
lowered zero = (0, false)
lowered (suc zero) = (0, true)
lowered (suc (suc n)) = (suc n, false)

-- The last component says whether `KConditionVariableNotifyAll` was called.
unfoldable pub count_down :
    Pthread → Option KCountdownLatch → Cmd (Bool × Option KCountdownLatch × Bool)
unfolding lowered
count_down pthread none = pure (false, none, false)
count_down pthread (some cdl) = do
  k_assert (KConditionVariable.critical_section_enter pthread cdl.cv)
  let (count, should_signal) = lowered cdl.count in
      do
        k_assert (KConditionVariable.critical_section_exit pthread cdl.cv)
        k_assert (not should_signal || KConditionVariable.notify_all pthread cdl.cv)
        pure (true, some (record cdl { count = count }), should_signal)

-- The predicate that a waiting thread gives: the count that it sees is not 0.
abbrev pub cv_predicate : ℕ → Bool
cv_predicate count = not (count == 0)

-- `wakes` are the wake-ups that the wait gets, each with the count that it then sees.
unfoldable pub wait :
    Pthread
    → Option KCountdownLatch
    → (wakes : List (Option ℕ)) → Cmd (Bool × Option KCountdownLatch)
wait pthread none wakes = pure (false, none)
wait pthread (some cdl) wakes = do
  k_assert (KConditionVariable.critical_section_enter pthread cdl.cv)
  elim (KConditionVariable.wait cdl.cv (some cv_predicate) cdl.count wakes) [
    | Wait.blocked ↦ (λ _. out_of_fuel)
    | Wait.returned success count ↦ do
      k_assert success
      k_assert (KConditionVariable.critical_section_exit pthread cdl.cv)
      pure (true, some (record cdl { count = count }))
  ]
