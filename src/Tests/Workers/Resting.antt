-- ===== src/Tests/Workers/Resting.antt =====
-- The run comes to rest: the task is executed, the worker sleeps, and nobody calls.
use k_h.Base.{ℕ, ◌≡◌, refl, Bool, true, false, none, ap, [], arith}
use k_h.KWorkerPool.{KWorkerPoolTask, KWorkerPool, Place, Step, thread_step}
use k_h.KWorkerPool.Place.{sleeping, outside}
use k_h.KWorkerPool.Counting.{count}
use k_h.KWorkerPool.Quiet.{IsQuiet, quiet-executed}
use k_h.Tests.Workers.{state_14, state_14_reached}

-- Where a thread is at rest.
abbrev rests : Place → Bool
rests (sleeping r) = true
rests outside = true
rests place = false

at_rest : (i : ℕ) → rests (state_14.place i) ≡ true
at_rest i = ground arith

stays :
    (i : ℕ) (pool : KWorkerPool) (place : Place)
    → rests place ≡ true
    → thread_step i pool place ≡ none
unfolding thread_step
stays i pool (sleeping r) h = refl
stays i pool outside h = refl
stays i pool place h = absurd cc

not_at : {place other : Place} → rests place ≡ true → place ≡ other → rests other ≡ false → ⊥
not_at h e moves = let same = ap rests e in cc

resting-IsQuiet : IsQuiet state_14
resting-IsQuiet t (Step.run i e) =
    let still = stays i state_14.pool (state_14.place i) (at_rest i) in absurd cc
resting-IsQuiet t (Step.post i task e) = refl
resting-IsQuiet t (Step.shut i e) = refl
resting-IsQuiet t (Step.spurious i r e) = refl
resting-IsQuiet t (Step.notify i j r e f) = absurd (not_at (at_rest i) e refl)
resting-IsQuiet t (Step.notify_nobody i e f) = absurd (not_at (at_rest i) e refl)
resting-IsQuiet t (Step.notify_all i e) = absurd (not_at (at_rest i) e refl)
resting-IsQuiet t (Step.join i index e below f) = absurd (not_at (at_rest i) e refl)
resting-IsQuiet t (Step.join_fails i j index other e at below) = absurd (not_at (at_rest i) e refl)

errand_executed :
    (state_14.pool.tasks ≡ [])
    × ((t : KWorkerPoolTask) → count t state_14.pool.posted ≡ count t state_14.pool.executed)
errand_executed = quiet-executed state_14_reached resting-IsQuiet refl (omega arith)
