-- ===== src/KSemaphore/Permits/Held.antt =====
-- How many threads hold a permit of a semaphore of ksemaphore.c.
use k_h.Base.{ℕ, suc, ◌+◌, ◌≤◌, ◌<◌, ◌≡◌, refl, false, none, some, arith, ap, ◌==◌}
use k_h.World.{update}
use k_h.World.Loads.{load, load-below, load_mono, load_extend, load_pos}
use k_h.KObject.Counts.{one_if}
use k_h.KSemaphore.Permits.{
  Taken, blocked, failed, granted, SystemSemaphore, Place, outside, waiting, inside, signalling,
  wait_step, signal_step, made, thread_step, Threads, Step, Reach,
}

-- Whether a thread has passed the wait and not yet signalled.
abbrev pub holds : Place → ℕ
holds outside = 0
holds waiting = 0
holds inside = 1
holds signalling = 1

module _ {S : Type 0} (system : SystemSemaphore S) where
  -- The permits that are held by the first `k` threads and those that are left are the semaphore's
  -- count, and no other thread holds one.
  record Balanced (k : ℕ) (t : Threads S) : Type 0 where
    others : (i : ℕ) → k ≤ i → holds (t.place i) ≡ 0
    total : load holds k t.place + system.value t.state ≡ system.count

  waits-holds :
      (s : S) (answer : Taken S) {s' : S} {place' : Place}
      → system.take s ≡ answer
      → thread_step system made s waiting ≡ some (s', place')
      → holds place' + system.value s' ≡ system.value s
  unfolding thread_step wait_step
  waits-holds s blocked e h = ground (arith, e)
  waits-holds s failed e h = ground (arith, e)
  waits-holds s (granted s'') e h = ground (arith, e, system.take_granted s s'' e)

  -- A step of one thread passes a permit between it and the semaphore.
  thread_step-holds :
      (s : S) (place : Place) {s' : S} {place' : Place}
      → holds place + system.value s ≤ system.count
      → thread_step system made s place ≡ some (s', place')
      → holds place' + system.value s' ≡ holds place + system.value s
  unfolding thread_step signal_step
  thread_step-holds s outside bound h = absurd cc
  thread_step-holds s waiting bound h = omega (arith, waits-holds s (system.take s) refl h)
  thread_step-holds s inside bound h = absurd cc
  thread_step-holds s signalling bound h =
      let raised = system.post_below s (omega (arith, bound)) in
      ground (arith, system.post_value s, ap one_if raised)

  -- A thread moves, and the permits stay balanced.
  moved-Balanced :
      (k : ℕ) (t : Threads S) (i : ℕ) (s : S) (place : Place)
      → Balanced k t
      → (holds (t.place i) + system.value t.state ≤ system.count
          → holds place + system.value s ≡ holds (t.place i) + system.value t.state)
      → (n : ℕ) × Balanced n (record { state = s; place = update t.place i place })
  moved-Balanced k t i s place b passes =
      let n : ℕ = k + suc i in
      let same = load_extend holds k (suc i) t.place b.others in
      let here = load-below holds t.place i outside n (omega arith) in
      let passed = passes (omega (arith, b.total, same, here)) in
      (
        n,
        record {
          others = λ j above. others-update j above;
          total =
              omega
                (arith, b.total, same, passed, load-below holds t.place i place n (omega arith));
        },
      )
    where
      others-update : (j : ℕ) → k + suc i ≤ j → holds (update t.place i place j) ≡ 0
      others-update j above =
          let other : (j == i) ≡ false = ground arith in rw other (b.others j (omega arith))

  Step-Balanced :
      (k : ℕ) (t : Threads S) {u : Threads S}
      → Balanced k t
      → Step system t u
      → (n : ℕ) × Balanced n u
  Step-Balanced k t b (Step.run i {state} {place} e) =
      moved-Balanced k t i state place b (λ bound. thread_step-holds t.state (t.place i) bound e)
  Step-Balanced k t b (Step.call_wait i e) =
      moved-Balanced k t i t.state waiting b (λ bound. rw e refl)
  Step-Balanced k t b (Step.call_signal i e) =
      moved-Balanced k t i t.state signalling b (λ bound. rw e refl)

  Reach-Balanced : {t : Threads S} → Reach system t → (k : ℕ) × Balanced k t
  Reach-Balanced (Reach.start state full) =
      (0, record { others = λ i above. refl; total = omega (arith, full) })
  Reach-Balanced (Reach.later {t} r step) =
      let (k, b) = Reach-Balanced r in Step-Balanced k t b step

  -- Who sleeps in a wait has met the value 0.
  sleeps-empty :
      (s : S) (place : Place) (answer : Taken S)
      → system.take s ≡ answer
      → place ≡ waiting
      → thread_step system made s place ≡ none
      → system.value s ≡ 0
  unfolding thread_step wait_step
  sleeps-empty s waiting blocked e here h = system.take_blocked s e
  sleeps-empty s waiting failed e here h = ground (arith, e)
  sleeps-empty s waiting (granted s') e here h = ground (arith, e)
  sleeps-empty s outside answer e here h = absurd cc
  sleeps-empty s inside answer e here h = absurd cc
  sleeps-empty s signalling answer e here h = absurd cc

  load-under :
      (k n : ℕ) (t : Threads S) → Balanced k t → load holds n t.place ≤ load holds k t.place
  load-under k n t b = omega (
    arith,
    load_mono holds n (k + n) t.place (omega arith),
    load_extend holds k n t.place b.others,
  )

  -- The first threads hold as many permits as the semaphore has at most.
  pub Reach-load :
      {t : Threads S}
      → Reach system t
      → (n : ℕ) → load holds n t.place + system.value t.state ≤ system.count
  Reach-load {t} r n = let (k, b) = Reach-Balanced r in omega (arith, load-under k n t b, b.total)

  -- No permit is lost: in any reachable state of a semaphore with a permit and the threads that
  -- wait for it and signal it after that, if one of them sleeps in its wait, another one is past
  -- its wait and has not yet come through its signal.
  pub Reach-held :
      {t : Threads S}
      → Reach system t
      → 0 < system.count
      → (i : ℕ) → t.place i ≡ waiting
      → thread_step system made t.state (t.place i) ≡ none
      → (j : ℕ) × (0 < holds (t.place j))
  Reach-held {t} r some_permit i waits sleeps =
      let (k, b) = Reach-Balanced r in
      let empty = sleeps-empty t.state (t.place i) (system.take t.state) refl waits sleeps in
      let (j, _, holder) = load_pos holds k t.place (omega (arith, b.total, empty, some_permit)) in
      (j, holder)
