-- ===== src/KCountdownLatch/Waiters/Opened.antt =====
-- What holds of the threads that count a latch of kcountdown_latch.c down and wait for it.
use k_h.Base.{
  ℕ, zero, suc, ◌+◌, ◌-◌, ◌≤◌, ◌<◌, ◌≡◌, refl, Bool, true, false, some, arith, sym, ◌∙◌, ◌⊎◌, inl,
  inr, ◌==◌,
}
use k_h.World.{update}
use k_h.KCountdownLatch.{lowered}
use k_h.World.Updates.{update_here, update_keeps, update_gives}
use k_h.KCountdownLatch.Waiters.{Latch, Stage, latch_step, rouse, Threads, LatchStep, Reached}
use k_h.KCountdownLatch.Waiters.Stage.{
  outside, wants_down, lowering, after, notifying, wants_wait, sleeping, woken, leaving, passed,
}

abbrev pub is_past : Stage → Bool
is_past leaving = true
is_past passed = true
is_past _ = false

abbrev pub is_asleep : Stage → Bool
is_asleep sleeping = true
is_asleep _ = false

-- A thread that has brought the count to 0 and will notify all.
abbrev pub will_notify : Stage → Bool
will_notify (after should_signal) = should_signal
will_notify notifying = true
will_notify _ = false

pub record IsOpened (n : ℕ) (s : Threads) : Type 0 where
  pub counted : n ≤ s.latch.count + s.latch.downs
  pub past : (i : ℕ) → is_past (s.stage i) ≡ true → s.latch.count ≡ 0
  pub roused :
      (i : ℕ)
      → is_asleep (s.stage i) ≡ true
      → s.latch.count ≡ 0
      → (j : ℕ) × (will_notify (s.stage j) ≡ true)

lowered_lem : (n : ℕ) → ((lowered n).0 ≡ n - 1) × ((lowered n).1 ≡ (n == 1))
unfolding lowered
lowered_lem zero = (refl, refl)
lowered_lem (suc zero) = (refl, refl)
lowered_lem (suc (suc n)) = (omega arith, ground arith)

module _ (i : ℕ) (latch : Latch) where
  step_counts :
      (stage : Stage) {latch' : Latch} {stage' : Stage}
      → latch_step i latch stage ≡ some (latch', stage')
      → (latch.count + latch.downs ≤ latch'.count + latch'.downs)
        × (latch'.count ≤ latch.count)
        × (is_past stage' ≡ true → (is_past stage ≡ true) ⊎ (latch'.count ≡ 0))
        × (is_asleep stage' ≡ true → 0 < latch'.count)
        × ((latch'.count ≡ latch.count)
            ⊎ (0 < latch'.count)
            ⊎ (latch.count ≡ 0)
            ⊎ (will_notify stage' ≡ true))
        × (will_notify stage ≡ true → will_notify stage' ≡ true)
  unfolding latch_step
  step_counts wants_down h = ground arith
  step_counts lowering h = let (lower, signal) = lowered_lem latch.count in ground arith
  step_counts stage h = ground arith

past-rouse : (stage : Stage) → is_past (rouse stage) ≡ is_past stage
past-rouse sleeping = refl
past-rouse stage = refl

asleep-rouse : (stage : Stage) → is_asleep (rouse stage) ≡ false
asleep-rouse sleeping = refl
asleep-rouse stage = refl

module _ {n : ℕ} (s : Threads) (v : IsOpened n s) where
  run-IsOpened :
      (i : ℕ) {latch : Latch} {stage : Stage}
      → latch_step i s.latch (s.stage i) ≡ some (latch, stage)
      → IsOpened n (record { latch = latch; stage = update s.stage i stage })
  run-IsOpened i {latch} {stage} e =
      let (more, lower, past, sleeps, opens, notifies) = step_counts i s.latch (s.stage i) e in
      record {
        counted = omega (arith, v.counted, more);
        past = λ j h. ground (arith, lower, past, v.past i, v.past j);
        roused = λ j h zero_now. elim opens [
          | inl same ↦
              let asleep_j : is_asleep (s.stage j) ≡ true = ground (arith, sleeps) in
              let (k, found) = v.roused j asleep_j (sym same ∙ zero_now) in
              (k, update_keeps will_notify s.stage i stage k found notifies)
          | inr (inl some_left) ↦ absurd (omega (arith, some_left, zero_now))
          | inr (inr (inl before)) ↦
              let asleep_j : is_asleep (s.stage j) ≡ true = ground (arith, sleeps) in
              let (k, found) = v.roused j asleep_j before in
              (k, update_keeps will_notify s.stage i stage k found notifies)
          | inr (inr (inr signals)) ↦ (i, update_here will_notify s.stage i stage signals)
        ];
      }

  -- One thread moves, and neither passes the wait nor sleeps.
  placed-IsOpened :
      (i : ℕ) (stage : Stage)
      → is_past stage ≡ false
      → is_asleep stage ≡ false
      → (will_notify (s.stage i) ≡ true → will_notify stage ≡ true)
      → IsOpened n (record s { stage = update s.stage i stage })
  placed-IsOpened i stage not_past awake keeps = record {
    counted = v.counted;
    past = λ j h. v.past j (update_gives is_past s.stage i stage (λ h. absurd cc) j h);
    roused = λ j h zero_now.
        let (k, found) =
          v.roused j (update_gives is_asleep s.stage i stage (λ h. absurd cc) j h) zero_now in
        (k, update_keeps will_notify s.stage i stage k found keeps);
  }

  all-IsOpened :
      (i : ℕ) → IsOpened n (record s { stage = update (λ j. rouse (s.stage j)) i outside })
  all-IsOpened i =
      let roused_all : ℕ → Stage = λ j. rouse (s.stage j) in
      record {
        counted = v.counted;
        past = λ j h. v.past j (
            sym (past-rouse (s.stage j))
            ∙ update_gives is_past roused_all i outside (λ h. absurd cc) j h);
        roused = λ j h zero_now. absurd (
            let asleep = update_gives is_asleep roused_all i outside (λ h. absurd cc) j h in
            let awake = asleep-rouse (s.stage j) in cc);
      }

Step-IsOpened : {n : ℕ} {s t : Threads} → LatchStep s t → IsOpened n s → IsOpened n t
Step-IsOpened {s = s} (LatchStep.run i e) v = run-IsOpened s v i e
Step-IsOpened {s = s} (LatchStep.call_down i e) v =
    placed-IsOpened s v i wants_down refl refl (λ h. ground (arith, e))
Step-IsOpened {s = s} (LatchStep.call_wait i e) v =
    placed-IsOpened s v i wants_wait refl refl (λ h. ground (arith, e))
Step-IsOpened {s = s} (LatchStep.spurious i e) v =
    placed-IsOpened s v i woken refl refl (λ h. ground (arith, e))
Step-IsOpened {s = s} (LatchStep.notify_all i e) v = all-IsOpened s v i

Reached-IsOpened : {n : ℕ} {s : Threads} → Reached n s → IsOpened n s
Reached-IsOpened {n} Reached.start = record {
  counted = omega arith;
  past = λ i h. absurd cc;
  roused = λ i h. absurd cc;
}
Reached-IsOpened (Reached.later r st) = Step-IsOpened st (Reached-IsOpened r)

-- In every reachable state of a latch with count n and the threads that use it, however their steps
-- interleave: if a wait has come to its end, threads have counted down at least n times; and if a
-- thread sleeps in a wait though the count is 0, some thread has still to notify all.
pub Reached-waits :
    {n : ℕ} {s : Threads}
    → Reached n s
    → ((i : ℕ) → is_past (s.stage i) ≡ true → n ≤ s.latch.downs)
      × ((i : ℕ)
          → is_asleep (s.stage i) ≡ true
          → s.latch.count ≡ 0
          → (j : ℕ) × (will_notify (s.stage j) ≡ true))
Reached-waits r =
    let v = Reached-IsOpened r in (λ i h. omega (arith, v.counted, v.past i h), v.roused)
