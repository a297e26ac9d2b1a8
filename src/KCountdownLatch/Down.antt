-- ===== src/KCountdownLatch/Down.antt =====
-- `KCountDownLatchCountDown` of kcountdown_latch.c, called again and again.
use k_h.Base.{
  ℕ, zero, suc, ◌+◌, ◌-◌, ◌≡◌, refl, true, false, ◌&&◌, Option, some, arith, ap, ◌∙◌, ltb, leb,
  ◌==◌,
}
use k_h.World.{World, Run, done, Cmd, pure, ◌>>=◌}
use k_h.KObject.Counts.{one_if}
use k_h.KConditionVariable.{
  Pthread, KConditionVariable, critical_section_enter, critical_section_exit, notify_all,
}
use k_h.KCountdownLatch.{KCountdownLatch, lowered, count_down}

-- Several calls in a row, and how many of them notified the waiting threads.
abbrev pub count_downs : Pthread → ℕ → Option KCountdownLatch → Cmd (Option KCountdownLatch × ℕ)
count_downs pthread zero cdl = pure (cdl, 0)
count_downs pthread (suc k) cdl = do
  (_, cdl, notified) ← count_down pthread cdl
  (cdl, more) ← count_downs pthread k cdl
  pure (cdl, one_if notified + more)

-- A condition variable on which the calls of this file succeed.
abbrev pub IsUsable : Pthread → KConditionVariable → Type 0
IsUsable pthread cv =
    (cv.is_valid ≡ true)
    × (pthread.mutex_lock ≡ true)
    × (pthread.mutex_unlock ≡ true)
    × (pthread.cond_broadcast ≡ true)

module _ (pthread : Pthread) (cv : KConditionVariable) (usable : IsUsable pthread cv) where
  abbrev latch : ℕ → Option KCountdownLatch
  latch n = some (record { cv = some cv; count = n })

  count_down_lem :
      (n : ℕ) (w : World) → count_down pthread (latch n) w ≡ done (true, latch (n - 1), n == 1) w
  unfolding count_down lowered critical_section_enter critical_section_exit notify_all
  count_down_lem zero w = rw (usable.0, usable.1, usable.2) refl
  count_down_lem (suc zero) w = rw (usable.0, usable.1, usable.2, usable.3) refl
  count_down_lem (suc (suc n)) w =
      let other : (suc (suc n) == 1) ≡ false = ground arith in
      rw (usable.0, usable.1, usable.2, other)
        (ap
          (λ (k : ℕ).
            done (true, some (record { cv = some (record { is_valid = true }); count = k }), false)
              w)
          (omega arith))

  answer_eq :
      (m n a b : ℕ) (w : World)
      → m ≡ n
      → a ≡ b
      → ◌≡◌ {A = Run (Option KCountdownLatch × ℕ)} (done (latch m, a) w) (done (latch n, b) w)
  answer_eq m n a b w e f =
      ap (λ (t : ℕ). done (latch t, a) w) e ∙ ap (λ (t : ℕ). done (latch n, t) w) f

  -- Of k calls that count down a latch with count n, the first n lower the count by 1 each, the
  -- others leave it at 0, and exactly the one that reaches 0 notifies. The pthread calls succeed on
  -- the latch's condition variable.
  pub count_downs_lem :
      (k n : ℕ) (w : World)
      → count_downs pthread k (latch n) w ≡ done (latch (n - k), one_if (ltb 0 n && leb n k)) w
  count_downs_lem zero n w = answer_eq n (n - 0) 0 _ w (omega arith) (ground arith)
  count_downs_lem (suc k) n w =
      rw (count_down_lem n w, count_downs_lem k (n - 1) w)
        (answer_eq (n - 1 - k) (n - suc k) _ _ w (omega arith) (ground arith))
