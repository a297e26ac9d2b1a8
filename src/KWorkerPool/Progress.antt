-- ===== src/KWorkerPool/Progress.antt =====
-- No deadlock in kworker_pool.c: as long as there is something to do, some thread can move.
use k_h.Base.{
  ℕ, zero, suc, ◌<◌, ◌≡◌, refl, Bool, true, false, Option, none, some, arith, ap, ◌∙◌, ◌⊎◌, inl,
  inr, ltb, Bool-cases,
}
use k_h.KWorkerPool.{KWorkerPool, Place, thread_step, wake, System, Step, Reach}
use k_h.KWorkerPool.Place.{head, sleeping, leaving, finished, notifying, broadcasting, joining}
use k_h.KWorkerPool.Lock.{Reach-IsLocked}
use k_h.KWorkerPool.Tasks.{is_worker, Accounts, Reach-Accounts}
use k_h.KWorkerPool.Wakeups.{is_sleeping}
use k_h.KWorkerPool.Wakeups.Kept.{Reach-Heeds}
use k_h.KWorkerPool.Closes.{Reach-Closes}
use k_h.KWorkerPool.Ready.{is_some, is_finished, ready, needed, is_busy, busy-Ready}

-- Whether a step is no new call, and no wake-up without a reason.
abbrev pub by_itself : {s t : System} → Step s t → Bool
by_itself (Step.post i task e) = false
by_itself (Step.shut i e) = false
by_itself (Step.spurious i r e) = false
by_itself _ = true

abbrev pub Next : System → Type 0
Next s = (t : System) × (st : Step s t) × (by_itself st ≡ true)

abbrev Dozing : System → ℕ → Type 0
Dozing s j = (r : Bool) × (s.place j ≡ sleeping r)

awake_or_not : (s : System) (j : ℕ) → Dozing s j ⊎ (is_sleeping (s.place j) ≡ false)
awake_or_not s j = go (s.place j) refl
  where
    go : (place : Place) → s.place j ≡ place → Dozing s j ⊎ (is_sleeping (s.place j) ≡ false)
    go (sleeping r) e = inl (r, e)
    go (head r) e = inr (ap is_sleeping e)
    go place e = inr (ap is_sleeping e)

first_asleep :
    (n : ℕ) (s : System)
    → ((j : ℕ) × Dozing s j) ⊎ ((j : ℕ) → j < n → is_sleeping (s.place j) ≡ false)
first_asleep zero s = inr (λ j below. absurd (omega arith))
first_asleep (suc n) s = elim (first_asleep n s) [
  | inl found ↦ inl found
  | inr nobody ↦ elim (awake_or_not s n) [
    | inl found ↦ inl (n, found)
    | inr awake ↦ inr (λ j below. ground (arith, awake, nobody j))
  ]
]

wake-awake : (place : Place) → is_sleeping place ≡ false → wake place ≡ place
wake-awake (sleeping r) h = absurd cc
wake-awake place h = refl

worker_of_sleeping : (place : Place) → is_sleeping place ≡ true → is_worker place ≡ true
worker_of_sleeping (sleeping r) h = refl
worker_of_sleeping place h = ground arith

pub run-Next : (s : System) (i : ℕ) → is_some (thread_step i s.pool (s.place i)) ≡ true → Next s
run-Next s i h = go (thread_step i s.pool (s.place i)) refl h
  where
    go :
        (result : Option (KWorkerPool × Place))
        → thread_step i s.pool (s.place i) ≡ result
        → is_some result ≡ true
        → Next s
    go none e h = absurd cc
    go (some (pool, place)) e h = (_, Step.run i e, refl)

joined-some :
    (s : System) (i index : ℕ)
    → s.place i ≡ joining index
    → ltb index s.pool.workers ≡ false
    → is_some (thread_step i s.pool (s.place i)) ≡ true
unfolding thread_step
joined-some s i index e above = ap (λ p. is_some (thread_step i s.pool p)) e ∙ ground (arith, above)

is_finished-eq : (place : Place) → is_finished place ≡ true → place ≡ finished
is_finished-eq (head r) h = absurd cc
is_finished-eq finished h = refl
is_finished-eq place h = absurd cc

module _ {n : ℕ} (s : System) (a : Accounts n s) where
  nobody_sleeps :
      ((j : ℕ) → j < n → is_sleeping (s.place j) ≡ false)
      → (j : ℕ) → is_sleeping (s.place j) ≡ false
  nobody_sleeps nobody j = elim (Bool-cases (is_sleeping (s.place j))) [
    | inl asleep ↦
        let role = worker_of_sleeping (s.place j) asleep in
        nobody j (ground (arith, role, a.roles j))
    | inr awake ↦ awake
  ]

  ready-Next : (i : ℕ) (place : Place) → s.place i ≡ place → ready s i place ≡ true → Next s
  ready-Next i notifying e h = elim (first_asleep n s) [
    | inl (j, (r, f)) ↦ (_, Step.notify i j r e f, refl)
    | inr nobody ↦
        (_, Step.notify_nobody i e (λ j. wake-awake (s.place j) (nobody_sleeps nobody j)), refl)
  ]
  ready-Next i broadcasting e h = (_, Step.notify_all i e, refl)
  ready-Next i (joining index) e h = elim (Bool-cases (ltb index s.pool.workers)) [
    | inl below ↦ (
      _,
      Step.join i index e (ground (arith, below))
          (is_finished-eq (s.place index) (ground (arith, below, h))),
      refl,
    )
    | inr above ↦ run-Next s i (joined-some s i index e above)
  ]
  ready-Next i (head r) e h = run-Next s i (ap (λ p. is_some (thread_step i s.pool p)) e ∙ h)
  ready-Next i (leaving r t) e h = run-Next s i (ap (λ p. is_some (thread_step i s.pool p)) e ∙ h)
  ready-Next i place e h = run-Next s i (ap (λ p. is_some (thread_step i s.pool p)) e ∙ h)

-- No deadlock: in every reachable state with a thread in a call, or with a worker that has not
-- finished while a task is queued or the pool is shut down, some step follows that is neither a new
-- call nor a wake-up without a reason.
pub Reach-Next :
    {n : ℕ} {s : System}
    → Reach n s
    → (i : ℕ) → is_busy (s.place i) ≡ true
    → (is_worker (s.place i) ≡ true → needed s.pool ≡ true)
    → (t : System) × (st : Step s t) × (by_itself st ≡ true)
Reach-Next {s = s} r i busy need =
    let a = Reach-Accounts r in
    let (j, can) = busy-Ready s (Reach-IsLocked r) a (Reach-Heeds r) (Reach-Closes r) i busy need in
    ready-Next s a j (s.place j) refl can
