-- ===== src/KWorkerPool/Ready.antt =====
-- Which threads of kworker_pool.c have a step that is up to them.
use k_h.Base.{
  ℕ, ◌≡◌, refl, Bool, true, false, not, ◌||◌, Option, none, some, arith, ap, ◌⊎◌, inl, inr, ltb,
  Bool-cases,
}
use k_h.KWorkerPool.{KWorkerPool, Place, is_empty, cv_predicate, thread_step, System}
use k_h.KWorkerPool.Place.{
  head, testing, leaving, finished, outside, notifying, broadcasting, joining,
}
use k_h.KWorkerPool.Lock.{holds, IsLocked}
use k_h.KWorkerPool.Tasks.{is_worker, Accounts}
use k_h.KWorkerPool.Wakeups.{is_sleeping, alarm, alerts, Heeds}
use k_h.KWorkerPool.Closes.{past_close, Closes}

abbrev pub is_some {ℓ} : {A : Type ℓ} → Option A → Bool
is_some none = false
is_some (some a) = true

abbrev pub is_finished : Place → Bool
is_finished finished = true
is_finished _ = false

-- Whether a thread at this place has a step that is up to it alone, to notify, or to join a worker
-- that has finished.
abbrev pub ready : System → ℕ → Place → Bool
ready s i notifying = true
ready s i broadcasting = true
ready s i (joining index) = not (ltb index s.pool.workers) || is_finished (s.place index)
ready s i place = is_some (thread_step i s.pool place)

holds-ready : (s : System) (i : ℕ) (place : Place) → holds place ≡ true → ready s i place ≡ true
unfolding thread_step
holds-ready s i (testing r) h = elim (Bool-cases (cv_predicate s.pool)) [
  | inl e ↦ ground (arith, e)
  | inr e ↦ ground (arith, e)
]
holds-ready s i (leaving r none) h = refl
holds-ready s i (leaving r (some t)) h = refl
holds-ready s i place h = ground arith

free-ready :
    (s : System) (i : ℕ) (place : Place)
    → s.pool.lock ≡ none
    → (alerts place ≡ true) ⊎ (alarm place ≡ true)
    → ready s i place ≡ true
unfolding thread_step
free-ready s i (head true) e h = ground arith
free-ready s i (head false) e h = refl
free-ready s i (testing r) e h = holds-ready s i (testing r) refl
free-ready s i (leaving r t) e h = holds-ready s i (leaving r t) refl
free-ready s i place e h = ground arith

-- Whether there is something to do for a worker: to see the shutdown, or a task.
abbrev pub needed : KWorkerPool → Bool
needed pool = pool.shutdown || not (is_empty pool.tasks)

-- Whether a thread has not come to an end.
abbrev pub is_busy : Place → Bool
is_busy finished = false
is_busy outside = false
is_busy _ = true

abbrev Ready : System → Type 0
Ready s = (j : ℕ) × (ready s j (s.place j) ≡ true)

lock-cases : (pool : KWorkerPool) → ((k : ℕ) × (pool.lock ≡ some k)) ⊎ (pool.lock ≡ none)
lock-cases pool = go pool.lock refl
  where
    go :
        (lock : Option ℕ) → pool.lock ≡ lock → ((k : ℕ) × (pool.lock ≡ some k)) ⊎ (pool.lock ≡ none)
    go none e = inr e
    go (some k) e = inl (k, e)

awake-alerts :
    (place : Place)
    → is_worker place ≡ true
    → is_busy place ≡ true
    → (alerts place ≡ true) ⊎ (is_sleeping place ≡ true)
awake-alerts (head r) worker busy = inl refl
awake-alerts (leaving r t) worker busy = inl refl
awake-alerts place worker busy = ground arith

running-is_busy :
    (place : Place) → is_worker place ≡ true → is_finished place ≡ false → is_busy place ≡ true
running-is_busy (head r) worker running = refl
running-is_busy place worker running = ground arith

-- A thread that is no worker waits for the lock only, or for a worker that it joins.
caller-ready :
    (s : System) (i : ℕ) (place : Place)
    → s.pool.lock ≡ none
    → is_worker place ≡ false
    → is_busy place ≡ true
    → (ready s i place ≡ true)
      ⊎ ((k : ℕ) × (place ≡ joining k)
          × (ltb k s.pool.workers ≡ true)
          × (is_finished (s.place k) ≡ false))
unfolding thread_step
caller-ready s i (head r) e idle busy = absurd cc
caller-ready s i (leaving r t) e idle busy = absurd cc
caller-ready s i (joining k) e idle busy = elim (Bool-cases (ltb k s.pool.workers)) [
  | inl below ↦ elim (Bool-cases (is_finished (s.place k))) [
    | inl over ↦ inl (ground (arith, over, below))
    | inr running ↦ inr (k, refl, below, running)
  ]
  | inr above ↦ inl (ground (arith, above))
]
caller-ready s i place e idle busy = inl (ground arith)

module _ {n : ℕ} (s : System) (locked : IsLocked s) (a : Accounts n s) (v : Heeds n s)
    (c : Closes n s) where
  worker-Ready :
      (i : ℕ)
      → s.pool.lock ≡ none
      → is_worker (s.place i) ≡ true
      → is_busy (s.place i) ≡ true
      → needed s.pool ≡ true
      → Ready s
  worker-Ready i free worker busy need = elim (Bool-cases s.pool.shutdown) [
    | inl shut ↦ elim (awake-alerts (s.place i) worker busy) [
      | inl alert ↦ (i, free-ready s i (s.place i) free (inl alert))
      | inr asleep ↦
          let (j, found) = v.roused i asleep shut in
          (j, free-ready s j (s.place j) free (inr found))
    ]
    | inr running ↦
        let role = a.roles i in
        let (j, found) = v.alert (ground (arith, need)) running (ground (arith, role)) in
        (j, free-ready s j (s.place j) free (inl found))
  ]

  joined-is_worker : (k : ℕ) → ltb k s.pool.workers ≡ true → is_worker (s.place k) ≡ true
  joined-is_worker k below = ground (arith, a.roles k, c.bound)

  pub busy-Ready :
      (i : ℕ)
      → is_busy (s.place i) ≡ true
      → (is_worker (s.place i) ≡ true → needed s.pool ≡ true)
      → Ready s
  busy-Ready i busy need = elim (lock-cases s.pool) [
    | inl (k, e) ↦ (k, holds-ready s k (s.place k) (locked.holder k e))
    | inr free ↦ elim (Bool-cases (is_worker (s.place i))) [
      | inl worker ↦ worker-Ready i free worker busy (need worker)
      | inr other ↦ elim (caller-ready s i (s.place i) free other busy) [
        | inl now ↦ (i, now)
        | inr (k, e, below, running) ↦
            let role = joined-is_worker k below in
            worker-Ready k free role (running-is_busy (s.place k) role running)
              (ground (arith, c.shut i (ap past_close e)))
      ]
    ]
  ]
