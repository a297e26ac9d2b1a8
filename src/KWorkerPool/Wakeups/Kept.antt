-- ===== src/KWorkerPool/Wakeups/Kept.antt =====
-- Every step of kworker_pool.c keeps who wakes whom.
use k_h.Base.{ℕ, suc, ◌<◌, ◌≡◌, refl, Bool, true, false, some, arith, ap, sym, ◌∙◌, inl, inr}
use native.Mathlib.Decide.{ℕ_discrete}
use k_h.World.{update}
use k_h.KWorkerPool.{
  KWorkerPool, Place, is_empty, cv_predicate, thread_step, wake, System, Step, Reach,
}
use k_h.KWorkerPool.Place.{sleeping, woken, outside, wants_post, wants_close, broadcasting, joining}
use k_h.World.Updates.{update_here, update_keeps, update_gives, update_elsewhere}
use k_h.KWorkerPool.Lock.{IsLocked, Reach-IsLocked}
use k_h.KWorkerPool.Tasks.{Accounts, Reach-Accounts}
use k_h.KWorkerPool.Wakeups.{
  is_sleeping, stopping, alarm, is_taking, alerts, Heeds, step_shutdown, step_heeded, step_proceeds,
  step_quiet, step_sleeps, step_alarm, step_alert, sleeping-wake, stopping-wake, is_taking-wake,
  alerts-wake, worker-alerts, taking-holds, not_owner,
}

module _ {n : ℕ} (s : System) (v : Heeds n s) where
  -- A change of places where nobody starts to take, stop or sleep, and the alert stay so.
  moved-Heeds :
      (place : ℕ → Place)
      → ((i : ℕ) → stopping (place i) ≡ true → stopping (s.place i) ≡ true)
      → ((i : ℕ) → is_taking (place i) ≡ true → is_taking (s.place i) ≡ true)
      → ((i : ℕ)
          → is_sleeping (place i) ≡ true
          → s.pool.shutdown ≡ true
          → (j : ℕ) × (alarm (place j) ≡ true))
      → (is_empty s.pool.tasks ≡ false
          → s.pool.shutdown ≡ false
          → 0 < n
          → (j : ℕ) × (alerts (place j) ≡ true))
      → Heeds n (record s { place = place })
  moved-Heeds place stays takes sleeps wakes = record {
    heeded = λ i h. v.heeded i (stays i h);
    proceeds = λ i h. v.proceeds i (takes i h);
    roused = sleeps;
    alert = wakes;
  }

  run-Heeds :
      (i : ℕ) {pool : KWorkerPool} {place : Place}
      → IsLocked s
      → thread_step i s.pool (s.place i) ≡ some (pool, place)
      → Heeds n (record { pool = pool; place = update s.place i place })
  unfolding cv_predicate
  run-Heeds i {pool} {place} locked e = record {
    heeded = λ j h. ground (
      arith,
      step_shutdown i s.pool (s.place i) e,
      step_heeded i s.pool (s.place i) e,
      v.heeded j,
      v.heeded i,
    );
    proceeds = λ j h. elim (ℕ_discrete j i) [
      | yes same ↦ step_proceeds i s.pool (s.place i) e (ground (arith, same))
      | no other ↦
          let taking_j : is_taking (s.place j) ≡ true = ground arith in
          let quiet =
            step_quiet i s.pool (s.place i) e
              (not_owner locked (λ k. other (sym k)) (taking-holds (s.place j) taking_j)) in
          ground (arith, v.proceeds j taking_j, quiet.0, quiet.1)
    ];
    roused = λ j h shut. elim (step_shutdown i s.pool (s.place i) e) [
      | inl same ↦
          let sleeping_j : is_sleeping (s.place j) ≡ true =
            ground (arith, step_sleeps i s.pool (s.place i) e) in
          let (k, found) = v.roused j sleeping_j (sym same ∙ shut) in
          (k, update_keeps alarm s.place i place k found (step_alarm i s.pool (s.place i) e))
      | inr now ↦ (i, update_here alarm s.place i place now.1)
    ];
    alert = λ some_task running some_worker.
        elim (step_alert i s.pool (s.place i) e some_task running) [
          | inl alert ↦ (i, update_here alerts s.place i place alert)
          | inr (inl before) ↦
              let (k, found) = v.alert before.0 before.1 some_worker in
              (
                k,
                update_keeps alerts s.place i place k found
                    (λ awake. let asleep = before.2 in absurd cc),
              )
          | inr (inr late) ↦
              absurd (ground (arith, v.heeded i late, step_shutdown i s.pool (s.place i) e))
        ];
  }

  -- One thread changes its place, and does not fall asleep.
  placed-Heeds :
      (i : ℕ) (place : Place)
      → (stopping place ≡ true → stopping (s.place i) ≡ true)
      → (is_taking place ≡ true → is_taking (s.place i) ≡ true)
      → is_sleeping place ≡ false
      → (alarm (s.place i) ≡ true → alarm place ≡ true)
      → (is_empty s.pool.tasks ≡ false
          → s.pool.shutdown ≡ false
          → 0 < n
          → (j : ℕ) × (alerts (update s.place i place j) ≡ true))
      → Heeds n (record s { place = update s.place i place })
  placed-Heeds i place stays takes awake keeps wakes =
      moved-Heeds _ (λ j h. update_gives stopping s.place i place stays j h)
        (λ j h. update_gives is_taking s.place i place takes j h)
        (λ j h shut.
          let (k, found) =
            v.roused j (update_gives is_sleeping s.place i place (λ asleep. absurd cc) j h) shut in
          (k, update_keeps alarm s.place i place k found keeps))
        wakes

  kept_alert :
      (i : ℕ) (place : Place)
      → (alerts (s.place i) ≡ true → alerts place ≡ true)
      → is_empty s.pool.tasks ≡ false
      → s.pool.shutdown ≡ false
      → 0 < n
      → (j : ℕ) × (alerts (update s.place i place j) ≡ true)
  kept_alert i place keeps some_task running some_worker =
      let (k, found) = v.alert some_task running some_worker in
      (k, update_keeps alerts s.place i place k found keeps)

  -- A worker that is not asleep is alert before the shutdown.
  first_alert :
      Accounts n s
      → is_sleeping (s.place 0) ≡ false
      → s.pool.shutdown ≡ false
      → 0 < n
      → alerts (s.place 0) ≡ true
  first_alert a awake running some_worker =
      elim (worker-alerts (s.place 0) (ground (arith, a.roles 0))) [
        | inl alert ↦ alert
        | inr (inl asleep) ↦ absurd cc
        | inr (inr late) ↦ let shut = v.heeded 0 late in absurd cc
      ]

module _ {n : ℕ} (s : System) (v : Heeds n s) where
  spurious-Heeds :
      (i : ℕ) (r : Bool) (e : s.place i ≡ sleeping r)
      → Heeds n (record s { place = update s.place i (woken r) })
  spurious-Heeds i r e =
      placed-Heeds s v i (woken r) (λ h. ground (arith, e)) (λ h. absurd cc) refl
        (λ h. ground (arith, e)) (kept_alert s v i (woken r) (λ h. refl))

  all-Heeds :
      (i : ℕ) (e : s.place i ≡ broadcasting)
      → Heeds n (record s { place = update (λ j. wake (s.place j)) i (joining 0) })
  all-Heeds i e =
      let woken_all : ℕ → Place = λ j. wake (s.place j) in
      moved-Heeds s v _
        (λ j h.
          sym (stopping-wake (s.place j))
          ∙ update_gives stopping woken_all i (joining 0) (λ h. absurd cc) j h)
        (λ j h.
          sym (is_taking-wake (s.place j))
          ∙ update_gives is_taking woken_all i (joining 0) (λ h. absurd cc) j h)
        (λ j h shut. absurd (
          let asleep = update_gives is_sleeping woken_all i (joining 0) (λ h. absurd cc) j h in
          let awake = sleeping-wake (s.place j) in cc))
        (λ some_task running some_worker.
          let (k, found) = v.alert some_task running some_worker in
          (
            k,
            update_keeps alerts woken_all i (joining 0) k (alerts-wake (s.place k) found)
                (λ h. ground (arith, e)),
          ))

pub Step-Heeds :
    {n : ℕ} {s t : System} → Step s t → IsLocked s → Accounts n s → Heeds n s → Heeds n t
Step-Heeds {n} {s} (Step.run i e) locked a v = run-Heeds s v i locked e
Step-Heeds {n} {s} (Step.post i task e) locked a v =
    placed-Heeds s v i (wants_post task) (λ h. absurd cc) (λ h. absurd cc) refl
      (λ h. ground (arith, e)) (kept_alert s v i (wants_post task) (λ h. ground (arith, e)))
Step-Heeds {n} {s} (Step.shut i e) locked a v =
    placed-Heeds s v i wants_close (λ h. absurd cc) (λ h. absurd cc) refl (λ h. ground (arith, e))
      (kept_alert s v i wants_close (λ h. ground (arith, e)))
Step-Heeds {n} {s} (Step.spurious i r e) locked a v = spurious-Heeds s v i r e
Step-Heeds {n} {s} (Step.notify i k r e f) locked a v =
    placed-Heeds _ (spurious-Heeds s v k r f) i outside (λ h. absurd cc) (λ h. absurd cc) refl
      (λ h. ground (arith, e, f)) (λ some_task running some_worker. (k, ground (arith, e, f)))
Step-Heeds {n} {s} (Step.notify_nobody i e awake) locked a v =
    placed-Heeds s v i outside (λ h. absurd cc) (λ h. absurd cc) refl (λ h. ground (arith, e))
      (λ some_task running some_worker. (
        0,
        update_elsewhere alerts s.place i outside 0
            (λ same. let role = a.roles i in ground (arith, same, e))
            (first_alert s v a (ap is_sleeping (sym (awake 0)) ∙ sleeping-wake (s.place 0)) running
              some_worker),
      ))
Step-Heeds {n} {s} (Step.notify_all i e) locked a v = all-Heeds s v i e
Step-Heeds {n} {s} (Step.join i k e lt f) locked a v =
    placed-Heeds s v i (joining (suc k)) (λ h. absurd cc) (λ h. absurd cc) refl
      (λ h. ground (arith, e)) (kept_alert s v i (joining (suc k)) (λ h. ground (arith, e)))
Step-Heeds {n} {s} (Step.join_fails i j k other e at lt) locked a v =
    placed-Heeds s v i (joining (suc k)) (λ h. absurd cc) (λ h. absurd cc) refl
      (λ h. ground (arith, e)) (kept_alert s v i (joining (suc k)) (λ h. ground (arith, e)))

pub Reach-Heeds : {n : ℕ} {s : System} → Reach n s → Heeds n s
Reach-Heeds {n} Reach.start = record {
  heeded = λ i h. ground arith;
  proceeds = λ i h. ground arith;
  roused = λ i h shut. absurd cc;
  alert = λ some_task. absurd cc;
}
Reach-Heeds (Reach.later r st) = Step-Heeds st (Reach-IsLocked r) (Reach-Accounts r) (Reach-Heeds r)

-- No wake-up is lost: in every reachable state of a pool with a worker, with a task in the queue
-- and no shutdown, some worker is awake and will look at the queue, or some thread is about to
-- notify one.
pub no_lost_wakeup :
    {n : ℕ} {s : System}
    → Reach n s
    → 0 < n
    → is_empty s.pool.tasks ≡ false
    → s.pool.shutdown ≡ false
    → (j : ℕ) × (alerts (s.place j) ≡ true)
no_lost_wakeup r some_worker some_task running = (Reach-Heeds r).alert some_task running some_worker

-- A worker that sleeps after the shutdown will be woken up: the thread that shuts the pool down
-- has still to notify all.
pub sleeping-alarm :
    {n : ℕ} {s : System}
    → Reach n s
    → (i : ℕ) → is_sleeping (s.place i) ≡ true
    → s.pool.shutdown ≡ true
    → (j : ℕ) × (alarm (s.place j) ≡ true)
sleeping-alarm r i asleep shut = (Reach-Heeds r).roused i asleep shut
