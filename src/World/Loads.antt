-- ===== src/World/Loads.antt =====
-- Sums over the first threads.
use k_h.Base.{
  ℕ, zero, suc, ◌+◌, ◌*◌, ◌≤◌, ◌<◌, ◌≡◌, refl, arith, ap, ltb, Bool-cases, inl, inr, ◌==◌, sym,
}
use k_h.World.{update}

-- What the first `k` threads weigh, and what becomes of it when one of them moves.
module _ {A : Type 0} (w : A → ℕ) where
  abbrev pub load : (k : ℕ) (place : ℕ → A) → ℕ
  load zero place = 0
  load (suc k) place = w (place k) + load k place

  module _ (place : ℕ → A) (i : ℕ) (next : A) where
    pub load-above : (k : ℕ) → k ≤ i → load k place ≡ load k (update place i next)
    load-above zero outside = refl
    load-above (suc k) outside = let others = load-above k (omega arith) in ground (arith, others)

    pub load-below :
        (k : ℕ) → i < k → w next + load k place ≡ w (place i) + load k (update place i next)
    load-below zero inside = absurd (omega arith)
    load-below (suc k) inside = elim (Bool-cases (ltb i k)) [
      | inr last ↦ let others = load-above k (ground (arith, last)) in ground (arith, others, last)
      | inl early ↦
          let others = load-below k (ground (arith, early)) in ground (arith, others, early)
    ]

module _ {A : Type 0} (w : A → ℕ) where
  pub load_le : (n : ℕ) (f g : ℕ → A) → ((i : ℕ) → w (f i) ≤ w (g i)) → load w n f ≤ load w n g
  load_le zero f g h = omega arith
  load_le (suc n) f g h = omega (arith, load_le n f g h, h n)

  pub load_bound : (n k : ℕ) (f : ℕ → A) → ((i : ℕ) → w (f i) ≤ k) → load w n f ≤ k * n
  load_bound zero k f h = omega arith
  load_bound (suc n) k f h = omega (arith, load_bound n k f h, h n)

  pub load_zero : (n : ℕ) (f : ℕ → A) → ((i : ℕ) → i < n → w (f i) ≡ 0) → load w n f ≡ 0
  load_zero zero f h = refl
  load_zero (suc n) f h =
      omega (arith, load_zero n f (λ i below. h i (omega (arith, below))), h n (omega arith))

  pub load_mono : (j k : ℕ) (f : ℕ → A) → j ≤ k → load w j f ≤ load w k f
  load_mono j zero f h = let same : j ≡ 0 = omega arith in rw same (omega arith)
  load_mono j (suc k) f h = elim (Bool-cases (ltb j (suc k))) [
    | inl early ↦ omega (arith, load_mono j k f (ground (arith, early)))
    | inr last ↦ let same : j ≡ suc k = ground (arith, last) in rw same (omega arith)
  ]

  -- Threads that weigh nothing may be left out.
  pub load_extend :
      (j d : ℕ) (f : ℕ → A) → ((i : ℕ) → j ≤ i → w (f i) ≡ 0) → load w (j + d) f ≡ load w j f
  load_extend j zero f h = ap (λ k. load w k f) (omega arith)
  load_extend j (suc d) f h =
      let next : j + suc d ≡ suc (j + d) = omega arith in
      rw next (omega (arith, h (j + d) (omega arith), load_extend j d f h))

  -- Where the threads weigh something, one of them does.
  pub load_pos : (k : ℕ) (f : ℕ → A) → 0 < load w k f → (i : ℕ) × (i < k) × (0 < w (f i))
  load_pos zero f h = absurd (omega arith)
  load_pos (suc k) f h = elim (Bool-cases (ltb 0 (w (f k)))) [
    | inl here ↦ (k, omega arith, ground (arith, here))
    | inr not_here ↦
        let (i, below, found) = load_pos k f (ground (arith, not_here)) in
        (i, omega (arith, below), found)
  ]

  load_at : (i k : ℕ) (f : ℕ → A) → i < k → w (f i) ≤ load w k f
  load_at i zero f h = absurd (omega arith)
  load_at i (suc k) f h = elim (Bool-cases (i == k)) [
    | inl here ↦ let same : i ≡ k = ground arith in rw same (omega arith)
    | inr there ↦ omega (arith, load_at i k f (ground (arith, there)))
  ]

  -- Two threads weigh what they weigh.
  pub load_two : (i j k : ℕ) (f : ℕ → A) → i < j → j < k → w (f i) + w (f j) ≤ load w k f
  load_two i j zero f below h = absurd (omega arith)
  load_two i j (suc k) f below h = elim (Bool-cases (j == k)) [
    | inl here ↦
        let same : j ≡ k = ground arith in
        let first = load_at i j f below in rw (sym same) (omega (arith, first))
    | inr there ↦ omega (arith, load_two i j k f below (ground (arith, there)))
  ]
