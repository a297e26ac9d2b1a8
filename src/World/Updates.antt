-- ===== src/World/Updates.antt =====
-- What a test says of the values of a map of which one was replaced.
use k_h.Base.{ℕ, ◌≡◌, ◌≢◌, Bool, true, arith}
use k_h.World.{update}

module _ {A : Type 0} (test : A → Bool) (f : ℕ → A) (i : ℕ) (a : A) where
  pub update_here : test a ≡ true → test (update f i a i) ≡ true
  update_here h = ground arith

  pub update_keeps :
      (k : ℕ)
      → test (f k) ≡ true
      → (test (f i) ≡ true → test a ≡ true)
      → test (update f i a k) ≡ true
  update_keeps k h keeps = ground arith

  pub update_gives :
      (test a ≡ true → test (f i) ≡ true)
      → (k : ℕ) → test (update f i a k) ≡ true
      → test (f k) ≡ true
  update_gives gives k h = ground arith

  pub update_elsewhere : (k : ℕ) → k ≢ i → test (f k) ≡ true → test (update f i a k) ≡ true
  update_elsewhere k other h = ground arith
