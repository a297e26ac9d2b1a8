-- ===== src/World/Returns.antt =====
-- Total correctness of a command: it returns, and its result and final state are as described.
use k_h.Base.{◌≡◌, refl}
use k_h.World.{World, Run, done, Cmd, and_then}

pub data Returns {A : Type 0} (P : A → World → Type 0) : Run A → Type 0 where
  returns : {a : A} {w : World} → P a w → Returns P (done a w)

module _ {A : Type 0} {P : A → World → Type 0} where
  pub bind :
      {B : Type 0} {Q : B → World → Type 0} {r : Run A} {k : A → Cmd B}
      → Returns P r
      → ((a : A) (w : World) → P a w → Returns Q (k a w))
      → Returns Q (and_then r k)
  bind (returns p) next = next _ _ p

  -- What the command returns, named.
  pub reached : {r : Run A} → Returns P r → (a : A) × (w : World) × (r ≡ done a w) × P a w
  reached (returns p) = (_, _, refl, p)

  pub mono :
      {Q : A → World → Type 0} {r : Run A}
      → Returns P r
      → ((a : A) (w : World) → P a w → Q a w)
      → Returns Q r
  mono (returns p) weaken = returns (weaken _ _ p)
