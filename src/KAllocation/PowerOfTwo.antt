-- ===== src/KAllocation/PowerOfTwo.antt =====
-- `KAllocationNextPowerOfTwoSize` of kallocation.c.
use native.Mathlib.Nat.{
  div-div-eq-div-mul, mul_comm, div-one, pow-suc, one-le-pow, pow-le-pow_right,
}
use native.Mathlib.Decide.{dec_lt}
use mathlib.Core.Path.{subst}
use k_h.Base.{ℕ, zero, suc, ◌+◌, ◌-◌, ◌*◌, ◌/◌, ◌%◌, ◌^◌, ◌≤◌, ◌<◌, ◌≡◌, ◌↔◌, refl, arith, ap, ◌∙◌}
use k_h.KAllocation.{fill, smear, next_power_of_two_size}
use k_h.KAllocation.Bits.{bit_or-half, bit_or-mod_two}

div_comm : (x m n : ℕ) → x / m / n ≡ x / n / m
div_comm x m n = rw (div-div-eq-div-mul, div-div-eq-div-mul, mul_comm m n)

abbrev Halves : (ℕ → ℕ) → Type 0
Halves f = (x : ℕ) → f x / 2 ≡ f (x / 2)

fill-Halves : (k : ℕ) (f : ℕ → ℕ) → Halves f → Halves (λ x. fill k (f x))
unfolding fill
fill-Halves k f h x = rw (bit_or-half, div_comm (f x) (2 ^ k) 2, h x)

Halves-pow : (f : ℕ → ℕ) → Halves f → (n x : ℕ) → f x / 2 ^ n ≡ f (x / 2 ^ n)
Halves-pow f h zero x = rw (div-one, div-one)
Halves-pow f h (suc n) x =
    rw (pow-suc, ← div-div-eq-div-mul, ← div-div-eq-div-mul, Halves-pow f h n x, h (x / 2 ^ n))

-- The lowest bit of `f x` tells whether one of the `w` lowest bits of `x` is set, and the bits above
-- it are found by halving `x`.
record Covers (w : ℕ) (f : ℕ → ℕ) : Type 0 where
  halves : Halves f
  lowest : (x : ℕ) → (f x % 2 ≡ 0) ↔ (x % 2 ^ w ≡ 0)

fill-Covers :
    (w v : ℕ) (f : ℕ → ℕ)
    → ((x : ℕ) → ((x % 2 ^ w ≡ 0) × (x / 2 ^ w % 2 ^ w ≡ 0)) ↔ (x % 2 ^ v ≡ 0))
    → Covers w f
    → Covers v (λ x. fill w (f x))
unfolding fill
fill-Covers w v f split c = record {
  halves = fill-Halves w f c.halves;
  lowest = λ x.
      rw (bit_or-mod_two, Halves-pow f c.halves w x)
        (ground (arith, split x, c.lowest x, c.lowest (x / 2 ^ w)));
}

smear-Covers : Covers 32 smear
unfolding smear
smear-Covers =
    let at_1 : Covers 1 (λ x. x) = record { halves = λ x. refl; lowest = λ x. omega arith } in
    let at_2 = fill-Covers 1 2 _ (λ x. omega arith) at_1 in
    let at_4 = fill-Covers 2 4 _ (λ x. omega arith) at_2 in
    let at_8 = fill-Covers 4 8 _ (λ x. omega arith) at_4 in
    let at_16 = fill-Covers 8 16 _ (λ x. omega arith) at_8 in
    fill-Covers 16 32 _ (λ x. omega arith) at_16

-- `x` has its highest bit at `k`, and `smear x` has that bit and all below it.
record Top (x k : ℕ) : Type 0 where
  above : 2 ^ k ≤ x
  below : x < 2 * 2 ^ k
  ones : smear x + 1 ≡ 2 * 2 ^ k

smear-odd : (x : ℕ) → 0 < x → x < 2 ^ 32 → smear x % 2 ≡ 1
smear-odd x pos lt = ground (arith, (smear-Covers.lowest x).0)

smear_one : smear 1 ≡ 1
unfolding smear fill
smear_one = refl

Top-one : Top 1 0
Top-one = record { above = omega arith; below = omega arith; ones = omega (arith, smear_one) }

Top-double : (x k : ℕ) → x < 2 ^ 32 → Top (x / 2) k → Top x (suc k)
Top-double x k lt t =
    let pow : 2 ^ suc k ≡ 2 ^ k * 2 = pow-suc 2 k in
    let one : 1 ≤ 2 ^ k = one-le-pow k 2 (omega arith) in
    record {
      above = omega (arith, t.above);
      below = omega (arith, t.below);
      ones = omega (arith, t.ones, t.above, smear-Covers.halves x, smear-odd x (omega arith) lt);
    }

smear-Top : (n x : ℕ) → n ≤ 32 → x < 2 ^ n → 0 < x → (k : ℕ) × (k < n) × Top x k
smear-Top zero x h lt pos = absurd (omega arith)
smear-Top (suc n) x h lt pos =
    let pow : 2 ^ suc n ≡ 2 ^ n * 2 = pow-suc 2 n in
    let one : 1 ≤ 2 ^ n = one-le-pow n 2 (omega arith) in
    let small : 2 ^ suc n ≤ 2 ^ 32 = pow-le-pow_right (omega arith) h in
    elim (dec_lt x 2) [
      | yes p ↦ (0, omega arith, subst (λ y. Top y 0) (omega arith) Top-one)
      | no p ↦
          let (k, below, t) = smear-Top n (x / 2) (omega arith) (omega arith) (omega arith) in
          (suc k, omega arith, Top-double x k (omega arith) t)
    ]

at_one : next_power_of_two_size 1 ≡ 1
unfolding next_power_of_two_size smear fill
at_one = refl

-- For a size from 1 to 2 ^ 31 the result is a power of two, at least the size and less than twice
-- the size.
pub next_power_of_two_size-IsLeast :
    (x : ℕ)
    → 0 < x
    → x ≤ 2 ^ 31
    → (k : ℕ) × (k ≤ 31) × (next_power_of_two_size x ≡ 2 ^ k) × (x ≤ 2 ^ k) × (2 ^ k < 2 * x)
unfolding next_power_of_two_size
next_power_of_two_size-IsLeast x pos fits = elim (dec_lt x 2) [
  | yes p ↦
      let one : 1 ≡ x = omega arith in
      (
        0,
        omega arith,
        subst (λ y. next_power_of_two_size y ≡ 1) one at_one,
        omega arith,
        omega arith,
      )
  | no p ↦
      let (k, below, t) = smear-Top 31 (x - 1) (omega arith) (omega arith) (omega arith) in
      let pow : 2 ^ suc k ≡ 2 ^ k * 2 = pow-suc 2 k in
      let small : 2 ^ suc k ≤ 2 ^ 31 = pow-le-pow_right (omega arith) below in
      (suc k, omega arith, ground (arith, t.ones), omega (arith, t.below), omega (arith, t.above))
]

-- For a 32-bit size past 2 ^ 31 the result wraps around to 0.
pub next_power_of_two_size_wraps : (x : ℕ) → 2 ^ 31 < x → x < 2 ^ 32 → next_power_of_two_size x ≡ 0
unfolding next_power_of_two_size
next_power_of_two_size_wraps x big fits =
    let (k, below, t) = smear-Top 32 (x - 1) (omega arith) (omega arith) (omega arith) in
    elim (dec_lt k 31) [
      | yes p ↦
          let small : 2 ^ suc k ≤ 2 ^ 31 = pow-le-pow_right (omega arith) p in
          let pow : 2 ^ suc k ≡ 2 ^ k * 2 = pow-suc 2 k in absurd (omega (arith, t.below))
      | no p ↦
          let e : k ≡ 31 = omega arith in
          let top : 2 ^ k ≡ 2 ^ 31 = ap (λ (j : ℕ). 2 ^ j) e in ground (arith, t.ones)
    ]

-- The exponent is determined by the bounds.
pow_unique : (j k : ℕ) → 2 ^ k ≤ 2 ^ j → 2 ^ j < 2 * 2 ^ k → j ≡ k
pow_unique j k lo hi = elim (dec_lt j k) [
  | yes p ↦
      let step : 2 ^ suc j ≤ 2 ^ k = pow-le-pow_right (omega arith) p in
      let pow : 2 ^ suc j ≡ 2 ^ j * 2 = pow-suc 2 j in absurd (omega (arith, one-le-pow j 2))
  | no p ↦ elim (dec_lt k j) [
    | yes q ↦
        let step : 2 ^ suc k ≤ 2 ^ j = pow-le-pow_right (omega arith) q in
        let pow : 2 ^ suc k ≡ 2 ^ k * 2 = pow-suc 2 k in absurd (omega arith)
    | no q ↦ omega arith
  ]
]

-- A power of two up to 2 ^ 31 is its own result.
pub next_power_of_two_size_pow : (k : ℕ) → k ≤ 31 → next_power_of_two_size (2 ^ k) ≡ 2 ^ k
next_power_of_two_size_pow k h =
    let one : 1 ≤ 2 ^ k = one-le-pow k 2 (omega arith) in
    let bound : 2 ^ k ≤ 2 ^ 31 = pow-le-pow_right (omega arith) h in
    let (j, _, e, lo, hi) = next_power_of_two_size-IsLeast (2 ^ k) (omega arith) (omega arith) in
    e ∙ ap (λ (i : ℕ). 2 ^ i) (pow_unique j k lo hi)
