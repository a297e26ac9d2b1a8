-- ===== src/KAllocation/Bits.antt =====
-- The lowest binary digit of `a | b`, and what is left above it.
use Prim.Native.Nat.{digits, bit_or-bitwise}
use k_h.Base.{ℕ, zero, suc, ◌+◌, ◌*◌, ◌/◌, ◌%◌, ◌≤◌, ◌≡◌, max, bit_or, refl, arith, ap, sym, ◌∙◌}

-- `a | b` as the library defines it, on `n` rounds.
abbrev or_rounds : ℕ → ℕ → ℕ → ℕ
or_rounds n a b = digits (λ y. y) max n a b

-- Rounds beyond the first operand's value change nothing.
enough_rounds : (n a b m : ℕ) → a ≤ m → a ≤ n → or_rounds m a b ≡ or_rounds n a b
enough_rounds zero zero b zero p q = refl
enough_rounds zero zero b (suc m) p q = refl
enough_rounds (suc n) zero b zero p q = refl
enough_rounds (suc n) zero b (suc m) p q = refl
enough_rounds zero (suc a) b m p q = absurd (omega arith)
enough_rounds (suc n) (suc a) b zero p q = absurd (omega arith)
enough_rounds (suc n) (suc a) b (suc m) p q =
    ap (λ (t : ℕ). t * 2 + max (suc a % 2) (b % 2))
      (enough_rounds n (suc a / 2) (b / 2) m (omega arith) (omega arith))

bit_or_digits : (a b : ℕ) → bit_or a b ≡ bit_or (a / 2) (b / 2) * 2 + max (a % 2) (b % 2)
bit_or_digits zero b = simp bit_or-bitwise (omega arith)
bit_or_digits (suc a) b =
    bit_or-bitwise (suc a) b
    ∙ sym (
        simp bit_or-bitwise (
          ap (λ (t : ℕ). t * 2 + max (suc a % 2) (b % 2))
            (enough_rounds a (suc a / 2) (b / 2) (suc a / 2) (omega arith) (omega arith))))

pub bit_or-half : (a b : ℕ) → bit_or a b / 2 ≡ bit_or (a / 2) (b / 2)
bit_or-half a b = omega (arith, bit_or_digits a b)

pub bit_or-mod_two : (a b : ℕ) → bit_or a b % 2 ≡ max (a % 2) (b % 2)
bit_or-mod_two a b = omega (arith, bit_or_digits a b)
