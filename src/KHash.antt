-- ===== src/KHash.antt =====
-- khash.c: the FNV-1a hash of a run of bytes, and the combination of two hashes, in 64 bits.
use k_h.Base.{ℕ, ◌+◌, ◌*◌, ◌/◌, ◌^◌, List, [], ◌∷◌, u64, bit_xor}

-- `a ^= b + 0x9e3779b9 + (a << 6) + (a >> 2)`
unfoldable pub combine : ℕ → ℕ → ℕ
combine a b = bit_xor a (u64 (b + 2654435769 + u64 (a * 2 ^ 6) + a / 2 ^ 2))

abbrev pub offset_basis : ℕ
offset_basis = 14695981039346656037

abbrev pub fnv_prime : ℕ
fnv_prime = 1099511628211

-- The loop over the bytes.
unfoldable pub create_loop : ℕ → List ℕ → ℕ
create_loop hash [] = hash
create_loop hash (byte ∷ bytes) = create_loop (u64 (bit_xor hash byte * fnv_prime)) bytes

unfoldable pub create : List ℕ → ℕ
unfolding create_loop
create bytes = create_loop offset_basis bytes
