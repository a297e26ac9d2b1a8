-- ===== src/KAllocation.antt =====
-- kallocation.c: a buffer that the C allocator resizes, and the size that KArray asks for.
-- The only user of an allocation is KArray, which reads it as slots of `sizeof(KObjectRef)`
-- bytes; a slot that was never written is `none`.
pub mod Bits
pub mod PowerOfTwo
use k_h.Base.{
  ℕ, zero, suc, ◌+◌, ◌-◌, ◌/◌, ◌^◌, Bool, true, false, Option, none, some, List, [], ◌∷◌, ◌==◌,
  if◌then◌else◌, u32, bit_or,
}
use k_h.World.{null, fault, KObjectRef, Cmd, pure, ◌>>=◌, Env, allocate}

-- `sizeof(KObjectRef)` on a 64-bit machine.
abbrev pub sizeof_ref : ℕ
sizeof_ref = 8

abbrev pub Slots : Type 0
Slots = List (Option KObjectRef)

pub record KAllocation : Type 0 where
  pub size : ℕ
  pub buffer : Slots

-- `KObjectNew` clears the object, and `KAllocationInit` leaves it so.
abbrev pub cleared : KAllocation
cleared = record { size = 0; buffer = [] }

-- `KAllocationNew`: `none` is NULL.
unfoldable pub new : Env → Cmd (Option KAllocation)
new env = do block ← allocate env; if block == null then pure none else pure (some cleared)

-- `realloc` keeps the contents up to the smaller size, and leaves the rest undefined.
unfoldable pub resize : ℕ → Slots → Slots
resize zero slots = []
resize (suc n) [] = none ∷ resize n []
resize (suc n) (s ∷ slots) = s ∷ resize n slots

-- A size of 0 is undefined: `realloc` may then free the buffer and answer NULL, which leaves the
-- allocation with a pointer to freed memory. The result is what the C function returns, with the allocation after the call.
unfoldable pub truncate : Env → Option KAllocation → ℕ → Cmd (Bool × Option KAllocation)
unfolding resize
truncate env none size = pure (false, none)
truncate env (some allocation) size = if size == 0 then (λ _. fault) else do
  buffer ← allocate env
  if buffer == null
      then pure (false, some allocation)
      else pure (
        true,
        some (record { size = size; buffer = resize (size / sizeof_ref) allocation.buffer }),
      )

unfoldable pub get_size : Option KAllocation → ℕ
get_size none = 0
get_size (some allocation) = allocation.size

-- `x |= x >> k`
unfoldable pub fill : ℕ → ℕ → ℕ
fill k x = bit_or x (x / 2 ^ k)

unfoldable pub smear : ℕ → ℕ
smear x = fill 16 (fill 8 (fill 4 (fill 2 (fill 1 x))))

unfoldable pub next_power_of_two_size : ℕ → ℕ
next_power_of_two_size x = if x == 0 then 1 else u32 (smear (x - 1) + 1)
