-- ===== src/KArray.antt =====
-- karray.c: an array of objects in one contiguous buffer that grows by powers of two.
-- An array reference is `none` for NULL; a function that changes the array returns it changed.
pub mod Filled
pub mod Add
pub mod Remove
pub mod History
pub mod Iterate
use k_h.Base.{
  ℕ, zero, suc, ◌+◌, ◌-◌, ◌*◌, Bool, true, false, not, Option, none, some, ◌==◌, if◌then◌else◌, ltb,
  u32, u64, get_elem?, set,
}
use k_h.World.{null, KObjectRef, World, done, fault, Cmd, pure, ◌>>=◌, ◌>>◌, Env, allocate}
use k_h.KObject.{retain, release}
use k_h.KAllocation
use k_h.KAllocation.{KAllocation, Slots, sizeof_ref, truncate, next_power_of_two_size}

pub record KArray : Type 0 where
  pub length : ℕ
  pub items : Option KAllocation

-- `KAllocationGetBuffer`, which reads through its argument unchecked.
unfoldable pub get_buffer : Option KAllocation → Cmd Slots
get_buffer none = λ _. fault
get_buffer (some allocation) = pure allocation.buffer

-- `buffer[index]` as a copy reads it: a fault past the end of the buffer.
unfoldable pub load_slot : Slots → ℕ → Cmd (Option KObjectRef)
load_slot buffer index w = elim (get_elem? buffer index) [ none ↦ fault | some slot ↦ done slot w ]

-- A slot that was never written holds no object.
abbrev pub defined : Option KObjectRef → Cmd KObjectRef
defined none = λ _. fault
defined (some obj) = pure obj

unfoldable pub load : Slots → ℕ → Cmd KObjectRef
unfolding load_slot
load buffer index = load_slot buffer index >>= defined

-- `buffer[index] = slot`
unfoldable pub store : Slots → ℕ → Option KObjectRef → Cmd Slots
store buffer index slot w = elim (get_elem? buffer index) [
  | none ↦ fault
  | some _ ↦ done (set buffer index slot) w
]

abbrev with_buffer : Option KAllocation → Slots → Option KAllocation
with_buffer none buffer = none
with_buffer (some allocation) buffer = some (record allocation { buffer = buffer })

-- The size in bytes that `KArrayAddObject` asks for, at a given length.
abbrev pub wanted_size : ℕ → ℕ
wanted_size length = next_power_of_two_size (u32 (u64 ((length + 1) * sizeof_ref)))

unfoldable pub add_object : Env → Option KArray → KObjectRef → Cmd (Bool × Option KArray)
unfolding get_buffer store
add_object env none obj = pure (false, none)
add_object env (some array) obj = if obj == null then pure (false, some array) else do
  (grown, items) ← truncate env array.items (wanted_size array.length)
  if not grown then pure (false, some array) else do
    retain obj
    buffer ← get_buffer items
    buffer ← store buffer array.length (some obj)
    pure (true, some (record { length = u64 (array.length + 1); items = with_buffer items buffer }))

-- The loop that closes the gap: `left` rounds from index `i` on.
unfoldable pub shift : (left i : ℕ) → Slots → Cmd Slots
unfolding load_slot store
shift zero i buffer = pure buffer
shift (suc left) i buffer = do
  slot ← load_slot buffer i
  buffer ← store buffer (i - 1) slot
  shift left (i + 1) buffer

unfoldable pub remove_object_at_index : Env → Option KArray → ℕ → Cmd (Bool × Option KArray)
unfolding get_buffer load shift
remove_object_at_index env none index = pure (false, none)
remove_object_at_index env (some array) index =
    if not (ltb index array.length) then pure (false, some array) else do
      buffer ← get_buffer array.items
      obj ← load buffer index
      release env obj
      buffer ← shift (array.length - (index + 1)) (index + 1) buffer
      pure (
        true,
        some (record { length = array.length - 1; items = with_buffer array.items buffer }),
      )

unfoldable pub get_object_at_index : Option KArray → ℕ → Cmd KObjectRef
unfolding get_buffer load
get_object_at_index none index = pure null
get_object_at_index (some array) index =
    if not (ltb index array.length)
    then pure null
    else do buffer ← get_buffer array.items; load buffer index

unfoldable pub get_length : Option KArray → ℕ
get_length none = 0
get_length (some array) = array.length

unfoldable pub release_slots : Env → (left i : ℕ) → Slots → Cmd (Unit {0})
unfolding load
release_slots env zero i buffer = pure tt
release_slots env (suc left) i buffer = do
  obj ← load buffer i
  release env obj
  release_slots env left (i + 1) buffer

-- The array is read through unchecked, so NULL is a fault.
unfoldable pub remove_all_objects : Env → Option KArray → Cmd (ℕ × Option KArray)
unfolding get_buffer release_slots
remove_all_objects env none = λ _. fault
remove_all_objects env (some array) = do
  buffer ← get_buffer array.items
  release_slots env array.length 0 buffer
  pure (array.length, some (record array { length = 0 }))

-- `KArrayDeInit`; what the last line releases is the array's alone.
unfoldable pub deinit : Env → Option KArray → Cmd (Unit {0})
unfolding remove_all_objects
deinit env array = do remove_all_objects env array; pure tt

-- `KArrayAlloc` clears the object and runs `KArrayInit`.
unfoldable pub new : Env → Cmd (Option KArray)
unfolding deinit
new env = do
  block ← allocate env
  if block == null then pure none else do
    items ← KAllocation.new env
    elim items [
      | none ↦ deinit env (some (record { length = 0; items = none })) >> pure none
      | some allocation ↦ pure (some (record { length = 0; items = some allocation }))
    ]

module _ {S : Type 0} where
  unfoldable pub iterate_loop :
      Option KArray
      → (KObjectRef → ℕ → S → Cmd (Bool × S))
      → (left i iterated : ℕ) → S
      → Cmd (ℕ × S)
  iterate_loop array iterator zero i iterated user_data = pure (iterated, user_data)
  iterate_loop array iterator (suc left) i iterated user_data = do
    obj ← get_object_at_index array i
    (more, user_data) ← iterator obj i user_data
    let rest = iterate_loop array iterator left (i + 1) (iterated + 1) user_data
    if more then rest else pure (iterated + 1, user_data)

  -- A callback may change the state `user_data` and the world, but not the array.
  unfoldable pub iterate :
      Option KArray → Option (KObjectRef → ℕ → S → Cmd (Bool × S)) → S → Cmd (ℕ × S)
  unfolding iterate_loop
  iterate none iterator user_data = pure (0, user_data)
  iterate (some array) none user_data = pure (0, user_data)
  iterate (some array) (some iterator) user_data =
      iterate_loop (some array) iterator (get_length (some array)) 0 0 user_data
