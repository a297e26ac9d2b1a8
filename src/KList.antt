-- ===== src/KList.antt =====
-- klist.c: a doubly linked list of objects. The entries stand in the world under their addresses;
-- the list's own fields, root and count, are a value that an operation returns changed.
-- A list reference is `none` for NULL. Each loop runs on fuel and is given `count + 1` rounds.
pub mod Links
pub mod Access
pub mod Add
pub mod Clear
pub mod History
pub mod Iterate
pub mod Read
pub mod Remove
use k_h.Base.{
  ℕ, zero, suc, ◌+◌, ◌-◌, ◌^◌, Bool, true, false, Option, none, some, ◌==◌, if◌then◌else◌, u64,
}
use k_h.World.{
  Ptr, null, KObjectRef, KListEntry, World, done, fault, out_of_fuel, Cmd, pure, ◌>>=◌, ◌>>◌, Env,
  allocate, k_assert, update,
}
use k_h.KObject.{retain, release}

pub record KList : Type 0 where
  pub root : Ptr
  pub count : ℕ

-- The raw write: `none` gives the address back.
abbrev pub put : Ptr → Option KListEntry → Cmd (Unit {0})
put p e w = done tt (record w { entries = update w.entries p e })

-- `*p`: a fault at NULL and at an address that holds no entry.
unfoldable pub load : Ptr → Cmd KListEntry
load p w = if p == null then fault else elim (w.entries p) [ none ↦ fault | some e ↦ done e w ]

-- `p->next = q`, `p->prev = q` and `p->item = obj`
unfoldable pub set_next : Ptr → Ptr → Cmd (Unit {0})
set_next p q = do e ← load p; put p (some (record e { next = q }))

unfoldable pub set_prev : Ptr → Ptr → Cmd (Unit {0})
set_prev p q = do e ← load p; put p (some (record e { prev = q }))

unfoldable pub set_item : Ptr → KObjectRef → Cmd (Unit {0})
set_item p obj = do e ← load p; put p (some (record e { item = obj }))

unfoldable pub free : Ptr → Cmd (Unit {0})
free p = load p >> put p none

abbrev pub zeroed : KListEntry
zeroed = record { prev = null; next = null; item = null }

-- `calloc(1u, sizeof(KListEntry))`
unfoldable pub calloc_entry : Env → Cmd Ptr
calloc_entry env = do
  p ← allocate env
  if p == null then pure null else (put p (some zeroed) >> pure p)

-- The walk to the last entry, and the two writes that link the new one behind it.
unfoldable pub link_last : ℕ → (entry new_entry : Ptr) → Cmd (Unit {0})
link_last zero entry new_entry = λ _. out_of_fuel
link_last (suc fuel) entry new_entry = do
  e ← load entry
  if e.next == null
      then (set_next entry new_entry >> set_prev new_entry entry)
      else link_last fuel e.next new_entry

-- The new entry becomes the root of an empty list, and else the last entry.
unfoldable pub attach : KList → (new_entry : Ptr) → Cmd (Bool × Option KList)
unfolding link_last
attach list new_entry =
    if list.root == null
    then pure (true, some (record { root = new_entry; count = u64 (list.count + 1) }))
    else do
      link_last (list.count + 1) list.root new_entry
      pure (true, some (record list { count = u64 (list.count + 1) }))

unfoldable pub add_object : Env → Option KList → KObjectRef → Cmd (Bool × Option KList)
unfolding attach calloc_entry
add_object env none obj = pure (false, none)
add_object env (some list) obj = if obj == null then pure (false, some list) else do
  new_entry ← calloc_entry env
  if new_entry == null
      then pure (false, some list)
      else do retain obj; set_item new_entry obj; attach list new_entry

abbrev pub unless_null : Ptr → Cmd (Unit {0}) → Cmd (Unit {0})
unless_null p m = if p == null then pure tt else m

-- The body of the loop at the index that is searched.
unfoldable pub unlink :
    (entry : Ptr) → KListEntry → (i : ℕ) → KList → Cmd (KObjectRef × Option KList)
unlink entry e i list = do
  unless_null e.prev (set_next e.prev e.next)
  unless_null e.next (set_prev e.next e.prev)
  free entry
  pure (
    e.item,
    some (record {
      root = if i == 0 then e.next else list.root;
      count = u64 (list.count + 2 ^ 64 - 1);
    }),
  )

unfoldable pub remove_loop :
    ℕ → (index i : ℕ) → (entry : Ptr) → KList → Cmd (KObjectRef × Option KList)
unfolding unlink
remove_loop zero index i entry list = λ _. out_of_fuel
remove_loop (suc fuel) index i entry list = if entry == null then pure (null, some list) else do
  e ← load entry
  if i == index then unlink entry e i list else remove_loop fuel index (i + 1) e.next list

unfoldable pub remove_object_at_index : Option KList → ℕ → Cmd (KObjectRef × Option KList)
unfolding remove_loop
remove_object_at_index none index = pure (null, none)
remove_object_at_index (some list) index = remove_loop (list.count + 1) index 0 list.root list

unfoldable pub get_loop : ℕ → (index i : ℕ) → (entry : Ptr) → Cmd KObjectRef
get_loop zero index i entry = λ _. out_of_fuel
get_loop (suc fuel) index i entry =
    if entry == null
    then pure null
    else do e ← load entry; if i == index then pure e.item else get_loop fuel index (i + 1) e.next

unfoldable pub get_object_at_index : Option KList → ℕ → Cmd KObjectRef
unfolding get_loop
get_object_at_index none index = pure null
get_object_at_index (some list) index = get_loop (list.count + 1) index 0 list.root

module _ {S : Type 0} where
  -- The callback is given the number of entries visited, this one included.
  unfoldable pub iterate_loop :
      (KObjectRef → ℕ → S → Cmd (Bool × S)) → ℕ → (i : ℕ) → (entry : Ptr) → S → Cmd (ℕ × S)
  iterate_loop iterator zero i entry user_data = λ _. out_of_fuel
  iterate_loop iterator (suc fuel) i entry user_data =
      if entry == null then pure (i, user_data) else do
        e ← load entry
        (more, user_data) ← iterator e.item (i + 1) user_data
        let rest = (do e ← load entry; iterate_loop iterator fuel (i + 1) e.next user_data)
        if more then rest else pure (i + 1, user_data)

  unfoldable pub iterate :
      Option KList → Option (KObjectRef → ℕ → S → Cmd (Bool × S)) → S → Cmd (ℕ × S)
  unfolding iterate_loop
  iterate none iterator user_data = pure (0, user_data)
  iterate (some list) none user_data = pure (0, user_data)
  iterate (some list) (some iterator) user_data =
      iterate_loop iterator (list.count + 1) 0 list.root user_data

unfoldable pub contains_loop : ℕ → (entry : Ptr) → KObjectRef → Cmd Bool
contains_loop zero entry obj = λ _. out_of_fuel
contains_loop (suc fuel) entry obj =
    if entry == null
    then pure false
    else do e ← load entry; if e.item == obj then pure true else contains_loop fuel e.next obj

unfoldable pub contains_object : Option KList → KObjectRef → Cmd Bool
unfolding contains_loop
contains_object none obj = pure false
contains_object (some list) obj =
    if obj == null then pure false else contains_loop (list.count + 1) list.root obj

unfoldable pub get_count : Option KList → ℕ
get_count none = 0
get_count (some list) = list.count

-- An item's release runs its class's code, which stands between the read of an entry and its `free`.
unfoldable pub clear_loop : Env → ℕ → (entry : Ptr) → (removed : ℕ) → Cmd ℕ
clear_loop env zero entry removed = λ _. out_of_fuel
clear_loop env (suc fuel) entry removed =
    if entry == null
    then pure removed
    else do e ← load entry; release env e.item; free entry; clear_loop env fuel e.next (removed + 1)

unfoldable pub remove_all_objects : Env → Option KList → Cmd (ℕ × Option KList)
unfolding clear_loop
remove_all_objects env none = pure (0, none)
remove_all_objects env (some list) = do
  removed ← clear_loop env (list.count + 1) list.root 0
  k_assert (removed == list.count)
  pure (removed, some (record { root = null; count = 0 }))

unfoldable pub deinit : Env → Option KList → Cmd (Unit {0})
unfolding remove_all_objects get_count
deinit env list = do
  (removed, _) ← remove_all_objects env list
  k_assert (get_count list == removed)

-- `KListAlloc` clears the object, and `KListInit` leaves it so.
unfoldable pub new : Env → Cmd (Option KList)
new env = do
  block ← allocate env
  if block == null then pure none else pure (some (record { root = null; count = 0 }))
