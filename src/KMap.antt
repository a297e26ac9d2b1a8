-- ===== src/KMap.antt =====
-- kmap.c: a hash map with chained buckets that doubles its bucket array at load factor 1.
-- The bucket array, the bucket lists and the entry objects never leave the map, so they are values
-- here: a bucket is the sequence that KList keeps, and the buckets are the sequence that KArray keeps.
-- Keys and values are the caller's objects, and their reference counts stand in the world.
pub mod Alloc
pub mod Allocated
pub mod Chain
pub mod Copy
pub mod Copied
pub mod Copies
pub mod Entry
pub mod Insert
pub mod Lookup
pub mod Rehash
pub mod Set
pub mod History
pub mod Store
pub mod Buckets
use k_h.Base.{
  ℕ, zero, suc, ◌+◌, ◌-◌, ◌*◌, ◌%◌, ◌^◌, Bool, true, false, not, ◌||◌, Option, none, some, List, [],
  ◌∷◌, ◌++◌, ◌==◌, if◌then◌else◌, ltb, u64, length, get_or, set, remove_at, replicate,
}
use mathlib.Core.Option
use k_h.World.{
  null, KObjectRef, World, done, fault, out_of_fuel, Cmd, pure, ◌>>=◌, ◌>>◌, Env, allocate,
  k_assert,
}
use k_h.KObject.{retain, release}
use k_h.KArray
pub use k_h.KMap.Alloc.{
  KMapEntry, Bucket, KMapHash, KMapEqual, KMap, initial_buckets_size, bucket_growth_factor,
  max_array_length,
}
unfoldable pub use k_h.KMap.Alloc.{
  entry_new, entry_deinit, release_bucket, release_buckets, add_bucket, make_buckets,
  alloc_with_bucket_count, new, deinit,
}

-- The index of the bucket; a map with no bucket divides by 0.
unfoldable pub get_bucket : KMap → KObjectRef → Cmd (Option ℕ)
get_bucket map key =
    if key == null
    then pure none
    else (if length map.buckets == 0
        then (λ _. fault)
        else pure (some (map.hash key % length map.buckets)))

-- The search loop: the first entry with an equal key, and its index.
unfoldable pub find_entry : KMapEqual → KObjectRef → Bucket → Option (ℕ × KMapEntry)
find_entry equal key [] = none
find_entry equal key (entry ∷ bucket) =
    if equal key entry.key
    then some (0, entry)
    else Option.map (λ (i, found). (suc i, found)) (find_entry equal key bucket)

abbrev pub with_bucket : KMap → ℕ → Bucket → KMap
with_bucket map index bucket = record map { buckets = set map.buckets index bucket }

-- `KListAddObject` on a bucket and an entry, which may be NULL.
unfoldable pub add_entry : Env → Bucket → Option KMapEntry → Cmd (Bool × Bucket)
add_entry env bucket none = pure (false, bucket)
add_entry env bucket (some entry) = do
  node ← allocate env
  if node == null then pure (false, bucket) else pure (true, bucket ++ entry ∷ [])

-- `KMapEntryRelease(new_entry)`: the last reference, unless the bucket took one.
unfoldable pub entry_release : Env → (added : Bool) → Option KMapEntry → Cmd (Unit {0})
unfolding entry_deinit
entry_release env added none = pure tt
entry_release env true (some entry) = pure tt
entry_release env false (some entry) = entry_deinit env entry

unfoldable pub insert_entry :
    Env → KMap → (index : ℕ) → (key value : KObjectRef) → Cmd (Bool × KMap)
unfolding entry_new add_entry entry_release
insert_entry env map index key value = do
  new_entry ← entry_new env key value
  (added, bucket) ← add_entry env (get_or map.buckets index []) new_entry
  entry_release env added new_entry
  if added
      then pure (
        true,
        record (with_bucket map index bucket) { object_count = u64 (map.object_count + 1) },
      )
      else pure (false, map)

unfoldable pub update_entry :
    Env → KMap → (index i : ℕ) → KMapEntry → (value : KObjectRef) → Cmd (Bool × KMap)
update_entry env map index i entry value = if value == entry.value then pure (true, map) else do
  release env entry.value
  retain value
  pure (
    true,
    with_bucket map index (set (get_or map.buckets index []) i (record entry { value = value })),
  )

unfoldable pub set_value_no_rehash : Env → KMap → (key value : KObjectRef) → Cmd (Bool × KMap)
unfolding get_bucket find_entry insert_entry update_entry
set_value_no_rehash env map key value = if value == null then pure (false, map) else do
  bucket ← get_bucket map key
  elim bucket [
    | none ↦ pure (false, map)
    | some index ↦ elim (find_entry map.equal key (get_or map.buckets index [])) [
      | some (i, entry) ↦ update_entry env map index i entry value
      | none ↦ insert_entry env map index key value
    ]
  ]

-- The quotient of two counts that `KMapGetLoadFactor` returns as a `double`.
pub record LoadFactor : Type 0 where
  pub objects : ℕ
  pub buckets : ℕ

unfoldable pub get_load_factor : Option KMap → LoadFactor
get_load_factor none = record { objects = 0; buckets = 1 }
get_load_factor (some map) = record { objects = map.object_count; buckets = length map.buckets }

-- `< kMapMaxLoadFactor`, which is 1: the `double` quotient of counts below 2 ^ 53 is below 1 exactly
-- when the first is less than the second.
abbrev pub below_max : LoadFactor → Bool
below_max factor = ltb factor.objects factor.buckets

-- `KMapSetValue`, given the rehash that it calls; the rehash's answer is dropped.
abbrev pub set_value_by :
    Env → (KMap → Cmd (Bool × KMap)) → KMap → (key value : KObjectRef) → Cmd (Bool × KMap)
set_value_by env rehash map key value = do
  (done_, map) ← set_value_no_rehash env map key value
  if not done_ then pure (false, map) else do (_, map) ← rehash map; pure (true, map)

-- The inner loop of the rehash, and the outer one. `false` where a value could not be set.
unfoldable pub copy_bucket : Env → (KMap → Cmd (Bool × KMap)) → Bucket → KMap → Cmd (Bool × KMap)
copy_bucket env rehash [] new_map = pure (true, new_map)
copy_bucket env rehash (entry ∷ bucket) new_map = do
  (added, new_map) ← set_value_by env rehash new_map entry.key entry.value
  if not added then pure (false, new_map) else copy_bucket env rehash bucket new_map

unfoldable pub copy_buckets :
    Env → (KMap → Cmd (Bool × KMap)) → List Bucket → KMap → Cmd (Bool × KMap)
unfolding copy_bucket
copy_buckets env rehash [] new_map = pure (true, new_map)
copy_buckets env rehash (bucket ∷ buckets) new_map = do
  (added, new_map) ← copy_bucket env rehash bucket new_map
  if not added then pure (false, new_map) else copy_buckets env rehash buckets new_map

-- The rehash once the new map is there: copy, compare the counts, swap and release.
unfoldable pub rebuild : Env → (KMap → Cmd (Bool × KMap)) → (map new_map : KMap) → Cmd (Bool × KMap)
unfolding copy_buckets release_buckets
rebuild env rehash map new_map = do
  (copied, new_map) ← copy_buckets env rehash map.buckets new_map
  if not copied then (release_buckets env new_map.buckets >> pure (false, map)) else do
    k_assert (map.object_count == new_map.object_count)
    release_buckets env map.buckets
    pure (true, record map { buckets = new_map.buckets })

-- `KMapSetValue` and `KMapRehashIfNecessary` call one another; the fuel bounds how deep.
unfoldable pub rehash_if_necessary : Env → ℕ → KMap → Cmd (Bool × KMap)
unfolding get_load_factor
rehash_if_necessary env zero map =
    if below_max (get_load_factor (some map)) then pure (true, map) else (λ _. out_of_fuel)
rehash_if_necessary env (suc fuel) map =
    if below_max (get_load_factor (some map)) then pure (true, map) else do
      new_map ←
          alloc_with_bucket_count env (some map.hash) (some map.equal)
            (u64 (length map.buckets * bucket_growth_factor))
      elim new_map [
        | none ↦ pure (false, map)
        | some new_map ↦ rebuild env (rehash_if_necessary env fuel) map new_map
      ]

unfoldable pub set_value : Env → Option KMap → (key value : KObjectRef) → Cmd (Bool × Option KMap)
set_value env none key value = pure (false, none)
set_value env (some map) key value = do
  (done_, map) ← set_value_by env (rehash_if_necessary env 64) map key value
  pure (done_, some map)

unfoldable pub get_value : Option KMap → KObjectRef → Cmd KObjectRef
unfolding get_bucket find_entry
get_value none key = pure null
get_value (some map) key = do
  bucket ← get_bucket map key
  elim bucket [
    | none ↦ pure null
    | some index ↦ elim (find_entry map.equal key (get_or map.buckets index [])) [
      | none ↦ pure null
      | some (_, entry) ↦ pure entry.value
    ]
  ]

-- `KListRemoveObjectAtIndex` hands the bucket's reference to the entry to the caller, which drops it.
unfoldable pub remove_value : Option KMap → KObjectRef → Cmd (Bool × Option KMap)
unfolding get_bucket find_entry
remove_value none key = pure (false, none)
remove_value (some map) key = do
  bucket ← get_bucket map key
  elim bucket [
    | none ↦ pure (false, some map)
    | some index ↦ elim (find_entry map.equal key (get_or map.buckets index [])) [
      | none ↦ pure (false, some map)
      | some (i, entry) ↦ pure (
        true,
        some (record (with_bucket map index (remove_at (get_or map.buckets index []) i)) {
          object_count = u64 (map.object_count + 2 ^ 64 - 1);
        }),
      )
    ]
  ]

unfoldable pub get_count : Option KMap → ℕ
get_count none = 0
get_count (some map) = map.object_count

unfoldable pub widest : List Bucket → (utilization : ℕ) → ℕ
widest [] utilization = utilization
widest (bucket ∷ buckets) utilization =
    widest buckets (if ltb utilization (length bucket) then length bucket else utilization)

unfoldable pub get_max_bucket_utilization : Option KMap → ℕ
unfolding widest
get_max_bucket_utilization none = 0
get_max_bucket_utilization (some map) = widest map.buckets 0
