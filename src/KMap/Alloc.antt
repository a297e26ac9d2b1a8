-- ===== src/KMap/Alloc.antt =====
-- The types of kmap.c, and how its maps, buckets and entries are made and released.
use k_h.Base.{
  ℕ, zero, suc, ◌+◌, ◌^◌, Bool, true, false, not, ◌||◌, Option, none, some, List, [], ◌∷◌, ◌==◌,
  if◌then◌else◌, ltb, replicate,
}
use k_h.World.{fault, null, KObjectRef, Cmd, pure, ◌>>=◌, ◌>>◌, Env, allocate}
use k_h.KObject.{retain, release}
use k_h.KArray

pub record KMapEntry : Type 0 where
  pub key : KObjectRef
  pub value : KObjectRef

abbrev pub Bucket : Type 0
Bucket = List KMapEntry

abbrev pub KMapHash : Type 0
KMapHash = KObjectRef → ℕ

abbrev pub KMapEqual : Type 0
KMapEqual = KObjectRef → KObjectRef → Bool

pub record KMap : Type 0 where
  pub hash : KMapHash
  pub equal : KMapEqual
  pub buckets : List Bucket
  pub object_count : ℕ

abbrev pub initial_buckets_size : ℕ
initial_buckets_size = 16

abbrev pub bucket_growth_factor : ℕ
bucket_growth_factor = 2

-- The largest array that `KArrayAddObject` builds.
abbrev pub max_array_length : ℕ
max_array_length = 2 ^ 28

unfoldable pub entry_new : Env → (key value : KObjectRef) → Cmd (Option KMapEntry)
entry_new env key value = if (key == null) || (value == null) then pure none else do
  block ← allocate env
  if block == null
      then pure none
      else do retain key; retain value; pure (some (record { key = key; value = value }))

unfoldable pub entry_deinit : Env → KMapEntry → Cmd (Unit {0})
entry_deinit env entry = do release env entry.key; release env entry.value

-- What the release of a bucket list, and of the bucket array, does to keys and values.
unfoldable pub release_bucket : Env → Bucket → Cmd (Unit {0})
unfolding entry_deinit
release_bucket env [] = pure tt
release_bucket env (entry ∷ bucket) = entry_deinit env entry >> release_bucket env bucket

unfoldable pub release_buckets : Env → List Bucket → Cmd (Unit {0})
unfolding release_bucket
release_buckets env [] = pure tt
release_buckets env (bucket ∷ buckets) = release_bucket env bucket >> release_buckets env buckets

-- Whether `KArrayAddObject` succeeds on the bucket array when that holds `made` buckets. Past the
-- largest array it asks for a buffer of size 0, which is undefined.
unfoldable pub add_bucket : Env → (made : ℕ) → Cmd Bool
add_bucket env made =
    if not (ltb made max_array_length)
    then (λ _. fault)
    else do buffer ← allocate env; pure (not (buffer == null))

-- The loop over the new buckets; `false` where a list or its place in the array was refused.
unfoldable pub make_buckets : Env → (left made : ℕ) → Cmd Bool
unfolding add_bucket
make_buckets env zero made = pure true
make_buckets env (suc left) made = do
  list ← allocate env
  if list == null then pure false else do
    added ← add_bucket env made
    if not added then pure false else make_buckets env left (made + 1)

unfoldable pub alloc_with_bucket_count :
    Env → Option KMapHash → Option KMapEqual → (bucket_count : ℕ) → Cmd (Option KMap)
unfolding make_buckets
alloc_with_bucket_count env none equal bucket_count = pure none
alloc_with_bucket_count env (some hash) none bucket_count = pure none
alloc_with_bucket_count env (some hash) (some equal) bucket_count =
    if bucket_count == 0 then pure none else do
      map ← allocate env
      if map == null then pure none else do
        array ← KArray.new env
        elim array [
          | none ↦ pure none
          | some _ ↦ (do
            made ← make_buckets env bucket_count 0
            if made
                then pure (
                    some (record {
                      hash = hash;
                      equal = equal;
                      buckets = replicate bucket_count [];
                      object_count = 0;
                    }))
                else pure none)
        ]

unfoldable pub new : Env → Option KMapHash → Option KMapEqual → Cmd (Option KMap)
unfolding alloc_with_bucket_count
new env hash equal = alloc_with_bucket_count env hash equal initial_buckets_size

-- `KMapDeInit`
unfoldable pub deinit : Env → KMap → Cmd (Unit {0})
unfolding release_buckets
deinit env map = release_buckets env map.buckets
