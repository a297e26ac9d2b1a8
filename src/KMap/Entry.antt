-- ===== src/KMap/Entry.antt =====
-- `KMapEntryNew` and `KMapEntryDeInit` of kmap.c: an entry holds a reference to its key and value.
use k_h.Base.{
  ◌+◌, ◌^◌, ◌≤◌, ◌<◌, ◌≡◌, ◌≢◌, refl, false, Option, none, some, List, [], ◌∷◌, arith, ◌⊎◌, inl,
  inr, ◌==◌, Bool-cases,
}
use k_h.World.{null, KObjectRef, World, Env}
use k_h.World.Returns
use k_h.World.Returns.{Returns, returns}
use k_h.KObject.Counts.{refs, one_if, IsLeaf, retain-Retained, release-Released}
use k_h.KMap.{KMapEntry, Bucket, entry_new, entry_deinit, release_bucket, release_buckets}
use k_h.KMap.Chain.{held_in}
use k_h.KMap.Buckets.{held}

-- Either the allocator refused and no count changed, or there is an entry with two references.
abbrev pub Made : Env → (k v : KObjectRef) → World → Option KMapEntry → World → Type 0
Made env k v w r w' =
    ((r ≡ none) × (env.malloc w ≡ null) × ((o : KObjectRef) → refs w' o ≡ refs w o))
    ⊎ ((r ≡ some (record { key = k; value = v }))
        × ((o : KObjectRef) → refs w' o ≡ refs w o + one_if (o == k) + one_if (o == v)))

pub entry_new-Made :
    (env : Env) (k v : KObjectRef) (w : World)
    → k ≢ null
    → v ≢ null
    → 0 < refs w k
    → 0 < refs w v
    → ((o : KObjectRef) → refs w o + 2 < 2 ^ 32)
    → Returns (Made env k v w) (entry_new env k v w)
unfolding entry_new
entry_new-Made env k v w k_live v_live k_pos v_pos room =
    let k_not_null : (k == null) ≡ false = ground arith in
    let v_not_null : (v == null) ≡ false = ground arith in
    elim (Bool-cases (env.malloc w == null)) [
      | inl refused ↦
          rw (k_not_null, v_not_null, refused) (returns (inl (refl, ground arith, λ o. refl)))
      | inr granted ↦
          rw (k_not_null, v_not_null, granted)
            (Returns.bind (retain-Retained k _ k_live k_pos (omega (arith, room k)))
              λ _ w₁ (got₁, _).
                Returns.bind
                  (retain-Retained v w₁ v_live (omega (arith, got₁ v))
                    (ground (arith, room v, got₁ v)))
                  λ _ w₂ (got₂, _). returns (inr (refl, λ o. omega (arith, got₁ o, got₂ o))))
    ]

pub entry_deinit_lem :
    (env : Env) (e : KMapEntry) (w : World)
    → IsLeaf env
    → e.key ≢ null
    → e.value ≢ null
    → ((o : KObjectRef)
        → (one_if (o == e.key) + one_if (o == e.value) ≤ refs w o) × (refs w o < 2 ^ 32))
    → Returns
        (λ _ w'.
          (o : KObjectRef) → refs w' o + one_if (o == e.key) + one_if (o == e.value) ≡ refs w o)
        (entry_deinit env e w)
unfolding entry_deinit
entry_deinit_lem env e w leaf k_live v_live owned =
    Returns.bind
      (release-Released env e.key w leaf k_live (ground (arith, owned e.key)) (owned e.key).1)
      λ _ w₁ (given₁, _, _).
        Returns.mono
          (release-Released env e.value w₁ leaf v_live
            (ground (arith, owned e.value, given₁ e.value))
            (omega (arith, owned e.value, given₁ e.value)))
          λ _ w₂ (given₂, _, _). λ o. omega (arith, given₁ o, given₂ o)

pub release_bucket_lem :
    (env : Env) (c : Bucket) (w : World)
    → IsLeaf env
    → held_in null c ≡ 0
    → ((o : KObjectRef) → (held_in o c ≤ refs w o) × (refs w o < 2 ^ 32))
    → Returns
        (λ _ w'. (o : KObjectRef) → refs w' o + held_in o c ≡ refs w o)
        (release_bucket env c w)
unfolding release_bucket
release_bucket_lem env [] w leaf live owned = returns (λ o. omega arith)
release_bucket_lem env (e ∷ c) w leaf live owned =
    Returns.bind
      (entry_deinit_lem env e w leaf (ground arith) (ground arith) (λ o. omega (arith, owned o)))
      λ _ w₁ given.
        Returns.mono
          (release_bucket_lem env c w₁ leaf (omega (arith, live))
            (λ o. omega (arith, owned o, given o)))
          λ _ w₂ rest. λ o. omega (arith, rest o, given o)

-- Releasing the bucket array gives up exactly the references that its entries hold.
pub release_buckets_lem :
    (env : Env) (b : List Bucket) (w : World)
    → IsLeaf env
    → held null b ≡ 0
    → ((o : KObjectRef) → (held o b ≤ refs w o) × (refs w o < 2 ^ 32))
    → Returns (λ _ w'. (o : KObjectRef) → refs w' o + held o b ≡ refs w o) (release_buckets env b w)
unfolding release_buckets
release_buckets_lem env [] w leaf live owned = returns (λ o. omega arith)
release_buckets_lem env (c ∷ b) w leaf live owned =
    Returns.bind
      (release_bucket_lem env c w leaf (omega (arith, live)) (λ o. omega (arith, owned o)))
      λ _ w₁ given.
        Returns.mono
          (release_buckets_lem env b w₁ leaf (omega (arith, live))
            (λ o. omega (arith, owned o, given o)))
          λ _ w₂ rest. λ o. omega (arith, rest o, given o)
