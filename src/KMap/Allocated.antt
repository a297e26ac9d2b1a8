-- ===== src/KMap/Allocated.antt =====
-- `KMapAllocWithBucketCount` of kmap.c, whatever the allocator answers.
use k_h.Base.{
  arith, Bool, true, false, ap, ◌+◌, ◌<◌, ◌≤◌, ◌^◌, ℕ, zero, suc, ◌≡◌, refl, Option, none, some, [],
  ◌∙◌, ◌⊎◌, ◌==◌, ltb, replicate, Bool-cases, Option-cases, inl, inr,
}
use k_h.World.{done, null, Refuses, World, Env}
use k_h.World.Returns
use k_h.World.Returns.{Returns, returns}
use k_h.KAllocation
use k_h.KArray
use k_h.KMap.{
  KMap, KMapHash, KMapEqual, max_array_length, add_bucket, make_buckets, alloc_with_bucket_count,
}
use k_h.KMap.Insert.{table}

-- `KArrayNew` reaches its end and touches no object: it does not meet the refusal of the buffer's own
-- object after its array object was granted, at which `KArrayDeInit` reads through NULL.
abbrev pub ArrayNewReturns : Env → Type 0
ArrayNewReturns env = (w : World) → Returns (λ _ w'. w'.blocks ≡ w.blocks) (KArray.new env w)

-- `KArrayNew` answers NULL only where the allocator refuses.
array_refused : (env : Env) (w w' : World) → KArray.new env w ≡ done none w' → Refuses env
unfolding KArray.new KArray.deinit KArray.remove_all_objects KArray.get_buffer KAllocation.new
array_refused env w w' e = elim (Bool-cases (env.malloc w == null)) [
  | inl f ↦ (w, ground arith)
  | inr f ↦ elim (Bool-cases (env.malloc (record w { requests = w.requests + 1 }) == null)) [
    | inl g ↦ (record w { requests = w.requests + 1 }, ground arith)
    | inr g ↦ absurd (cc)
  ]
]

-- No object is touched, and a failure is one of the allocator.
abbrev pub AsksOnly : Env → World → Bool → World → Type 0
AsksOnly env w ok w' = (w'.blocks ≡ w.blocks) × (ok ≡ false → Refuses env)

add_bucket_lem :
    (env : Env) (made : ℕ) (w : World)
    → made < 2 ^ 28
    → Returns (AsksOnly env w) (add_bucket env made w)
unfolding add_bucket
add_bucket_lem env made w small =
    let within : ltb made max_array_length ≡ true = ground arith in
    rw within (returns (refl, λ bad. (w, ground arith)))

make_buckets_lem :
    (env : Env) (left made : ℕ) (w : World)
    → made + left ≤ 2 ^ 28
    → Returns (AsksOnly env w) (make_buckets env left made w)
unfolding make_buckets
make_buckets_lem env zero made w small = returns (refl, λ bad. absurd cc)
make_buckets_lem env (suc left) made w small = elim (Bool-cases (env.malloc w == null)) [
  | inl e ↦ rw e (returns (refl, λ _. (w, ground arith)))
  | inr e ↦ rw e (
      Returns.bind (add_bucket_lem env made _ (omega arith)) λ added w₁ (same, why).
        elim (Bool-cases added) [
          | inl yes_ ↦ rw yes_ (
              Returns.mono (make_buckets_lem env left (made + 1) w₁ (omega arith))
                λ _ w₂ (rest, refused). (rest ∙ same, refused))
          | inr no_ ↦ rw no_ (returns (same, λ _. why no_))
        ])
]

abbrev pub Allocated : Env → KMapHash → KMapEqual → ℕ → World → Option KMap → World → Type 0
Allocated env hash equal n w r w' =
    (((r ≡ none) × Refuses env) ⊎ (r ≡ some (table hash equal (replicate n []) 0)))
    × (w'.blocks ≡ w.blocks)

-- A new map is empty and has the buckets that were asked for, or the allocator refuses.
pub alloc_with_bucket_count-Allocated :
    (env : Env) (hash : KMapHash) (equal : KMapEqual) (n : ℕ) (w : World)
    → ArrayNewReturns env
    → 0 < n
    → n ≤ 2 ^ 28
    → Returns
        (Allocated env hash equal n w)
        (alloc_with_bucket_count env (some hash) (some equal) n w)
unfolding alloc_with_bucket_count
alloc_with_bucket_count-Allocated env hash equal n w array pos small =
    let some_bucket : (n == 0) ≡ false = ground arith in
    elim (Bool-cases (env.malloc w == null)) [
      | inl f ↦ rw (some_bucket, f) (returns (inl (refl, (w, ground arith)), refl))
      | inr f ↦
          let (r, w₁, made, same) =
            Returns.reached (array (record w { requests = w.requests + 1 })) in
          rw (some_bucket, f, made)
            (elim (Option-cases r) [
              | inl g ↦
                  let why = array_refused env _ w₁ (made ∙ ap (λ t. done t w₁) g) in
                  rw g (returns (inl (refl, why), same))
              | inr (a, g) ↦ rw g (
                  Returns.bind (make_buckets_lem env n 0 w₁ (omega arith)) λ all w₂ (rest, why).
                    elim (Bool-cases all) [
                      | inl h ↦ rw h (returns (inr refl, rest ∙ same))
                      | inr h ↦ rw h (returns (inl (refl, why h), rest ∙ same))
                    ])
            ])
    ]
