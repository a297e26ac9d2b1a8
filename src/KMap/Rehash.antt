-- ===== src/KMap/Rehash.antt =====
-- `KMapRehashIfNecessary` of kmap.c, whatever the allocator answers.
use native.Mathlib.Nat.{pow-suc}
use mathlib.Core.Path.{subst}
use k_h.Base.{
  ℕ, zero, suc, ◌+◌, ◌*◌, ◌^◌, ◌≤◌, ◌<◌, ◌≡◌, refl, Bool, true, false, List, [], arith, ap, sym,
  ◌∙◌, ◌==◌, ltb, u64, length, replicate, length-replicate, Bool-cases, inl, inr,
}
use k_h.World.{null, Refuses, KObjectRef, World, Cmd, Env, pointwise}
use k_h.World.Returns
use k_h.World.Returns.{Returns, returns}
use k_h.KObject.Counts.{refs, count_of, IsLeaf}
use k_h.KMap.{KMap, Bucket, KMapHash, KMapEqual, rebuild, rehash_if_necessary}
use k_h.KMap.Chain.{KeyLaws, held_in}
use k_h.KMap.Entry.{release_buckets_lem}
use k_h.KMap.Buckets.{
  held, entries, length-entries, held_in-entries, get_or-replicate, sum_over-replicate,
  entries-view,
}
use k_h.KMap.Insert.{table, IsValid}
use k_h.KMap.Copy.{budget, budget_mono, Rehashed, Rehashes}
use k_h.KMap.Copies.{copy_buckets-Copied}
use k_h.KMap.Allocated.{ArrayNewReturns, alloc_with_bucket_count-Allocated}

module _ (hash : KMapHash) (equal : KMapEqual) where
  unchanged :
      (env : Env) (ok : Bool) (b : List Bucket) (c : ℕ) (w w' : World)
      → IsValid hash equal b c
      → ((o : KObjectRef) → refs w' o ≡ refs w o)
      → (ok ≡ true → c < length b)
      → (ok ≡ false → Refuses env)
      → Rehashed hash equal env b c w (ok, table hash equal b c) w'
  unchanged env ok b c w w' valid same low why = record {
    ok = ok;
    buckets = b;
    result = refl;
    valid = valid;
    reads = λ q. refl;
    few = λ o. omega arith;
    kept = λ o. omega (arith, same o);
    wider = omega arith;
    grown = λ yes_. inl (low yes_);
    refused = λ bad. (refl, why bad);
  }

  from_blocks :
      (env : Env) (b : List Bucket) (c : ℕ) (w w₁ w₂ : World) (r : Bool × KMap)
      → ((o : KObjectRef) → refs w₁ o ≡ refs w o)
      → Rehashed hash equal env b c w₁ r w₂
      → Rehashed hash equal env b c w r w₂
  from_blocks env b c w w₁ w₂ r same t = record {
    ok = t.ok;
    buckets = t.buckets;
    result = t.result;
    valid = t.valid;
    reads = t.reads;
    few = t.few;
    kept = λ o. omega (arith, t.kept o, same o);
    wider = t.wider;
    grown = t.grown;
    refused = t.refused;
  }

  pub empty-IsValid : (n : ℕ) → 0 < n → IsValid hash equal (replicate n []) 0
  empty-IsValid n h = record {
    pos = rw length-replicate h;
    placed = λ q i. rw get_or-replicate (omega arith);
    counted = sym (sum_over-replicate length refl n);
    live = sum_over-replicate (held_in null) refl n;
  }

  module _ (laws : KeyLaws hash equal) (env : Env) (leaf : IsLeaf env) where
    -- Either the copy succeeds and the old buckets are released, or the new ones are.
    rebuild-Rehashed :
        (depth : ℕ) (rehash : KMap → Cmd (Bool × KMap)) (b : List Bucket) (c : ℕ) (w : World)
        → Rehashes hash equal env depth rehash
        → IsValid hash equal b c
        → c + 2 < 2 ^ 27
        → c < length b * 2 ^ suc depth
        → ((o : KObjectRef)
            → (held o b ≤ refs w o) × (refs w o + budget (suc depth) (held o b) < 2 ^ 32))
        → Returns (Rehashed hash equal env b c w) (
            rebuild env rehash
              (table hash equal b c)
              (table hash equal (replicate (length b * 2) []) 0)
              w)
    unfolding rebuild
    rebuild-Rehashed depth rehash b c w rehashes valid small enough owned =
        let fresh = replicate {A = Bucket} (length b * 2) [] in
        let none_held = λ (o : KObjectRef). sum_over-replicate (held_in o) refl (length b * 2) in
        Returns.bind
          (copy_buckets-Copied hash equal laws env leaf depth c rehash rehashes b fresh 0 w
            (record {
              valid = empty-IsValid (length b * 2) (omega (arith, valid.pos));
              fresh = λ q.
                  ((entries-view hash equal laws b q valid.placed).1, λ _. rw get_or-replicate);
              live = held_in-entries null b ∙ valid.live;
              small = small;
              counts = omega (arith, length-entries b, valid.counted);
              cap =
                  rw length-replicate
                    (omega (arith, enough, ap (λ (t : ℕ). length b * t) (pow-suc 2 depth)));
              owned = λ o. omega (
                arith,
                owned o,
                none_held o,
                held_in-entries o b,
                budget_mono depth (held o fresh + held_in o (entries b)) (held o b),
              );
            }))
          λ r w₁ t. elim (Bool-cases t.ok) [
            | inl ok ↦
                let same : c ≡ t.count =
                  omega (arith, t.counted ok, length-entries b, valid.counted) in
                let passed : (c == t.count) ≡ true = ground arith in
                rw (t.result, ok, passed)
                  (Returns.bind
                    (release_buckets_lem env b w₁ leaf valid.live λ o.
                      omega (arith, t.kept o, t.few o, owned o, none_held o, held_in-entries o b))
                    λ _ w₂ given. returns (record {
                      ok = true;
                      buckets = t.buckets;
                      result = refl;
                      valid = subst (IsValid hash equal t.buckets) (sym same) t.valid;
                      reads = λ q.
                          t.reads ok q
                          ∙ rw get_or-replicate (entries-view hash equal laws b q valid.placed).0;
                      few = λ o. omega (arith, t.few o, none_held o, held_in-entries o b);
                      kept = λ o. omega (arith, given o, t.kept o, none_held o);
                      wider =
                          omega
                            (arith, t.wider, length-replicate {0} {A = Bucket} (length b * 2) []);
                      grown = λ _. inr (
                          omega
                            (arith, t.wider, length-replicate {0} {A = Bucket} (length b * 2) []));
                      refused = λ bad. absurd cc;
                    }))
            | inr bad ↦
                rw (t.result, bad)
                  (Returns.bind
                    (release_buckets_lem env t.buckets w₁ leaf t.valid.live λ o.
                      omega (arith, t.kept o, t.few o, owned o, none_held o, held_in-entries o b))
                    λ _ w₂ given. returns (
                      unchanged env false b c w w₂ valid
                        (λ o. omega (arith, given o, t.kept o, none_held o)) (λ yes_. absurd cc)
                        (λ _. t.refused bad)))
          ]

    -- A rehash of a valid map of less than 2 ^ 27 - 2 entries returns, and keeps what every key
    -- reads, the count and the validity. If it reports success, there were more buckets than
    -- entries or there are at least twice as many buckets as before; if it reports failure, the
    -- buckets are as before and the allocator refuses a request. Each reference count changes by
    -- exactly as much as the places of the object in the map, and the fuel is enough when the
    -- buckets, doubled that often, outnumber the entries. The hash and the equality agree,
    -- deinitialisers are leaves, `KArrayNew` returns, and the reference counts leave room.
    pub rehash_if_necessary-Rehashed :
        ArrayNewReturns env
        → (depth : ℕ) (b : List Bucket) (c : ℕ) (w : World) → IsValid hash equal b c
        → c + 2 < 2 ^ 27
        → c < length b * 2 ^ depth
        → ((o : KObjectRef) → (held o b ≤ refs w o) × (refs w o + budget depth (held o b) < 2 ^ 32))
        → Returns
            (Rehashed hash equal env b c w)
            (rehash_if_necessary env depth (table hash equal b c) w)
    unfolding rehash_if_necessary
    rehash_if_necessary-Rehashed array zero b c w valid small enough owned =
        let low : ltb c (length b) ≡ true = ground arith in
        rw low (
          returns
            (unchanged env true b c w w valid (λ o. refl) (λ _. ground arith) (λ bad. absurd cc)))
    rehash_if_necessary-Rehashed array (suc depth) b c w valid small enough owned =
        elim (Bool-cases (ltb c (length b))) [
          | inl low ↦ rw low (
              returns (
                unchanged env true b c w w valid (λ o. refl) (λ _. ground arith)
                  (λ bad. absurd cc)))
          | inr high ↦
              let fits : u64 (length b * 2) ≡ length b * 2 = ground arith in
              rw (high, fits)
                (Returns.bind
                  (alloc_with_bucket_count-Allocated env hash equal (length b * 2) w array
                    (omega (arith, valid.pos)) (ground (arith, small)))
                  λ r w₁ (made, same). elim made [
                    | inl (e, why) ↦ rw e (
                        returns (
                          unchanged env false b c w w₁ valid (λ o. ap count_of (pointwise same o))
                            (λ yes_. absurd cc) (λ _. why)))
                    | inr e ↦ rw e (
                        Returns.mono
                          (rebuild-Rehashed depth (rehash_if_necessary env depth) b c w₁
                            (rehash_if_necessary-Rehashed array depth) valid small enough
                            (λ o. omega (arith, owned o, ap count_of (pointwise same o))))
                          λ r₂ w₂ t.
                            from_blocks env b c w w₁ w₂ r₂ (λ o. ap count_of (pointwise same o)) t)
                  ])
        ]
