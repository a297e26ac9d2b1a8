-- ===== src/KMap/Copies.antt =====
-- The copy loops of `KMapRehashIfNecessary` in kmap.c, which set each entry in the new map.
use k_h.Base.{
  ℕ, ◌+◌, ◌*◌, ◌^◌, ◌≤◌, ◌<◌, ◌≡◌, Bool, true, List, [], ◌∷◌, ◌++◌, arith, ◌==◌, length,
  length-append, Bool-cases, inl, inr,
}
use k_h.World.{null, KObjectRef, World, Cmd, Env}
use k_h.World.Returns
use k_h.World.Returns.{Returns, returns}
use k_h.KObject.Counts.{refs, one_if, IsLeaf}
use k_h.KMap.{KMap, Bucket, KMapHash, KMapEqual, copy_bucket, copy_buckets}
use k_h.KMap.Chain.{KeyLaws, held_in, held_in-append}
use k_h.KMap.Buckets.{held, entries}
use k_h.KMap.Insert.{table, IsValid}
use k_h.KMap.Copy.{budget, budget_mono, mul_mono, Rehashes, set_value_by-Stored}
use k_h.KMap.Copied.{
  Fresh, Copied, nothing_copied, one_copied, Fresh-left, Fresh-right, both_copied, stopped,
}

module _ (hash : KMapHash) (equal : KMapEqual) where
  -- What holds of the world and the new map between two steps of the copy: `base` counts the references
  -- that are not the new map's, and `es` is still to be copied.
  pub record IsReady (depth limit : ℕ) (es : Bucket) (b : List Bucket) (c : ℕ) (w : World)
      : Type 0 where
    pub valid : IsValid hash equal b c
    pub fresh : Fresh hash equal b es
    pub live : held_in null es ≡ 0
    pub small : limit + 2 < 2 ^ 27
    pub counts : c + length es ≤ limit
    pub cap : limit < length b * 2 ^ depth
    pub owned :
        (o : KObjectRef)
        → (held o b + held_in o es ≤ refs w o)
          × (refs w o + held_in o es + budget depth (held o b + held_in o es) < 2 ^ 32)

  module _ (laws : KeyLaws hash equal) (env : Env) (leaf : IsLeaf env) (depth limit : ℕ)
      (rehash : KMap → Cmd (Bool × KMap)) (rehashes : Rehashes hash equal env depth rehash) where
    IsReady-left :
        (xs ys : Bucket) (b : List Bucket) (c : ℕ) (w : World)
        → IsReady depth limit (xs ++ ys) b c w
        → IsReady depth limit xs b c w
    IsReady-left xs ys b c w ready = record {
      valid = ready.valid;
      fresh = Fresh-left hash equal b xs ys ready.fresh;
      live = omega (arith, ready.live, held_in-append null xs ys);
      small = ready.small;
      counts = omega (arith, ready.counts, length-append xs ys);
      cap = ready.cap;
      owned = λ o. omega (
        arith,
        ready.owned o,
        held_in-append o xs ys,
        budget_mono depth (held o b + held_in o xs) (held o b + held_in o (xs ++ ys)),
      );
    }

    IsReady-right :
        (xs ys : Bucket) (b : List Bucket) (c : ℕ) (w w' : World) (r : Bool × KMap)
        → IsReady depth limit (xs ++ ys) b c w
        → (t : Copied hash equal env xs b c w r w') → t.ok ≡ true
        → IsReady depth limit ys t.buckets t.count w'
    IsReady-right xs ys b c w w' r ready t ok = record {
      valid = t.valid;
      fresh = Fresh-right hash equal env xs ys b c w w' r ready.fresh t ok;
      live = omega (arith, ready.live, held_in-append null xs ys);
      small = ready.small;
      counts = omega (arith, ready.counts, length-append xs ys, t.counted ok);
      cap = omega (arith, ready.cap, mul_mono (length b) (length t.buckets) (2 ^ depth) t.wider);
      owned = λ o. omega (
        arith,
        ready.owned o,
        held_in-append o xs ys,
        t.kept o,
        t.few o,
        budget_mono depth (held o t.buckets + held_in o ys) (held o b + held_in o (xs ++ ys)),
      );
    }

    pub copy_bucket-Copied :
        (es : Bucket) (b : List Bucket) (c : ℕ) (w : World)
        → IsReady depth limit es b c w
        → Returns
            (Copied hash equal env es b c w)
            (copy_bucket env rehash es (table hash equal b c) w)
    unfolding copy_bucket one_copied
    copy_bucket-Copied [] b c w ready = returns (nothing_copied hash equal env b c w ready.valid)
    copy_bucket-Copied (e ∷ es) b c w ready =
        Returns.bind
          (set_value_by-Stored hash equal laws env leaf depth rehash rehashes b c e.key e.value w
            ready.valid (omega (arith, ready.counts, ready.small))
            (omega (arith, ready.counts, ready.cap)) (ground (arith, ready.live))
            (ground (arith, ready.live)) (ground (arith, ready.owned e.key))
            (ground (arith, ready.owned e.value))
            (λ o. omega (
              arith,
              ready.owned o,
              budget_mono depth (held o b + one_if (o == e.key) + one_if (o == e.value))
                  (held o b + held_in o (e ∷ es)),
            )))
          λ r w₁ s.
            let one =
              one_copied hash equal env e b c w w₁ r
                (Fresh-left hash equal b (e ∷ []) es ready.fresh)
                (laws.equal_refl e.key (ground (arith, ready.live))) s in
            elim (Bool-cases s.ok) [
              | inl ok ↦
                  rw (s.result, ok)
                    (Returns.mono
                      (copy_bucket-Copied es s.buckets s.count w₁
                        (IsReady-right (e ∷ []) es b c w w₁ r ready one ok))
                      λ r₂ w₂ t. both_copied hash equal env (e ∷ []) es b c w w₁ w₂ r r₂ one ok t)
              | inr bad ↦
                  rw (s.result, bad)
                    (returns (stopped hash equal env (e ∷ []) es b c w w₁ r one bad))
            ]

    -- The two loops copy all entries, or stop at one that could not be stored.
    pub copy_buckets-Copied :
        (bs : List Bucket) (b : List Bucket) (c : ℕ) (w : World)
        → IsReady depth limit (entries bs) b c w
        → Returns
            (Copied hash equal env (entries bs) b c w)
            (copy_buckets env rehash bs (table hash equal b c) w)
    unfolding copy_buckets
    copy_buckets-Copied [] b c w ready = returns (nothing_copied hash equal env b c w ready.valid)
    copy_buckets-Copied (es ∷ bs) b c w ready =
        Returns.bind (copy_bucket-Copied es b c w (IsReady-left es (entries bs) b c w ready))
          λ r w₁ s. elim (Bool-cases s.ok) [
            | inl ok ↦
                rw (s.result, ok)
                  (Returns.mono
                    (copy_buckets-Copied bs s.buckets s.count w₁
                      (IsReady-right es (entries bs) b c w w₁ r ready s ok))
                    λ r₂ w₂ t. both_copied hash equal env es (entries bs) b c w w₁ w₂ r r₂ s ok t)
            | inr bad ↦
                rw (s.result, bad)
                  (returns (stopped hash equal env es (entries bs) b c w w₁ r s bad))
          ]
