-- ===== src/KMap/Copy.antt =====
-- `KMapSetValue` of kmap.c, given what its rehash does.
use k_h.Base.{
  ℕ, zero, suc, ◌+◌, ◌*◌, ◌^◌, ◌≤◌, ◌<◌, ◌≡◌, ◌≢◌, refl, Bool, true, false, ◌⊎◌, ◌&&◌, List, arith,
  ap, ◌∙◌, ◌==◌, length, Bool-cases, inl, inr,
}
use mathlib.Core.Path.{subst}
use k_h.World.{null, Refuses, KObjectRef, World, Cmd, Env}
use k_h.World.Returns
use k_h.World.Returns.{Returns, returns}
use k_h.KObject.Counts.{refs, one_if, one_if-le, IsLeaf}
use k_h.KMap.{KMap, Bucket, KMapHash, KMapEqual, set_value_by}
use k_h.KMap.Chain.{KeyLaws}
use k_h.KMap.Buckets.{held, view}
use k_h.KMap.Insert.{is_none, table, IsValid, Stored}
use k_h.KMap.Store.{set_value_no_rehash-Stored}

-- The references to one object that `depth` rehashes inside one another take at most, if the map
-- holds `h` of them, and two for an entry under construction.
abbrev pub budget : (depth h : ℕ) → ℕ
budget zero h = 2
budget (suc depth) h = h + budget depth h

pub budget_mono : (depth h h' : ℕ) → h ≤ h' → budget depth h ≤ budget depth h'
budget_mono zero h h' le = omega arith
budget_mono (suc depth) h h' le = omega (arith, budget_mono depth h h' le)

pub two-le-budget : (depth h : ℕ) → 2 ≤ budget depth h
two-le-budget zero h = omega arith
two-le-budget (suc depth) h = omega (arith, two-le-budget depth h)

pub mul_mono : (a b p : ℕ) → a ≤ b → a * p ≤ b * p
mul_mono a b p h = grind arith

module _ (hash : KMapHash) (equal : KMapEqual) where
  -- A map with the same entries for all that can be read, in other buckets or the same.
  pub record Rehashed (env : Env) (b : List Bucket) (c : ℕ) (w : World) (r : Bool × KMap)
      (w' : World) : Type 0 where
    pub ok : Bool
    pub buckets : List Bucket
    pub result : r ≡ (ok, table hash equal buckets c)
    pub valid : IsValid hash equal buckets c
    pub reads : (q : KObjectRef) → view hash equal buckets q ≡ view hash equal b q
    pub few : (o : KObjectRef) → held o buckets ≤ held o b
    pub kept : (o : KObjectRef) → refs w' o + held o b ≡ refs w o + held o buckets
    pub wider : length b ≤ length buckets
    pub grown : ok ≡ true → (c < length b) ⊎ (length b * 2 ≤ length buckets)
    pub refused : ok ≡ false → (buckets ≡ b) × Refuses env

  -- What is asked of a rehash that may nest to the given depth.
  abbrev pub Rehashes : Env → ℕ → (KMap → Cmd (Bool × KMap)) → Type 0
  Rehashes env depth rehash =
      (b : List Bucket) (c : ℕ) (w : World)
      → IsValid hash equal b c
      → c + 2 < 2 ^ 27
      → c < length b * 2 ^ depth
      → ((o : KObjectRef) → (held o b ≤ refs w o) × (refs w o + budget depth (held o b) < 2 ^ 32))
      → Returns (Rehashed env b c w) (rehash (table hash equal b c) w)

  then-Rehashed :
      (env : Env) (b : List Bucket) (c : ℕ) (k v : KObjectRef) (w w₁ w₂ : World)
      (r₁ r₂ : Bool × KMap) (s : Stored hash equal env b c k v w r₁ w₁)
      → s.ok ≡ true
      → (t : Rehashed env s.buckets s.count w₁ r₂ w₂)
      → Stored hash equal env b c k v w (true, table hash equal t.buckets s.count) w₂
  then-Rehashed env b c k v w w₁ w₂ r₁ r₂ s ok t = record {
    ok = true;
    buckets = t.buckets;
    count = s.count;
    result = refl;
    valid = t.valid;
    reads = λ q. t.reads q ∙ s.reads q ∙ rw ok refl;
    counted = s.counted ∙ rw ok refl;
    few = λ o. omega (arith, s.few o, t.few o);
    kept = λ o. omega (arith, s.kept o, t.kept o);
    wider = omega (arith, s.wider, t.wider);
    refused = λ bad. absurd cc;
  }

  module _ (laws : KeyLaws hash equal) (env : Env) (leaf : IsLeaf env) (depth : ℕ)
      (rehash : KMap → Cmd (Bool × KMap)) (rehashes : Rehashes env depth rehash) where
    -- `KMapSetValue` with such a rehash stores as `KMapSetValueNoRehash` does.
    pub set_value_by-Stored :
        (b : List Bucket) (c : ℕ) (k v : KObjectRef) (w : World)
        → IsValid hash equal b c
        → c + 3 < 2 ^ 27
        → c + 1 < length b * 2 ^ depth
        → k ≢ null
        → v ≢ null
        → 0 < refs w k
        → 0 < refs w v
        → ((o : KObjectRef)
            → (held o b ≤ refs w o)
              × (refs w o
                    + one_if (o == k)
                    + one_if (o == v)
                    + budget depth (held o b + one_if (o == k) + one_if (o == v))
                  < 2 ^ 32))
        → Returns
            (Stored hash equal env b c k v w)
            (set_value_by env rehash (table hash equal b c) k v w)
    set_value_by-Stored b c k v w valid small cap k_live v_live k_pos v_pos owned =
        Returns.bind
          (set_value_no_rehash-Stored hash equal laws b c k v valid env w leaf (omega arith) k_live
            v_live k_pos v_pos
            (λ o.
              omega (
                arith,
                owned o,
                two-le-budget depth (held o b + one_if (o == k) + one_if (o == v)),
              )))
          λ r w₁ s. elim (Bool-cases s.ok) [
            | inl ok ↦
                rw (s.result, ok)
                  (Returns.bind
                    (rehashes s.buckets s.count w₁ s.valid
                      (omega (arith, s.counted, one_if-le (s.ok && is_none (view hash equal b k))))
                      (omega (
                        arith,
                        s.counted,
                        one_if-le (s.ok && is_none (view hash equal b k)),
                        mul_mono (length b) (length s.buckets) (2 ^ depth) s.wider,
                      ))
                      (λ o. omega (
                        arith,
                        s.kept o,
                        s.few o,
                        owned o,
                        budget_mono depth (held o s.buckets)
                            (held o b + one_if (o == k) + one_if (o == v)),
                      )))
                    λ r₂ w₂ t.
                      rw t.result (returns (then-Rehashed env b c k v w w₁ w₂ r r₂ s ok t)))
            | inr bad ↦
                rw (s.result, bad)
                  (returns (
                    subst (λ t. Stored hash equal env b c k v w t w₁)
                      (s.result ∙ ap (λ t. (t, table hash equal s.buckets s.count)) bad) s))
          ]
