-- ===== src/KMap/Set.antt =====
-- `KMapSetValue` of kmap.c, rehashes included, whatever the allocator answers.
use k_h.Base.{
  ℕ, ◌+◌, ◌*◌, ◌^◌, ◌≤◌, ◌<◌, ◌≡◌, ◌≢◌, refl, Bool, true, false, ◌&&◌, Option, none, some, List,
  arith, sym, ◌∙◌, ◌==◌, if◌then◌else◌, length, ap,
}
use k_h.World.{null, KObjectRef, World, Refuses, done, Env}
use k_h.World.Returns
use k_h.World.Returns.{Returns, returns}
use k_h.KObject.Counts.{refs, one_if, IsLeaf}
use k_h.KMap.{KMap, Bucket, KMapHash, KMapEqual, rehash_if_necessary, set_value, get_value}
use k_h.KMap.Chain.{KeyLaws}
use k_h.KMap.Buckets.{held, view}
use k_h.KMap.Insert.{table, IsValid, Stored}
use k_h.KMap.Copy.{budget, set_value_by-Stored}
use k_h.KMap.Allocated.{ArrayNewReturns}
use k_h.KMap.Rehash.{rehash_if_necessary-Rehashed}
use k_h.KMap.Lookup.{or_null, get_value-view}

module _ (hash : KMapHash) (equal : KMapEqual) (laws : KeyLaws hash equal) (env : Env)
    (leaf : IsLeaf env) (array : ArrayNewReturns env) (b : List Bucket) (c : ℕ) (k v : KObjectRef)
    (w : World) (valid : IsValid hash equal b c) (small : c + 3 < 2 ^ 27) (k_live : k ≢ null)
    (v_live : v ≢ null) (k_pos : 0 < refs w k) (v_pos : 0 < refs w v)
    (owned : (o : KObjectRef)
      → (held o b ≤ refs w o)
        × (refs w o
              + one_if (o == k)
              + one_if (o == v)
              + budget 64 (held o b + one_if (o == k) + one_if (o == v))
            < 2 ^ 32)) where
  -- The answer to a set: a map in which the key is stored, or which reads as before.
  abbrev pub SetAnswer : Bool × Option KMap → World → Type 0
  SetAnswer r w' = (p : Bool × KMap) × (r ≡ (p.0, some p.1)) × Stored hash equal env b c k v w p w'

  enough : c + 1 < length b * 2 ^ 64
  enough = omega (arith, small, valid.pos)

  -- `KMapSetValue` returns, and leaves a valid map: either the key is stored and the others read as
  -- before, or nothing that can be read changed, the key had no value, and the allocator refuses a
  -- request; the count grows by one exactly if a new key was stored, and the reference count of
  -- each object changes by exactly as much as the places that it has in the map. The map is valid
  -- and holds less than 2 ^ 27 - 3 entries, the hash and the equality agree, deinitialisers are
  -- leaves, `KArrayNew` returns, key and value are live and referenced, and the reference counts
  -- leave room for the rehashes.
  pub set_value-Stored : Returns SetAnswer (set_value env (some (table hash equal b c)) k v w)
  unfolding set_value
  set_value-Stored =
      Returns.bind
        (set_value_by-Stored hash equal laws env leaf 64 (rehash_if_necessary env 64)
          (rehash_if_necessary-Rehashed hash equal laws env leaf array 64) b c k v w valid small
          enough k_live v_live k_pos v_pos owned)
        λ p w₁ s. returns (p, refl, s)

  or_null-if :
      (t : Bool) (old : Option KObjectRef)
      → or_null (if t then some v else old) ≡ (if t then v else or_null old)
  or_null-if true old = refl
  or_null-if false old = refl

  -- After `KMapSetValue` of a live value under a live key, `KMapGetValue` of any live key answers
  -- the new value if the set reported success and the key is equal to the one that was set, and
  -- what the old map held for that key otherwise, however many rehashes the set made; and the set
  -- reports failure only if the old map held nothing for the key and the allocator refuses a
  -- request. The map is valid and holds less than 2 ^ 27 - 3 entries, the hash and the equality
  -- agree, deinitialisers are leaves, `KArrayNew` returns, key and value are live and referenced,
  -- and the reference counts leave room for the rehashes.
  pub set_value-get_value :
      (q : KObjectRef)
      → q ≢ null
      → Returns
          (λ r w'.
            (get_value r.1 q w'
              ≡ done (if r.0 && equal q k then v else or_null (view hash equal b q)) w')
            × (r.0 ≡ false → (view hash equal b k ≡ none) × Refuses env))
          (set_value env (some (table hash equal b c)) k v w)
  set_value-get_value q q_live = Returns.mono set_value-Stored λ r w' (p, e, s).
      let ok : r.0 ≡ s.ok =
        ap (λ (t : Bool × Option KMap). t.0) e ∙ ap (λ (t : Bool × KMap). t.0) s.result in
      (
        ap (λ (t : Bool × Option KMap). get_value t.1 q w') e
            ∙ ap (λ (t : Bool × KMap). get_value (some t.1) q w') s.result
            ∙ get_value-view hash equal s.buckets s.count q s.valid w' q_live
            ∙ ap (λ t. done t w')
                (ap or_null (s.reads q)
                  ∙ or_null-if (s.ok && equal q k) (view hash equal b q)
                  ∙ ap (λ t. if t && equal q k then v else or_null (view hash equal b q)) (sym ok)),
        λ bad. s.refused (sym ok ∙ bad),
      )
