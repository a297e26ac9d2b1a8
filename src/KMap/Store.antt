-- ===== src/KMap/Store.antt =====
-- `KMapSetValueNoRehash` of kmap.c, on every branch.
use k_h.Base.{
  ℕ, ◌+◌, ◌^◌, ◌≤◌, ◌<◌, ◌≡◌, ◌≢◌, refl, true, false, some, List, [], arith, ◌==◌, length,
  length-set, get_or, set, Bool-cases, Option-cases, inl, inr,
}
use k_h.World.{null, KObjectRef, World, Env}
use k_h.World.Returns
use k_h.World.Returns.{Returns, returns}
use k_h.KObject.Counts.{refs, one_if, IsLeaf, retain-Retained, release-Released}
use k_h.KMap.{KMapEntry, Bucket, KMapHash, KMapEqual, find_entry, update_entry, set_value_no_rehash}
use k_h.KMap.Chain.{
  KeyLaws, held_in, assign, hits-assign, find-assign, Found, find_entry-Found, find_entry-none,
}
use k_h.KMap.Buckets.{sum_over-set, held, home, home-lt, view_congr, set-IsPlaced, set-view}
use k_h.KMap.Insert.{IsOwned, table, IsValid, Stored, insert_entry-Stored}

module _ (hash : KMapHash) (equal : KMapEqual) (laws : KeyLaws hash equal) (b : List Bucket) (c : ℕ)
    (k v : KObjectRef) (valid : IsValid hash equal b c) where
  abbrev index : ℕ
  index = home hash equal k (length b)

  abbrev old : Bucket
  old = get_or b index []

  within : index < length b
  within = home-lt hash equal laws k (length b) valid.pos

  module _ (i : ℕ) (e : KMapEntry) (found : Found equal k old i e) where
    abbrev after : List Bucket
    after = set b index (assign equal k v old)

    held-after :
        (o : KObjectRef) → held o after + one_if (o == e.value) ≡ held o b + one_if (o == v)
    held-after o = omega (
      arith,
      sum_over-set (held_in o) b index (assign equal k v old) within,
      found.held_assign v o,
    )

    replaced :
        (env : Env) (w w' : World)
        → v ≢ null
        → ((o : KObjectRef) → refs w' o + one_if (o == e.value) ≡ refs w o + one_if (o == v))
        → Stored hash equal env b c k v w (true, table hash equal after c) w'
    replaced env w w' v_live moved = record {
      ok = true;
      buckets = after;
      count = c;
      result = refl;
      valid = record {
        pos = rw (length-set) valid.pos;
        placed =
            set-IsPlaced hash equal laws b valid.pos valid.placed k (assign equal k v old)
              λ q. rw hits-assign ((valid.placed q index).0, omega arith);
        counted = omega (
          arith,
          valid.counted,
          sum_over-set length b index (assign equal k v old) within,
          found.same_length v,
        );
        live = ground (arith, held-after null, valid.live);
      };
      reads =
          set-view hash equal laws b valid.pos valid.placed k (assign equal k v old) (some v)
            λ q. find-assign equal laws q k v old found.value;
      counted = rw found.value (omega arith);
      few = λ o. omega (arith, held-after o);
      kept = λ o. omega (arith, held-after o, moved o);
      wider = omega (arith, length-set b index (assign equal k v old));
      refused = λ bad. absurd cc;
    }

    -- The value is the one that the entry has.
    already :
        (env : Env) (w w' : World)
        → v ≡ e.value
        → ((o : KObjectRef) → refs w' o ≡ refs w o)
        → Stored hash equal env b c k v w (true, table hash equal b c) w'
    already env w w' same kept = record {
      ok = true;
      buckets = b;
      count = c;
      result = refl;
      valid = valid;
      reads = λ q. ground (arith, view_congr hash equal laws b q k, found.value);
      counted = rw found.value (omega arith);
      few = λ o. omega arith;
      kept = λ o. omega (arith, kept o);
      wider = omega arith;
      refused = λ bad. absurd cc;
    }

    held-value : (o : KObjectRef) → one_if (o == e.value) ≤ held o b + one_if (o == v)
    held-value o = omega (arith, held-after o)

    update_entry-Stored :
        (env : Env) (w : World)
        → IsLeaf env
        → v ≢ null
        → 0 < refs w v
        → IsOwned 2 w b
        → Returns
            (Stored hash equal env b c k v w)
            (update_entry env (table hash equal b c) index i e v w)
    unfolding update_entry
    update_entry-Stored env w leaf v_live v_pos owned = elim (Bool-cases (v == e.value)) [
      | inl same ↦ rw same (returns (already env w _ (ground arith) λ o. refl))
      | inr other ↦
          let value_live : e.value ≢ null = ground (arith, held-value null, valid.live) in
          rw other (
            Returns.bind
              (release-Released env e.value w leaf value_live
                (ground (arith, held-value e.value, owned e.value)) (omega (arith, owned e.value)))
              λ _ w₁ (given, _, _).
                Returns.bind
                  (retain-Retained v w₁ v_live (ground (arith, given v))
                    (omega (arith, given v, owned v)))
                  λ _ w₂ (got, _).
                    rw (found.assigned v)
                      (returns (replaced env w w₂ v_live λ o. omega (arith, given o, got o))))
    ]

  -- On a valid map with less than 2 ^ 64 - 1 entries and whatever the allocator answers,
  -- `KMapSetValueNoRehash` of a live value under a live key, both referenced, returns: it appends
  -- an entry, replaces the value of the entry with an equal key, or fails and changes nothing that
  -- can be read. The map stays valid, and each reference count changes by as much as the places of
  -- the object in the map. The hash and the equality agree, deinitialisers are leaves, and the
  -- counts cover the places in the map and leave room for two more references.
  pub set_value_no_rehash-Stored :
      (env : Env) (w : World)
      → IsLeaf env
      → c + 1 < 2 ^ 64
      → k ≢ null
      → v ≢ null
      → 0 < refs w k
      → 0 < refs w v
      → IsOwned 2 w b
      → Returns
          (Stored hash equal env b c k v w)
          (set_value_no_rehash env (table hash equal b c) k v w)
  unfolding set_value_no_rehash
  set_value_no_rehash-Stored env w leaf small k_live v_live k_pos v_pos owned =
      let k_not_null : (k == null) ≡ false = ground arith in
      let v_not_null : (v == null) ≡ false = ground arith in
      let some_bucket : (length b == 0) ≡ false = ground (arith, valid.pos) in
      elim (Option-cases (find_entry equal k old)) [
        | inl e ↦
            rw (v_not_null, k_not_null, some_bucket, e)
              (insert_entry-Stored hash equal laws b c k v valid small k_live v_live
                (find_entry-none equal k old e) env leaf w (λ o. (owned o).1) k_pos v_pos)
        | inr ((i, entry), e) ↦
            rw (v_not_null, k_not_null, some_bucket, e)
              (update_entry-Stored i entry (find_entry-Found equal k old i entry e) env w leaf
                v_live v_pos owned)
      ]
