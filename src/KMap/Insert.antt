-- ===== src/KMap/Insert.antt =====
-- `KMapSetValueNoRehash` of kmap.c on a key with no entry, whatever the allocator answers.
use k_h.Base.{
  ℕ, ◌+◌, ◌^◌, ◌≤◌, ◌<◌, ◌≡◌, ◌≢◌, refl, Bool, true, false, ◌&&◌, Option, none, some, List, [], ◌∷◌,
  ◌++◌, arith, ◌==◌, if◌then◌else◌, length, length-append, length-set, get_or, set, u64, Bool-cases,
  inl, inr,
}
use k_h.World.{null, Refuses, KObjectRef, World, pure, Env, ◌>>◌, ◌>>=◌}
use k_h.World.Returns
use k_h.World.Returns.{Returns, returns}
use k_h.KObject.Counts.{refs, one_if, one_if-le, IsLeaf}
use k_h.KMap.{
  KMap, Bucket, KMapHash, KMapEqual, insert_entry, add_entry, entry_release, with_bucket,
}
use k_h.KMap.Chain.{
  KeyLaws, held_in, held_in-append, find-append, hits-append, find-eq-none, hits-none,
}
use k_h.KMap.Entry.{entry_new-Made, entry_deinit_lem}
use k_h.KMap.Buckets.{
  sum_over-set, total, held, home, IsPlaced, view, home-lt, set-IsPlaced, set-view,
}

abbrev pub is_none : Option KObjectRef → Bool
is_none none = true
is_none (some _) = false

-- The map holds at most the references that there are, and no count is near its end.
abbrev pub IsOwned : ℕ → World → List Bucket → Type 0
IsOwned room w b = (o : KObjectRef) → (held o b ≤ refs w o) × (refs w o + room < 2 ^ 32)

module _ (hash : KMapHash) (equal : KMapEqual) where
  abbrev pub table : List Bucket → ℕ → KMap
  table b c = record { hash = hash; equal = equal; buckets = b; object_count = c }

  -- Every entry stands in its key's bucket, keys are distinct, neither key nor value is NULL, and
  -- the count is the number of entries.
  pub record IsValid (b : List Bucket) (c : ℕ) : Type 0 where
    pub pos : 0 < length b
    pub placed : IsPlaced hash equal b
    pub counted : c ≡ total b
    pub live : held null b ≡ 0

  -- What setting `k` to `v` amounts to. Where it fails, the map reads as before. In either case the
  -- references gained and lost are those of the entries gained and lost.
  pub record Stored (env : Env) (b : List Bucket) (c : ℕ) (k v : KObjectRef) (w : World)
      (r : Bool × KMap) (w' : World) : Type 0 where
    pub ok : Bool
    pub buckets : List Bucket
    pub count : ℕ
    pub result : r ≡ (ok, table buckets count)
    pub valid : IsValid buckets count
    pub reads :
        (q : KObjectRef)
        → view hash equal buckets q ≡ (if ok && equal q k then some v else view hash equal b q)
    pub counted : count ≡ c + one_if (ok && is_none (view hash equal b k))
    pub few : (o : KObjectRef) → held o buckets ≤ held o b + one_if (o == k) + one_if (o == v)
    pub kept : (o : KObjectRef) → refs w' o + held o b ≡ refs w o + held o buckets
    pub wider : length b ≤ length buckets
    pub refused : ok ≡ false → (view hash equal b k ≡ none) × Refuses env

  unchanged :
      (env : Env) (b : List Bucket) (c : ℕ) (k v : KObjectRef) (w w' : World)
      → IsValid b c
      → ((o : KObjectRef) → refs w' o ≡ refs w o)
      → view hash equal b k ≡ none
      → Refuses env
      → Stored env b c k v w (false, table b c) w'
  unchanged env b c k v w w' valid same absent why = record {
    ok = false;
    buckets = b;
    count = c;
    result = refl;
    valid = valid;
    reads = λ q. refl;
    counted = omega arith;
    few = λ o. omega arith;
    kept = λ o. omega (arith, same o);
    wider = omega arith;
    refused = λ _. (absent, why);
  }

  module _ (laws : KeyLaws hash equal) (b : List Bucket) (c : ℕ) (k v : KObjectRef)
      (valid : IsValid b c) (small : c + 1 < 2 ^ 64) (k_live : k ≢ null) (v_live : v ≢ null)
      (absent : view hash equal b k ≡ none) where
    abbrev index : ℕ
    index = home hash equal k (length b)

    abbrev old : Bucket
    old = get_or b index []

    abbrev added : Bucket
    added = old ++ record { key = k; value = v } ∷ []

    abbrev after : List Bucket
    after = set b index added

    held-after : (o : KObjectRef) → held o after ≡ held o b + one_if (o == k) + one_if (o == v)
    held-after o = omega (
      arith,
      sum_over-set (held_in o) b index added (home-lt hash equal laws k (length b) valid.pos),
      held_in-append o old (record { key = k; value = v } ∷ []),
    )

    after-IsValid : IsValid after (u64 (c + 1))
    after-IsValid = record {
      pos = rw (length-set) valid.pos;
      placed = set-IsPlaced hash equal laws b valid.pos valid.placed k added λ q.
          let one = (valid.placed q index).0 in
          let new = hits-none equal laws q k old absent in
          ground (arith, hits-append equal q old (record { key = k; value = v } ∷ []));
      counted = omega (
        arith,
        valid.counted,
        sum_over-set length b index added (home-lt hash equal laws k (length b) valid.pos),
        length-append old (record { key = k; value = v } ∷ []),
      );
      live = ground (arith, held-after null, valid.live);
    }

    -- The entry is appended and its two references are taken.
    appended :
        (env : Env) (w w' : World)
        → ((o : KObjectRef) → refs w' o ≡ refs w o + one_if (o == k) + one_if (o == v))
        → Stored env b c k v w (true, table after (u64 (c + 1))) w'
    appended env w w' gained = record {
      ok = true;
      buckets = after;
      count = u64 (c + 1);
      result = refl;
      valid = after-IsValid;
      reads = set-view hash equal laws b valid.pos valid.placed k added (some v) λ q.
          let new = hits-none equal laws q k old absent in
          ground (
            arith,
            find-append equal q old (record { key = k; value = v } ∷ []),
            find-eq-none equal q old,
          );
      counted = rw absent (omega arith);
      few = λ o. omega (arith, held-after o);
      kept = λ o. omega (arith, held-after o, gained o);
      wider = omega (arith, length-set b index added);
      refused = λ bad. absurd cc;
    }

    module _ (env : Env) (leaf : IsLeaf env) (w : World)
        (room : (o : KObjectRef) → refs w o + 2 < 2 ^ 32) (k_pos : 0 < refs w k)
        (v_pos : 0 < refs w v) where
      -- With the new entry there, the bucket's list may still be refused a node.
      append-Stored :
          (w' : World)
          → ((o : KObjectRef) → refs w' o ≡ refs w o + one_if (o == k) + one_if (o == v))
          → Returns (Stored env b c k v w) (
              (do
                (done_, bucket) ← add_entry env old (some (record { key = k; value = v }))
                entry_release env done_ (some (record { key = k; value = v }))
                if done_
                    then pure (
                      true,
                      record (with_bucket (table b c) index bucket) { object_count = u64 (c + 1) },
                    )
                    else pure (false, table b c))
                w')
      unfolding add_entry entry_release
      append-Stored w' gained = elim (Bool-cases (env.malloc w' == null)) [
        | inl refused ↦ rw refused (
            Returns.bind
              (entry_deinit_lem env (record { key = k; value = v }) _ leaf k_live v_live
                λ o. omega (arith, gained o, room o, one_if-le (o == k), one_if-le (o == v)))
              λ _ w₂ given. returns (
                unchanged env b c k v w w₂ valid (λ o. omega (arith, gained o, given o)) absent
                  (w', ground arith)))
        | inr granted ↦ rw granted (returns (appended env w _ gained))
      ]

      pub insert_entry-Stored :
          Returns (Stored env b c k v w) (insert_entry env (table b c) index k v w)
      unfolding insert_entry
      insert_entry-Stored =
          Returns.bind (entry_new-Made env k v w k_live v_live k_pos v_pos room) λ r w' made.
            elim made [
              | inl (e, why, same) ↦
                  unfold add_entry entry_release in
                  rw e (returns (unchanged env b c k v w w' valid same absent (w, why)))
              | inr (e, gained) ↦ rw e (append-Stored w' gained)
            ]
