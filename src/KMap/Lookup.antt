-- ===== src/KMap/Lookup.antt =====
-- `KMapGetValue` and `KMapRemoveValue` of kmap.c, against what a key reads in the buckets.
use k_h.Base.{
  ℕ, ◌+◌, ◌-◌, ◌^◌, ◌<◌, ◌≡◌, ◌≢◌, refl, Bool, true, false, not, Option, none, some, List, [],
  arith, sym, ◌==◌, if◌then◌else◌, length, length-set, get_or, set, u64, Option-cases, inl, inr,
}
use k_h.World.{null, KObjectRef, World, done}
use k_h.World.Returns.{Returns, returns}
use mathlib.Core.Option
use k_h.KObject.Counts.{one_if}
use k_h.KMap.{KMap, KMapEntry, Bucket, KMapHash, KMapEqual, find_entry, get_value, remove_value}
use k_h.KMap.Chain.{
  KeyLaws, held_in, erase, hits-erase-le, find-erase, Found, find_entry-Found, find_entry-none,
}
use k_h.KMap.Buckets.{sum_over-set, held, home, view, home-lt, view_congr, set-IsPlaced, set-view}
use k_h.KMap.Insert.{is_none, table, IsValid}

-- A value, or NULL.
abbrev pub or_null : Option KObjectRef → KObjectRef
or_null none = null
or_null (some v) = v

-- The references that an entry holds to an object.
abbrev pub held_by : KObjectRef → Option KMapEntry → ℕ
held_by o none = 0
held_by o (some e) = one_if (o == e.key) + one_if (o == e.value)

module _ (hash : KMapHash) (equal : KMapEqual) (b : List Bucket) (c : ℕ) (k : KObjectRef)
    (valid : IsValid hash equal b c) where
  -- Reading a live key in a valid map gives the value of the first entry with an equal key in the
  -- key's bucket, or NULL without one, and changes nothing.
  pub get_value-view :
      (w : World)
      → k ≢ null
      → get_value (some (table hash equal b c)) k w ≡ done (or_null (view hash equal b k)) w
  unfolding get_value
  get_value-view w k_live =
      let k_not_null : (k == null) ≡ false = ground arith in
      let some_bucket : (length b == 0) ≡ false = ground (arith, valid.pos) in
      let old = get_or b (home hash equal k (length b)) [] in
      elim (Option-cases (find_entry equal k old)) [
        | inl e ↦ rw (k_not_null, some_bucket, e, find_entry-none equal k old e) refl
        | inr ((i, entry), e) ↦
            rw (k_not_null, some_bucket, e, (find_entry-Found equal k old i entry e).value) refl
      ]

  -- A map that reads as before, but for `k`; `gone` holds the references of the entry that left.
  pub record Removed (r : Bool × Option KMap) : Type 0 where
    pub buckets : List Bucket
    pub count : ℕ
    pub result : r ≡ (not (is_none (view hash equal b k)), some (table hash equal buckets count))
    pub valid_after : IsValid hash equal buckets count
    pub reads :
        (q : KObjectRef)
        → view hash equal buckets q ≡ (if equal q k then none else view hash equal b q)
    pub counted : count + one_if (not (is_none (view hash equal b k))) ≡ c
    pub gone : Option KMapEntry
    pub gone_value : Option.map (λ (e : KMapEntry). e.value) gone ≡ view hash equal b k
    pub lost : (o : KObjectRef) → held o b ≡ held o buckets + held_by o gone

  module _ (laws : KeyLaws hash equal) (small : c < 2 ^ 64) where
    abbrev index : ℕ
    index = home hash equal k (length b)

    abbrev old : Bucket
    old = get_or b index []

    missing : view hash equal b k ≡ none → Removed (false, some (table hash equal b c))
    missing absent = record {
      buckets = b;
      count = c;
      result = rw absent refl;
      valid_after = valid;
      reads = λ q. ground (arith, view_congr hash equal laws b q k);
      counted = rw absent (omega arith);
      gone = none;
      gone_value = sym absent;
      lost = λ o. omega arith;
    }

    erased :
        (i : ℕ) (e : KMapEntry)
        → Found equal k old i e
        → Removed
            (true, some (table hash equal (set b index (erase equal k old)) (u64 (c + 2 ^ 64 - 1))))
    erased i e found =
        let within = home-lt hash equal laws k (length b) valid.pos in
        let all = sum_over-set length b index (erase equal k old) within in
        record {
          buckets = set b index (erase equal k old);
          count = u64 (c + 2 ^ 64 - 1);
          result = rw found.value refl;
          valid_after = record {
            pos = rw (length-set) valid.pos;
            placed =
                set-IsPlaced hash equal laws b valid.pos valid.placed k (erase equal k old) λ q.
                  let fewer = hits-erase-le equal q k old in
                  (omega (arith, (valid.placed q index).0), omega arith);
            counted = omega (arith, valid.counted, all, found.shorter);
            live = omega (
              arith,
              valid.live,
              sum_over-set (held_in null) b index (erase equal k old) within,
              found.held_erase null,
            );
          };
          reads =
              set-view hash equal laws b valid.pos valid.placed k (erase equal k old) none
                λ q. find-erase equal laws q k old (valid.placed q index).0;
          counted = rw found.value (omega (arith, valid.counted, all, found.shorter));
          gone = some e;
          gone_value = sym found.value;
          lost = λ o. omega (
            arith,
            sum_over-set (held_in o) b index (erase equal k old) within,
            found.held_erase o,
          );
        }

    -- Removing a live key from a valid map reports whether it was there; afterwards keys equal to
    -- it read nothing, the others as before, the map is valid, and its count is one less exactly if
    -- the key was there; no reference count changes, so the references of the entry that left are
    -- still counted. The hash and the equality agree, and the count is below 2 ^ 64.
    pub remove_value-Removed :
        (w : World)
        → k ≢ null
        → Returns (λ r w'. Removed r × (w' ≡ w)) (remove_value (some (table hash equal b c)) k w)
    unfolding remove_value
    remove_value-Removed w k_live =
        let k_not_null : (k == null) ≡ false = ground arith in
        let some_bucket : (length b == 0) ≡ false = ground (arith, valid.pos) in
        elim (Option-cases (find_entry equal k old)) [
          | inl e ↦
              rw (k_not_null, some_bucket, e)
                (returns (missing (find_entry-none equal k old e), refl))
          | inr ((i, entry), e) ↦
              let found = find_entry-Found equal k old i entry e in
              rw (k_not_null, some_bucket, e, found.removed) (returns (erased i entry found, refl))
        ]
