-- ===== src/KMap/Chain.antt =====
-- One bucket of a map: what it holds for a key, and how writes change it.
use k_h.Base.{
  some_eq, ℕ, suc, ◌+◌, ◌≤◌, ◌≡◌, ◌≢◌, refl, true, false, Option, none, some, [], ◌∷◌, ◌++◌, arith,
  ap, sym, ◌==◌, if◌then◌else◌, length, set, remove_at, Bool-cases, Option-cases, inl, inr,
}
use mathlib.Core.Path.{subst}
use k_h.World.{null, KObjectRef}
use k_h.KObject.Counts.{one_if}
use k_h.KMap.{KMapEntry, Bucket, KMapHash, KMapEqual, find_entry}

-- What a map asks of its two callbacks.
pub record KeyLaws (hash : KMapHash) (equal : KMapEqual) : Type 0 where
  pub equal_refl : (a : KObjectRef) → a ≢ null → equal a a ≡ true
  pub equal_symm : (a b : KObjectRef) → equal a b ≡ equal b a
  pub equal_trans : (a b c : KObjectRef) → equal a b ≡ true → equal b c ≡ true → equal a c ≡ true
  pub hash-equal : (a b : KObjectRef) → equal a b ≡ true → hash a ≡ hash b

-- The references that a bucket's entries hold to an object.
abbrev pub held_in : KObjectRef → Bucket → ℕ
held_in o [] = 0
held_in o (e ∷ c) = one_if (o == e.key) + one_if (o == e.value) + held_in o c

pub held_in-append :
    (o : KObjectRef) (a b : Bucket) → held_in o (a ++ b) ≡ held_in o a + held_in o b
held_in-append o [] b = omega arith
held_in-append o (e ∷ a) b = omega (arith, held_in-append o a b)

abbrev pub or_else : Option KObjectRef → Option KObjectRef → Option KObjectRef
or_else none b = b
or_else (some a) b = some a

pub or_else-none : (a : Option KObjectRef) → or_else a none ≡ a
or_else-none none = refl
or_else-none (some a) = refl

pub or_else_assoc : (a b c : Option KObjectRef) → or_else (or_else a b) c ≡ or_else a (or_else b c)
or_else_assoc none b c = refl
or_else_assoc (some a) b c = refl

none-ne-some {ℓ} : {A : Type ℓ} {a : A} → ◌≡◌ {A = Option A} none (some a) → ⊥
none-ne-some h = cc

module _ (equal : KMapEqual) where
  -- The value of the first entry with an equal key.
  abbrev pub find : KObjectRef → Bucket → Option KObjectRef
  find q [] = none
  find q (e ∷ c) = if equal q e.key then some e.value else find q c

  abbrev pub assign : KObjectRef → KObjectRef → Bucket → Bucket
  assign k v [] = []
  assign k v (e ∷ c) = if equal k e.key then record e { value = v } ∷ c else e ∷ assign k v c

  abbrev pub erase : KObjectRef → Bucket → Bucket
  erase k [] = []
  erase k (e ∷ c) = if equal k e.key then c else e ∷ erase k c

  -- How many entries have an equal key.
  abbrev pub hits : KObjectRef → Bucket → ℕ
  hits q [] = 0
  hits q (e ∷ c) = one_if (equal q e.key) + hits q c

  -- What the search loop's result means.
  pub record Found (k : KObjectRef) (c : Bucket) (i : ℕ) (e : KMapEntry) : Type 0 where
    pub value : find k c ≡ some e.value
    pub assigned : (v : KObjectRef) → set c i (record e { value = v }) ≡ assign k v c
    pub removed : remove_at c i ≡ erase k c
    pub shorter : length (erase k c) + 1 ≡ length c
    pub same_length : (v : KObjectRef) → length (assign k v c) ≡ length c
    pub held_assign :
        (v o : KObjectRef)
        → held_in o (assign k v c) + one_if (o == e.value) ≡ held_in o c + one_if (o == v)
    pub held_erase :
        (o : KObjectRef)
        → held_in o (erase k c) + one_if (o == e.key) + one_if (o == e.value) ≡ held_in o c

  Found-here :
      (k : KObjectRef) (x : KMapEntry) (c : Bucket) → equal k x.key ≡ true → Found k (x ∷ c) 0 x
  Found-here k x c t = record {
    value = rw t;
    assigned = λ v. rw t;
    removed = rw t;
    shorter = rw t (omega arith);
    same_length = λ v. rw t;
    held_assign = λ v o. rw t (omega arith);
    held_erase = λ o. rw t (omega arith);
  }

  Found-later :
      (k : KObjectRef) (x : KMapEntry) (c : Bucket) (i : ℕ) (e : KMapEntry)
      → equal k x.key ≡ false
      → Found k c i e
      → Found k (x ∷ c) (suc i) e
  Found-later k x c i e f r = record {
    value = rw f r.value;
    assigned = λ v. rw f (ap (λ t. x ∷ t) (r.assigned v));
    removed = rw f (ap (λ t. x ∷ t) r.removed);
    shorter = rw f (omega (arith, r.shorter));
    same_length = λ v. rw f (ap suc (r.same_length v));
    held_assign = λ v o. rw f (omega (arith, r.held_assign v o));
    held_erase = λ o. rw f (omega (arith, r.held_erase o));
  }

  pub find_entry-Found :
      (k : KObjectRef) (c : Bucket) (i : ℕ) (e : KMapEntry)
      → find_entry equal k c ≡ some (i, e)
      → Found k c i e
  unfolding find_entry
  find_entry-Found k [] i e h = absurd (cc)
  find_entry-Found k (x ∷ c) i e h = elim (Bool-cases (equal k x.key)) [
    | inl t ↦
        let same = some_eq (rw t at h) in
        subst (λ p. Found k (x ∷ c) p.0 p.1) same (Found-here k x c t)
    | inr f ↦ elim (Option-cases (find_entry equal k c)) [
      | inl n ↦ absurd (none-ne-some (rw (f, n) at h))
      | inr ((j, y), n) ↦
          let same = some_eq (rw (f, n) at h) in
          subst (λ p. Found k (x ∷ c) p.0 p.1) same
            (Found-later k x c j y f (find_entry-Found k c j y n))
    ]
  ]

  pub find_entry-none :
      (k : KObjectRef) (c : Bucket) → find_entry equal k c ≡ none → find k c ≡ none
  unfolding find_entry
  find_entry-none k [] h = refl
  find_entry-none k (x ∷ c) h = elim (Bool-cases (equal k x.key)) [
    | inl t ↦ absurd (none-ne-some (sym (rw t at h)))
    | inr f ↦ elim (Option-cases (find_entry equal k c)) [
      | inl n ↦ rw f (find_entry-none k c n)
      | inr (p, n) ↦ absurd (none-ne-some (sym (rw (f, n) at h)))
    ]
  ]

  pub find-append :
      (q : KObjectRef) (a b : Bucket) → find q (a ++ b) ≡ or_else (find q a) (find q b)
  find-append q [] b = refl
  find-append q (e ∷ a) b = ground (arith, find-append q a b)

  pub hits-append : (q : KObjectRef) (a b : Bucket) → hits q (a ++ b) ≡ hits q a + hits q b
  hits-append q [] b = omega arith
  hits-append q (e ∷ a) b = omega (arith, hits-append q a b)

  pub hits-assign : (q k v : KObjectRef) (c : Bucket) → hits q (assign k v c) ≡ hits q c
  hits-assign q k v [] = refl
  hits-assign q k v (e ∷ c) = ground (arith, hits-assign q k v c)

  pub hits-erase-le : (q k : KObjectRef) (c : Bucket) → hits q (erase k c) ≤ hits q c
  hits-erase-le q k [] = omega arith
  hits-erase-le q k (e ∷ c) = ground (arith, hits-erase-le q k c)

  pub find-eq-none : (q : KObjectRef) (c : Bucket) → hits q c ≡ 0 → find q c ≡ none
  find-eq-none q [] h = refl
  find-eq-none q (e ∷ c) h = ground (arith, find-eq-none q c)

  module _ {hash : KMapHash} (laws : KeyLaws hash equal) where
    pub equal_left : (a b c : KObjectRef) → equal a b ≡ true → equal a c ≡ equal b c
    equal_left a b c h =
        ground (arith, laws.equal_symm a b, laws.equal_trans a b c, laws.equal_trans b a c)

    pub hits-none :
        (q k : KObjectRef) (c : Bucket) → find k c ≡ none → equal q k ≡ true → hits q c ≡ 0
    hits-none q k [] h same = refl
    hits-none q k (e ∷ c) h same = ground (arith, hits-none q k c, equal_left q k e.key)

    pub find-assign :
        (q k v : KObjectRef) (c : Bucket) {old : KObjectRef}
        → find k c ≡ some old
        → find q (assign k v c) ≡ (if equal q k then some v else find q c)
    find-assign q k v [] h = absurd (cc)
    find-assign q k v (e ∷ c) {old} h = ground (
      arith,
      find-assign q k v c {old = old},
      equal_left q k e.key,
      equal_left e.key k q,
      laws.equal_symm e.key k,
      laws.equal_symm e.key q,
      laws.equal_symm k q,
    )

    pub find-erase :
        (q k : KObjectRef) (c : Bucket)
        → hits q c ≤ 1
        → find q (erase k c) ≡ (if equal q k then none else find q c)
    find-erase q k [] h = ground arith
    find-erase q k (e ∷ c) h = ground (
      arith,
      find-erase q k c,
      find-eq-none q c,
      equal_left q k e.key,
      equal_left e.key k q,
      laws.equal_symm e.key k,
      laws.equal_symm e.key q,
      laws.equal_symm k q,
    )

    pub find_congr : (q k : KObjectRef) (c : Bucket) → equal q k ≡ true → find q c ≡ find k c
    find_congr q k [] same = refl
    find_congr q k (e ∷ c) same = ground (arith, find_congr q k c, equal_left q k e.key)
