-- ===== src/KMap/Copied.antt =====
-- What the copy loops of `KMapRehashIfNecessary` in kmap.c amount to, one after the other.
use k_h.Base.{
  ℕ, ◌+◌, ◌≤◌, ◌<◌, ◌≡◌, refl, Bool, true, false, none, List, [], ◌∷◌, ◌++◌, arith, sym, ◌∙◌,
  length, length-append, Bool-cases, inl, inr,
}
use k_h.World.{KObjectRef, World, Refuses, Env}
use k_h.KObject.Counts.{refs}
use k_h.KMap.{KMap, KMapEntry, Bucket, KMapHash, KMapEqual}
use k_h.KMap.Chain.{
  held_in, held_in-append, or_else, or_else-none, or_else_assoc, find, hits, hits-append,
  find-append, find-eq-none,
}
use k_h.KMap.Buckets.{held, view}
use k_h.KMap.Insert.{table, IsValid, Stored}

module _ (hash : KMapHash) (equal : KMapEqual) where
  -- The entries still to come are new to the map, and new to one another.
  abbrev pub Fresh : List Bucket → Bucket → Type 0
  Fresh b es =
      (q : KObjectRef) → (hits equal q es ≤ 1) × (0 < hits equal q es → view hash equal b q ≡ none)

  -- What copying the entries `es` into a map amounts to.
  pub record Copied (env : Env) (es : Bucket) (b : List Bucket) (c : ℕ) (w : World)
      (r : Bool × KMap) (w' : World) : Type 0 where
    pub ok : Bool
    pub buckets : List Bucket
    pub count : ℕ
    pub result : r ≡ (ok, table hash equal buckets count)
    pub valid : IsValid hash equal buckets count
    pub reads :
        ok ≡ true
        → (q : KObjectRef)
        → view hash equal buckets q ≡ or_else (view hash equal b q) (find equal q es)
    pub counted : ok ≡ true → count ≡ c + length es
    pub few : (o : KObjectRef) → held o buckets ≤ held o b + held_in o es
    pub kept : (o : KObjectRef) → refs w' o + held o b ≡ refs w o + held o buckets
    pub wider : length b ≤ length buckets
    pub refused : ok ≡ false → Refuses env

  pub nothing_copied :
      (env : Env) (b : List Bucket) (c : ℕ) (w : World)
      → IsValid hash equal b c
      → Copied env [] b c w (true, table hash equal b c) w
  nothing_copied env b c w valid = record {
    ok = true;
    buckets = b;
    count = c;
    result = refl;
    valid = valid;
    reads = λ _ q. sym (or_else-none (view hash equal b q));
    counted = λ _. omega arith;
    few = λ o. omega arith;
    kept = λ o. refl;
    wider = omega arith;
    refused = λ bad. absurd cc;
  }

  unfoldable pub one_copied :
      (env : Env) (e : KMapEntry) (b : List Bucket) (c : ℕ) (w w' : World) (r : Bool × KMap)
      → Fresh b (e ∷ [])
      → equal e.key e.key ≡ true
      → Stored hash equal env b c e.key e.value w r w'
      → Copied env (e ∷ []) b c w r w'
  one_copied env e b c w w' r fresh same s = record {
    ok = s.ok;
    buckets = s.buckets;
    count = s.count;
    result = s.result;
    valid = s.valid;
    reads = λ ok q.
        s.reads q
        ∙ rw ok (elim (Bool-cases (equal q e.key)) [
          | inl t ↦ rw (t, (fresh q).1 (rw t (omega arith))) refl
          | inr f ↦ rw (f, or_else-none) refl
        ]);
    counted = λ ok. s.counted ∙ rw (ok, (fresh e.key).1 (rw same (omega arith))) refl;
    few = λ o. omega (arith, s.few o);
    kept = s.kept;
    wider = s.wider;
    refused = λ bad. (s.refused bad).1;
  }

  pub Fresh-left : (b : List Bucket) (xs ys : Bucket) → Fresh b (xs ++ ys) → Fresh b xs
  Fresh-left b xs ys fresh q = (
    omega (arith, hits-append equal q xs ys, (fresh q).0),
    λ h. (fresh q).1 (omega (arith, hits-append equal q xs ys)),
  )

  pub Fresh-right :
      (env : Env) (xs ys : Bucket) (b : List Bucket) (c : ℕ) (w w' : World) (r : Bool × KMap)
      → Fresh b (xs ++ ys)
      → (t : Copied env xs b c w r w') → t.ok ≡ true
      → Fresh t.buckets ys
  Fresh-right env xs ys b c w w' r fresh t ok q = (
    omega (arith, hits-append equal q xs ys, (fresh q).0),
    λ h.
        t.reads ok q
        ∙ ground (
          arith,
          (fresh q).1 (omega (arith, hits-append equal q xs ys)),
          find-eq-none equal q xs (omega (arith, hits-append equal q xs ys, (fresh q).0)),
        ),
  )

  pub both_copied :
      (env : Env) (xs ys : Bucket) (b : List Bucket) (c : ℕ) (w w₁ w₂ : World) (r₁ r₂ : Bool × KMap)
      → (s : Copied env xs b c w r₁ w₁) → s.ok ≡ true
      → Copied env ys s.buckets s.count w₁ r₂ w₂
      → Copied env (xs ++ ys) b c w r₂ w₂
  both_copied env xs ys b c w w₁ w₂ r₁ r₂ s first t = record {
    ok = t.ok;
    buckets = t.buckets;
    count = t.count;
    result = t.result;
    valid = t.valid;
    reads = λ ok q.
        t.reads ok q
        ∙ rw (s.reads first q, find-append)
            (or_else_assoc (view hash equal b q) (find equal q xs) (find equal q ys));
    counted = λ ok. omega (arith, t.counted ok, s.counted first, length-append xs ys);
    few = λ o. omega (arith, t.few o, s.few o, held_in-append o xs ys);
    kept = λ o. omega (arith, t.kept o, s.kept o);
    wider = omega (arith, t.wider, s.wider);
    refused = t.refused;
  }

  pub stopped :
      (env : Env) (xs ys : Bucket) (b : List Bucket) (c : ℕ) (w w₁ : World) (r : Bool × KMap)
      → (s : Copied env xs b c w r w₁) → s.ok ≡ false
      → Copied env (xs ++ ys) b c w (false, table hash equal s.buckets s.count) w₁
  stopped env xs ys b c w w₁ r s bad = record {
    ok = false;
    buckets = s.buckets;
    count = s.count;
    result = refl;
    valid = s.valid;
    reads = λ ok. absurd (cc);
    counted = λ ok. absurd (cc);
    few = λ o. omega (arith, s.few o, held_in-append o xs ys);
    kept = s.kept;
    wider = s.wider;
    refused = λ _. s.refused bad;
  }
