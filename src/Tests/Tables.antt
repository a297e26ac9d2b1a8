-- ===== src/Tests/Tables.antt =====
-- Maps and strings.
use k_h.Base.{
  none, ℕ, zero, suc, ◌+◌, ◌*◌, ◌%◌, ◌^◌, ◌≤◌, ◌<◌, ◌≡◌, refl, true, false, ◌&&◌, some, List, [],
  ◌∷◌, arith, ◌==◌, if◌then◌else◌, replicate,
}
use k_h.World.{null, KObjectRef, Refuses, done}
use k_h.World.Returns.{Returns, returns}
use k_h.KArray
use k_h.KObject.Counts.{refs, one_if, one_if-le}
use k_h.KMap
use k_h.KMap.{Bucket, KMapHash, KMapEqual}
use k_h.KMap.Chain.{KeyLaws}
use k_h.KMap.Buckets.{view, held, IsPlaced}
use k_h.KMap.Insert.{table, IsValid}
use k_h.KMap.Copy.{budget, Rehashed}
use k_h.KMap.Allocated.{ArrayNewReturns}
use k_h.KMap.Rehash.{empty-IsValid, rehash_if_necessary-Rehashed}
use k_h.KMap.Set.{SetAnswer, set_value-Stored, set_value-get_value}
use k_h.KMap.Lookup.{Removed, remove_value-Removed}
use k_h.KString.{Strings, get_hash, is_equal}
use k_h.KString.Keys.{is_equal-KeyLaws}
use k_h.Tests.{generous, generous-IsLeaf, start}

-- Keys that are equal when their addresses have the same last digit.
abbrev last_digit : KMapHash
last_digit key = key % 10

abbrev same_digit : KMapEqual
same_digit a b = a % 10 == b % 10

digit-KeyLaws : KeyLaws last_digit same_digit
digit-KeyLaws = record {
  equal_refl = λ a live. ground arith;
  equal_symm = λ a b. ground arith;
  equal_trans = λ a b c. ground arith;
  hash-equal = λ a b. ground arith;
}

pub generous-ArrayNewReturns : ArrayNewReturns generous
unfolding KArray.new k_h.KAllocation.new
generous-ArrayNewReturns w =
    let granted : (w.requests + 1 == null) ≡ false = ground arith in
    let granted_again : (w.requests + 1 + 1 == null) ≡ false = ground arith in
    rw (granted, granted_again) (returns refl)

-- One empty bucket, so that one entry makes the map double it.
abbrev one_bucket : List Bucket
one_bucket = replicate 1 []

one_bucket-IsValid : IsValid last_digit same_digit one_bucket 0
one_bucket-IsValid = empty-IsValid last_digit same_digit 1 (omega arith)

budget-le : (depth h : ℕ) → h ≤ 2 → budget depth h ≤ 2 * depth + 2
budget-le zero h small = omega arith
budget-le (suc depth) h small = omega (arith, budget-le depth h small)

room : (r a b : ℕ) → r ≤ 5 → a ≤ 1 → b ≤ 1 → r + a + b + budget 64 (0 + a + b) < 2 ^ 32
room r a b few one another =
    let bound : budget 64 (0 + a + b) ≤ 130 = budget-le 64 (0 + a + b) (omega arith) in
    generalised r a b (budget 64 (0 + a + b)) few one another bound
  where
    generalised : (r a b t : ℕ) → r ≤ 5 → a ≤ 1 → b ≤ 1 → t ≤ 130 → r + a + b + t < 2 ^ 32
    generalised r a b t few one another bound = omega arith

few_references :
    (o : KObjectRef)
    → (held o one_bucket ≤ refs start o)
      × (refs start o
            + one_if (o == 3)
            + one_if (o == 4)
            + budget 64 (held o one_bucket + one_if (o == 3) + one_if (o == 4))
          < 2 ^ 32)
few_references o = (
  omega arith,
  room (refs start o) (one_if (o == 3)) (one_if (o == 4)) (ground arith) (one_if-le (o == 3))
      (one_if-le (o == 4)),
)

-- The set makes the map double its bucket; 13 has the last digit of 3.
stored_and_read :
    Returns
      (λ r w'.
        (KMap.get_value r.1 13 w' ≡ done (if r.0 && true then 4 else null) w')
        × (r.0 ≡ false → (view last_digit same_digit one_bucket 3 ≡ none) × Refuses generous))
      (KMap.set_value generous (some (table last_digit same_digit one_bucket 0)) 3 4 start)
stored_and_read =
    set_value-get_value last_digit same_digit digit-KeyLaws generous generous-IsLeaf
      generous-ArrayNewReturns one_bucket 0 3 4 start one_bucket-IsValid (omega arith)
      (ground arith) (ground arith) (omega arith) (omega arith) few_references 13 (ground arith)

stored :
    Returns
      (SetAnswer last_digit same_digit digit-KeyLaws generous generous-IsLeaf
        generous-ArrayNewReturns one_bucket 0 3 4 start one_bucket-IsValid
        (omega arith)
        (ground arith)
        (ground arith)
        (omega arith)
        (omega arith)
        few_references)
      (KMap.set_value generous (some (table last_digit same_digit one_bucket 0)) 3 4 start)
stored =
    set_value-Stored last_digit same_digit digit-KeyLaws generous generous-IsLeaf
      generous-ArrayNewReturns one_bucket 0 3 4 start one_bucket-IsValid (omega arith)
      (ground arith) (ground arith) (omega arith) (omega arith) few_references

-- A bucket with one entry, which is full.
abbrev full_bucket : List Bucket
full_bucket = (record { key = 3; value = 4 } ∷ []) ∷ []

full_bucket-IsPlaced : IsPlaced last_digit same_digit full_bucket
full_bucket-IsPlaced q zero =
    (omega (arith, one_if-le (same_digit q 3)), λ n. absurd (n (omega arith)))
full_bucket-IsPlaced q (suc i) = (omega arith, λ n. refl)

full_bucket-IsValid : IsValid last_digit same_digit full_bucket 1
full_bucket-IsValid = record {
  pos = omega arith;
  placed = full_bucket-IsPlaced;
  counted = refl;
  live = refl;
}

rehashed :
    Returns
      (Rehashed last_digit same_digit generous full_bucket 1 start)
      (KMap.rehash_if_necessary generous 2 (table last_digit same_digit full_bucket 1) start)
rehashed =
    rehash_if_necessary-Rehashed last_digit same_digit digit-KeyLaws generous generous-IsLeaf
      generous-ArrayNewReturns 2 full_bucket 1 start full_bucket-IsValid (omega arith) (omega arith)
      (λ o. ground arith)

removed :
    Returns
      (λ r w'. Removed last_digit same_digit full_bucket 1 3 full_bucket-IsValid r × (w' ≡ start))
      (KMap.remove_value (some (table last_digit same_digit full_bucket 1)) 3 start)
removed =
    remove_value-Removed last_digit same_digit full_bucket 1 3 full_bucket-IsValid digit-KeyLaws
      (omega arith) start (ground arith)

abbrev words : Strings
words a = record { size = 2; buffer = 107 ∷ 46 ∷ [] }

word-KeyLaws : KeyLaws (get_hash words) (is_equal words)
word-KeyLaws = is_equal-KeyLaws words
