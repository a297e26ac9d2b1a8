-- ===== src/KMap/Buckets.antt =====
-- The bucket array of a map: where entries stand, what it holds for a key, and writes to one bucket.
use k_h.Base.{
  ℕ, zero, suc, ◌+◌, ◌%◌, ◌≤◌, ◌<◌, ◌≡◌, ◌≢◌, refl, true, Option, List, [], ◌∷◌, ◌++◌, arith, ap,
  sym, ◌∙◌, ◌==◌, if◌then◌else◌, length, length-append, length-set, get_or, set, replicate,
}
use k_h.World.{KObjectRef}
use k_h.KObject.Counts.{one_if}
use k_h.KMap.{Bucket, KMapHash, KMapEqual}
use k_h.KMap.Chain.{
  KeyLaws, held_in, held_in-append, or_else, find, hits, find-append, hits-append, find-eq-none,
  find_congr,
}

-- A sum over the buckets.
abbrev pub sum_over : (Bucket → ℕ) → List Bucket → ℕ
sum_over f [] = 0
sum_over f (c ∷ b) = f c + sum_over f b

pub sum_over-set :
    (f : Bucket → ℕ) (b : List Bucket) (i : ℕ) (c : Bucket)
    → i < length b
    → sum_over f (set b i c) + f (get_or b i []) ≡ sum_over f b + f c
sum_over-set f [] i c h = absurd (omega arith)
sum_over-set f (x ∷ b) zero c h = omega arith
sum_over-set f (x ∷ b) (suc i) c h = omega (arith, sum_over-set f b i c (omega arith))

pub sum_over-get_or :
    (f : Bucket → ℕ) (b : List Bucket) (i : ℕ) → i < length b → f (get_or b i []) ≤ sum_over f b
sum_over-get_or f [] i h = absurd (omega arith)
sum_over-get_or f (x ∷ b) zero h = omega arith
sum_over-get_or f (x ∷ b) (suc i) h = omega (arith, sum_over-get_or f b i (omega arith))

abbrev pub total : List Bucket → ℕ
total = sum_over length

-- The references that the map's entries hold to an object.
abbrev pub held : KObjectRef → List Bucket → ℕ
held o = sum_over (held_in o)

-- All entries, bucket by bucket.
abbrev pub entries : List Bucket → Bucket
entries [] = []
entries (c ∷ b) = c ++ entries b

pub length-entries : (b : List Bucket) → length (entries b) ≡ total b
length-entries [] = refl
length-entries (c ∷ b) = omega (arith, length-append c (entries b), length-entries b)

pub held_in-entries : (o : KObjectRef) (b : List Bucket) → held_in o (entries b) ≡ held o b
held_in-entries o [] = refl
held_in-entries o (c ∷ b) = omega (arith, held_in-append o c (entries b), held_in-entries o b)

pub get_or-set :
    (b : List Bucket) (i j : ℕ) (c : Bucket)
    → i < length b
    → get_or (set b i c) j [] ≡ (if j == i then c else get_or b j [])
get_or-set [] i j c h = absurd (omega arith)
get_or-set (x ∷ b) zero zero c h = refl
get_or-set (x ∷ b) zero (suc j) c h = ground arith
get_or-set (x ∷ b) (suc i) zero c h = ground arith
get_or-set (x ∷ b) (suc i) (suc j) c h = ground (arith, get_or-set b i j c)

pub get_or-replicate : (n i : ℕ) → get_or (replicate {A = Bucket} n []) i [] ≡ []
get_or-replicate zero i = refl
get_or-replicate (suc n) zero = refl
get_or-replicate (suc n) (suc i) = get_or-replicate n i

pub sum_over-replicate : (f : Bucket → ℕ) → f [] ≡ 0 → (n : ℕ) → sum_over f (replicate n []) ≡ 0
sum_over-replicate f h zero = refl
sum_over-replicate f h (suc n) = omega (arith, sum_over-replicate f h n)

module _ (hash : KMapHash) (equal : KMapEqual) where
  abbrev pub home : KObjectRef → ℕ → ℕ
  home q n = hash q % n

  -- A key has at most one entry, and that in its home bucket.
  abbrev pub IsPlaced : List Bucket → Type 0
  IsPlaced b =
      (q : KObjectRef) (i : ℕ)
      → (hits equal q (get_or b i []) ≤ 1)
        × (home q (length b) ≢ i → hits equal q (get_or b i []) ≡ 0)

  abbrev pub view : List Bucket → KObjectRef → Option KObjectRef
  view b q = find equal q (get_or b (home q (length b)) [])

  module _ (laws : KeyLaws hash equal) where
    pub home-lt : (q : KObjectRef) (n : ℕ) → 0 < n → home q n < n
    home-lt q n h = omega arith

    pub home_congr : (q k : KObjectRef) (n : ℕ) → equal q k ≡ true → home q n ≡ home k n
    home_congr q k n e = ap (λ (t : ℕ). t % n) (laws.hash-equal q k e)

    pub view_congr : (b : List Bucket) (q k : KObjectRef) → equal q k ≡ true → view b q ≡ view b k
    view_congr b q k same =
        rw (home_congr q k (length b) same)
          (find_congr equal laws q k (get_or b (home k (length b)) []) same)

    -- The home bucket of `k` is replaced by `c`, which differs from it in what it holds for `k` alone.
    module _ (b : List Bucket) (pos : 0 < length b) (placed : IsPlaced b) (k : KObjectRef)
        (c : Bucket) where
      pub set-IsPlaced :
          ((q : KObjectRef)
            → (hits equal q c ≤ 1)
              × (hits equal q c
                  ≤ one_if (equal q k) + hits equal q (get_or b (home k (length b)) [])))
          → IsPlaced (set b (home k (length b)) c)
      set-IsPlaced few q i =
          rw (length-set, get_or-set b (home k (length b)) i c (home-lt k (length b) pos))
            (ground (arith, placed q i, few q, home_congr q k (length b)))

      pub set-view :
          (v : Option KObjectRef)
          → ((q : KObjectRef)
              → find equal q c
                ≡ (if equal q k then v else find equal q (get_or b (home k (length b)) [])))
          → (q : KObjectRef)
          → view (set b (home k (length b)) c) q ≡ (if equal q k then v else view b q)
      set-view v reads q =
          rw
            (
              length-set,
              get_or-set b (home k (length b)) (home q (length b)) c (home-lt k (length b) pos),
            )
            (ground (arith, reads q, home_congr q k (length b)))

    hits-entries_nowhere :
        (q : KObjectRef) (b : List Bucket)
        → ((i : ℕ) → hits equal q (get_or b i []) ≡ 0)
        → hits equal q (entries b) ≡ 0
    hits-entries_nowhere q [] h = refl
    hits-entries_nowhere q (c ∷ b) h =
        omega
          (arith, hits-append equal q c (entries b), h 0, hits-entries_nowhere q b (λ i. h (suc i)))

    -- A key whose entries all stand in bucket `j` is found there and among all entries alike.
    entries_only :
        (q : KObjectRef) (b : List Bucket) (j : ℕ)
        → ((i : ℕ) → i ≢ j → hits equal q (get_or b i []) ≡ 0)
        → (find equal q (entries b) ≡ find equal q (get_or b j []))
          × (hits equal q (entries b) ≡ hits equal q (get_or b j []))
    entries_only q [] j h = (refl, refl)
    entries_only q (c ∷ b) zero h =
        let rest = hits-entries_nowhere q b (λ i. h (suc i) (omega arith)) in
        (
          ground (arith, find-append equal q c (entries b), find-eq-none equal q (entries b)),
          omega (arith, hits-append equal q c (entries b)),
        )
    entries_only q (c ∷ b) (suc j) h =
        let none_here = h 0 (omega arith) in
        let rest = entries_only q b j (λ i n. h (suc i) (omega arith)) in
        (
          find-append equal q c (entries b)
              ∙ ap (λ t. or_else t (find equal q (entries b))) (find-eq-none equal q c none_here)
              ∙ rest.0,
          omega (arith, hits-append equal q c (entries b), rest.1),
        )

    pub entries-view :
        (b : List Bucket) (q : KObjectRef)
        → IsPlaced b
        → (find equal q (entries b) ≡ view b q) × (hits equal q (entries b) ≤ 1)
    entries-view b q placed =
        let only = entries_only q b (home q (length b)) (λ i n. (placed q i).1 (λ e. n (sym e))) in
        (only.0, omega (arith, only.1, (placed q (home q (length b))).0))
