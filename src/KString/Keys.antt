-- ===== src/KString/Keys.antt =====
-- `KStringGetHash` and `KStringIsEqual` of kstring.c as the hash and the equality of a map.
use k_h.Base.{
  ℕ, ◌≡◌, ◌≢◌, refl, true, false, not, List, [], ◌∷◌, arith, ap, sym, ◌∙◌, ◌==◌, if◌then◌else◌,
  take, Bool-cases, inl, inr,
}
use k_h.World.{null, KObjectRef}
use k_h.KMap.Chain.{KeyLaws}
use k_h.KString.{Strings, content, bytes_equal, get_length, get_hash, is_equal}

bytes_equal_refl : (xs : List ℕ) → bytes_equal xs xs ≡ true
unfolding bytes_equal
bytes_equal_refl [] = refl
bytes_equal_refl (a ∷ xs) = ground (arith, bytes_equal_refl xs)

bytes_equal-eq : (xs ys : List ℕ) → bytes_equal xs ys ≡ true → xs ≡ ys
unfolding bytes_equal
bytes_equal-eq [] [] h = refl
bytes_equal-eq [] (b ∷ ys) h = absurd (cc)
bytes_equal-eq (a ∷ xs) [] h = absurd (cc)
bytes_equal-eq (a ∷ xs) (b ∷ ys) h = ground (arith, bytes_equal-eq xs ys)

-- Two live strings with the same length and the same bytes.
abbrev Same : Strings → KObjectRef → KObjectRef → Type 0
Same strings a b =
    (a ≢ null)
    × (b ≢ null)
    × ((strings a).size ≡ (strings b).size)
    × (content (strings a) ≡ content (strings b))

false-ne-true : false ≡ true → ⊥
false-ne-true h = cc

take-nothing : (n : ℕ) (xs : List ℕ) → n ≡ 0 → take n xs ≡ []
take-nothing n xs h = ap (λ (k : ℕ). take k xs) h

same_bytes :
    (strings : Strings) (a b : KObjectRef)
    → (if a == b
        then true
        else (if not ((strings a).size == (strings b).size)
            then false
            else (if (strings a).size == 0
                then true
                else bytes_equal (content (strings a)) (content (strings b)))))
      ≡ true
    → ((strings a).size ≡ (strings b).size) × (content (strings a) ≡ content (strings b))
same_bytes strings a b h = elim (Bool-cases (a == b)) [
  | inl same ↦
      let one : a ≡ b = ground arith in
      (
        ap (λ (q : KObjectRef). (strings q).size) one,
        ap (λ (q : KObjectRef). content (strings q)) one,
      )
  | inr other ↦ elim (Bool-cases ((strings a).size == (strings b).size)) [
    | inr longer ↦ absurd (false-ne-true (rw (other, longer) at h))
    | inl equal ↦
        let sizes : (strings a).size ≡ (strings b).size = ground arith in
        (
          sizes,
          elim (Bool-cases ((strings a).size == 0)) [
            | inl empty ↦
                let none_left : (strings a).size ≡ 0 = ground arith in
                take-nothing _ (strings a).buffer none_left
                ∙ sym (take-nothing _ (strings b).buffer (sym sizes ∙ none_left))
            | inr full ↦ bytes_equal-eq _ _ (rw (other, equal, full) at h)
          ],
        )
  ]
]

Same-is_equal :
    (strings : Strings) (a b : KObjectRef) → is_equal strings a b ≡ true → Same strings a b
unfolding is_equal get_length
Same-is_equal strings a b h = elim (Bool-cases (a == null)) [
  | inl e ↦ absurd (false-ne-true (rw e at h))
  | inr a_live ↦ elim (Bool-cases (b == null)) [
    | inl e ↦ absurd (false-ne-true (rw (a_live, e) at h))
    | inr b_live ↦
        let (sizes, bytes) = same_bytes strings a b (rw (a_live, b_live) at h) in
        (ground arith, ground arith, sizes, bytes)
  ]
]

is_equal-Same :
    (strings : Strings) (a b : KObjectRef) → Same strings a b → is_equal strings a b ≡ true
unfolding is_equal get_length
is_equal-Same strings a b (a_live, b_live, sizes, bytes) =
    let a_not_null : (a == null) ≡ false = ground arith in
    let b_not_null : (b == null) ≡ false = ground arith in
    let equal : ((strings a).size == (strings b).size) ≡ true = ground arith in
    let same : bytes_equal (content (strings a)) (content (strings b)) ≡ true =
      ap (λ t. bytes_equal (content (strings a)) t) (sym bytes)
      ∙ bytes_equal_refl (content (strings a)) in
    elim (Bool-cases (a == b)) [
      | inl one ↦ rw (a_not_null, b_not_null, one)
      | inr other ↦ elim (Bool-cases ((strings a).size == 0)) [
        | inl empty ↦ rw (a_not_null, b_not_null, other, equal, empty)
        | inr full ↦ rw (a_not_null, b_not_null, other, equal, full) same
      ]
    ]

swap : (strings : Strings) (a b : KObjectRef) → Same strings a b → Same strings b a
swap strings a b (a_live, b_live, sizes, bytes) = (b_live, a_live, sym sizes, sym bytes)

is_equal_symm : (strings : Strings) (a b : KObjectRef) → is_equal strings a b ≡ is_equal strings b a
is_equal_symm strings a b = elim (Bool-cases (is_equal strings a b)) [
  | inl t ↦ t ∙ sym (is_equal-Same strings b a (swap strings a b (Same-is_equal strings a b t)))
  | inr f ↦ elim (Bool-cases (is_equal strings b a)) [
    | inl t ↦ is_equal-Same strings a b (swap strings b a (Same-is_equal strings b a t)) ∙ sym t
    | inr g ↦ f ∙ sym g
  ]
]

-- Whatever bytes the strings hold, `KStringIsEqual` is an equivalence on live strings, and equal
-- strings have equal hashes under `KStringGetHash`: what a map asks of its callbacks.
pub is_equal-KeyLaws : (strings : Strings) → KeyLaws (get_hash strings) (is_equal strings)
unfolding get_hash
is_equal-KeyLaws strings = record {
  equal_refl = λ a live. is_equal-Same strings a a (live, live, refl, refl);
  equal_symm = is_equal_symm strings;
  equal_trans = λ a b c h k.
      let (a_live, _, size₁, bytes₁) = Same-is_equal strings a b h in
      let (_, c_live, size₂, bytes₂) = Same-is_equal strings b c k in
      is_equal-Same strings a c (a_live, c_live, size₁ ∙ size₂, bytes₁ ∙ bytes₂);
  hash-equal = λ a b h.
      let (a_live, b_live, _, bytes) = Same-is_equal strings a b h in
      let a_not_null : (a == null) ≡ false = ground arith in
      let b_not_null : (b == null) ≡ false = ground arith in
      rw (a_not_null, b_not_null, bytes) refl;
}
