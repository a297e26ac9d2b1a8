-- ===== src/KFilePath/Print.antt =====
-- The string of a path in kfile_path.c, and that it is read back as the path.
use mathlib.Core.List.{append_assoc, append-nil}
use k_h.Base.{
  ℕ, ◌≡◌, ◌≢◌, refl, Bool, true, false, ◌||◌, List, [], ◌∷◌, ◌++◌, arith, ap, sym, ◌∙◌, Bool-cases,
  inl, inr,
}
use k_h.KFilePath.{is_separator}
use k_h.KFilePath.Pieces.{flush, pieces}

-- A component that a path can have: some bytes, none of which is a separator.
abbrev pub has_separator : List ℕ → Bool
has_separator [] = false
has_separator (b ∷ bytes) = is_separator b || has_separator bytes

abbrev pub AreNames : List (List ℕ) → Type 0
AreNames [] = Unit {0}
AreNames (name ∷ names) = (name ≢ []) × (has_separator name ≡ false) × AreNames names

-- The names with a separator between them.
abbrev pub join : ℕ → List (List ℕ) → List ℕ
join sep [] = []
join sep (name ∷ []) = name
join sep (name ∷ next ∷ names) = name ++ sep ∷ join sep (next ∷ names)

pieces-name :
    (name rest pending : List ℕ)
    → has_separator name ≡ false
    → pieces (name ++ rest) pending ≡ pieces rest (pending ++ name)
pieces-name [] rest pending none_in = ap (λ t. pieces rest t) (sym (append-nil pending))
pieces-name (b ∷ name) rest pending none_in = elim (Bool-cases (is_separator b)) [
  | inl e ↦ absurd (cc)
  | inr e ↦ rw e (
      pieces-name name rest (pending ++ b ∷ []) (ground arith)
      ∙ ap (λ t. pieces rest t) (append_assoc pending (b ∷ []) name))
]

flush-name : (name : List ℕ) → name ≢ [] → flush name ≡ name ∷ []
flush-name [] some_byte = absurd (some_byte refl)
flush-name (b ∷ name) some_byte = refl

pub pieces-join :
    (sep : ℕ) (names : List (List ℕ))
    → is_separator sep ≡ true
    → AreNames names
    → pieces (join sep names) [] ≡ names
pieces-join sep [] separates good = refl
pieces-join sep (name ∷ []) separates (some_byte, none_in, _) =
    ap (λ t. pieces t []) (sym (append-nil name))
    ∙ pieces-name name [] [] none_in
    ∙ flush-name name some_byte
pieces-join sep (name ∷ next ∷ names) separates (some_byte, none_in, good) =
    pieces-name name (sep ∷ join sep (next ∷ names)) [] none_in
    ∙ rw separates (
        ap (λ t. t ++ pieces (join sep (next ∷ names)) []) (flush-name name some_byte)
        ∙ ap (λ t. name ∷ t) (pieces-join sep (next ∷ names) separates good))
