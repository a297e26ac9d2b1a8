-- ===== src/KFilePath/Pieces.antt =====
-- The runs of bytes between separators, as `KFilePathNewWithString` of kfile_path.c finds them,
-- without indices, and the lemmas on the bytes before and behind a position.
use mathlib.Core.List.{append_assoc, append-nil}
use k_h.Base.{
  ℕ, ◌≡◌, refl, Bool, false, List, [], ◌∷◌, ◌++◌, map, ap, sym, ◌∙◌, if◌then◌else◌, length, get_or,
  take, drop,
}
use k_h.KString.{KString}
use k_h.KFilePath.{is_separator}

-- The last component, if it has a byte.
abbrev pub flush : List ℕ → List (List ℕ)
flush [] = []
flush (b ∷ bytes) = (b ∷ bytes) ∷ []

-- The runs between separators that have a byte; `pending` is the run before the rest.
abbrev pub pieces : (rest pending : List ℕ) → List (List ℕ)
pieces [] pending = flush pending
pieces (b ∷ rest) pending =
    let separate = flush pending ++ pieces rest [] in
    if is_separator b then separate else pieces rest (pending ++ b ∷ [])

abbrev pub begins : List ℕ → Bool
begins [] = false
begins (b ∷ bytes) = is_separator b

abbrev pub made : List ℕ → KString
made bytes = record { size = length bytes; buffer = bytes }

pub get_or-here : (xs ys : List ℕ) (b d : ℕ) → get_or (xs ++ b ∷ ys) (length xs) d ≡ b
get_or-here [] ys b d = refl
get_or-here (x ∷ xs) ys b d = get_or-here xs ys b d

pub drop-front : (xs ys : List ℕ) → drop (length xs) (xs ++ ys) ≡ ys
drop-front [] ys = refl
drop-front (x ∷ xs) ys = drop-front xs ys

pub take-front : (xs ys : List ℕ) → take (length xs) (xs ++ ys) ≡ xs
take-front [] ys = refl
take-front (x ∷ xs) ys = ap (λ t. x ∷ t) (take-front xs ys)

pub map-append : (xs ys : List (List ℕ)) → map made (xs ++ ys) ≡ map made xs ++ map made ys
map-append [] ys = refl
map-append (x ∷ xs) ys = ap (λ t. made x ∷ t) (map-append xs ys)

pub one_more :
    (front pending rest : List ℕ) (b : ℕ)
    → (front ++ pending) ++ b ∷ rest ≡ (front ++ (pending ++ b ∷ [])) ++ rest
one_more front pending rest b =
    append_assoc front pending (b ∷ rest)
    ∙ sym (
        append_assoc front (pending ++ b ∷ []) rest
        ∙ ap (λ t. front ++ t) (append_assoc pending (b ∷ []) rest))

pub passed : (xs rest : List ℕ) (b : ℕ) → xs ++ b ∷ rest ≡ ((xs ++ b ∷ []) ++ []) ++ rest
passed xs rest b =
    sym (ap (λ t. t ++ rest) (append-nil (xs ++ b ∷ [])) ∙ append_assoc xs (b ∷ []) rest)
