-- ===== src/KFilePath/Printed.antt =====
-- The bytes of the string that `KFilePathNewStringRepresentationWithSeparator` of kfile_path.c makes.
use mathlib.Core.List.{append_assoc, append-nil}
use k_h.Base.{
  ℕ, ◌+◌, ◌^◌, ◌≡◌, ◌<◌, refl, Bool, true, false, Option, some, List, [], ◌∷◌, ◌++◌, map, arith, ap,
  sym, ◌∙◌, ◌==◌, ltb, if◌then◌else◌, length, length-append, take,
}
use k_h.World.{World, Env, pure}
use k_h.World.Returns
use k_h.World.Returns.{Returns, returns}
use k_h.KString
use k_h.KString.{KString, content, joined}
use k_h.KFilePath.{KFilePath, append_all, new_string_representation_with_separator}
use k_h.World.{Grants}
use k_h.KFilePath.Pieces.{made, take-front}
use k_h.KFilePath.Range.{granted}
use k_h.KFilePath.Print.{join}

content-made : (name : List ℕ) → content (made name) ≡ name
content-made name = ap (λ t. take (length name) t) (sym (append-nil name)) ∙ take-front name []

content-joined :
    (a b : KString)
    → a.size ≡ length (content a)
    → b.size ≡ length (content b)
    → content (joined a b) ≡ content a ++ content b
content-joined a b e f =
    let size : a.size + b.size ≡ length (content a ++ content b) =
      omega (arith, e, f, length-append (content a) (content b)) in
    let rest : List ℕ = if a.size + b.size == 0 then [] else 0 ∷ [] in
    ap (λ (k : ℕ). take k ((content a ++ content b) ++ rest)) size
    ∙ take-front (content a ++ content b) rest

-- A string with these bytes.
abbrev pub Holds : List ℕ → KString → Type 0
Holds bytes t = (content t ≡ bytes) × (t.size ≡ length bytes)

Holds-made : (name : List ℕ) → Holds name (made name)
Holds-made name = (content-made name, refl)

Holds-joined :
    (a b : KString) (xs ys : List ℕ) → Holds xs a → Holds ys b → Holds (xs ++ ys) (joined a b)
Holds-joined a b xs ys (e, m) (f, n) = (
  content-joined a b (m ∙ ap length (sym e)) (n ∙ ap length (sym f))
      ∙ ap (λ t. t ++ content b) e
      ∙ ap (λ t. xs ++ t) f,
  omega (arith, m, n, length-append xs ys),
)

-- The path with these names.
abbrev pub path_of : Bool → List (List ℕ) → KFilePath
path_of absolute names = record { components = map made names; is_absolute = absolute }

-- The bytes of a path's string.
abbrev pub bytes_of : ℕ → Bool → List (List ℕ) → List ℕ
bytes_of sep true names = sep ∷ join sep names
bytes_of sep false names = join sep names

module _ (env : Env) (grants : Grants env) where
  append-joined :
      (a b : KString) (w : World)
      → a.size + b.size + 1 < 2 ^ 64
      → Returns
          (λ r w'. (r ≡ (true, some (joined a b))) × (w'.blocks ≡ w.blocks))
          (KString.append env (some a) (some b) w)
  unfolding KString.append
  append-joined a b w fits =
      let room : ltb (a.size + b.size + 1) (2 ^ 64) ≡ true = ground arith in
      rw (granted env grants w, room) (returns (refl, refl))

  abbrev pub Printed : List ℕ → World → Option KString → World → Type 0
  Printed bytes w r w' = (t : KString) × (r ≡ some t) × Holds bytes t × (w'.blocks ≡ w.blocks)

  append_all-join :
      (sep : ℕ) (s : KString) (names : List (List ℕ)) (before : List ℕ) (result : KString)
      (w : World)
      → Holds (sep ∷ []) s
      → Holds before result
      → length before + length (join sep names) + 1 < 2 ^ 64
      → Returns
          (Printed (before ++ join sep names) w)
          (append_all env (some s) (map made names) (some result) w)
  unfolding append_all
  append_all-join sep s [] before result w one held fits = returns (
    result,
    refl,
    (held.0 ∙ sym (append-nil before), held.1 ∙ ap length (sym (append-nil before))),
    refl,
  )
  append_all-join sep s (name ∷ []) before result w one held fits =
      Returns.bind (append-joined result (made name) w (omega (arith, held.1, fits)))
        λ r w₁ (e, same). rw e (
          returns (
            joined result (made name),
            refl,
            Holds-joined result (made name) before name held (Holds-made name),
            same,
          ))
  append_all-join sep s (name ∷ next ∷ names) before result w one held fits =
      let more = length-append name (sep ∷ join sep (next ∷ names)) in
      let longer = Holds-joined result (made name) before name held (Holds-made name) in
      let whole =
        Holds-joined (joined result (made name)) s (before ++ name) (sep ∷ []) longer one in
      let count = length-append before name in
      let size : length ((before ++ name) ++ sep ∷ []) ≡ length before + length name + 1 =
        omega (arith, length-append (before ++ name) (sep ∷ []), count) in
      let again : ((before ++ name) ++ sep ∷ []) ++ join sep (next ∷ names)
          ≡ before ++ (name ++ sep ∷ join sep (next ∷ names)) =
        append_assoc (before ++ name) (sep ∷ []) (join sep (next ∷ names))
        ∙ append_assoc before name (sep ∷ join sep (next ∷ names)) in
      Returns.bind (append-joined result (made name) w (omega (arith, held.1, fits, more)))
        λ r w₁ (e, same). rw e (
          Returns.bind
            (append-joined (joined result (made name)) s w₁
              (omega (arith, longer.1, one.1, fits, more, count)))
            λ r₂ w₂ (f, same₂). rw f (
              Returns.mono
                (append_all-join sep s (next ∷ names) ((before ++ name) ++ sep ∷ [])
                  (joined (joined result (made name)) s) w₂ one whole
                  (omega (arith, fits, more, size)))
                λ r₃ w₃ (t, g, (bytes, long), same₃).
                  (t, g, (bytes ∙ again, long ∙ ap length again), same₃ ∙ same₂ ∙ same)))

  pub new_string-Printed :
      (sep : ℕ) (absolute : Bool) (names : List (List ℕ)) (w : World)
      → length (join sep names) + 2 < 2 ^ 64
      → Returns (Printed (bytes_of sep absolute names) w) (
          new_string_representation_with_separator env
            (pure (some (made (sep ∷ []))))
            (some (path_of absolute names))
            w)
  unfolding new_string_representation_with_separator KString.new_with_data KString.copy KString.new
  new_string-Printed sep true names w fits =
      rw (granted env grants w, granted env grants (record w { requests = w.requests + 1 }))
        (Returns.mono
          (append_all-join sep (made (sep ∷ [])) names (sep ∷ []) (made (sep ∷ [])) _
            (Holds-made (sep ∷ [])) (Holds-made (sep ∷ [])) (omega (arith, fits)))
          λ r w' (t, e, held, same). (t, e, held, same))
  new_string-Printed sep false names w fits =
      rw (granted env grants w, granted env grants (record w { requests = w.requests + 1 }))
        (Returns.mono
          (append_all-join sep (made (sep ∷ [])) names [] (made []) _ (Holds-made (sep ∷ []))
            (Holds-made []) (omega (arith, fits)))
          λ r w' (t, e, held, same). (t, e, held, same))
