-- ===== src/Tests/Paths.antt =====
-- File paths.
use k_h.Base.{◌≡◌, refl, true, some, [], ◌∷◌, arith}
use k_h.World.{pure, ◌>>=◌}
use k_h.World.Returns.{Returns}
use k_h.KString.{KString}
use k_h.KFilePath.{KFilePath, new_with_string, new_string_representation_with_separator}
use k_h.World.{Grants}
use k_h.KFilePath.Pieces.{made}
use k_h.KFilePath.Split.{new_with_string-pieces}
use k_h.KFilePath.RoundTrip.{new_with_string-new_string}
use k_h.Tests.{generous, start}

generous-Grants : Grants generous
generous-Grants w = ground arith

-- `/ab//c`
abbrev text : KString
text = made (47 ∷ 97 ∷ 98 ∷ 47 ∷ 47 ∷ 99 ∷ [])

abbrev parsed : KFilePath
parsed = record { components = made (97 ∷ 98 ∷ []) ∷ made (99 ∷ []) ∷ []; is_absolute = true }

components_found :
    Returns
      (λ r w'. (r ≡ some parsed) × (w'.blocks ≡ start.blocks))
      (new_with_string generous (some text) start)
components_found = new_with_string-pieces generous generous-Grants text start refl

there_and_back :
    Returns
      (λ r w'. (r ≡ some parsed) × (w'.blocks ≡ start.blocks))
      ((do
        str ←
            new_string_representation_with_separator generous
              (pure (some (made (47 ∷ []))))
              (some parsed)
        new_with_string generous str)
        start)
there_and_back =
    new_with_string-new_string generous generous-Grants 47 true ((97 ∷ 98 ∷ []) ∷ (99 ∷ []) ∷ [])
      start refl ((λ e. cc), refl, ((λ e. cc), refl, tt)) (omega arith)
