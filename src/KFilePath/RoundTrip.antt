-- ===== src/KFilePath/RoundTrip.antt =====
-- `KFilePathNewStringRepresentationWithSeparator` of kfile_path.c, and reading its result back.
use k_h.Base.{
  ℕ, ◌+◌, ◌^◌, ◌≡◌, ◌<◌, refl, Bool, true, false, some, List, [], ◌∷◌, map, arith, ap, sym, ◌∙◌,
  length,
}
use k_h.World.{World, Env, pure, ◌>>=◌}
use k_h.World.Returns
use k_h.World.Returns.{Returns, returns}
use k_h.KFilePath.{
  is_separator, new_string_representation_with_separator, new_with_string, path_separator,
  new_string_representation,
}
use k_h.World.{Grants}
use k_h.KFilePath.Pieces.{pieces, begins, made}
use k_h.KFilePath.Split.{new_with_string-pieces}
use k_h.KFilePath.Print.{AreNames, join, pieces-join}
use k_h.KFilePath.Printed.{path_of, bytes_of, new_string-Printed}

module _ (env : Env) (grants : Grants env) where
  begins-join : (sep : ℕ) (names : List (List ℕ)) → AreNames names → begins (join sep names) ≡ false
  begins-join sep [] good = refl
  begins-join sep ([] ∷ names) good = absurd (good.0 refl)
  begins-join sep ((b ∷ name) ∷ []) good = ground (arith, good.1)
  begins-join sep ((b ∷ name) ∷ next ∷ names) good = ground (arith, good.1)

  read_back :
      (sep : ℕ) (absolute : Bool) (names : List (List ℕ))
      → is_separator sep ≡ true
      → AreNames names
      → (pieces (bytes_of sep absolute names) [] ≡ names)
        × (begins (bytes_of sep absolute names) ≡ absolute)
  read_back sep true names separates good =
      (rw separates (pieces-join sep names separates good), separates)
  read_back sep false names separates good =
      (pieces-join sep names separates good, begins-join sep names good)

  -- Where there is memory, a path whose components are names, each with a byte and none with a
  -- separator, is read back as it was from its string with a given separator, whether it is
  -- absolute or not, and no object is changed. The string is shorter than 2 ^ 64 - 2 bytes, and the
  -- formatted separator is a string of that one byte.
  pub new_with_string-new_string :
      (sep : ℕ) (absolute : Bool) (names : List (List ℕ)) (w : World)
      → is_separator sep ≡ true
      → AreNames names
      → length (join sep names) + 2 < 2 ^ 64
      → Returns
          (λ r w'. (r ≡ some (path_of absolute names)) × (w'.blocks ≡ w.blocks))
          ((do
            str ←
                new_string_representation_with_separator env
                  (pure (some (made (sep ∷ []))))
                  (some (path_of absolute names))
            new_with_string env str)
            w)
  new_with_string-new_string sep absolute names w separates good fits =
      let (found, first) = read_back sep absolute names separates good in
      Returns.bind (new_string-Printed env grants sep absolute names w fits)
        λ r w₁ (t, e, (bytes, size), same). rw e (
          Returns.mono (new_with_string-pieces env grants t w₁ (size ∙ ap length (sym bytes)))
            λ r₂ w₂ (path, same₂). (
              path
                  ∙ ap
                      (λ u.
                        some
                          (record { components = map made (pieces u []); is_absolute = begins u }))
                      bytes
                  ∙ ap
                      (λ u. some (record {
                        components = map made u;
                        is_absolute = begins (bytes_of sep absolute names);
                      }))
                      found
                  ∙ ap (λ u. some (path_of u names)) first,
              same₂ ∙ same,
            ))

  separates : (on_windows : Bool) → is_separator (path_separator on_windows) ≡ true
  separates true = refl
  separates false = refl

  -- The same with the separator of either platform: `KFilePathNewStringRepresentation`.
  new_with_string-new_string_representation :
      (on_windows absolute : Bool) (names : List (List ℕ)) (w : World)
      → AreNames names
      → length (join (path_separator on_windows) names) + 2 < 2 ^ 64
      → Returns
          (λ r w'. (r ≡ some (path_of absolute names)) × (w'.blocks ≡ w.blocks))
          ((do
            str ←
                new_string_representation env on_windows
                  (λ sep. pure (some (made (sep ∷ []))))
                  (some (path_of absolute names))
            new_with_string env str)
            w)
  unfolding new_string_representation
  new_with_string-new_string_representation on_windows absolute names w =
      new_with_string-new_string (path_separator on_windows) absolute names w (separates on_windows)
