-- ===== src/KMapping/Life.antt =====
-- `KMappingNew` and `KMappingDeInit` of kmapping.c on the object that a mapping keeps alive.
use k_h.Base.{
  ℕ, ◌+◌, ◌^◌, ◌<◌, ◌≡◌, ◌≢◌, refl, Option, none, some, arith, ◌⊎◌, ◌==◌, Bool-cases, inl, inr,
}
use k_h.World.{Ptr, null, KObjectRef, World, Env, Cmd, pure}
use k_h.World.Returns
use k_h.World.Returns.{Returns, returns}
use k_h.KObject.Counts.{refs, one_if, IsLeaf, retain-Retained, release-Released}
use k_h.KMapping.{KMapping, new, deinit, get_buffer, get_size, get_user_data}

-- What becomes of the request for a mapping.
pub new_lem :
    (env : Env) (buffer : Ptr) (count : ℕ) (obj : KObjectRef) (w : World)
    → obj ≢ null
    → 0 < refs w obj
    → refs w obj + 1 < 2 ^ 32
    → Returns
        (λ m w'.
          ((m ≡ none) × (env.malloc w ≡ null) × ((o : KObjectRef) → refs w' o ≡ refs w o))
          ⊎ ((m ≡ some (record { mapping = buffer; count = count; user_data = obj }))
              × (env.malloc w ≢ null)
              × ((o : KObjectRef) → refs w' o ≡ refs w o + one_if (o == obj))))
        (new env buffer count obj w)
unfolding new
new_lem env buffer count obj w live pos fits = elim (Bool-cases (env.malloc w == null)) [
  | inl e ↦ rw e (returns (inl (refl, ground arith, λ o. refl)))
  | inr e ↦ rw e (
      Returns.bind (retain-Retained obj _ live pos fits)
        λ _ w₁ (gained, _). returns (inr (refl, ground arith, gained)))
]

-- `KMappingDeInit` of a mapping, if there is one.
abbrev pub deinit_any : Env → Option KMapping → Cmd (Unit {0})
deinit_any env none = pure tt
deinit_any env (some mapping) = deinit env mapping

-- Making a mapping of a live object, and ending it if there is one, gives back exactly the
-- references taken; in between, the three queries answer what it was made of if the allocator
-- granted the request, and NULL and 0 if it refused. Deinitialisers are leaves.
pub new-deinit :
    (env : Env) (buffer : Ptr) (count : ℕ) (obj : KObjectRef) (w : World)
    → IsLeaf env
    → obj ≢ null
    → 0 < refs w obj
    → refs w obj + 1 < 2 ^ 32
    → Returns
        (λ m w₁.
          (((env.malloc w ≢ null)
              × (get_buffer m ≡ buffer)
              × (get_size m ≡ count)
              × (get_user_data m ≡ obj))
            ⊎ ((env.malloc w ≡ null)
                × (get_buffer m ≡ null)
                × (get_size m ≡ 0)
                × (get_user_data m ≡ null)))
          × Returns (λ _ w'. (o : KObjectRef) → refs w' o ≡ refs w o) (deinit_any env m w₁))
        (new env buffer count obj w)
unfolding deinit get_buffer get_size get_user_data
new-deinit env buffer count obj w leaf live pos fits =
    Returns.mono (new_lem env buffer count obj w live pos fits) λ m w₁ made. elim made [
      | inl (e, refused, same) ↦ rw e (inr (refused, refl, refl, refl), returns same)
      | inr (e, granted, gained) ↦ rw e (
        inl (granted, refl, refl, refl),
        Returns.mono
            (release-Released env obj w₁ leaf live (ground (arith, gained obj))
              (ground (arith, gained obj)))
            λ _ w₂ (given, _, _). λ o. omega (arith, given o, gained o),
      )
    ]
