-- ===== src/KFileHandle/Mapped.antt =====
-- The object behind a mapping that kfile_handle.c makes of a file.
use k_h.Base.{ℕ, ◌+◌, ◌≡◌, ◌≢◌, refl, true, false, Option, none, some, arith, ◌⊎◌, inl, inr, ◌==◌}
use k_h.World.{Ptr, null, KObjectRef, World, done, Env}
use k_h.World.Returns
use k_h.World.Returns.{Returns, returns}
use k_h.KObject.Counts.{refs, one_if, is_freed, IsLeaf, release-Released}
use k_h.KObject.Made.{IsPlain, IsFresh, new-Made}
use k_h.KObject
use k_h.KMapping.{KMapping}
use k_h.KMapping.Life.{new_lem}
use k_h.KFileHandle.{Files, FileMapping, KFileHandle, wrap_mapping, new_mapping, prot_of}

abbrev pub IsWrapped :
    (env : Env) (clasz mapping : Ptr) (size : ℕ)
    → World
    → Option KMapping × KObjectRef × FileMapping
    → World
    → Type 0
IsWrapped env clasz mapping size w (result, obj, fields) w' =
    (refs w obj ≡ 0)
    × (fields.mapping ≡ mapping)
    × (fields.size ≡ size)
    × ((u : World) × (KObject.new env clasz w ≡ done obj u)
        × (((env.malloc u ≡ null)
              × (result ≡ none)
              × (is_freed w' obj ≡ true)
              × ((o : KObjectRef) → refs w' o ≡ refs w o))
            ⊎ ((env.malloc u ≢ null)
                × (result ≡ some (record { mapping = mapping; count = size; user_data = obj }))
                × ((o : KObjectRef) → refs w' o ≡ refs w o + one_if (o == obj)))))

module _ (env : Env) (leaf : IsLeaf env) where
  pub wrap_mapping-IsWrapped :
      (clasz mapping : Ptr) (size : ℕ) (w : World)
      → IsPlain env clasz
      → IsFresh env w
      → env.malloc w ≢ null
      → Returns (IsWrapped env clasz mapping size w) (wrap_mapping env clasz mapping size w)
  unfolding wrap_mapping
  wrap_mapping-IsWrapped clasz mapping size w plain fresh memory =
      let (obj, w₁, there, made) = Returns.reached (new-Made env clasz w plain fresh) in
      rw there (elim made [
        | inl (e, refused, same) ↦ absurd (memory refused)
        | inr (e, unused, _, gained) ↦
            let live : obj ≢ null = (λ h. ground (arith, e, h)) in
            let some_object : (obj == null) ≡ false = ground (arith, e) in
            rw some_object (
              Returns.bind
                (new_lem env mapping size obj w₁ live (ground (arith, gained obj))
                  (ground (arith, gained obj, unused)))
                λ result w₂ outcome. elim outcome [
                  | inl (none_made, no_more, same) ↦
                      Returns.bind
                        (release-Released env obj w₂ leaf live
                          (ground (arith, same obj, gained obj))
                          (ground (arith, same obj, gained obj, unused)))
                        λ _ w₃ (given, _, freed). returns (
                          unused,
                          refl,
                          refl,
                          (
                            w₁,
                            there,
                            inl (
                              no_more,
                              none_made,
                              ground (arith, freed, same obj, gained obj, unused),
                              λ o. omega (arith, given o, same o, gained o),
                            ),
                          ),
                        )
                  | inr (some_made, one_more, more) ↦
                      Returns.bind
                        (release-Released env obj w₂ leaf live
                          (ground (arith, more obj, gained obj))
                          (ground (arith, more obj, gained obj, unused)))
                        λ _ w₃ (given, _, _). returns (
                          unused,
                          refl,
                          refl,
                          (
                            w₁,
                            there,
                            inr (
                              one_more,
                              some_made,
                              λ o. omega (arith, given o, more o, gained o),
                            ),
                          ),
                        )
                ])
      ])

  -- A mapping of an open file that the system grants is an object; if the allocator grants the next
  -- request, the resulting `KMapping` alone keeps it alive, and if it refuses, the answer is NULL
  -- and the object is freed again; no other count changes. The allocator grants fresh memory for
  -- the object, its class has a plain initialiser, and deinitialisers are leaves.
  pub new_mapping-IsWrapped :
      (system : Files) (clasz : Ptr) (handle : KFileHandle) (size protections : ℕ) (mapping : Ptr)
      (w : World)
      → IsPlain env clasz
      → IsFresh env w
      → env.malloc w ≢ null
      → handle.closed ≡ false
      → system.mmap size (prot_of system protections) handle.handle w ≡ done (some mapping) w
      → Returns
          (IsWrapped env clasz mapping size w)
          (new_mapping env system clasz (some handle) size protections w)
  unfolding new_mapping
  new_mapping-IsWrapped system clasz handle size protections mapping w plain fresh memory is_open
        granted =
      rw (is_open, granted) (wrap_mapping-IsWrapped clasz mapping size w plain fresh memory)
