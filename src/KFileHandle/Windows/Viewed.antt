-- ===== src/KFileHandle/Windows/Viewed.antt =====
-- The object behind a mapping that kfile_handle.c makes of a file on Windows.
use k_h.Base.{ℕ, ◌≡◌, ◌≢◌, refl, true, false, Option, none, some}
use k_h.World.{Ptr, null, KObjectRef, World, done, Env}
use k_h.World.Returns
use k_h.World.Returns.{Returns, returns}
use k_h.KObject.Counts.{IsLeaf}
use k_h.KObject.Made.{IsPlain, IsFresh}
use k_h.KMapping.{KMapping}
use k_h.KFileHandle.{KFileHandle}
use k_h.KFileHandle.Mapped.{IsWrapped, wrap_mapping-IsWrapped}
use k_h.KFileHandle.Windows.{WindowsFiles, FileView, map_view, new_mapping, prot_of, access_of}

-- The view's object has both handles of the system, and is kept as a mapping of a file is.
abbrev pub IsViewed :
    (env : Env) (clasz : Ptr) (map_handle : ℕ) (mapping : Ptr) (size : ℕ)
    → World
    → Option KMapping × KObjectRef × FileView
    → World
    → Type 0
IsViewed env clasz map_handle mapping size w (result, obj, view) w' =
    (view ≡ record { handle = map_handle; mapping = mapping; valid = true })
    × IsWrapped env clasz mapping size w (result, obj, record { mapping = mapping; size = size }) w'

module _ (env : Env) (leaf : IsLeaf env) (system : WindowsFiles) (clasz : Ptr)
    (handle : KFileHandle) (size protections map_handle : ℕ) (w : World)
    (is_open : handle.closed ≡ false)
    (granted : system.create_file_mapping handle.handle (prot_of system protections) w
      ≡ done (some map_handle) w) where
  pub new_mapping-IsViewed :
      (mapping : Ptr)
      → IsPlain env clasz
      → IsFresh env w
      → env.malloc w ≢ null
      → system.map_view_of_file map_handle (access_of system protections) size w
        ≡ done (some mapping) w
      → Returns
          (IsViewed env clasz map_handle mapping size w)
          (new_mapping env system clasz (some handle) size protections w)
  unfolding new_mapping map_view
  new_mapping-IsViewed mapping plain fresh memory viewed =
      rw (is_open, granted, map_view, viewed)
        (Returns.bind (wrap_mapping-IsWrapped env leaf clasz mapping size w plain fresh memory)
          λ r w' (unused, same_mapping, same_size, outcome).
            returns (refl, (unused, refl, refl, outcome)))

  -- A mapping that cannot be viewed is closed again.
  pub new_mapping-closed :
      (w' : World)
      → system.map_view_of_file map_handle (access_of system protections) size w ≡ done none w
      → system.close_handle map_handle w ≡ done 1 w'
      → Returns
          (λ r w''. (r.0 ≡ none) × (w'' ≡ w'))
          (new_mapping env system clasz (some handle) size protections w)
  unfolding new_mapping map_view
  new_mapping-closed w' refused closed =
      rw (is_open, granted, map_view, refused, closed) (returns (refl, refl))
