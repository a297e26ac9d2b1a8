-- ===== src/KObject.antt =====
-- kobject.c: reference-counted objects. A control block is found under its object's address.
pub mod Counts
pub mod Lifetime
pub mod Made
pub mod Owned
use k_h.Base.{ℕ, ◌+◌, ◌-◌, ◌^◌, Option, none, some, u32, ◌==◌, if◌then◌else◌}
use k_h.World.{
  Ptr, null, KObjectRef, KControlBlock, World, done, fault, Cmd, pure, ◌>>=◌, ◌>>◌, Env, allocate,
  update,
}

-- `KCONTROL_BLOCK` writes, `none` for `free`.
abbrev pub set_block : KObjectRef → Option KControlBlock → Cmd (Unit {0})
set_block obj cb w = done tt (record w { blocks = update w.blocks obj cb })

-- `*KCONTROL_BLOCK`: an object that was freed, or never was one, has none.
abbrev pub control_block : KObjectRef → Cmd KControlBlock
control_block obj w = elim (w.blocks obj) [ none ↦ fault | some cb ↦ done cb w ]

abbrev pub sizeof_control_block : ℕ
sizeof_control_block = 16

unfoldable pub new : Env → (clasz : Ptr) → Cmd KObjectRef
new env clasz = do
  allocation ← allocate env
  if allocation == null then pure null else do
    set_block (allocation + sizeof_control_block) (some (record { isa = clasz; ref_count = 1 }))
    env.init clasz (allocation + sizeof_control_block)
    pure (allocation + sizeof_control_block)

unfoldable pub retain : KObjectRef → Cmd (Unit {0})
retain obj = if obj == null then pure tt else do
  cb ← control_block obj
  set_block obj (some (record cb { ref_count = u32 (cb.ref_count + 1) }))

-- `atomic_fetch_sub` yields the count before the subtraction.
unfoldable pub release : Env → KObjectRef → Cmd (Unit {0})
release env obj = if obj == null then pure tt else do
  cb ← control_block obj
  set_block obj (some (record cb { ref_count = u32 (cb.ref_count + 2 ^ 32 - 1) }))
  if cb.ref_count == 1 then (do env.deinit cb.isa obj; set_block obj none) else pure tt

unfoldable pub get_retain_count : KObjectRef → Cmd ℕ
get_retain_count obj = if obj == null then pure 0 else do cb ← control_block obj; pure cb.ref_count
