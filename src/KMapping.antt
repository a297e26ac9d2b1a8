-- ===== src/KMapping.antt =====
-- kmapping.c: a view of memory that keeps an object alive. A mapping object is its record.
pub mod Life
use k_h.Base.{ℕ, Option, none, some, ◌==◌, if◌then◌else◌}
use k_h.World.{Ptr, null, KObjectRef, Cmd, pure, ◌>>=◌, ◌>>◌, Env, allocate}
use k_h.KObject.{retain, release}

pub record KMapping : Type 0 where
  pub mapping : Ptr
  pub count : ℕ
  pub user_data : KObjectRef

unfoldable pub deinit : Env → KMapping → Cmd (Unit {0})
deinit env mapping = release env mapping.user_data

unfoldable pub new :
    Env → (buffer : Ptr) (count : ℕ) (user_data : KObjectRef) → Cmd (Option KMapping)
new env buffer count user_data = do
  mapping ← allocate env
  if mapping == null then pure none else do
    retain user_data
    pure (some (record { mapping = buffer; count = count; user_data = user_data }))

unfoldable pub get_buffer : Option KMapping → Ptr
get_buffer none = null
get_buffer (some mapping) = mapping.mapping

unfoldable pub get_size : Option KMapping → ℕ
get_size none = 0
get_size (some mapping) = mapping.count

unfoldable pub get_user_data : Option KMapping → KObjectRef
get_user_data none = null
get_user_data (some mapping) = mapping.user_data
