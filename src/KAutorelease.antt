-- ===== src/KAutorelease.antt =====
-- kautorelease.c: a thread's pool of objects to release later. `none` is a pool not made yet.
pub mod Pool
pub mod Drained
use k_h.Base.{ℕ, Bool, true, false, not, Option, none, some, ◌==◌, if◌then◌else◌}
use k_h.World.{null, KObjectRef, Cmd, pure, ◌>>=◌, ◌>>◌, Env}
use k_h.KObject.{release}
use k_h.KArray
use k_h.KArray.{KArray}

unfoldable pub add_object : Env → Option KArray → KObjectRef → Cmd (Bool × Option KArray)
add_object env pool obj = if obj == null then pure (false, pool) else do
  pool ← elim pool [ none ↦ KArray.new env | some array ↦ pure (some array) ]
  KArray.add_object env pool obj

unfoldable pub pop : Env → Option KArray → Cmd (ℕ × Option KArray)
pop env none = pure (0, none)
pop env (some pool) = KArray.remove_all_objects env (some pool)

unfoldable pub move : Env → Option KArray → KObjectRef → Cmd (KObjectRef × Option KArray)
move env pool obj = do
  (added, pool) ← add_object env pool obj
  release env obj
  if not added then pure (null, pool) else pure (obj, pool)
