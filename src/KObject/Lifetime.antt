-- ===== src/KObject/Lifetime.antt =====
-- The life of one object under `KObjectRetain` and `KObjectRelease` of kobject.c.
use k_h.Base.{
  ℕ, zero, suc, ◌+◌, ◌^◌, ◌<◌, ◌≡◌, ◌≢◌, refl, false, Option, none, some, arith, ap, ◌==◌,
}
use mathlib.Core.Path.{fun_ext}
use k_h.World.{
  Ptr, null, KObjectRef, KControlBlock, World, Run, done, Cmd, pure, ◌>>◌, and_then, Env, update,
}
use k_h.KObject.{control_block, set_block, retain, release}

-- A command run several times.
abbrev pub times : ℕ → Cmd (Unit {0}) → Cmd (Unit {0})
times zero m = pure tt
times (suc n) m = m >> times n m

abbrev pub with_block : World → KObjectRef → Option KControlBlock → World
with_block w obj b = record w { blocks = update w.blocks obj b }

abbrev pub counted : Ptr → ℕ → Option KControlBlock
counted isa n = some (record { isa = isa; ref_count = n })

with_block_twice :
    (w : World) (obj : KObjectRef) (b c : Option KControlBlock)
    → with_block (with_block w obj b) obj c ≡ with_block w obj c
with_block_twice w obj b c =
    ap (λ (f : KObjectRef → Option KControlBlock). record w { blocks = f })
      (fun_ext λ q. ground arith)

and_then-pure : (r : Run (Unit {0})) → and_then r (λ _. pure tt) ≡ r
and_then-pure (done tt w) = refl
and_then-pure Run.aborted = refl
and_then-pure Run.fault = refl
and_then-pure Run.out_of_fuel = refl

module _ (obj : KObjectRef) (isa : Ptr) (live : obj ≢ null) (w : World) where
  not_null : (obj == null) ≡ false
  not_null = ground arith

  here : (b : Option KControlBlock) → (with_block w obj b).blocks obj ≡ b
  here b = ground arith

  retain-counted :
      (n : ℕ)
      → n + 1 < 2 ^ 32
      → retain obj (with_block w obj (counted isa n))
        ≡ done tt (with_block w obj (counted isa (suc n)))
  unfolding retain
  retain-counted n h =
      rw (not_null, here (counted isa n), control_block, with_block_twice) (ground arith)

  release-counted :
      (env : Env) (n : ℕ)
      → n + 2 < 2 ^ 32
      → release env obj (with_block w obj (counted isa (suc (suc n))))
        ≡ done tt (with_block w obj (counted isa (suc n)))
  unfolding release
  release-counted env n h =
      rw (not_null, here (counted isa (suc (suc n))), control_block, with_block_twice)
        (ground arith)

  release_last :
      (env : Env)
      → release env obj (with_block w obj (counted isa 1))
        ≡ (env.deinit isa obj >> set_block obj none) (with_block w obj (counted isa 0))
  unfolding release
  release_last env = rw (not_null, here (counted isa 1), control_block, with_block_twice) refl

  -- An object that holds n references, with n + m within 32 bits, holds n + m after m retains.
  pub times-retain :
      (m n : ℕ)
      → m + n < 2 ^ 32
      → times m (retain obj) (with_block w obj (counted isa n))
        ≡ done tt (with_block w obj (counted isa (m + n)))
  times-retain zero n h = ap (λ k. done tt (with_block w obj (counted isa k))) (omega arith)
  times-retain (suc m) n h =
      rw (retain-counted n (omega arith), times-retain m (suc n) (omega arith))
        (ap (λ k. done tt (with_block w obj (counted isa k))) (omega arith))

  -- Of the n + 1 releases of a live object that holds n + 1 references, a number below 2 ^ 32, only
  -- the last runs the class's deinitialiser, and it frees the object then.
  pub times-release :
      (env : Env) (n : ℕ)
      → n + 1 < 2 ^ 32
      → times (suc n) (release env obj) (with_block w obj (counted isa (suc n)))
        ≡ (env.deinit isa obj >> set_block obj none) (with_block w obj (counted isa 0))
  times-release env zero h = rw (release_last env, and_then-pure) refl
  times-release env (suc n) h =
      rw (release-counted env n (omega arith)) (times-release env n (omega arith))
