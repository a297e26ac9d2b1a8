-- ===== src/World.antt =====
-- The state that the library's C code shares, and commands over it.
-- A `World` holds the control blocks of the live objects and the entries of the linked lists, each
-- under its address; `Env` holds what the code calls and does not define.
pub mod Loads
pub mod Returns
pub mod Updates
use k_h.Base.{ℕ, ◌+◌, ◌≡◌, ◌≢◌, refl, ap, Bool, Option, none, some, ◌==◌, if◌then◌else◌}

-- An address; 0 is NULL.
abbrev pub Ptr : Type 0
Ptr = ℕ

abbrev pub null : Ptr
null = 0

-- `KObjectRef` of kobject.h, an address too.
abbrev pub KObjectRef : Type 0
KObjectRef = Ptr

-- `isa` is the address of the object's `KClass`.
pub record KControlBlock : Type 0 where
  pub isa : Ptr
  pub ref_count : ℕ

pub record KListEntry : Type 0 where
  pub prev : Ptr
  pub next : Ptr
  pub item : KObjectRef

-- `requests` counts the calls of the allocator, so that it may answer differently each time.
pub record World : Type 0 where
  pub blocks : KObjectRef → Option KControlBlock
  pub entries : Ptr → Option KListEntry
  pub requests : ℕ

-- `aborted` is `KAbort`; `fault` is what C leaves undefined, such as a read of freed memory.
pub data Run (A : Type 0) : Type 0 where
  done : A → World → Run A
  aborted : Run A
  fault : Run A
  out_of_fuel : Run A

abbrev pub Cmd : Type 0 → Type 0
Cmd A = World → Run A

abbrev pub pure : {A : Type 0} → A → Cmd A
pure = done

module _ {A B : Type 0} where
  abbrev pub and_then : Run A → (A → Cmd B) → Run B
  and_then (done a w) k = k a w
  and_then aborted k = aborted
  and_then fault k = fault
  and_then out_of_fuel k = out_of_fuel

  infixl 5 ◌>>=◌ ◌>>◌
  abbrev pub ◌>>=◌ : Cmd A → (A → Cmd B) → Cmd B
  m >>= k = λ w. and_then (m w) k

  abbrev pub ◌>>◌ : Cmd A → Cmd B → Cmd B
  m >> n = m >>= λ _. n

-- What is not the library's: the C allocator, which answers 0 when it refuses, and the functions
-- that an object's class brings.
pub record Env : Type 0 where
  pub malloc : World → Ptr
  pub init : Ptr → KObjectRef → Cmd (Unit {0})
  pub deinit : Ptr → KObjectRef → Cmd (Unit {0})

-- The allocator never refuses.
abbrev pub Grants : Env → Type 0
Grants env = (w : World) → env.malloc w ≢ null

-- There is a request that the allocator refuses.
abbrev pub Refuses : Env → Type 0
Refuses env = (w : World) × (env.malloc w ≡ null)

-- One call of the allocator.
abbrev pub allocate : Env → Cmd Ptr
allocate env w = done (env.malloc w) (record w { requests = w.requests + 1 })

-- `K_ASSERT` of kassert.h.
abbrev pub k_assert : Bool → Cmd (Unit {0})
k_assert condition w = if condition then done tt w else aborted

abbrev pub update {ℓ} : {A : Type ℓ} → (Ptr → A) → Ptr → A → Ptr → A
update f p a q = if q == p then a else f q

-- Equal maps agree everywhere.
pub pointwise {ℓ} : {A : Type ℓ} {f g : Ptr → A} → f ≡ g → (p : Ptr) → f p ≡ g p
pointwise e p = ap (λ h. h p) e

-- Commands that end alike are alike.
pub and_then-same :
    {A B : Type 0} (r : Run A) (k k' : A → Cmd B)
    → ((a : A) (w : World) → k a w ≡ k' a w)
    → and_then r k ≡ and_then r k'
and_then-same (done a w) k k' same = same a w
and_then-same aborted k k' same = refl
and_then-same fault k k' same = refl
and_then-same out_of_fuel k k' same = refl
