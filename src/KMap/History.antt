-- ===== src/KMap/History.antt =====
-- A run of `KMapSetValue`, `KMapGetValue` and `KMapRemoveValue` of kmap.c, against a function from
-- keys to values.
use k_h.Base.{
  ℕ, ◌+◌, ◌*◌, ◌^◌, ◌≤◌, ◌<◌, ◌≡◌, ◌≢◌, Bool, false, not, ◌&&◌, Option, none, some, List, [], ◌∷◌,
  if◌then◌else◌,
}
use k_h.World.{null, KObjectRef, World, Refuses, Env, Cmd, pure, ◌>>=◌}
use k_h.World.Returns
use k_h.World.Returns.{Returns}
use k_h.KObject.Counts.{refs}
use k_h.KMap.{KMap, Bucket, KMapHash, KMapEqual, set_value, get_value, remove_value}
use k_h.KMap.Buckets.{held, view}
use k_h.KMap.Insert.{is_none, table, IsValid}
use k_h.KMap.Copy.{budget}
use k_h.KMap.Lookup.{or_null}

pub data Op : Type 0 where
  set_op : (key value : KObjectRef) → Op
  get_op : (key : KObjectRef) → Op
  remove_op : (key : KObjectRef) → Op

pub data OpAnswer : Type 0 where
  was_set : Bool → OpAnswer
  was_found : KObjectRef → OpAnswer
  was_removed : Bool → OpAnswer

unfoldable pub perform : Env → List Op → Option KMap → Cmd (List OpAnswer × Option KMap)
perform env [] map = pure ([], map)
perform env (set_op key value ∷ ops) map = do
  (ok, map) ← set_value env map key value
  (answers, map) ← perform env ops map
  pure (was_set ok ∷ answers, map)
perform env (get_op key ∷ ops) map = do
  value ← get_value map key
  (answers, map) ← perform env ops map
  pure (was_found value ∷ answers, map)
perform env (remove_op key ∷ ops) map = do
  (was_there, map) ← remove_value map key
  (answers, map) ← perform env ops map
  pure (was_removed was_there ∷ answers, map)

-- The answers are those of a function from keys to values, where a set of a key without a value may
-- fail if the allocator refuses.
pub data Explains (env : Env) (equal : KMapEqual)
    : (KObjectRef → Option KObjectRef) → List Op → List OpAnswer → Type 0 where
  over : {m : KObjectRef → Option KObjectRef} → Explains env equal m [] []
  set_one :
      {m m' : KObjectRef → Option KObjectRef} {key value : KObjectRef} {ok : Bool} {ops : List Op}
      {answers : List OpAnswer}
      → ((q : KObjectRef) → m' q ≡ (if ok && equal q key then some value else m q))
      → (ok ≡ false → (m key ≡ none) × Refuses env)
      → Explains env equal m' ops answers
      → Explains env equal m (set_op key value ∷ ops) (was_set ok ∷ answers)
  get_one :
      {m : KObjectRef → Option KObjectRef} {key : KObjectRef} {ops : List Op}
      {answers : List OpAnswer}
      → Explains env equal m ops answers
      → Explains env equal m (get_op key ∷ ops) (was_found (or_null (m key)) ∷ answers)
  remove_one :
      {m m' : KObjectRef → Option KObjectRef} {key : KObjectRef} {ops : List Op}
      {answers : List OpAnswer}
      → ((q : KObjectRef) → m' q ≡ (if equal q key then none else m q))
      → Explains env equal m' ops answers
      → Explains env equal m (remove_op key ∷ ops) (was_removed (not (is_none (m key))) ∷ answers)

-- An object that has references beside those of the map.
abbrev pub IsSpare : World → List Bucket → KObjectRef → Type 0
IsSpare w b o = (o ≢ null) × (held o b < refs w o)

abbrev pub AreSpare : World → List Bucket → List Op → Type 0
AreSpare w b [] = Unit
AreSpare w b (set_op key value ∷ ops) = IsSpare w b key × IsSpare w b value × AreSpare w b ops
AreSpare w b (get_op key ∷ ops) = IsSpare w b key × AreSpare w b ops
AreSpare w b (remove_op key ∷ ops) = IsSpare w b key × AreSpare w b ops

-- The counts leave room for `n` more operations.
abbrev pub HasRoom : World → List Bucket → ℕ → Type 0
HasRoom w b n =
    (o : KObjectRef)
    → (held o b ≤ refs w o) × (refs w o + 2 * n + budget 64 (refs w o + 2 * n) < 2 ^ 32)

abbrev pub Explained :
    Env
    → KMapHash
    → KMapEqual
    → List Bucket
    → List Op
    → List OpAnswer × Option KMap
    → World
    → Type 0
Explained env hash equal b ops (answers, map) w' =
    Explains env equal (view hash equal b) ops answers
    × ((b' : List Bucket) × (c' : ℕ) × (map ≡ some (table hash equal b' c'))
        × IsValid hash equal b' c')
