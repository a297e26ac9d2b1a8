-- ===== src/KList/Links.antt =====
-- Runs of linked entries, and how writes to single entries change them.
use k_h.Base.{
  ◌≡◌, ◌≢◌, refl, Bool, true, false, ◌||◌, Option, none, some, List, [], ◌∷◌, ◌++◌, arith, ap, ◌∙◌,
  ◌==◌, length,
}
use k_h.World.{Ptr, null, KObjectRef, KListEntry, update}
use k_h.KList.{KList}

-- What a list stands for: the address and the item of each entry, in order.
abbrev pub Cells : Type 0
Cells = List (Ptr × KObjectRef)

abbrev pub Entries : Type 0
Entries = Ptr → Option KListEntry

abbrev pub entry : Ptr → Ptr → KObjectRef → KListEntry
entry p n o = record { prev = p; next = n; item = o }

abbrev pub has : Ptr → Cells → Bool
has a [] = false
has a ((p, _) ∷ xs) = (a == p) || has a xs

abbrev pub Distinct : Cells → Type 0
Distinct [] = Unit {0}
Distinct ((p, _) ∷ xs) = (has p xs ≡ false) × Distinct xs

-- Where a run begins, if `stop` stands behind it, and where it ends, if `before` stands before it.
abbrev pub first : Cells → Ptr → Ptr
first [] stop = stop
first ((p, _) ∷ xs) stop = p

abbrev pub last : Ptr → Cells → Ptr
last before [] = before
last before ((p, _) ∷ xs) = last p xs

-- The run is linked both ways, from the entry `before` it to the entry `stop` behind it.
abbrev pub Links : Entries → (before : Ptr) → Cells → (stop : Ptr) → Type 0
Links m before [] stop = Unit {0}
Links m before ((p, o) ∷ xs) stop =
    (p ≢ null) × (m p ≡ some (entry before (first xs stop) o)) × Links m p xs stop

pub record IsList (m : Entries) (list : KList) (xs : Cells) : Type 0 where
  pub root : list.root ≡ first xs null
  pub count : list.count ≡ length xs
  pub links : Links m null xs null
  pub distinct : Distinct xs

-- Only the entries of `xs` may differ.
abbrev pub SameOutside : Cells → Entries → Entries → Type 0
SameOutside xs m m' = (a : Ptr) → has a xs ≡ false → m' a ≡ m a

pub Links-frame :
    (m m' : Entries) (before : Ptr) (xs : Cells) (stop : Ptr)
    → Links m before xs stop
    → ((a : Ptr) → has a xs ≡ true → m' a ≡ m a)
    → Links m' before xs stop
Links-frame m m' before [] stop h same = tt
Links-frame m m' before ((p, o) ∷ xs) stop h same = (
  h.0,
  same p (ground arith) ∙ h.1,
  Links-frame m m' p xs stop h.2 (λ a i. same a (ground arith)),
)

pub Links-update :
    (m : Entries) (a : Ptr) (e : Option KListEntry) (before : Ptr) (xs : Cells) (stop : Ptr)
    → Links m before xs stop
    → has a xs ≡ false
    → Links (update m a e) before xs stop
Links-update m a e before xs stop h out =
    Links-frame m (update m a e) before xs stop h
      (λ b i. ground (arith, ap (λ (c : Ptr). has c xs)))

pub first-append : (xs ys : Cells) (stop : Ptr) → first (xs ++ ys) stop ≡ first xs (first ys stop)
first-append [] ys stop = refl
first-append (x ∷ xs) ys stop = refl

pub has-append : (a : Ptr) (xs ys : Cells) → has a (xs ++ ys) ≡ (has a xs || has a ys)
has-append a [] ys = refl
has-append a ((p, o) ∷ xs) ys = ground (arith, has-append a xs ys)

pub Links-append :
    (m : Entries) (before : Ptr) (xs ys : Cells) (stop : Ptr)
    → Links m before xs (first ys stop)
    → Links m (last before xs) ys stop
    → Links m before (xs ++ ys) stop
Links-append m before [] ys stop h k = k
Links-append m before ((p, o) ∷ xs) ys stop h k =
    (h.0, rw first-append h.1, Links-append m p xs ys stop h.2 k)

pub Links-split :
    (m : Entries) (before : Ptr) (xs ys : Cells) (stop : Ptr)
    → Links m before (xs ++ ys) stop
    → Links m before xs (first ys stop) × Links m (last before xs) ys stop
Links-split m before [] ys stop h = (tt, h)
Links-split m before ((p, o) ∷ xs) ys stop h =
    let rest = Links-split m p xs ys stop h.2 in ((h.0, rw first-append at h.1, rest.0), rest.1)

pub Distinct-split :
    (xs ys : Cells)
    → Distinct (xs ++ ys)
    → Distinct xs × Distinct ys × ((a : Ptr) → has a xs ≡ true → has a ys ≡ false)
Distinct-split [] ys h = (tt, h, λ a i. absurd (cc))
Distinct-split ((p, o) ∷ xs) ys h =
    let rest = Distinct-split xs ys h.1 in
    let out = has-append p xs ys in
    ((ground arith, rest.0), rest.1, λ a i. ground (arith, rest.2 a))

pub Distinct-append :
    (xs ys : Cells)
    → Distinct xs
    → Distinct ys
    → ((a : Ptr) → has a xs ≡ true → has a ys ≡ false)
    → Distinct (xs ++ ys)
Distinct-append [] ys d e apart = e
Distinct-append ((p, o) ∷ xs) ys d e apart = (
  ground (arith, has-append p xs ys, apart p),
  Distinct-append xs ys d.1 e (λ a i. apart a (ground arith)),
)

-- An address that holds no entry is in no run.
pub unused-not_has :
    (m : Entries) (a before : Ptr) (xs : Cells) (stop : Ptr)
    → Links m before xs stop
    → m a ≡ none
    → has a xs ≡ false
unused-not_has m a before [] stop h unused = refl
unused-not_has m a before ((p, o) ∷ xs) stop h unused =
    ground (arith, h.1, unused-not_has m a p xs stop h.2 unused)

-- A write leaves every other address alone.
pub update_other :
    (m : Entries) (p : Ptr) (e : Option KListEntry) (a : Ptr)
    → (a == p) ≡ false
    → update m p e a ≡ m a
update_other m p e a other = rw other
