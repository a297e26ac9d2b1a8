-- ===== src/KList/Access.antt =====
-- Reads and writes of one entry.
use k_h.Base.{◌≡◌, ◌≢◌, false, Option, none, some, arith, ◌==◌}
use k_h.World.{Ptr, null, KObjectRef, KListEntry, World, done, update}
use k_h.KList.{load, set_next, set_prev, set_item, free}

abbrev pub with_entry : World → Ptr → Option KListEntry → World
with_entry w p e = record w { entries = update w.entries p e }

module _ (p : Ptr) (e : KListEntry) (w : World) (live : p ≢ null)
    (here : w.entries p ≡ some e) where
  pub not_null : (p == null) ≡ false
  not_null = ground arith

  pub load-ok : load p w ≡ done e w
  unfolding load
  load-ok = rw (not_null, here)

  pub set_next-ok :
      (q : Ptr) → set_next p q w ≡ done tt (with_entry w p (some (record e { next = q })))
  unfolding set_next
  set_next-ok q = rw load-ok

  pub set_prev-ok :
      (q : Ptr) → set_prev p q w ≡ done tt (with_entry w p (some (record e { prev = q })))
  unfolding set_prev
  set_prev-ok q = rw load-ok

  pub set_item-ok :
      (o : KObjectRef) → set_item p o w ≡ done tt (with_entry w p (some (record e { item = o })))
  unfolding set_item
  set_item-ok o = rw load-ok

  pub free-ok : free p w ≡ done tt (with_entry w p none)
  unfolding free
  free-ok = rw load-ok
