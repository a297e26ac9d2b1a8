-- ===== src/Tests/Histories.antt =====
-- A map with strings as keys, over several operations.
use k_h.Base.{List, [], ◌∷◌, replicate}
use k_h.World.Returns.{Returns}
use k_h.KMap.{Bucket}
use k_h.KMap.History.{Op}
use k_h.KString.{Strings}

-- The string at an address is that byte.
abbrev letters : Strings
letters a = record { size = 1; buffer = a ∷ [] }

abbrev empty_table : List Bucket
empty_table = replicate 1 []

abbrev steps : List Op
steps = Op.set_op 3 4 ∷ Op.set_op 1 2 ∷ Op.get_op 3 ∷ Op.remove_op 3 ∷ Op.get_op 3 ∷ []
