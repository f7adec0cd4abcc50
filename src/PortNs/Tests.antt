-- ===== src/PortNs/Tests.antt =====
-- The theorems on the name table at a table with one or two names.
use oscortex.Base.{ℕ, ◌≡◌, refl, some, List, [], ◌∷◌, if◌then◌else◌, arith}
use oscortex.Base.Int.{pos}
use oscortex.Base.Slots.{bytes_eq, find_slot, fill_slot}
use oscortex.PortNs.{PortTable, bind, lookup, find, insert}
use oscortex.PortNs.History.{Call, binds, unbinds, run, run-IsTable}
use oscortex.PortNs.Laws.{IsTable, lookup-bind, bind-IsTable}

empty-IsTable : IsTable []
empty-IsTable = record { once = λ name. omega arith; bounded = omega arith }

abbrev ui : List ℕ
ui = 117 ∷ 105 ∷ []

abbrev io : List ℕ
io = 105 ∷ 111 ∷ []

abbrev one : PortTable
one = (bind ui 4 9 []).0

one-IsTable : IsTable one
one-IsTable = bind-IsTable ui 4 9 [] empty-IsTable

lookup-bind_example :
    lookup io (bind ui 4 9 []).0 ≡ (if bytes_eq io ui then (pos 0, some (4, 9)) else lookup io [])
unfolding bind insert find find_slot fill_slot
lookup-bind_example = lookup-bind ui io 4 9 [] refl

abbrev calls : List Call
calls = binds ui 4 9 ∷ binds io 5 9 ∷ binds ui 6 9 ∷ unbinds ui ∷ unbinds ui ∷ []

run-IsTable_example : IsTable (run calls [])
run-IsTable_example = run-IsTable calls
