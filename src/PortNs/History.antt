-- ===== src/PortNs/History.antt =====
-- Sequences of calls of kernel/src/port_ns/mod.rs.
use oscortex.Base.{ℕ, List, [], ◌∷◌, arith}
use oscortex.PortNs.{PortTable, bind, unbind}
use oscortex.PortNs.Laws.{IsTable, bind-IsTable, unbind-IsTable}

pub data Call : Type 0 where
  binds : List ℕ → ℕ → ℕ → Call
  unbinds : List ℕ → Call

abbrev step : Call → PortTable → PortTable
step (binds name iso pid) t = (bind name iso pid t).0
step (unbinds name) t = (unbind name t).0

abbrev pub run : List Call → PortTable → PortTable
run [] t = t
run (c ∷ cs) t = run cs (step c t)

step-IsTable : (c : Call) (t : PortTable) → IsTable t → IsTable (step c t)
step-IsTable (binds name iso pid) t v = bind-IsTable name iso pid t v
step-IsTable (unbinds name) t v = unbind-IsTable name t v

run_from : (cs : List Call) (t : PortTable) → IsTable t → IsTable (run cs t)
run_from [] t v = v
run_from (c ∷ cs) t v = run_from cs (step c t) (step-IsTable c t v)

empty-IsTable : IsTable []
empty-IsTable = record { once = λ name. omega arith; bounded = omega arith }

-- Whatever sequence of `bind` and `unbind` calls is made on an empty table, failed ones included,
-- every name is bound at most once and at most 256 records are in the table.
pub run-IsTable : (cs : List Call) → IsTable (run cs [])
run-IsTable cs = run_from cs [] empty-IsTable
