-- ===== src/Isolate/Table/Tests.antt =====
-- The theorems on the isolate table, from the state in which the kernel starts.
use oscortex.Base.{some, List, [], ◌∷◌, replicate, arith}
use oscortex.Isolate.Table.{Isolates, IsolateHandle, running, init, spawn}
use oscortex.Isolate.Table.Coherence.{IsCoherent, init-IsCoherent}
use oscortex.Isolate.Table.Spawn.{spawn-IsCoherent}
use oscortex.Isolate.Table.History.{Call, spawns, kills, controls, run, run-IsCoherent}

abbrev one : Isolates
one = (spawn 3 4096 100 8 (some 70) init).0

one-IsCoherent : IsCoherent one
unfolding init
one-IsCoherent = spawn-IsCoherent 3 4096 100 8 (some 70) init init-IsCoherent (omega arith)

abbrev first : IsolateHandle
first = record {
  id = 1;
  state = running;
  owner_pid = 3;
  thread_id = 70;
  aot_va = 4096;
  aot_size = 100;
}

-- A table all of whose slots hold running isolates.
abbrev full : Isolates
full = record {
  slots = replicate 64 (some first);
  next_id = 2;
  inboxes = [];
  started = [];
  killed = [];
  events = [];
}

abbrev calls : List Call
calls = spawns 3 4096 100 8 (some 70) ∷ controls 1 1 ∷ kills 1 ∷ []

run-IsCoherent_example : IsCoherent (run calls init)
run-IsCoherent_example = run-IsCoherent calls (omega arith)
