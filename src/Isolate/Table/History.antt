-- ===== src/Isolate/Table/History.antt =====
-- Sequences of calls of kernel/src/isolate/mod.rs, from the empty table on.
use oscortex.Base.{ℕ, ◌+◌, ◌^◌, ◌≤◌, ◌<◌, ◌≡◌, Option, List, [], ◌∷◌, length, arith, some, none}
use oscortex.Isolate.Table.{Isolates, init, spawn, kill, ctrl, change, register}
use oscortex.Isolate.Table.Coherence.{IsCoherent, init-IsCoherent, kill-IsCoherent, ctrl-IsCoherent}
use oscortex.Isolate.Table.Spawn.{spawn-IsCoherent}

pub data Call : Type 0 where
  spawns : ℕ → ℕ → ℕ → ℕ → Option ℕ → Call
  kills : ℕ → Call
  controls : ℕ → ℕ → Call

abbrev step : Call → Isolates → Isolates
step (spawns pid va size off thread) s = (spawn pid va size off thread s).0
step (kills n) s = (kill n s).0
step (controls n op) s = (ctrl n op s).0

abbrev pub run : List Call → Isolates → Isolates
run [] s = s
run (c ∷ cs) s = run cs (step c s)

step-IsCoherent :
    (c : Call) (s : Isolates) → IsCoherent s → s.next_id + 1 < 2 ^ 32 → IsCoherent (step c s)
step-IsCoherent (spawns pid va size off thread) s v h =
    spawn-IsCoherent pid va size off thread s v h
step-IsCoherent (kills n) s v h = kill-IsCoherent n s v
step-IsCoherent (controls n op) s v h = ctrl-IsCoherent n op s v

-- Each call uses up one identifier at most.
next_id-register :
    (pid va size tid : ℕ) (s : Isolates)
    → s.next_id + 1 < 2 ^ 32
    → (register pid va size tid s).0.next_id ≤ s.next_id + 1
unfolding register
next_id-register pid va size tid s h = ground arith

next_id-spawn :
    (pid va size off : ℕ) (thread : Option ℕ) (s : Isolates)
    → s.next_id + 1 < 2 ^ 32
    → (spawn pid va size off thread s).0.next_id ≤ s.next_id + 1
unfolding spawn
next_id-spawn pid va size off none s h = ground arith
next_id-spawn pid va size off (some tid) s h = ground (arith, next_id-register pid va size tid s h)

next_id-kill : (n : ℕ) (s : Isolates) → (kill n s).0.next_id ≡ s.next_id
unfolding kill
next_id-kill n s = ground arith

next_id-ctrl : (n op : ℕ) (s : Isolates) → (ctrl n op s).0.next_id ≡ s.next_id
unfolding ctrl change
next_id-ctrl n op s = ground arith

next_id-step :
    (c : Call) (s : Isolates) → s.next_id + 1 < 2 ^ 32 → (step c s).next_id ≤ s.next_id + 1
next_id-step (spawns pid va size off thread) s h = next_id-spawn pid va size off thread s h
next_id-step (kills n) s h = omega (arith, next_id-kill n s)
next_id-step (controls n op) s h = omega (arith, next_id-ctrl n op s)

run_from :
    (cs : List Call) (s : Isolates)
    → IsCoherent s
    → s.next_id + length cs < 2 ^ 32
    → IsCoherent (run cs s)
run_from [] s v h = v
run_from (c ∷ cs) s v h =
    run_from cs (step c s) (step-IsCoherent c s v (omega arith))
      (omega (arith, next_id-step c s (omega arith)))

-- Any sequence of `spawn`, `kill` and `ctrl` calls from the empty table, too short to use up the
-- 32-bit identifiers, leaves it coherent: no identifier is used twice or is at or above the next one,
-- and exactly the isolates that are not dead have an inbox, one each.
pub run-IsCoherent : (cs : List Call) → length cs + 1 < 2 ^ 32 → IsCoherent (run cs init)
unfolding init
run-IsCoherent cs h = run_from cs init init-IsCoherent (omega arith)
