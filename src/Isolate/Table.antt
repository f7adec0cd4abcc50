-- ===== src/Isolate/Table.antt =====
-- kernel/src/isolate/mod.rs: the isolates' handles and their life cycle. What the process table
-- answers to `spawn_thread` is an argument; threads that are killed are listed in the state.
pub mod Coherence
mod Spawn
mod Outcome
mod Kill
mod History
mod Tests
use oscortex.Base.{
  ℕ, ◌+◌, ◌%◌, ◌^◌, max, Bool, true, false, not, ◌&&◌, Option, none, some, List, [], ◌∷◌, ◌++◌,
  replicate, Result, ok, err, if◌then◌else◌, ◌==◌, leb, length, set,
}
use oscortex.Base.Slots.{find_slot, update_slot}
use oscortex.Isolate.Inbox.{InboxTable, Event, create_inbox, destroy_inbox, max_isolates}

pub data IsolateState : Type 0 where
  running paused dead : IsolateState

-- `state as u32`.
abbrev pub code : IsolateState → ℕ
code running = 1
code paused = 2
code dead = 3

abbrev pub ev_isolate : ℕ
ev_isolate = 7

pub record IsolateHandle : Type 0 where
  pub id : ℕ
  pub state : IsolateState
  pub owner_pid : ℕ
  pub thread_id : ℕ
  pub aot_va : ℕ
  pub aot_size : ℕ

-- The two tables, the threads that `spawn` started and `kill` ended, and the events pushed.
pub record Isolates : Type 0 where
  pub slots : List (Option IsolateHandle)
  pub next_id : ℕ
  pub inboxes : InboxTable
  pub started : List ℕ
  pub killed : List ℕ
  pub events : List Event

pub init : Isolates
init = record {
  slots = replicate max_isolates none;
  next_id = 1;
  inboxes = replicate max_isolates none;
  started = [];
  killed = [];
  events = [];
}

abbrev pub is_dead : IsolateState → Bool
is_dead dead = true
is_dead _ = false

abbrev pub with_id : ℕ → IsolateHandle → Bool
with_id n h = h.id == n

abbrev pub live_with_id : ℕ → IsolateHandle → Bool
live_with_id n h = h.id == n && not (is_dead h.state)

abbrev pub is_empty : Option IsolateHandle → Bool
is_empty none = true
is_empty (some h) = false

abbrev pub is_dead_slot : Option IsolateHandle → Bool
is_dead_slot none = false
is_dead_slot (some h) = is_dead h.state

-- The first slot, from index `i` on, that passes a test.
position : (Option IsolateHandle → Bool) → List (Option IsolateHandle) → ℕ → Option ℕ
position p [] i = none
position p (o ∷ xs) i = if p o then some i else position p xs (i + 1)

-- A slot never used, else the first dead one.
pub alloc_slot : List (Option IsolateHandle) → Option ℕ
alloc_slot xs = elim (position is_empty xs 0) [
  | some i ↦ some i
  | none ↦ position is_dead_slot xs 0
]

abbrev pub isolate_event : IsolateState → ℕ → ℕ → Event
isolate_event st a b = record { kind = ev_isolate; flags = code st; a = a; b = b }

abbrev pub bump_id : ℕ → ℕ
bump_id n = max ((n + 1) % 2 ^ 32) 1

-- The part of `spawn` behind `spawn_thread`; the thread runs whatever comes of it.
register : ℕ → ℕ → ℕ → ℕ → Isolates → Isolates × Result ℕ
register owner_pid aot_va aot_size thread_id s =
    let s' : Isolates = record s { started = s.started ++ (thread_id ∷ []) } in
    elim (alloc_slot s.slots) [
      | none ↦ (s', err "isolate table full")
      | some slot ↦ (
        record s' {
          slots = set s.slots slot (
              some (record {
                id = s.next_id;
                state = running;
                owner_pid = owner_pid;
                thread_id = thread_id;
                aot_va = aot_va;
                aot_size = aot_size;
              }));
          next_id = bump_id s.next_id;
          inboxes = create_inbox s.next_id s.inboxes;
          events = s.events ++ (isolate_event running s.next_id owner_pid ∷ []);
        },
        ok s.next_id,
      )
    ]

-- `thread` is what `process::spawn_thread(owner_pid, aot_va + entry_offset, 0, stack)` returns.
pub spawn : ℕ → ℕ → ℕ → ℕ → Option ℕ → Isolates → Isolates × Result ℕ
spawn owner_pid aot_va aot_size entry_offset thread s =
    if aot_va == 0
    then (s, err "invalid aot_va")
    else if leb (max aot_size 1) entry_offset
    then (s, err "entry_offset out of range")
    else elim thread [
      | none ↦ (s, err "spawn_thread failed")
      | some tid ↦ register owner_pid aot_va aot_size tid s
    ]

abbrev pub with_state : IsolateState → IsolateHandle → IsolateHandle
with_state st h = record h { state = st }

pub kill : ℕ → Isolates → Isolates × Result (Unit {0})
kill n s = elim (find_slot (live_with_id n) s.slots) [
  | none ↦ (s, err "no such isolate")
  | some h ↦ (
    record s {
      slots = update_slot (live_with_id n) (with_state dead) s.slots;
      inboxes = destroy_inbox n s.inboxes;
      killed = s.killed ++ (h.thread_id ∷ []);
      events = s.events ++ (isolate_event dead n 0 ∷ []);
    },
    ok tt,
  )
]

abbrev is_state : IsolateState → IsolateState → Bool
is_state running running = true
is_state paused paused = true
is_state dead dead = true
is_state _ _ = false

-- `op` 1 and 2: from one state to the other, with an event if the state changes.
change : IsolateState → IsolateState → ℕ → Isolates → Isolates × Result ℕ
change from to n s = elim (find_slot (live_with_id n) s.slots) [
  | none ↦ (s, err "no such isolate")
  | some h ↦ (
    if is_state h.state from
        then record s {
          slots = update_slot (live_with_id n) (with_state to) s.slots;
          events = s.events ++ (isolate_event to h.id h.owner_pid ∷ []);
        }
        else s,
    ok (code to),
  )
]

pub ctrl : ℕ → ℕ → Isolates → Isolates × Result ℕ
ctrl n op s =
    if op == 0
    then elim (find_slot (with_id n) s.slots) [
      | none ↦ (s, err "no such isolate")
      | some h ↦ (s, ok (code h.state))
    ]
    else if op == 1
    then change running paused n s
    else if op == 2
    then change paused running n s
    else (s, err "unknown op")
