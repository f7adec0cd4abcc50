-- ===== src/Isolate/Table/Outcome.antt =====
-- How each call of `spawn` of kernel/src/isolate/mod.rs ends: refused, too late to stop the thread, or
-- with a new isolate.
use Prim.Native.String.{String}
use oscortex.Base.{
  ℕ, ◌≤◌, ◌<◌, ◌≡◌, ◌≢◌, ◌⊎◌, max, true, false, Option, none, some, [], ◌∷◌, ◌++◌, length, get_or,
  ok, err, Result,
}
use oscortex.Base.Slots.{holds}
use oscortex.Isolate.Inbox.{create_inbox}
use oscortex.Isolate.Table.{Isolates, running, bump_id, isolate_event}
use oscortex.Isolate.Table.Coherence.{live}
use oscortex.Isolate.Table.Spawn.{handle}

-- Every slot holds an isolate that is not dead.
abbrev pub AllLive : Isolates → Type 0
AllLive s = (i : ℕ) → i < length s.slots → holds live (get_or s.slots i none) ≡ true

-- An error that leaves the state alone, for a bad argument or without a thread.
abbrev pub Refuses : ℕ → ℕ → ℕ → Option ℕ → Isolates → Isolates × Result ℕ → Type 0
Refuses va size off thread s r =
    ((va ≡ 0) ⊎ (max size 1 ≤ off) ⊎ (thread ≡ none)) × (e : String) × (r ≡ (s, err e))

-- The error of a full table, with the thread started.
abbrev pub Leaks : Option ℕ → Isolates → Isolates × Result ℕ → Type 0
Leaks thread s r =
    (tid : ℕ) × (thread ≡ some tid)
    × AllLive s
    × (r ≡ (record s { started = s.started ++ (tid ∷ []) }, err "isolate table full"))

-- A new isolate, under the next identifier, in a slot that held none that is live; the other slots are
-- kept.
abbrev pub Starts : ℕ → ℕ → ℕ → Option ℕ → Isolates → Isolates × Result ℕ → Type 0
Starts pid va size thread s r =
    (tid : ℕ) × (i : ℕ) × (thread ≡ some tid)
    × (i < length s.slots)
    × (holds live (get_or s.slots i none) ≡ false)
    × (r.1 ≡ ok s.next_id)
    × (get_or r.0.slots i none ≡ some (handle s.next_id pid tid va size))
    × ((j : ℕ) → j ≢ i → get_or r.0.slots j none ≡ get_or s.slots j none)
    × (r.0.next_id ≡ bump_id s.next_id)
    × (r.0.started ≡ s.started ++ (tid ∷ []))
    × (r.0.inboxes ≡ create_inbox s.next_id s.inboxes)
    × (r.0.events ≡ s.events ++ (isolate_event running s.next_id pid ∷ []))
