-- ===== src/Isolate/Inbox/Tests.antt =====
-- The theorems on the inboxes at a table with one isolate.
use oscortex.Base.{
  ℕ, ◌+◌, ◌-◌, ◌≡◌, refl, none, some, List, [], ◌∷◌, ◌++◌, drop, length, if◌then◌else◌, ◌==◌, ok,
  arith,
}
use oscortex.Base.Slots.{find_slot}
use oscortex.Isolate.Inbox.{Inbox, InboxTable, send, inbox_depth, ev_isolate_msg}
use oscortex.Isolate.Inbox.Laws.{queue, queue-send}

abbrev first : List ℕ
first = 1 ∷ 2 ∷ 3 ∷ []

abbrev second : List ℕ
second = 4 ∷ []

abbrev buffer : List ℕ
buffer = 0 ∷ 0 ∷ []

abbrev inbox : Inbox
inbox = record { isolate_id = 5; msgs = first ∷ second ∷ []; dropped = 0 }

abbrev table : InboxTable
table = some inbox ∷ none ∷ []

queue-send_example :
    (u : InboxTable) × (send 5 first table
      ≡ ok (u, record { kind = ev_isolate_msg; flags = 0; a = 5; b = length first }))
    × (queue 5 u ≡ (
        if 5 == 5
        then drop (length inbox.msgs + 1 - inbox_depth) (inbox.msgs ++ (first ∷ []))
        else queue 5 table))
unfolding find_slot
queue-send_example = queue-send 5 5 first table inbox refl (omega arith) (omega arith)
