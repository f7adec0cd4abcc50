-- ===== src/Isolate/Inbox.antt =====
-- kernel/src/isolate_msg/mod.rs: a bounded queue of messages for each isolate. The event that `send`
-- pushes is part of its result.
pub mod Laws
mod Tests
use oscortex.Base.{
  ℕ, ◌+◌, ◌-◌, ◌*◌, ◌^◌, min, Bool, true, false, Option, none, some, List, [], ◌∷◌, ◌++◌, length,
  take, drop, copy_front, Result, ok, err, if◌then◌else◌, ◌==◌, leb, ltb,
}
use oscortex.Base.Slots.{find_slot, update_slot, clear_slot, fill_slot}

abbrev pub max_isolates : ℕ
max_isolates = 64

abbrev pub max_msg_size : ℕ
max_msg_size = 65536

abbrev pub inbox_depth : ℕ
inbox_depth = 128

abbrev pub ev_isolate_msg : ℕ
ev_isolate_msg = 8

pub record Inbox : Type 0 where
  pub isolate_id : ℕ
  pub msgs : List (List ℕ)
  pub dropped : ℕ

abbrev pub InboxTable : Type 0
InboxTable = List (Option Inbox)

abbrev pub owned_by : ℕ → Inbox → Bool
owned_by id i = i.isolate_id == id

abbrev pub new : ℕ → Inbox
new id = record { isolate_id = id; msgs = []; dropped = 0 }

abbrev pub saturating_add : ℕ → ℕ → ℕ
saturating_add a b = min (a + b) (2 ^ 64 - 1)

-- At the depth the oldest message makes room.
pub push : List ℕ → Inbox → Inbox
push msg i =
    if leb inbox_depth (length i.msgs)
    then record i { msgs = drop 1 i.msgs ++ (msg ∷ []); dropped = saturating_add i.dropped 1 }
    else record i { msgs = i.msgs ++ (msg ∷ []) }

-- The buffer after the copy, and the number of bytes copied.
abbrev pub copied : List ℕ → List ℕ → List ℕ × ℕ
copied msg buf = let n = min (length msg) (length buf) in (copy_front buf (take n msg), n)

pub pop_into : List ℕ → Inbox → Inbox × List ℕ × ℕ
pop_into buf i = elim i.msgs [
  | [] ↦ (i, buf, 0)
  | msg ∷ rest ↦ (let (buf', n) = copied msg buf in (record i { msgs = rest }, buf', n))
]

-- A full table is left as it is (the source logs a warning).
unfoldable pub create_inbox : ℕ → InboxTable → InboxTable
create_inbox id t = elim (fill_slot (new id) t) [ none ↦ t | some t' ↦ t' ]

unfoldable pub destroy_inbox : ℕ → InboxTable → InboxTable
destroy_inbox id t = clear_slot (owned_by id) t

pub record Event : Type 0 where
  pub kind : ℕ
  pub flags : ℕ
  pub a : ℕ
  pub b : ℕ

-- The new table and the event, or why nothing was sent.
pub send : ℕ → List ℕ → InboxTable → Result (InboxTable × Event)
send dst_id msg t =
    if ltb max_msg_size (length msg)
    then err "message too large"
    else elim (find_slot (owned_by dst_id) t) [
      | none ↦ err "no inbox for isolate"
      | some i ↦ ok (
        update_slot (owned_by dst_id) (push msg) t,
        record { kind = ev_isolate_msg; flags = 0; a = dst_id; b = length msg },
      )
    ]

pub recv : ℕ → List ℕ → InboxTable → InboxTable × List ℕ × ℕ
recv id buf t = elim (find_slot (owned_by id) t) [
  | none ↦ (t, buf, 0)
  | some i ↦
      (let (i', buf', n) = pop_into buf i in (update_slot (owned_by id) (λ _. i') t, buf', n))
]

abbrev pub peek_len : ℕ → InboxTable → Option ℕ
peek_len id t = elim (find_slot (owned_by id) t) [
  | none ↦ none
  | some i ↦ elim i.msgs [ [] ↦ none | msg ∷ rest ↦ some (length msg) ]
]

abbrev pub pending : ℕ → InboxTable → ℕ
pending id t = elim (find_slot (owned_by id) t) [ none ↦ 0 | some i ↦ length i.msgs ]

abbrev pub dropped : ℕ → InboxTable → ℕ
dropped id t = elim (find_slot (owned_by id) t) [ none ↦ 0 | some i ↦ i.dropped ]
