-- ===== src/Wm/Queue.antt =====
-- `EventQueue` of kernel/src/wm/mod.rs, over `WmEvent` of kernel/src/embedder/abi.rs.
pub mod Spec
pub mod Entries
pub mod Refine
pub mod Front
pub mod Pop
pub mod Delivery
mod Tests
use oscortex.Base.{
  ℕ, zero, suc, ◌+◌, ◌-◌, ◌%◌, ◌^◌, max, bit_or, Bool, true, false, not, ◌&&◌, ◌||◌, Option, none,
  some, List, get_or, set, replicate, if◌then◌else◌, ◌==◌, ltb,
}

abbrev pub event_cap : ℕ
event_cap = 256

abbrev pub ev_vsync : ℕ
ev_vsync = 1

abbrev pub ev_pointer : ℕ
ev_pointer = 2

abbrev pub ev_key : ℕ
ev_key = 3

pub record WmEvent : Type 0 where
  pub seq : ℕ
  pub kind : ℕ
  pub flags : ℕ
  pub a : ℕ
  pub b : ℕ

unfoldable pub empty : WmEvent
empty = record { seq = 0; kind = 0; flags = 0; a = 0; b = 0 }

-- An owner of 0 means that every process may take the event.
pub record EventQueue : Type 0 where
  pub buf : List WmEvent
  pub owner_pid : List ℕ
  pub head : ℕ
  pub tail : ℕ
  pub len : ℕ
  pub next_seq : ℕ
  pub dropped : ℕ

unfoldable pub new : EventQueue
new = record {
  buf = replicate event_cap empty;
  owner_pid = replicate event_cap 0;
  head = 0;
  tail = 0;
  len = 0;
  next_seq = 1;
  dropped = 0;
}

abbrev pub owner_visible_to_consumer : ℕ → ℕ → Bool
owner_visible_to_consumer owner_pid consumer_pid = owner_pid == 0 || owner_pid == consumer_pid

-- `next_seq.wrapping_add(1).max(1)`.
abbrev pub bump_seq : ℕ → ℕ
bump_seq s = max ((s + 1) % 2 ^ 64) 1

-- The loops `for off in 0..self.len`: the first offset whose slot passes the test.
unfoldable pub scan : (ℕ → Bool) → ℕ → ℕ → ℕ → Option ℕ
scan test head zero off = none
scan test head (suc rest) off =
    if test ((head + off) % event_cap) then some off else scan test head rest (off + 1)

unfoldable pub scan_queue : EventQueue → (WmEvent → ℕ → Bool) → Option ℕ
scan_queue q test = scan (λ i. test (get_or q.buf i empty) (get_or q.owner_pid i 0)) q.head q.len 0

-- A pending `EV_VSYNC` with baton 0 of this owner.
abbrev pub is_tick_of : ℕ → WmEvent → ℕ → Bool
is_tick_of owner e o = e.kind == ev_vsync && (e.b == 0 && o == owner)

-- A pointer event of this owner with the same buttons.
abbrev pub is_move_of : WmEvent → ℕ → WmEvent → ℕ → Bool
is_move_of ev owner e o = e.kind == ev_pointer && (o == owner && e.flags == ev.flags)

-- A full ring gives up its oldest event.
drop_oldest : EventQueue → EventQueue
drop_oldest q =
    if q.len == event_cap
    then record q {
      head = (q.head + 1) % event_cap;
      len = q.len - 1;
      dropped = (q.dropped + 1) % 2 ^ 64;
    }
    else q

write_tail : EventQueue → WmEvent → ℕ → EventQueue
write_tail q ev owner = record q {
  buf = set q.buf q.tail ev;
  owner_pid = set q.owner_pid q.tail owner;
  tail = (q.tail + 1) % event_cap;
  len = q.len + 1;
}

append : EventQueue → WmEvent → ℕ → EventQueue
append q ev owner = write_tail (drop_oldest q) ev owner

-- The second half of `push`: a move with unchanged buttons replaces the newest event.
push_pointer_or_append : EventQueue → WmEvent → ℕ → EventQueue
push_pointer_or_append q ev owner =
    let tail_idx = (q.tail + event_cap - 1) % event_cap in
    let last = get_or q.buf tail_idx empty in
    if (ev.kind == ev_pointer && ltb 0 q.len)
      && is_move_of ev owner last (get_or q.owner_pid tail_idx 0)
    then record q { buf = set q.buf tail_idx (record last { a = ev.a; b = bit_or last.b ev.b }) }
    else append q ev owner

-- The baton-0 tick found at an offset takes the new frame counter.
refresh_tick : EventQueue → WmEvent → ℕ → EventQueue
refresh_tick q ev off =
    let idx = (q.head + off) % event_cap in
    record q { buf = set q.buf idx (record (get_or q.buf idx empty) { a = ev.a }) }

push_stamped : EventQueue → WmEvent → ℕ → EventQueue
push_stamped q ev owner =
    if ev.kind == ev_vsync && ev.b == 0
    then elim (scan_queue q (is_tick_of owner)) [
      | some off ↦ refresh_tick q ev off
      | none ↦ push_pointer_or_append q ev owner
    ]
    else push_pointer_or_append q ev owner

pub push : EventQueue → WmEvent → ℕ → EventQueue
push q ev owner =
    push_stamped (record q { next_seq = bump_seq q.next_seq }) (record ev { seq = q.next_seq })
      owner

-- A full ring gives up its newest event.
unfoldable pub drop_newest : EventQueue → EventQueue
drop_newest q =
    if q.len == event_cap
    then record q {
      tail = (q.tail + event_cap - 1) % event_cap;
      len = q.len - 1;
      dropped = (q.dropped + 1) % 2 ^ 64;
    }
    else q

unfoldable pub write_head : EventQueue → WmEvent → ℕ → EventQueue
write_head q ev owner =
    let head' = (q.head + event_cap - 1) % event_cap in
    record q {
      head = head';
      buf = set q.buf head' ev;
      owner_pid = set q.owner_pid head' owner;
      len = q.len + 1;
    }

unfoldable pub push_front : EventQueue → WmEvent → ℕ → EventQueue
push_front q ev owner =
    write_head (drop_newest (record q { next_seq = bump_seq q.next_seq }))
      (record ev { seq = q.next_seq }) owner

abbrev pub is_baton_for : ℕ → WmEvent → ℕ → Bool
is_baton_for pid e o = owner_visible_to_consumer o pid && (e.kind == ev_vsync && not (e.b == 0))

abbrev pub is_input_for : ℕ → WmEvent → ℕ → Bool
is_input_for pid e o = owner_visible_to_consumer o pid && (e.kind == ev_pointer || e.kind == ev_key)

abbrev pub is_any_for : ℕ → WmEvent → ℕ → Bool
is_any_for pid e o = owner_visible_to_consumer o pid

abbrev pub or_else {ℓ} : {A : Type ℓ} → Option A → Option A → Option A
or_else (some a) o = some a
or_else none o = o

-- The three searches of `pop_for`: batons, then input, then anything.
pub select : EventQueue → ℕ → Option ℕ
select q pid =
    or_else (scan_queue q (is_baton_for pid))
      (or_else (scan_queue q (is_input_for pid)) (scan_queue q (is_any_for pid)))

-- One round of the loop that closes a gap: the entry behind slot `j` moves one place to the left.
move_back : EventQueue → ℕ → EventQueue
move_back q j =
    let from = (q.head + j + 1) % event_cap in
    let to = (q.head + j) % event_cap in
    record q {
      buf = set q.buf to (get_or q.buf from empty);
      owner_pid = set q.owner_pid to (get_or q.owner_pid from 0);
    }

-- `while j + 1 < self.len`, with the number of rounds left.
close_gap : EventQueue → ℕ → ℕ → EventQueue
close_gap q zero j = q
close_gap q (suc rest) j = close_gap (move_back q j) rest (j + 1)

take_at : EventQueue → ℕ → EventQueue × Option WmEvent
take_at q off =
    let ev = get_or q.buf ((q.head + off) % event_cap) empty in
    let moved = close_gap q (q.len - (off + 1)) off in
    (record moved { tail = (q.tail + event_cap - 1) % event_cap; len = q.len - 1 }, some ev)

pub pop_for : EventQueue → ℕ → EventQueue × Option WmEvent
pop_for q pid =
    if q.len == 0
    then (q, none)
    else elim (select q pid) [ none ↦ (q, none) | some off ↦ take_at q off ]

-- The loops that count the slots that pass a test.
pub count_slots : EventQueue → (WmEvent → ℕ → Bool) → ℕ → ℕ → ℕ
count_slots q test zero off = 0
count_slots q test (suc rest) off =
    let i = (q.head + off) % event_cap in
    let n = count_slots q test rest (off + 1) in
    if test (get_or q.buf i empty) (get_or q.owner_pid i 0) then n + 1 else n

pub pending_for : EventQueue → ℕ → ℕ
pending_for q pid = count_slots q (is_any_for pid) q.len 0

pub input_pending_for : EventQueue → ℕ → ℕ
input_pending_for q pid = count_slots q (is_input_for pid) q.len 0

pub has_baton_vsync_for : EventQueue → ℕ → Bool
has_baton_vsync_for q pid = elim (scan_queue q (is_baton_for pid)) [ none ↦ false | some i ↦ true ]
