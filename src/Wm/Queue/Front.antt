-- ===== src/Wm/Queue/Front.antt =====
-- `push_front` of kernel/src/wm/mod.rs on the ring, against the list of entries.
use oscortex.Base.{
  ℕ, suc, ◌+◌, ◌-◌, ◌%◌, ◌<◌, ◌≡◌, refl, ap, ◌∙◌, inl, inr, Bool, true, false, ◌∷◌, set, take,
  arith, length-set, if◌then◌else◌, ltb, Bool-cases, ltb→lt, ltb→ge,
}
use oscortex.Base.Ring.{window, window-push_front, take-window}
use oscortex.Wm.Queue.{
  WmEvent, EventQueue, event_cap, bump_seq, drop_newest, write_head, push_front,
}
use oscortex.Wm.Queue.Spec
use oscortex.Wm.Queue.Spec.{Entry, nothing, test_entry, find_index, with_frame, with_move}
use oscortex.Wm.Queue.Entries.{IsRing, Holds, slot, entries, length-entries, slot-Writes}

drop_newest-Holds :
    (q : EventQueue)
    → IsRing q
    → Holds
        (drop_newest q)
        (if ltb q.len event_cap then entries q else take (q.len - 1) (entries q))
      × ((drop_newest q).len < event_cap)
unfolding drop_newest
drop_newest-Holds q v = elim (Bool-cases (ltb q.len event_cap)) [
  | inl room ↦ ground (arith, ltb→lt _ _ room)
  | inr full ↦ ground (
    arith,
    ltb→ge _ _ full,
    take-window (slot q.buf q.owner_pid) event_cap q.head q.len (q.len - 1) (omega arith),
  )
]

write_head-Holds :
    (q : EventQueue) (ev : WmEvent) (o : ℕ)
    → IsRing q
    → q.len < event_cap
    → Holds (write_head q ev o) ((ev, o) ∷ entries q)
unfolding write_head
write_head-Holds q ev o v h =
    let i = (q.head + event_cap - 1) % event_cap in
    record {
      ring = ground (arith, length-set q.buf i ev, length-set q.owner_pid i o);
      held =
          ap (window (slot (set q.buf i ev) (set q.owner_pid i o)) event_cap i) {x = q.len + 1}
            {y = suc q.len} (omega arith)
          ∙ window-push_front (slot q.buf q.owner_pid) (slot (set q.buf i ev) (set q.owner_pid i o))
              event_cap q.head q.len (ev, o) i (omega arith) (omega arith) h
              (slot-Writes q.buf q.owner_pid i ev o (omega arith) (omega arith));
    }

push_front_stamped :
    (q : EventQueue) (ev : WmEvent) (o : ℕ)
    → IsRing q
    → Holds (write_head (drop_newest q) ev o) (Spec.push_front (entries q) (ev, o))
unfolding Spec.push_front
push_front_stamped q ev o v =
    let (kept, room) = drop_newest-Holds q v in
    let written = write_head-Holds (drop_newest q) ev o kept.ring room in
    record {
      ring = written.ring;
      held =
          written.held
          ∙ ap (◌∷◌ (ev, o)) kept.held
          ∙ rw (length-entries q) (if_cons (ltb q.len event_cap));
    }
  where
    if_cons :
        (c : Bool)
        → (ev, o) ∷ (if c then entries q else take (q.len - 1) (entries q))
          ≡ (if c then (ev, o) ∷ entries q else (ev, o) ∷ take (q.len - 1) (entries q))
    if_cons true = refl
    if_cons false = refl

-- On a well-formed ring `push_front` puts the event, under its new sequence number, before all entries
-- and gives up the newest entry of a full ring; the ring stays well formed.
pub push_front_refines :
    (q : EventQueue) (ev : WmEvent) (o : ℕ)
    → IsRing q
    → Holds (push_front q ev o) (Spec.push_front (entries q) (record ev { seq = q.next_seq }, o))
unfolding push_front
push_front_refines q ev o v =
    push_front_stamped (record q { next_seq = bump_seq q.next_seq })
      (record ev { seq = q.next_seq }) o
      (record {
        slots = v.slots;
        owners = v.owners;
        head_in = v.head_in;
        len_in = v.len_in;
        tail_at = v.tail_at;
      })
