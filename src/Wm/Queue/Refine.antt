-- ===== src/Wm/Queue/Refine.antt =====
-- `push`, `push_front` and `pop_for` of kernel/src/wm/mod.rs on the ring do what
-- Wm/Queue/Spec.antt says for the list of entries, and keep the ring well formed.
use oscortex.Base.{
  ℕ, suc, ◌+◌, ◌-◌, ◌%◌, ◌<◌, ◌≡◌, refl, ap, ◌∙◌, inl, inr, Bool, true, false, ◌&&◌, none, some,
  List, [], ◌∷◌, ◌++◌, get_or, set, drop, arith, length-set, if◌then◌else◌, ◌==◌, ltb, Bool-cases,
  Option-cases, ltb→lt, ltb→ge, bit_or,
}
use oscortex.Base.Ring.{window, get_or-window, window-push, window-write_in, window-pop}
use oscortex.Wm.Queue.{
  WmEvent, EventQueue, empty, event_cap, ev_pointer, is_tick_of, is_move_of, bump_seq, scan_queue,
  drop_oldest, write_tail, append, push_pointer_or_append, refresh_tick, push_stamped, push,
}
use oscortex.Wm.Queue.Spec
use oscortex.Wm.Queue.Spec.{Entry, nothing, test_entry, find_index, with_frame, with_move}
use oscortex.Wm.Queue.Entries.{
  IsRing, Holds, slot, entries, length-entries, slot-Writes, slot-Writes_event, find_index-lt,
  scan_queue-find_index,
}

and-false : (a : Bool) → (a && false) ≡ false
and-false true = refl
and-false false = refl

drop_oldest-Holds :
    (q : EventQueue)
    → IsRing q
    → Holds (drop_oldest q) (if ltb q.len event_cap then entries q else drop 1 (entries q))
      × ((drop_oldest q).len < event_cap)
unfolding drop_oldest
drop_oldest-Holds q v = elim (Bool-cases (ltb q.len event_cap)) [
  | inl room ↦ ground (arith, ltb→lt _ _ room)
  | inr full ↦ ground (
    arith,
    ltb→ge _ _ full,
    window-pop (slot q.buf q.owner_pid) event_cap q.head q.len (omega (arith, ltb→ge _ _ full))
        v.head_in,
  )
]

write_tail-Holds :
    (q : EventQueue) (ev : WmEvent) (o : ℕ)
    → IsRing q
    → q.len < event_cap
    → Holds (write_tail q ev o) (entries q ++ ((ev, o) ∷ []))
unfolding write_tail
write_tail-Holds q ev o v h = record {
  ring = ground (arith, length-set q.buf q.tail ev, length-set q.owner_pid q.tail o);
  held =
      ap (window (slot (set q.buf q.tail ev) (set q.owner_pid q.tail o)) event_cap q.head)
        {x = q.len + 1} {y = suc q.len} (omega arith)
      ∙ window-push (slot q.buf q.owner_pid) (slot (set q.buf q.tail ev) (set q.owner_pid q.tail o))
          event_cap q.head q.len (ev, o) h
          (rw (← v.tail_at)
            (slot-Writes q.buf q.owner_pid q.tail ev o (omega arith) (omega arith)));
}

append-Holds :
    (q : EventQueue) (ev : WmEvent) (o : ℕ)
    → IsRing q
    → Holds (append q ev o) (Spec.append (entries q) (ev, o))
unfolding append Spec.append
append-Holds q ev o v =
    let (kept, room) = drop_oldest-Holds q v in
    let written = write_tail-Holds (drop_oldest q) ev o kept.ring room in
    record {
      ring = written.ring;
      held =
          written.held
          ∙ ap (λ xs. xs ++ ((ev, o) ∷ [])) kept.held
          ∙ rw (length-entries q) (if_append (ltb q.len event_cap));
    }
  where
    if_append :
        (c : Bool)
        → (if c then entries q else drop 1 (entries q)) ++ ((ev, o) ∷ [])
          ≡ (if c then entries q ++ ((ev, o) ∷ []) else drop 1 (entries q) ++ ((ev, o) ∷ []))
    if_append true = refl
    if_append false = refl

-- A write to the event of a slot inside the ring.
write_event-Holds :
    (q : EventQueue) (k : ℕ) (e : WmEvent)
    → IsRing q
    → k < q.len
    → Holds
        (record q { buf = set q.buf ((q.head + k) % event_cap) e })
        (set (entries q) k (e, get_or q.owner_pid ((q.head + k) % event_cap) 0))
write_event-Holds q k e v h = record {
  ring = record {
    slots = length-set q.buf ((q.head + k) % event_cap) e ∙ v.slots;
    owners = v.owners;
    head_in = v.head_in;
    len_in = v.len_in;
    tail_at = v.tail_at;
  };
  held =
      window-write_in (slot q.buf q.owner_pid) _ event_cap q.head q.len
        (e, get_or q.owner_pid ((q.head + k) % event_cap) 0) k h v.len_in
        (slot-Writes_event q.buf q.owner_pid ((q.head + k) % event_cap) e (omega arith));
}

entry_at :
    (q : EventQueue) (k : ℕ)
    → k < q.len
    → get_or (entries q) k nothing ≡ slot q.buf q.owner_pid ((q.head + k) % event_cap)
entry_at q k h = get_or-window (slot q.buf q.owner_pid) event_cap q.head q.len k nothing h

refresh_tick-Holds :
    (q : EventQueue) (ev : WmEvent) (k : ℕ)
    → IsRing q
    → k < q.len
    → Holds
        (refresh_tick q ev k)
        (set (entries q) k (with_frame ev.a (get_or (entries q) k nothing)))
unfolding refresh_tick
refresh_tick-Holds q ev k v h = rw (entry_at q k h) (write_event-Holds q k _ v h)

if_Holds :
    (c : Bool) (q r : EventQueue) (xs ys : List Entry)
    → (c ≡ true → Holds q xs)
    → (c ≡ false → Holds r ys)
    → Holds (if c then q else r) (if c then xs else ys)
if_Holds true q r xs ys h k = h refl
if_Holds false q r xs ys h k = k refl

push_pointer_or_append-Holds :
    (q : EventQueue) (ev : WmEvent) (o : ℕ)
    → IsRing q
    → Holds (push_pointer_or_append q ev o) (Spec.push_move_or_append (entries q) ev o)
unfolding push_pointer_or_append Spec.push_move_or_append
push_pointer_or_append-Holds q ev o v = elim (Bool-cases (ltb 0 q.len)) [
  | inl held ↦
      let e : (q.tail + event_cap - 1) % event_cap ≡ (q.head + (q.len - 1)) % event_cap =
        omega (arith, ltb→lt 0 q.len held) in
      let p : q.len - 1 < q.len = omega (arith, ltb→lt 0 q.len held) in
      let i = (q.head + (q.len - 1)) % event_cap in
      let last = get_or q.buf i empty in
      let moved : WmEvent = record last { a = ev.a; b = bit_or last.b ev.b } in
      rw (length-entries q, entry_at q (q.len - 1) p, e)
        (if_Holds
          ((ev.kind == ev_pointer && ltb 0 q.len) && is_move_of ev o last (get_or q.owner_pid i 0))
          (record q { buf = set q.buf i moved }) (append q ev o)
          (set (entries q) (q.len - 1) (moved, get_or q.owner_pid i 0))
          (Spec.append (entries q) (ev, o)) (λ _. write_event-Holds q (q.len - 1) moved v p)
          (λ _. append-Holds q ev o v))
  | inr nil ↦ rw (length-entries q, nil, and-false (ev.kind == ev_pointer)) (append-Holds q ev o v)
]

push_stamped-Holds :
    (q : EventQueue) (ev : WmEvent) (o : ℕ)
    → IsRing q
    → Holds (push_stamped q ev o) (Spec.push (entries q) ev o)
unfolding push_stamped Spec.push
push_stamped-Holds q ev o v =
    if_Holds _ _ _ _ _ (λ _. tick) (λ _. push_pointer_or_append-Holds q ev o v)
  where
    tick :
        Holds
          (elim (scan_queue q (is_tick_of o)) [
            | some off ↦ refresh_tick q ev off
            | none ↦ push_pointer_or_append q ev o
          ])
          (elim (find_index (test_entry (is_tick_of o)) (entries q)) [
            | some k ↦ set (entries q) k (with_frame ev.a (get_or (entries q) k nothing))
            | none ↦ Spec.push_move_or_append (entries q) ev o
          ])
    tick =
        rw (scan_queue-find_index (is_tick_of o) q)
          (elim (Option-cases (find_index (test_entry (is_tick_of o)) (entries q))) [
            | inl n ↦ rw n (push_pointer_or_append-Holds q ev o v)
            | inr (k, f) ↦ rw f (
                refresh_tick-Holds q ev k v
                  (omega (arith, find_index-lt _ (entries q) k f, length-entries q)))
          ])

-- On a well-formed ring `push` does what `push` on the list of entries does, for the event under its
-- new sequence number, and keeps the ring well formed: a tick without baton refreshes the one pending,
-- a move with unchanged buttons replaces the newest event, and a full ring gives up its oldest event.
pub push_refines :
    (q : EventQueue) (ev : WmEvent) (o : ℕ)
    → IsRing q
    → Holds (push q ev o) (Spec.push (entries q) (record ev { seq = q.next_seq }) o)
unfolding push
push_refines q ev o v =
    push_stamped-Holds (record q { next_seq = bump_seq q.next_seq })
      (record ev { seq = q.next_seq }) o
      (record {
        slots = v.slots;
        owners = v.owners;
        head_in = v.head_in;
        len_in = v.len_in;
        tail_at = v.tail_at;
      })
