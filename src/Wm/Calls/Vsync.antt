-- ===== src/Wm/Calls/Vsync.antt =====
-- A vsync baton of kernel/src/wm/mod.rs reaches the engine that posted it.
use oscortex.Base.{
  ◌-◌, ◌<◌, length, take, if◌then◌else◌, ltb, true, ℕ, ◌≡◌, refl, ◌∙◌, ap, ◌≢◌, false, some, arith,
  ◌==◌,
}
use oscortex.Wm.Queue.{WmEvent, ev_vsync, pop_for, event_cap, has_baton_vsync_for}
use oscortex.Wm.Queue.Entries.{IsRing, entries}
use oscortex.Wm.Queue.Delivery.{pop_for-push_front_baton, has_baton_of_entries}
use oscortex.Wm.Calls.{
  Wm, Kernel, canonical_pid, event, wake_any_waiter, pop_event_for, deliver_baton, set_vsync_baton,
  vsync_baton_pending,
}
use oscortex.Wm.Calls.Ring.{queue-deliver_baton, queue-pop_event_for}

module _ (k : Kernel) where
  -- The event of a pop is the event that the queue gives, and a baton clears the pending flag.
  pop_event_for-baton :
      (pid : ℕ) (s : Wm) (ev : WmEvent)
      → (pop_for s.queue (canonical_pid k pid)).1 ≡ some ev
      → ev.kind ≡ ev_vsync
      → ev.b ≢ 0
      → ((pop_event_for k pid s).1 ≡ some ev)
        × ((pop_event_for k pid s).0.baton_vsync_queued ≡ false)
        × ((pop_event_for k pid s).0.vsync_baton ≡ s.vsync_baton)
  unfolding pop_event_for
  pop_event_for-baton pid s ev e v b = ground arith

  deliver_baton-parks_none :
      (owner target frame baton : ℕ) (s : Wm)
      → (deliver_baton owner target frame baton s).vsync_baton ≡ s.vsync_baton
  unfolding deliver_baton wake_any_waiter
  deliver_baton-parks_none owner target frame baton s = ground arith

  deliver_baton-pops :
      (pid target baton : ℕ) (s : Wm)
      → IsRing s.queue
      → baton ≢ 0
      → let o = canonical_pid k pid in
        let s' = deliver_baton o target 0 baton s in
        (pop_for s'.queue o).1 ≡ some (record (event ev_vsync 0 0 baton) { seq = s.queue.next_seq })
  deliver_baton-pops pid target baton s v b =
      let o = canonical_pid k pid in
      let ev = event ev_vsync 0 0 baton in
      ap (λ q. (pop_for q o).1) (queue-deliver_baton k o target 0 baton s)
      ∙ ap (λ r. r.1) (pop_for-push_front_baton s.queue ev o o v (ground (arith, b)))

  -- What the queue of the window manager is left with.
  deliver_baton-leaves :
      (pid target baton : ℕ) (s : Wm)
      → IsRing s.queue
      → baton ≢ 0
      → let o = canonical_pid k pid in
        let s' = deliver_baton o target 0 baton s in
        entries (pop_event_for k pid s').0.queue ≡ (
          if ltb (length (entries s.queue)) event_cap
          then entries s.queue
          else take (length (entries s.queue) - 1) (entries s.queue))
  deliver_baton-leaves pid target baton s v b =
      let o = canonical_pid k pid in
      let ev = event ev_vsync 0 0 baton in
      ap entries (queue-pop_event_for k pid (deliver_baton o target 0 baton s))
      ∙ ap (λ q. entries (pop_for q o).0) (queue-deliver_baton k o target 0 baton s)
      ∙ ap (λ r. r.0) (pop_for-push_front_baton s.queue ev o o v (ground (arith, b)))

  set_vsync_baton_eq :
      (pid baton : ℕ) (s : Wm)
      → baton ≢ 0
      → let o = canonical_pid k pid in
        set_vsync_baton k pid baton s ≡ deliver_baton o o 0 baton (record s { vsync_baton = 0 })
  unfolding set_vsync_baton
  set_vsync_baton_eq pid baton s b =
      let e : (baton == 0) ≡ false = ground (arith, b) in rw (set_vsync_baton, e) refl

  -- On a well-formed ring, a nonzero baton that an engine posts is in the event that this engine pops
  -- next, whatever else is queued; the queue is then what it was before, less its newest entry if it
  -- was full.
  pub set_vsync_baton-delivers :
      (pid baton : ℕ) (s : Wm)
      → IsRing s.queue
      → baton ≢ 0
      → let (s', r) = pop_event_for k pid (set_vsync_baton k pid baton s) in
        (r ≡ some (record { seq = s.queue.next_seq; kind = ev_vsync; flags = 0; a = 0; b = baton }))
        × (entries s'.queue ≡ (
            if ltb (length (entries s.queue)) event_cap
            then entries s.queue
            else take (length (entries s.queue) - 1) (entries s.queue)))
  set_vsync_baton-delivers pid baton s v b =
      let o = canonical_pid k pid in
      let s0 : Wm = record s { vsync_baton = 0 } in
      let popped =
        pop_event_for-baton pid (deliver_baton o o 0 baton s0)
          (record (event ev_vsync 0 0 baton) { seq = s.queue.next_seq })
          (deliver_baton-pops pid o baton s0 v b) refl b in
      rw (set_vsync_baton_eq pid baton s b) (popped.0, deliver_baton-leaves pid o baton s0 v b)

  -- After an engine has posted a nonzero baton to a well-formed ring with room and popped its event,
  -- `vsync_baton_pending` is false, and every consumer has a baton queued if and only if it had one
  -- before: a baton of another engine that is still queued is not reported.
  pub vsync_baton_pending-forgets :
      (pid baton other : ℕ) (s : Wm)
      → IsRing s.queue
      → baton ≢ 0
      → length (entries s.queue) < event_cap
      → let s' = (pop_event_for k pid (set_vsync_baton k pid baton s)).0 in
        (vsync_baton_pending s' ≡ false)
        × (has_baton_vsync_for s'.queue (canonical_pid k other)
            ≡ has_baton_vsync_for s.queue (canonical_pid k other))
  unfolding vsync_baton_pending
  vsync_baton_pending-forgets pid baton other s v b h =
      let o = canonical_pid k pid in
      let s0 : Wm = record s { vsync_baton = 0 } in
      let s1 = deliver_baton o o 0 baton s0 in
      let popped =
        pop_event_for-baton pid s1 (record (event ev_vsync 0 0 baton) { seq = s.queue.next_seq })
          (deliver_baton-pops pid o baton s0 v b) refl b in
      let room : ltb (length (entries s.queue)) event_cap ≡ true = ground (arith, h) in
      let left : entries (pop_event_for k pid s1).0.queue ≡ entries s.queue =
        deliver_baton-leaves pid o baton s0 v b ∙ rw room refl in
      rw (set_vsync_baton_eq pid baton s b) (
        rw (vsync_baton_pending, popped.1, popped.2, deliver_baton-parks_none o o 0 baton s0) refl,
        has_baton_of_entries (pop_event_for k pid s1).0.queue s.queue (canonical_pid k other) left,
      )
