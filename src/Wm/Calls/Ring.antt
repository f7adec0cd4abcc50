-- ===== src/Wm/Calls/Ring.antt =====
-- Every call of kernel/src/wm/mod.rs keeps the event queue well formed.
use oscortex.Base.{ℕ, ◌≡◌, Bool, true, false, not, List, [], ◌∷◌, arith, Bool-cases, inl, inr, ◌==◌}
use oscortex.Wm.Queue
use oscortex.Wm.Queue.{EventQueue, WmEvent, ev_vsync, event_cap, pop_for}
use oscortex.Wm.Queue.Entries.{IsRing}
use oscortex.Wm.Queue.Refine.{push_refines}
use oscortex.Wm.Queue.Front.{push_front_refines}
use oscortex.Wm.Queue.Pop.{pop_for_refines}
use oscortex.Wm.Calls.{
  Wm, Kernel, Call, focuses, pops, vsyncs, batons, points, scrolls, keys, app_events, waits, when,
  ev_focus, focus_lost, focus_gained, focus_mirrored, canonical_pid, event, wake_waiter, wake_input,
  wake_any_waiter, push_event_for, push_event, push_app_event, set_focus_pid, pop_event_for,
  deliver_baton, push_vsync, set_vsync_baton, push_pointer, push_scroll, push_key, step, run,
}

when-IsRing :
    (c : Bool) (f : Wm → Wm)
    → ((s : Wm) → IsRing s.queue → IsRing (f s).queue)
    → (s : Wm) → IsRing s.queue
    → IsRing (when c f s).queue
when-IsRing true f h s v = h s v
when-IsRing false f h s v = v

module _ (k : Kernel) where
  -- The wake-ups leave the queue alone.
  pub queue-push_event_for :
      (owner kind flags a b : ℕ) (s : Wm)
      → (push_event_for k owner kind flags a b s).queue
        ≡ Queue.push s.queue (event kind flags a b) (canonical_pid k owner)
  unfolding push_event_for wake_waiter wake_input
  queue-push_event_for owner kind flags a b s = ground arith

  pub queue-deliver_baton :
      (owner target frame b : ℕ) (s : Wm)
      → (deliver_baton owner target frame b s).queue
        ≡ Queue.push_front s.queue (event ev_vsync 0 frame b) owner
  unfolding deliver_baton wake_any_waiter
  queue-deliver_baton owner target frame b s = ground arith

  push_event_for-IsRing :
      (owner kind flags a b : ℕ) (s : Wm)
      → IsRing s.queue
      → IsRing (push_event_for k owner kind flags a b s).queue
  push_event_for-IsRing owner kind flags a b s v =
      rw (queue-push_event_for owner kind flags a b s)
        (push_refines s.queue (event kind flags a b) (canonical_pid k owner) v).ring

  deliver_baton-IsRing :
      (owner target frame b : ℕ) (s : Wm)
      → IsRing s.queue
      → IsRing (deliver_baton owner target frame b s).queue
  deliver_baton-IsRing owner target frame b s v =
      rw (queue-deliver_baton owner target frame b s)
        (push_front_refines s.queue (event ev_vsync 0 frame b) owner v).ring

  pub queue-pop_event_for :
      (pid : ℕ) (s : Wm)
      → (pop_event_for k pid s).0.queue ≡ (pop_for s.queue (canonical_pid k pid)).0
  unfolding pop_event_for
  queue-pop_event_for pid s = ground arith

  set_focus_pid-IsRing : (pid : ℕ) (s : Wm) → IsRing s.queue → IsRing (set_focus_pid k pid s).queue
  unfolding set_focus_pid push_event
  set_focus_pid-IsRing pid s v = elim (Bool-cases (s.focus == canonical_pid k pid)) [
    | inl same ↦ rw same v
    | inr new ↦
        let new_focus = canonical_pid k pid in
        let lose = push_event_for k s.focus ev_focus focus_lost new_focus 0 in
        let gain = push_event_for k new_focus ev_focus focus_gained s.focus 0 in
        let mirror = push_event_for k 0 ev_focus focus_mirrored s.focus new_focus in
        let s1 : Wm = record s { focus = new_focus } in
        let s2 = when (not (s.focus == 0)) lose s1 in
        let s3 = when (not (new_focus == 0)) gain s2 in
        let v2 = when-IsRing (not (s.focus == 0)) lose (push_event_for-IsRing _ _ _ _ _) s1 v in
        let v3 = when-IsRing (not (new_focus == 0)) gain (push_event_for-IsRing _ _ _ _ _) s2 v2 in
        rw new (when-IsRing s.focus_mirror mirror (push_event_for-IsRing _ _ _ _ _) s3 v3)
  ]

  pub step-IsRing : (c : Call) (s : Wm) → IsRing s.queue → IsRing (step k c s).queue
  unfolding step push_vsync set_vsync_baton push_pointer push_scroll push_key push_event
      push_app_event
  step-IsRing (focuses pid) s v = set_focus_pid-IsRing pid s v
  step-IsRing (pops pid) s v =
      rw (queue-pop_event_for pid s) (pop_for_refines s.queue (canonical_pid k pid) v).1
  step-IsRing (vsyncs frame) s v = grind (arith, deliver_baton-IsRing, push_event_for-IsRing)
  step-IsRing (batons pid b) s v = grind (arith, deliver_baton-IsRing)
  step-IsRing (points x y buttons) s v = grind (arith, push_event_for-IsRing)
  step-IsRing (scrolls x y dz) s v = grind (arith, push_event_for-IsRing)
  step-IsRing (keys scancode pressed) s v = grind (arith, push_event_for-IsRing)
  step-IsRing (app_events pid subkind surface) s v = grind (arith, push_event_for-IsRing)
  step-IsRing (waits pid) s v = v

  -- Any sequence of calls of the window manager keeps the ring of the event queue well formed: its
  -- indices in range, its count at most the capacity and its tail where head and count put it.
  pub run-IsRing : (cs : List Call) (s : Wm) → IsRing s.queue → IsRing (run k cs s).queue
  unfolding run
  run-IsRing [] s v = v
  run-IsRing (c ∷ cs) s v = run-IsRing cs (step k c s) (step-IsRing c s v)
