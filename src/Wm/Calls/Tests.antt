-- ===== src/Wm/Calls/Tests.antt =====
-- The theorems on the calls of kernel/src/wm/mod.rs, from the state in which the kernel starts.
use oscortex.Base.{
  ◌-◌, length, take, ltb, if◌then◌else◌, arith, ℕ, ◌≡◌, ◌≢◌, refl, true, false, none, some, List,
  [], ◌∷◌, ◌++◌,
}
use oscortex.Wm.Queue.{
  new, ev_vsync, push_front, write_head, drop_newest, event_cap, has_baton_vsync_for,
}
use oscortex.Wm.Queue.Front.{push_front_refines}
use oscortex.Wm.Queue.Entries.{new-IsRing, IsRing, entries, length-entries}
use oscortex.Wm.Calls.{
  Wm, Kernel, Call, batons, keys, pops, points, vsync_baton_pending, pop_event_for, set_vsync_baton,
  step, run, event, canonical_pid,
}
use oscortex.Wm.Calls.Ring.{run-IsRing}
use oscortex.Wm.Calls.Vsync.{set_vsync_baton-delivers, vsync_baton_pending-forgets}
use oscortex.Wm.Calls.Wake.{input-wakes_focus, wake_of}

abbrev kernel : Kernel
kernel = record {
  leader = λ pid. pid;
  is_fb_bypass = false;
  surface_owner_at = λ x y. none;
  now_ns = 5;
}

abbrev start : Wm
start = record {
  queue = new;
  waiter = 0;
  focus = 7;
  focus_mirror = false;
  vsync_baton = 0;
  baton_vsync_queued = false;
  last_buttons = 0;
  cursor_x = 32;
  cursor_y = 32;
  cursor_buttons = 0;
  cursor_seen = false;
  cursor_last_act_ns = 0;
  ptr_count = 0;
  key_count = 0;
  scroll_count = 0;
  last_key = 0;
  verbose = false;
  woken = [];
}

abbrev history : List Call
history = keys 30 true ∷ batons 7 99 ∷ points 3 4 1 ∷ pops 7 ∷ []

run-IsRing_example : IsRing (run kernel history start).queue
run-IsRing_example = run-IsRing kernel history start new-IsRing

nonzero : ◌≢◌ {A = ℕ} 99 0
nonzero e = cc

set_vsync_baton-delivers_example :
    let (s', r) = pop_event_for kernel 7 (set_vsync_baton kernel 7 99 start) in
    (r ≡ some (record { seq = start.queue.next_seq; kind = ev_vsync; flags = 0; a = 0; b = 99 }))
    × (entries s'.queue ≡ (
        if ltb (length (entries start.queue)) event_cap
        then entries start.queue
        else take (length (entries start.queue) - 1) (entries start.queue)))
set_vsync_baton-delivers_example = set_vsync_baton-delivers kernel 7 99 start new-IsRing nonzero

-- A baton of process 8 is queued.
abbrev one_baton : Wm
one_baton = record start { queue = push_front new (event ev_vsync 0 0 55) 8 }

one_baton-IsRing : IsRing one_baton.queue
one_baton-IsRing = (push_front_refines new (event ev_vsync 0 0 55) 8 new-IsRing).ring

one_baton-len : one_baton.queue.len ≡ 1
unfolding push_front new write_head drop_newest
one_baton-len = refl

vsync_baton_pending-forgets_example :
    let s' = (pop_event_for kernel 7 (set_vsync_baton kernel 7 99 one_baton)).0 in
    (vsync_baton_pending s' ≡ false)
    × (has_baton_vsync_for s'.queue (canonical_pid kernel 8)
        ≡ has_baton_vsync_for one_baton.queue (canonical_pid kernel 8))
vsync_baton_pending-forgets_example =
    vsync_baton_pending-forgets kernel 7 99 8 one_baton one_baton-IsRing nonzero
      (omega (arith, length-entries one_baton.queue, one_baton-len))

focused : start.focus ≢ 0
focused e = cc

input-wakes_focus_example :
    (before : List ℕ) × ((step kernel (keys 30 true) start).woken
      ≡ before ++ (wake_of kernel 7 ∷ []))
input-wakes_focus_example = input-wakes_focus kernel (keys 30 true) start refl focused
