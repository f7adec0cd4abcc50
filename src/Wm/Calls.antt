-- ===== src/Wm/Calls.antt =====
-- The calls of kernel/src/wm/mod.rs: what drivers, engines and the shell do to the event queue.
-- Each lock-protected or atomic static is a field; `process::wake_process` appends to `woken`.
pub mod Ring
pub mod Vsync
pub mod Wake
mod Tests
use oscortex.Base.{
  ℕ, ◌+◌, ◌*◌, ◌%◌, ◌^◌, max, bit_or, Bool, true, false, not, ◌&&◌, ◌||◌, Option, none, some, List,
  [], ◌∷◌, ◌++◌, if◌then◌else◌, ◌==◌, leb,
}
use oscortex.Wm.Queue
use oscortex.Wm.Queue.{
  WmEvent, EventQueue, ev_vsync, ev_pointer, ev_key, owner_visible_to_consumer, pop_for,
}

abbrev pub ev_app : ℕ
ev_app = 4

abbrev pub ev_focus : ℕ
ev_focus = 5

abbrev pub ev_scroll : ℕ
ev_scroll = 9

abbrev pub focus_lost : ℕ
focus_lost = 1

abbrev pub focus_gained : ℕ
focus_gained = 2

abbrev pub focus_mirrored : ℕ
focus_mirrored = 3

pub record Wm : Type 0 where
  pub queue : EventQueue
  pub waiter : ℕ
  pub focus : ℕ
  pub focus_mirror : Bool
  pub vsync_baton : ℕ
  pub baton_vsync_queued : Bool
  pub last_buttons : ℕ
  pub cursor_x : ℕ
  pub cursor_y : ℕ
  pub cursor_buttons : ℕ
  pub cursor_seen : Bool
  pub cursor_last_act_ns : ℕ
  pub ptr_count : ℕ
  pub key_count : ℕ
  pub scroll_count : ℕ
  pub last_key : ℕ
  pub verbose : Bool
  pub woken : List ℕ

abbrev pub bump32 : ℕ → ℕ
bump32 n = (n + 1) % 2 ^ 32

abbrev pub wake_process : ℕ → Wm → Wm
wake_process pid s = record s { woken = s.woken ++ (pid ∷ []) }

-- What the calls read of other parts of the kernel: the process table's group leaders, whether a
-- process owns the framebuffer, the owner of the surface at a point, and the clock.
pub record Kernel : Type 0 where
  pub leader : ℕ → ℕ
  pub is_fb_bypass : Bool
  pub surface_owner_at : ℕ → ℕ → Option ℕ
  pub now_ns : ℕ

abbrev wake_target : ℕ → Wm → Wm
wake_target target s = if target == 0 then s else wake_process target s

-- Input wakes the process that it is for, also when nobody waits.
wake_input : ℕ → ℕ → Wm → Wm
wake_input owner kind s =
    if kind == ev_pointer || kind == ev_key
    then wake_target (if owner == 0 then s.focus else owner) s
    else s

-- The event as it is queued, still without a sequence number.
abbrev pub event : ℕ → ℕ → ℕ → ℕ → WmEvent
event kind flags a b = record { seq = 0; kind = kind; flags = flags; a = a; b = b }

abbrev pub when : Bool → (Wm → Wm) → Wm → Wm
when c f s = if c then f s else s

-- The unconditional wake-up of the waiter after a baton.
wake_any_waiter : Wm → Wm
wake_any_waiter s = if s.waiter == 0 then s else wake_process s.waiter (record s { waiter = 0 })

-- A baton goes to the front of the queue, for one owner or, with owner 0, for all.
pub deliver_baton : ℕ → ℕ → ℕ → ℕ → Wm → Wm
deliver_baton owner target frame baton s = wake_any_waiter (
    wake_process target (record s {
      queue = Queue.push_front s.queue (event ev_vsync 0 frame baton) owner;
      baton_vsync_queued = true;
    }))

pub vsync_baton_pending : Wm → Bool
vsync_baton_pending s = not (s.vsync_baton == 0) || s.baton_vsync_queued

-- Two 32-bit halves in one word.
abbrev pub pack : ℕ → ℕ → ℕ
pack x y = bit_or (x * 2 ^ 32) y

abbrev bit : Bool → ℕ
bit true = 1
bit false = 0

-- The calls, as a client or an interrupt makes them.
pub data Call : Type 0 where
  focuses : ℕ → Call
  pops : ℕ → Call
  vsyncs : ℕ → Call
  batons : ℕ → ℕ → Call
  points : ℕ → ℕ → ℕ → Call
  scrolls : ℕ → ℕ → ℕ → Call
  keys : ℕ → Bool → Call
  app_events : ℕ → ℕ → ℕ → Call
  waits : ℕ → Call

module _ (k : Kernel) where
  abbrev pub canonical_pid : ℕ → ℕ
  canonical_pid pid = if leb pid 1 then pid else k.leader pid

  -- A registered waiter that may see the event is woken, once.
  wake_waiter : ℕ → Wm → Wm
  wake_waiter owner s =
      if not (s.waiter == 0) && owner_visible_to_consumer owner (canonical_pid s.waiter)
      then wake_process s.waiter (record s { waiter = 0 })
      else s

  pub push_event_for : ℕ → ℕ → ℕ → ℕ → ℕ → Wm → Wm
  push_event_for owner_pid kind flags a b s =
      let owner = canonical_pid owner_pid in
      wake_input owner kind
        (wake_waiter owner (record s { queue = Queue.push s.queue (event kind flags a b) owner }))

  pub push_event : ℕ → ℕ → ℕ → ℕ → Wm → Wm
  push_event kind flags a b s = push_event_for 0 kind flags a b s

  pub push_app_event : ℕ → ℕ → ℕ → Wm → Wm
  push_app_event target_pid subkind surface_id s =
      push_event_for target_pid ev_app subkind surface_id 0 s

  pub set_focus_pid : ℕ → Wm → Wm
  set_focus_pid new_pid s =
      let pid = canonical_pid new_pid in
      let old = s.focus in
      if old == pid
      then s
      else when s.focus_mirror (push_event ev_focus focus_mirrored old pid) (
          when (not (pid == 0)) (push_event_for pid ev_focus focus_gained old 0) (
            when (not (old == 0)) (push_event_for old ev_focus focus_lost pid 0)
              (record s { focus = pid })))

  pub pop_event_for : ℕ → Wm → Wm × Option WmEvent
  pop_event_for pid s =
      let (q, r) = pop_for s.queue (canonical_pid pid) in
      elim r [
        | none ↦ (record s { queue = q }, none)
        | some ev ↦ (
          if ev.kind == ev_vsync && not (ev.b == 0)
              then record s { queue = q; baton_vsync_queued = false }
              else record s { queue = q },
          some ev,
        )
      ]

  pub push_vsync : ℕ → Wm → Wm
  push_vsync frame s =
      let baton = s.vsync_baton in
      let s' : Wm = record s { vsync_baton = 0 } in
      if baton == 0 then push_event ev_vsync 0 frame baton s' else deliver_baton 0 1 frame baton s'

  pub set_vsync_baton : ℕ → ℕ → Wm → Wm
  set_vsync_baton pid baton s =
      let s' : Wm = record s { vsync_baton = 0 } in
      if baton == 0 then s' else deliver_baton (canonical_pid pid) (canonical_pid pid) 0 baton s'

  abbrev hit : ℕ → ℕ → Option ℕ
  hit x y = if k.is_fb_bypass then none else k.surface_owner_at x y

  -- The focused process, else the owner of the surface under the point, else the engine host.
  abbrev pub pointer_target : ℕ → ℕ → Wm → ℕ
  pointer_target x y s =
      if s.focus == 0 then elim (hit x y) [ none ↦ 1 | some owner_pid ↦ owner_pid ] else s.focus

  -- `x` and `y` are the bit patterns of the `i32` coordinates.
  pub push_pointer : ℕ → ℕ → ℕ → Wm → Wm
  push_pointer x y buttons s =
      let b_val : ℕ = if buttons == s.last_buttons then 0 else 1 in
      let s' : Wm = record s {
        cursor_x = x;
        cursor_y = y;
        cursor_buttons = buttons;
        cursor_seen = true;
        cursor_last_act_ns = k.now_ns;
        ptr_count = bump32 s.ptr_count;
        last_buttons = buttons;
      } in
      push_event_for (pointer_target x y s) ev_pointer buttons (pack x y) b_val s'

  -- `dz` is the bit pattern of the signed wheel delta.
  pub push_scroll : ℕ → ℕ → ℕ → Wm → Wm
  push_scroll x y dz s =
      push_event_for (pointer_target x y s) ev_scroll 0 (pack x y) dz
        (record s { scroll_count = bump32 s.scroll_count })

  pub push_key : ℕ → Bool → Wm → Wm
  push_key scancode pressed s =
      let s' : Wm = record s {
        key_count = bump32 s.key_count;
        last_key = bit_or (scancode * 2 % 2 ^ 32) (bit pressed);
        verbose = if pressed && scancode == 0x3C then not s.verbose else s.verbose;
      } in
      if s.focus == 0
      then push_event ev_key (bit pressed) scancode 0 s'
      else push_event_for s.focus ev_key (bit pressed) scancode 0 s'

  pub step : Call → Wm → Wm
  step (focuses pid) s = set_focus_pid pid s
  step (pops pid) s = (pop_event_for pid s).0
  step (vsyncs frame) s = push_vsync frame s
  step (batons pid b) s = set_vsync_baton pid b s
  step (points x y buttons) s = push_pointer x y buttons s
  step (scrolls x y dz) s = push_scroll x y dz s
  step (keys scancode pressed) s = push_key scancode pressed s
  step (app_events pid subkind surface) s = push_app_event pid subkind surface s
  step (waits pid) s = record s { waiter = pid }

  pub run : List Call → Wm → Wm
  run [] s = s
  run (c ∷ cs) s = run cs (step c s)
