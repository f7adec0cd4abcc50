-- ===== src/Wm/Calls/Wake.antt =====
-- Input of kernel/src/wm/mod.rs wakes the focused process, whether or not it waits.
use oscortex.Base.{
  ℕ, ◌≡◌, refl, sym, ap, ◌∙◌, ◌≢◌, Bool, true, false, ◌||◌, List, [], ◌∷◌, ◌++◌, arith, ◌==◌,
  if◌then◌else◌,
}
use oscortex.Wm.Queue
use oscortex.Wm.Queue.{ev_pointer, ev_key}
use oscortex.Wm.Calls.{
  Wm, Kernel, Call, points, keys, canonical_pid, event, wake_waiter, wake_input, push_event_for,
  push_pointer, push_key, step,
}

-- A key or a pointer event.
abbrev pub is_input : Call → Bool
is_input (points x y buttons) = true
is_input (keys scancode pressed) = true
is_input _ = false

module _ (k : Kernel) where
  -- The focused process's group leader, or the process itself if the table knows no leader.
  abbrev pub wake_of : ℕ → ℕ
  wake_of focus = if canonical_pid k focus == 0 then focus else canonical_pid k focus

  focus-wake_waiter : (owner : ℕ) (s : Wm) → (wake_waiter k owner s).focus ≡ s.focus
  unfolding wake_waiter
  focus-wake_waiter owner s = ground arith

  wake_input_woken :
      (owner kind : ℕ) (s : Wm)
      → (kind == ev_pointer || kind == ev_key) ≡ true
      → s.focus ≢ 0
      → (wake_input owner kind s).woken ≡ s.woken ++ ((if owner == 0 then s.focus else owner) ∷ [])
  unfolding wake_input
  wake_input_woken owner kind s t f = ground arith

  push_event_for-wakes :
      (kind flags a b : ℕ) (s : Wm)
      → (kind == ev_pointer || kind == ev_key) ≡ true
      → s.focus ≢ 0
      → (before : List ℕ) × ((push_event_for k s.focus kind flags a b s).woken
          ≡ before ++ (wake_of s.focus ∷ []))
  unfolding push_event_for
  push_event_for-wakes kind flags a b s t f =
      let owner = canonical_pid k s.focus in
      let s0 : Wm = record s { queue = Queue.push s.queue (event kind flags a b) owner } in
      let s1 = wake_waiter k owner s0 in
      let same = focus-wake_waiter owner s0 in
      (
        s1.woken,
        wake_input_woken owner kind s1 t (λ e. f (sym same ∙ e))
            ∙ ap (λ (t : ℕ). s1.woken ++ ((if owner == 0 then t else owner) ∷ [])) same,
      )

  -- While a process has the focus, every pointer and key event ends with the wake-up of that process,
  -- or, if its group leader is another one, of the leader.
  pub input-wakes_focus :
      (c : Call) (s : Wm)
      → is_input c ≡ true
      → s.focus ≢ 0
      → (before : List ℕ) × ((step k c s).woken ≡ before ++ (wake_of s.focus ∷ []))
  unfolding step push_pointer push_key
  input-wakes_focus (points x y buttons) s t f =
      let e : (s.focus == 0) ≡ false = ground (arith, f) in
      rw e (push_event_for-wakes ev_pointer buttons _ _ _ refl f)
  input-wakes_focus (keys scancode pressed) s t f =
      let e : (s.focus == 0) ≡ false = ground (arith, f) in
      rw e (push_event_for-wakes ev_key _ scancode 0 _ refl f)
  input-wakes_focus _ s t f = cc
