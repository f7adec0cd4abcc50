-- ===== src/Isolate/Table/Kill.antt =====
-- An isolate that kernel/src/isolate/mod.rs has killed stays dead.
use oscortex.Base.{ℕ, ◌≤◌, ◌<◌, ◌≡◌, refl, Option, none, some, List, [], ◌∷◌, arith, ok, err}
use oscortex.Base.Slots.{find_slot, update_slot, count_slots, count-find_slot}
use oscortex.Isolate.Table.{
  Isolates, IsolateHandle, dead, with_id, live_with_id, with_state, kill, ctrl, change,
}
use oscortex.Isolate.Table.Coherence.{IsCoherent, live_le, live_with_id-update, found-count}

live-no_id :
    (n : ℕ) (xs : List (Option IsolateHandle)) (h : IsolateHandle)
    → find_slot (live_with_id n) xs ≡ some h
    → 0 < count_slots (with_id n) xs
live-no_id n xs h e = omega (arith, found-count (live_with_id n) xs h e, live_le n xs)

dead-found :
    (n : ℕ) (xs : List (Option IsolateHandle)) (h : IsolateHandle)
    → find_slot (live_with_id n) xs ≡ some h
    → count_slots (with_id n) xs ≤ 1
    → find_slot (with_id n) (update_slot (live_with_id n) (with_state dead) xs)
      ≡ some (with_state dead h)
unfolding find_slot update_slot
dead-found n [] h e l = cc
dead-found n (none ∷ xs) h e l = dead-found n xs h e l
dead-found n (some a ∷ xs) h e l = ground (arith, dead-found n xs h, live-no_id n xs h)

kill-slots :
    (n : ℕ) (s : Isolates) (h : IsolateHandle)
    → find_slot (live_with_id n) s.slots ≡ some h
    → (kill n s).0.slots ≡ update_slot (live_with_id n) (with_state dead) s.slots
unfolding kill
kill-slots n s h e = rw (e, kill) refl

dead-refuses :
    (n : ℕ) (s : Isolates) (h : IsolateHandle)
    → find_slot (live_with_id n) s.slots ≡ none
    → find_slot (with_id n) s.slots ≡ some (with_state dead h)
    → ((ctrl n 0 s).1 ≡ ok 3)
      × (ctrl n 1 s ≡ (s, err "no such isolate"))
      × (ctrl n 2 s ≡ (s, err "no such isolate"))
      × (kill n s ≡ (s, err "no such isolate"))
unfolding ctrl change kill
dead-refuses n s h f g =
    (rw (g, ctrl) refl, rw (f, ctrl, change) refl, rw (f, ctrl, change) refl, rw (f, kill) refl)

-- After `kill` of a live isolate in a coherent state, a query answers that it is dead, and suspending,
-- resuming or killing it again fails and changes nothing.
pub ctrl-kill :
    (n : ℕ) (s : Isolates) (h : IsolateHandle)
    → IsCoherent s
    → find_slot (live_with_id n) s.slots ≡ some h
    → let s' : Isolates = (kill n s).0 in
      ((ctrl n 0 s').1 ≡ ok 3)
      × (ctrl n 1 s' ≡ (s', err "no such isolate"))
      × (ctrl n 2 s' ≡ (s', err "no such isolate"))
      × (kill n s' ≡ (s', err "no such isolate"))
ctrl-kill n s h c e =
    let d = update_slot (live_with_id n) (with_state dead) s.slots in
    let z : count_slots (live_with_id n) d ≡ 0 =
      ground (arith, live_with_id-update n dead s.slots h e n, live_le n s.slots, c.ids n) in
    let f = count-find_slot (live_with_id n) d z in
    dead-refuses n (kill n s).0 h (rw (kill-slots n s h e) f)
      (rw (kill-slots n s h e) (dead-found n s.slots h e (c.ids n)))
