-- ===== src/Isolate/Table/Coherence.antt =====
-- The isolate table and the inboxes agree: kernel/src/isolate/mod.rs creates an inbox for every isolate
-- it makes and destroys it when the isolate is killed.
use oscortex.Base.{
  ℕ, ◌-◌, ◌≤◌, ◌<◌, ◌≡◌, refl, ◌∙◌, subst, Bool, false, not, ◌&&◌, Option, none, some, List, [],
  ◌∷◌, length, arith, if◌then◌else◌, ◌==◌, Bool-cases, Option-cases, inl, inr, ==→eq,
}
use oscortex.Base.Slots.{
  find_slot, update_slot, clear_slot, count_slots, any_entry, length-update_slot, length-clear_slot,
  count-update_slot, count-clear_slot, count-clear_slot_ne, find_slot-holds,
}
use oscortex.Isolate.Inbox.{Inbox, InboxTable, owned_by, destroy_inbox, max_isolates}
use oscortex.Isolate.Table.{
  Isolates, IsolateHandle, IsolateState, running, paused, dead, init, with_id, live_with_id,
  is_dead, with_state, kill, ctrl, change, is_state,
}

abbrev pub live : IsolateHandle → Bool
live h = not (is_dead h.state)

-- Identifiers are used once; the isolates that are not dead are the ones with an inbox, one each.
pub record IsCoherent (s : Isolates) : Type 0 where
  pub slots_length : length s.slots ≡ max_isolates
  pub inboxes_length : length s.inboxes ≡ max_isolates
  pub ids : (n : ℕ) → count_slots (with_id n) s.slots ≤ 1
  pub fresh : (n : ℕ) → s.next_id ≤ n → count_slots (with_id n) s.slots ≡ 0
  pub agree : (n : ℕ) → count_slots (owned_by n) s.inboxes ≡ count_slots (live_with_id n) s.slots
  pub total : count_slots any_entry s.inboxes ≡ count_slots live s.slots

count_any : (p : Inbox → Bool) (t : InboxTable) → count_slots p t ≤ count_slots any_entry t
count_any p [] = omega arith
count_any p (none ∷ xs) = count_any p xs
count_any p (some i ∷ xs) = ground (arith, count_any p xs)

pub found-count :
    (p : IsolateHandle → Bool) (xs : List (Option IsolateHandle)) (h : IsolateHandle)
    → find_slot p xs ≡ some h
    → 0 < count_slots p xs
unfolding find_slot
found-count p [] h e = cc
found-count p (none ∷ xs) h e = found-count p xs h e
found-count p (some a ∷ xs) h e = ground (arith, found-count p xs h)

pub live_le :
    (n : ℕ) (xs : List (Option IsolateHandle))
    → count_slots (live_with_id n) xs ≤ count_slots (with_id n) xs
live_le n [] = omega arith
live_le n (none ∷ xs) = live_le n xs
live_le n (some h ∷ xs) = ground (arith, live_le n xs)

-- What an update that keeps the identifier and the liveness leaves as it is.
module _ (n : ℕ) (st : IsolateState) (xs : List (Option IsolateHandle)) (h : IsolateHandle)
    (e : find_slot (live_with_id n) xs ≡ some h) where
  with_id-update :
      (m : ℕ)
      → count_slots (with_id m) (update_slot (live_with_id n) (with_state st) xs)
        ≡ count_slots (with_id m) xs
  with_id-update m =
      omega (arith, count-update_slot (live_with_id n) (with_state st) (with_id m) xs h e)

  live-update :
      count_slots live (update_slot (live_with_id n) (with_state st) xs)
      ≡ (if is_dead st then count_slots live xs - 1 else count_slots live xs)
  live-update = ground (
    arith,
    count-update_slot (live_with_id n) (with_state st) live xs h e,
    find_slot-holds (live_with_id n) xs h e,
  )

  pub live_with_id-update :
      (m : ℕ)
      → count_slots (live_with_id m) (update_slot (live_with_id n) (with_state st) xs) ≡ (
          if is_dead st && (m == n)
          then count_slots (live_with_id m) xs - 1
          else count_slots (live_with_id m) xs)
  live_with_id-update m = ground (
    arith,
    count-update_slot (live_with_id n) (with_state st) (live_with_id m) xs h e,
    find_slot-holds (live_with_id n) xs h e,
  )

-- Which inbox counts change when the inbox of isolate `n` goes.
owned-destroy :
    (n m : ℕ) (t : InboxTable)
    → count_slots (owned_by m) (destroy_inbox n t)
      ≡ (if m == n then count_slots (owned_by m) t - 1 else count_slots (owned_by m) t)
unfolding destroy_inbox
owned-destroy n m t = elim (Bool-cases (m == n)) [
  | inl s ↦ rw (s) (
      subst
        (λ (x : ℕ).
          count_slots (owned_by m) (clear_slot (owned_by x) t) ≡ count_slots (owned_by m) t - 1)
        (==→eq m n s) (count-clear_slot (owned_by m) t))
  | inr s ↦ rw (s) (count-clear_slot_ne (owned_by n) (owned_by m) (λ i h. ground (arith, s, h)) t)
]

any-clear :
    (p : Inbox → Bool) (t : InboxTable)
    → 0 < count_slots p t
    → count_slots any_entry (clear_slot p t) ≡ count_slots any_entry t - 1
unfolding clear_slot
any-clear p [] h = absurd (omega arith)
any-clear p (none ∷ xs) h = any-clear p xs h
any-clear p (some i ∷ xs) h = ground (arith, any-clear p xs, count_any p xs)

any-destroy :
    (n : ℕ) (t : InboxTable)
    → 0 < count_slots (owned_by n) t
    → count_slots any_entry (destroy_inbox n t) ≡ count_slots any_entry t - 1
unfolding destroy_inbox
any-destroy n t h = any-clear (owned_by n) t h

length-destroy : (n : ℕ) (t : InboxTable) → length (destroy_inbox n t) ≡ length t
unfolding destroy_inbox
length-destroy n t = length-clear_slot (owned_by n) t

module _ (n : ℕ) (s : Isolates) (c : IsCoherent s) (h : IsolateHandle)
    (e : find_slot (live_with_id n) s.slots ≡ some h) where
  owned_pos : 0 < count_slots (owned_by n) s.inboxes
  owned_pos = omega (arith, c.agree n, found-count (live_with_id n) s.slots h e)

  agree-kill :
      (m : ℕ)
      → count_slots (owned_by m) (destroy_inbox n s.inboxes)
        ≡ count_slots (live_with_id m) (update_slot (live_with_id n) (with_state dead) s.slots)
  agree-kill m =
      ground
        (arith, owned-destroy n m s.inboxes, live_with_id-update n dead s.slots h e m, c.agree m)

  total-kill :
      count_slots any_entry (destroy_inbox n s.inboxes)
      ≡ count_slots live (update_slot (live_with_id n) (with_state dead) s.slots)
  total-kill =
      omega (arith, any-destroy n s.inboxes owned_pos, live-update n dead s.slots h e, c.total)

-- `kill` keeps the isolate table coherent: identifiers stay unique, and the inbox of a killed isolate
-- goes with it.
pub kill-IsCoherent : (n : ℕ) (s : Isolates) → IsCoherent s → IsCoherent (kill n s).0
unfolding kill
kill-IsCoherent n s c = elim (Option-cases (find_slot (live_with_id n) s.slots)) [
  | inl e ↦ rw (e, kill) c
  | inr (h, e) ↦
      rw (e, kill)
        (record {
          slots_length =
              length-update_slot (live_with_id n) (with_state dead) s.slots ∙ c.slots_length;
          inboxes_length = length-destroy n s.inboxes ∙ c.inboxes_length;
          ids = λ m. omega (arith, c.ids m, with_id-update n dead s.slots h e m);
          fresh = λ m l. with_id-update n dead s.slots h e m ∙ c.fresh m l;
          agree = agree-kill n s c h e;
          total = total-kill n s c h e;
        })
]

-- Suspending and resuming change neither the identifiers nor which isolates are live.
change-IsCoherent :
    (from to : IsolateState) (n : ℕ) (s : Isolates)
    → is_dead to ≡ false
    → IsCoherent s
    → IsCoherent (change from to n s).0
unfolding change
change-IsCoherent from to n s d c = elim (Option-cases (find_slot (live_with_id n) s.slots)) [
  | inl e ↦ rw (e, change) c
  | inr (h, e) ↦ elim (Bool-cases (is_state h.state from)) [
    | inl k ↦
        rw (e, change, k)
          (record {
            slots_length =
                length-update_slot (live_with_id n) (with_state to) s.slots ∙ c.slots_length;
            inboxes_length = c.inboxes_length;
            ids = λ m. omega (arith, c.ids m, with_id-update n to s.slots h e m);
            fresh = λ m l. with_id-update n to s.slots h e m ∙ c.fresh m l;
            agree = λ m. ground (arith, d, c.agree m, live_with_id-update n to s.slots h e m);
            total = ground (arith, d, c.total, live-update n to s.slots h e);
          })
    | inr k ↦ rw (e, change, k) c
  ]
]

-- `ctrl` keeps the isolate table coherent, whatever the operation: a query, a suspension, a resumption
-- or an unknown one.
pub ctrl-IsCoherent : (n op : ℕ) (s : Isolates) → IsCoherent s → IsCoherent (ctrl n op s).0
unfolding ctrl
ctrl-IsCoherent n op s c = elim (Bool-cases (op == 0)) [
  | inl k ↦ elim (Option-cases (find_slot (with_id n) s.slots)) [
    | inl e ↦ rw (k, e, ctrl) c
    | inr (h, e) ↦ rw (k, e, ctrl) c
  ]
  | inr k ↦ elim (Bool-cases (op == 1)) [
    | inl k1 ↦ rw (k, k1) (change-IsCoherent running paused n s refl c)
    | inr k1 ↦ elim (Bool-cases (op == 2)) [
      | inl k2 ↦ rw (k, k1, k2) (change-IsCoherent paused running n s refl c)
      | inr k2 ↦ rw (k, k1, k2) c
    ]
  ]
]

-- The state in which the kernel starts.
pub init-IsCoherent : IsCoherent init
unfolding init
init-IsCoherent = record {
  slots_length = refl;
  inboxes_length = refl;
  ids = λ n. omega arith;
  fresh = λ n l. refl;
  agree = λ n. refl;
  total = refl;
}
