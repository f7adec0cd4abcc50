-- ===== src/Isolate/Table/Spawn.antt =====
-- `spawn` of kernel/src/isolate/mod.rs keeps the isolate table and the inboxes in agreement.
use oscortex.Base.{
  ℕ, suc, ◌+◌, ◌^◌, ◌≤◌, ◌<◌, ◌≡◌, refl, ◌∙◌, max, Bool, true, false, Option, none, some, List, [],
  ◌∷◌, ◌++◌, length, set, get_or, arith, err, if◌then◌else◌, ◌==◌, leb, Bool-cases, Option-cases,
  ◌⊎◌, inl, inr, length-set,
}
use oscortex.Base.Slots.{
  count_slots, any_entry, holds, count-set, count-lt_length, fill_slot-some, count-fill_slot,
}
use oscortex.Isolate.Inbox.{Inbox, InboxTable, owned_by, create_inbox, new}
use oscortex.Isolate.Table.{
  Isolates, IsolateHandle, running, with_id, live_with_id, spawn, alloc_slot, bump_id, position,
  is_empty, is_dead_slot, register,
}
use oscortex.Isolate.Table.Coherence.{IsCoherent, live}

-- The slot that `alloc_slot` picks is in the table and holds no live isolate.
position_sound :
    (p : Option IsolateHandle → Bool) (xs : List (Option IsolateHandle)) (k i : ℕ)
    → position p xs k ≡ some i
    → (j : ℕ) × (i ≡ k + j) × (j < length xs) × (p (get_or xs j none) ≡ true)
unfolding position
position_sound p [] k i e = cc
position_sound p (o ∷ xs) k i e = elim (Bool-cases (p o)) [
  | inl h ↦ (0, ground (arith, h, e), omega arith, h)
  | inr h ↦
      (let (j, a, b, q) = position_sound p xs (k + 1) i (ground (arith, h, e)) in
        (suc j, omega arith, omega arith, q))
]

not_live :
    (o : Option IsolateHandle)
    → (is_empty o ≡ true) ⊎ (is_dead_slot o ≡ true)
    → holds live o ≡ false
not_live none h = refl
not_live (some a) (inl h) = cc
not_live (some a) (inr h) = rw h refl

pub alloc_slot_sound :
    (xs : List (Option IsolateHandle)) (i : ℕ)
    → alloc_slot xs ≡ some i
    → (i < length xs) × (holds live (get_or xs i none) ≡ false)
unfolding alloc_slot
alloc_slot_sound xs i e = elim (Option-cases (position is_empty xs 0)) [
  | inr (k, f) ↦
      (let (j, a, b, q) = position_sound is_empty xs 0 k f in
        let g : i ≡ j = ground (arith, f, e, a) in
        (omega arith, rw g (not_live (get_or xs j none) (inl q))))
  | inl f ↦
      (let (j, a, b, q) = position_sound is_dead_slot xs 0 i (ground (arith, f, e)) in
        let g : i ≡ j = omega arith in (omega arith, rw g (not_live (get_or xs j none) (inr q))))
]

not_live_with_id :
    (m : ℕ) (o : Option IsolateHandle) → holds live o ≡ false → holds (live_with_id m) o ≡ false
not_live_with_id m none h = refl
not_live_with_id m (some a) h = ground (arith, h)

abbrev pub handle : ℕ → ℕ → ℕ → ℕ → ℕ → IsolateHandle
handle id owner_pid thread_id aot_va aot_size = record {
  id = id;
  state = running;
  owner_pid = owner_pid;
  thread_id = thread_id;
  aot_va = aot_va;
  aot_size = aot_size;
}

-- What a new isolate in slot `i` does to the counts.
module _ (s : Isolates) (c : IsCoherent s) (i pid tid va size : ℕ)
    (e : alloc_slot s.slots ≡ some i) where
  slots_after : List (Option IsolateHandle)
  slots_after = set s.slots i (some (handle s.next_id pid tid va size))

  room : count_slots any_entry s.inboxes < length s.inboxes
  room =
      let (b, f) = alloc_slot_sound s.slots i e in
      omega (arith, count-lt_length live s.slots i b f, c.total, c.slots_length, c.inboxes_length)

  ids-spawn : (m : ℕ) → count_slots (with_id m) slots_after ≤ 1
  unfolding slots_after
  ids-spawn m =
      let (b, f) = alloc_slot_sound s.slots i e in
      ground (
        arith,
        count-set (with_id m) s.slots i (some (handle s.next_id pid tid va size)) b,
        c.ids m,
        c.fresh m,
      )

  fresh-spawn : (m : ℕ) → s.next_id + 1 ≤ m → count_slots (with_id m) slots_after ≡ 0
  unfolding slots_after
  fresh-spawn m l =
      let (b, f) = alloc_slot_sound s.slots i e in
      ground (
        arith,
        count-set (with_id m) s.slots i (some (handle s.next_id pid tid va size)) b,
        c.fresh m,
      )

  live_with_id-spawn :
      (m : ℕ)
      → count_slots (live_with_id m) slots_after ≡ (
          if s.next_id == m
          then suc (count_slots (live_with_id m) s.slots)
          else count_slots (live_with_id m) s.slots)
  unfolding slots_after
  live_with_id-spawn m =
      let (b, f) = alloc_slot_sound s.slots i e in
      ground (
        arith,
        not_live_with_id m (get_or s.slots i none) f,
        count-set (live_with_id m) s.slots i (some (handle s.next_id pid tid va size)) b,
      )

  live-spawn : count_slots live slots_after ≡ suc (count_slots live s.slots)
  unfolding slots_after
  live-spawn =
      let (b, f) = alloc_slot_sound s.slots i e in
      ground (arith, f, count-set live s.slots i (some (handle s.next_id pid tid va size)) b)

  create-some :
      (u : InboxTable) × (create_inbox s.next_id s.inboxes ≡ u)
      × (length u ≡ length s.inboxes)
      × ((p : Inbox → Bool)
          → count_slots p u ≡ (
              if p (new s.next_id) then suc (count_slots p s.inboxes) else count_slots p s.inboxes))
  unfolding create_inbox
  create-some =
      let (u, f, l) = fill_slot-some (new s.next_id) s.inboxes room in
      (u, rw (f, create_inbox) refl, l, λ p. count-fill_slot p (new s.next_id) s.inboxes u f)

  register-IsCoherent : s.next_id + 1 < 2 ^ 32 → IsCoherent (register pid va size tid s).0
  unfolding register slots_after
  register-IsCoherent small =
      let (u, q, l, k) = create-some in
      let n1 : bump_id s.next_id ≡ s.next_id + 1 = omega arith in
      rw (e, register, q)
        (record {
          slots_length = length-set s.slots i _ ∙ c.slots_length;
          inboxes_length = l ∙ c.inboxes_length;
          ids = ids-spawn;
          fresh = λ m g. fresh-spawn m (omega arith);
          agree = λ m. ground (arith, k (owned_by m), live_with_id-spawn m, c.agree m);
          total = omega (arith, k any_entry, live-spawn, c.total);
        })

register-full :
    (pid va size tid : ℕ) (s : Isolates)
    → alloc_slot s.slots ≡ none
    → register pid va size tid s
      ≡ (record s { started = s.started ++ (tid ∷ []) }, err "isolate table full")
unfolding register
register-full pid va size tid s e = rw (e, register) refl

with_started-IsCoherent :
    (s : Isolates) (ts : List ℕ) → IsCoherent s → IsCoherent (record s { started = ts })
with_started-IsCoherent s ts c = record {
  slots_length = c.slots_length;
  inboxes_length = c.inboxes_length;
  ids = c.ids;
  fresh = c.fresh;
  agree = c.agree;
  total = c.total;
}

-- `spawn`, whatever its arguments and whether or not a thread could be started, keeps the isolate
-- table coherent: no identifier is used twice, none is at or above the next one, and exactly the
-- isolates that are not dead have an inbox, one each. The next identifier must be below the end of its
-- 32 bits.
pub spawn-IsCoherent :
    (pid va size off : ℕ) (thread : Option ℕ) (s : Isolates)
    → IsCoherent s
    → s.next_id + 1 < 2 ^ 32
    → IsCoherent (spawn pid va size off thread s).0
unfolding spawn
spawn-IsCoherent pid va size off thread s c small = elim (Bool-cases (va == 0)) [
  | inl k ↦ rw k c
  | inr k ↦ elim (Bool-cases (leb (max size 1) off)) [
    | inl l ↦ rw (k, l) c
    | inr l ↦ elim (Option-cases thread) [
      | inl t ↦ rw (k, l, t) c
      | inr (tid, t) ↦ elim (Option-cases (alloc_slot s.slots)) [
        | inl e ↦
            rw (k, l, t, register-full pid va size tid s e)
              (with_started-IsCoherent s (s.started ++ (tid ∷ [])) c)
        | inr (i, e) ↦ rw (k, l, t) (register-IsCoherent s c i pid tid va size e small)
      ]
    ]
  ]
]
