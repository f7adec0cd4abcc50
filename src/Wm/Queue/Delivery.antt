-- ===== src/Wm/Queue/Delivery.antt =====
-- Which event of kernel/src/wm/mod.rs `pop_for` delivers, and to whom.
use oscortex.Base.{
  ℕ, zero, suc, ◌+◌, ◌-◌, ◌<◌, ◌≡◌, refl, ap, ◌∙◌, ◌↔◌, inl, inr, Bool, true, false, Option, none,
  some, List, [], ◌∷◌, length, get_or, erase_at, take, arith, count_if, count_if_mono,
  if◌then◌else◌, ltb, Bool-cases, Option-cases,
}
use oscortex.Wm.Queue.{
  WmEvent, EventQueue, event_cap, is_baton_for, is_input_for, is_any_for, push_front, pop_for,
  pending_for, input_pending_for, has_baton_vsync_for,
}
use oscortex.Wm.Queue.Spec
use oscortex.Wm.Queue.Spec.{Entry, nothing, test_entry, find_index}
use oscortex.Wm.Queue.Entries.{
  IsRing, entries, length-entries, find_index-lt, scan_queue-find_index, pending-count_if,
  input_pending-count_if,
}
use oscortex.Wm.Queue.Front.{push_front_refines}
use oscortex.Wm.Queue.Pop.{seen, pop_for_refines}

find_index-test :
    (p : Entry → Bool) (xs : List Entry) (k : ℕ)
    → find_index p xs ≡ some k
    → p (get_or xs k nothing) ≡ true
unfolding find_index
find_index-test p [] k e = cc
find_index-test p (x ∷ xs) k e = elim (Option-cases (find_index p xs)) [
  | inl n ↦ elim (Bool-cases (p x)) [ inl y ↦ ground (arith, n, y) | inr y ↦ ground (arith, n, y) ]
  | inr (j, f) ↦ elim (Bool-cases (p x)) [
    | inl y ↦ ground (arith, f, y)
    | inr y ↦ ground (arith, f, y, find_index-test p xs j f)
  ]
]

find_index-before :
    (p : Entry → Bool) (xs : List Entry) (k j : ℕ)
    → find_index p xs ≡ some k
    → j < k
    → p (get_or xs j nothing) ≡ false
unfolding find_index
find_index-before p [] k j e h = cc
find_index-before p (x ∷ xs) k zero e h = elim (Bool-cases (p x)) [
  | inl y ↦ (let q : k ≡ 0 = ground (arith, y) in absurd (omega (arith, q)))
  | inr y ↦ y
]
find_index-before p (x ∷ xs) k (suc j) e h = elim (Bool-cases (p x)) [
  | inl y ↦ (let q : k ≡ 0 = ground (arith, y) in absurd (omega (arith, q)))
  | inr y ↦ elim (Option-cases (find_index p xs)) [
    | inl n ↦ ground (arith, y, n)
    | inr (i, f) ↦
        (let q : k ≡ i + 1 = ground (arith, y, f) in
          find_index-before p xs i j f (omega (arith, q)))
  ]
]

find_index-count :
    (p : Entry → Bool) (xs : List Entry) → (find_index p xs ≡ none) ↔ (count_if p xs ≡ 0)
unfolding find_index
find_index-count p [] = (λ _. refl, λ _. refl)
find_index-count p (x ∷ xs) = ground (arith, find_index-count p xs)

-- The `k`-th entry of the queue is the first that passes the test, and `r` is what taking it out leaves
-- and returns.
abbrev pub Takes : (WmEvent → ℕ → Bool) → EventQueue → EventQueue × Option WmEvent → Type 0
Takes test q r =
    (k : ℕ) × (k < q.len)
    × (test_entry test (get_or (entries q) k nothing) ≡ true)
    × ((j : ℕ) → j < k → test_entry test (get_or (entries q) j nothing) ≡ false)
    × (seen r ≡ (erase_at (entries q) k, some (get_or (entries q) k nothing).0))

Takes-of_select :
    (test : WmEvent → ℕ → Bool) (q : EventQueue) (pid k : ℕ)
    → IsRing q
    → find_index (test_entry test) (entries q) ≡ some k
    → Spec.select (entries q) pid ≡ some k
    → Takes test q (pop_for q pid)
unfolding Spec.pop_for
Takes-of_select test q pid k v f s = (
  k,
  omega (arith, find_index-lt (test_entry test) (entries q) k f, length-entries q),
  find_index-test (test_entry test) (entries q) k f,
  λ j h. find_index-before (test_entry test) (entries q) k j f h,
  (pop_for_refines q pid v).0 ∙ rw (s, Spec.pop_for),
)

-- On a well-formed ring, if a vsync with a baton is pending for a consumer, `pop_for` takes the first
-- such event, whatever stands before it, and leaves the other entries in their order.
pub pop_for-baton_first :
    (q : EventQueue) (pid : ℕ)
    → IsRing q
    → has_baton_vsync_for q pid ≡ true
    → Takes (is_baton_for pid) q (pop_for q pid)
unfolding has_baton_vsync_for Spec.select
pop_for-baton_first q pid v h =
    elim (Option-cases (find_index (test_entry (is_baton_for pid)) (entries q))) [
      | inl n ↦ ground (arith, scan_queue-find_index (is_baton_for pid) q, n)
      | inr (k, f) ↦ Takes-of_select (is_baton_for pid) q pid k v f (rw f)
    ]

-- On a well-formed ring, if no vsync with a baton but a pointer or key event is pending for a
-- consumer, `pop_for` takes the first pointer or key event and leaves the other entries in their
-- order.
pub pop_for-input_next :
    (q : EventQueue) (pid : ℕ)
    → IsRing q
    → has_baton_vsync_for q pid ≡ false
    → 0 < input_pending_for q pid
    → Takes (is_input_for pid) q (pop_for q pid)
unfolding has_baton_vsync_for Spec.select
pop_for-input_next q pid v h p =
    elim (Option-cases (find_index (test_entry (is_input_for pid)) (entries q))) [
      | inl n ↦ absurd (
          omega (
            arith,
            (find_index-count (test_entry (is_input_for pid)) (entries q)).0 n,
            input_pending-count_if q pid,
          ))
      | inr (k, f) ↦
          Takes-of_select (is_input_for pid) q pid k v f
            (rw (no_baton (find_index (test_entry (is_baton_for pid)) (entries q)) refl, f))
    ]
  where
    no_baton :
        (o : Option ℕ) → find_index (test_entry (is_baton_for pid)) (entries q) ≡ o → o ≡ none
    no_baton none e = refl
    no_baton (some k) e = ground (arith, scan_queue-find_index (is_baton_for pid) q, e)

pop_for-select :
    (q : EventQueue) (pid : ℕ)
    → IsRing q
    → ((pop_for q pid).1 ≡ none) ↔ (Spec.select (entries q) pid ≡ none)
unfolding Spec.pop_for
pop_for-select q pid v = elim (Option-cases (Spec.select (entries q) pid)) [
  | inl n ↦ (λ _. n, λ _. ap (λ r. r.1) (pop_for_refines q pid v).0 ∙ rw (n, Spec.pop_for))
  | inr (k, f) ↦ (
    λ e. ground (arith, f, e, ap (λ r. r.1) (pop_for_refines q pid v).0),
    λ e. ground (arith, f, e),
  )
]

baton-any :
    (pid : ℕ) (x : Entry)
    → test_entry (is_baton_for pid) x ≡ true
    → test_entry (is_any_for pid) x ≡ true
baton-any pid (e, o) h = ground arith

input-any :
    (pid : ℕ) (x : Entry)
    → test_entry (is_input_for pid) x ≡ true
    → test_entry (is_any_for pid) x ≡ true
input-any pid (e, o) h = ground arith

-- Selection fails exactly when no entry is visible.
select-none_iff :
    (xs : List Entry) (pid : ℕ)
    → (Spec.select xs pid ≡ none) ↔ (count_if (test_entry (is_any_for pid)) xs ≡ 0)
unfolding Spec.select
select-none_iff xs pid = ground (
  arith,
  find_index-count (test_entry (is_baton_for pid)) xs,
  find_index-count (test_entry (is_input_for pid)) xs,
  find_index-count (test_entry (is_any_for pid)) xs,
  count_if_mono (test_entry (is_baton_for pid)) (test_entry (is_any_for pid)) (baton-any pid) xs,
  count_if_mono (test_entry (is_input_for pid)) (test_entry (is_any_for pid)) (input-any pid) xs,
)

-- On a well-formed ring `pop_for` returns no event exactly when `pending_for` counts none for that
-- consumer.
pub pop_for-none_iff :
    (q : EventQueue) (pid : ℕ) → IsRing q → ((pop_for q pid).1 ≡ none) ↔ (pending_for q pid ≡ 0)
pop_for-none_iff q pid v = rw (pending-count_if q pid) (
  λ e. (select-none_iff (entries q) pid).0 ((pop_for-select q pid v).0 e),
  λ e. (pop_for-select q pid v).1 ((select-none_iff (entries q) pid).1 e),
)

pub has_baton_of_entries :
    (q r : EventQueue) (pid : ℕ)
    → entries q ≡ entries r
    → has_baton_vsync_for q pid ≡ has_baton_vsync_for r pid
unfolding has_baton_vsync_for
has_baton_of_entries q r pid e =
    rw
      (
        has_baton_vsync_for,
        scan_queue-find_index (is_baton_for pid) q,
        scan_queue-find_index (is_baton_for pid) r,
        e,
      )
      refl

pop_for-head :
    (x : Entry) (xs : List Entry) (pid : ℕ)
    → test_entry (is_baton_for pid) x ≡ true
    → Spec.pop_for (x ∷ xs) pid ≡ (xs, some x.0)
unfolding Spec.pop_for Spec.select find_index
pop_for-head (e, o) xs pid h = ground arith

-- A vsync with a baton that is pushed to the front of a well-formed ring is what a consumer that may
-- see it pops next, unchanged but for its sequence number; what is left are the older entries, less
-- the newest one if the ring was full.
pub pop_for-push_front_baton :
    (q : EventQueue) (ev : WmEvent) (owner pid : ℕ)
    → IsRing q
    → is_baton_for pid ev owner ≡ true
    → seen (pop_for (push_front q ev owner) pid) ≡ (
      if ltb (length (entries q)) event_cap
          then entries q
          else take (length (entries q) - 1) (entries q),
      some (record ev { seq = q.next_seq }),
    )
unfolding Spec.push_front
pop_for-push_front_baton q ev owner pid v h =
    let front = push_front_refines q ev owner v in
    (pop_for_refines (push_front q ev owner) pid front.ring).0
    ∙ ap (λ xs. Spec.pop_for xs pid) front.held
    ∙ elim (Bool-cases (ltb (length (entries q)) event_cap)) [
      | inl room ↦ rw room (pop_for-head _ _ pid h)
      | inr full ↦ rw full (pop_for-head _ _ pid h)
    ]
