-- ===== src/Isolate/Inbox/Laws.antt =====
-- What the inboxes of kernel/src/isolate_msg/mod.rs promise to senders and receivers.
use oscortex.Base.{
  ℕ, ◌+◌, ◌-◌, ◌≤◌, ◌<◌, ◌≡◌, refl, sym, ap, ◌∙◌, min, Bool, true, false, none, some, List, [], ◌∷◌,
  ◌++◌, length, take, drop, arith, ok, if◌then◌else◌, ◌==◌, leb, ltb, Bool-cases, inl, inr, leb→le,
  ==→eq, take-copy_front,
}
use oscortex.Base.Slots.{
  find_slot, update_slot, find-update_slot, find-update_slot_ne, find_slot-holds,
}
use oscortex.Isolate.Inbox.{
  Inbox, InboxTable, owned_by, push, pop_into, copied, send, recv, inbox_depth, max_msg_size,
  ev_isolate_msg,
}

-- The messages waiting for an isolate, oldest first.
abbrev pub queue : ℕ → InboxTable → List (List ℕ)
queue id t = elim (find_slot (owned_by id) t) [ none ↦ [] | some i ↦ i.msgs ]

ge→ltb : (a b : ℕ) → b ≤ a → ltb a b ≡ false
ge→ltb a b h = ground arith

drop_one-append :
    (xs : List (List ℕ)) (m : List ℕ)
    → 0 < length xs
    → drop 1 xs ++ (m ∷ []) ≡ drop 1 (xs ++ (m ∷ []))
drop_one-append [] m h = absurd (omega arith)
drop_one-append (x ∷ xs) m h = refl

leb→gt : (a b : ℕ) → leb a b ≡ false → b < a
leb→gt a b h = ground arith

msgs-push :
    (msg : List ℕ) (i : Inbox)
    → length i.msgs ≤ inbox_depth
    → (push msg i).msgs ≡ drop (length i.msgs + 1 - inbox_depth) (i.msgs ++ (msg ∷ []))
unfolding push
msgs-push msg i h = elim (Bool-cases (leb inbox_depth (length i.msgs))) [
  | inl e ↦ rw (e) (
      drop_one-append i.msgs msg (omega (arith, leb→le inbox_depth (length i.msgs) e))
      ∙ ap (λ (t : ℕ). drop t (i.msgs ++ (msg ∷ []))) {x = 1} {y = length i.msgs + 1 - inbox_depth}
          (omega (arith, leb→le inbox_depth (length i.msgs) e)))
  | inr e ↦ rw (e) (
      ap (λ (t : ℕ). drop t (i.msgs ++ (msg ∷ []))) {x = 0} {y = length i.msgs + 1 - inbox_depth}
        (omega (arith, leb→gt inbox_depth (length i.msgs) e)))
]

owned-push :
    (n : ℕ) (msg : List ℕ) (i : Inbox) → owned_by n i ≡ true → owned_by n (push msg i) ≡ true
unfolding push
owned-push n msg i h = elim (Bool-cases (leb inbox_depth (length i.msgs))) [
  | inl e ↦ rw e h
  | inr e ↦ rw e h
]

owned_ne : (m n : ℕ) (i : Inbox) → (m == n) ≡ false → owned_by n i ≡ true → owned_by m i ≡ false
owned_ne m n i e h = ground (arith, e, h)

-- What `f`, which keeps the owner, does to the queues of the isolates.
queue-update_self :
    (n : ℕ) (f : Inbox → Inbox) (t : InboxTable) (i : Inbox)
    → find_slot (owned_by n) t ≡ some i
    → ((j : Inbox) → owned_by n j ≡ true → owned_by n (f j) ≡ true)
    → queue n (update_slot (owned_by n) f t) ≡ (f i).msgs
queue-update_self n f t i e k =
    let o : owned_by n (f i) ≡ true = k i (find_slot-holds (owned_by n) t i e) in
    rw (find-update_slot (owned_by n) f t i e o, queue) refl

queue-update_ne :
    (m n : ℕ) (f : Inbox → Inbox) (t : InboxTable)
    → (m == n) ≡ false
    → ((j : Inbox) → owned_by n j ≡ true → owned_by n (f j) ≡ true)
    → queue m (update_slot (owned_by n) f t) ≡ queue m t
queue-update_ne m n f t s k =
    rw
      (
        find-update_slot_ne (owned_by n) f (owned_by m) (λ j. owned_ne m n j s)
            (λ j h. owned_ne m n (f j) s (k j h)) t,
        queue,
      )
      refl

queue-update :
    (m n : ℕ) (f : Inbox → Inbox) (t : InboxTable) (i : Inbox)
    → find_slot (owned_by n) t ≡ some i
    → ((j : Inbox) → owned_by n j ≡ true → owned_by n (f j) ≡ true)
    → queue m (update_slot (owned_by n) f t) ≡ (if m == n then (f i).msgs else queue m t)
queue-update m n f t i e k = elim (Bool-cases (m == n)) [
  | inl s ↦
      ap (λ (x : ℕ). queue x (update_slot (owned_by n) f t)) (==→eq m n s)
      ∙ queue-update_self n f t i e k
      ∙ ap (λ (b : Bool). if b then (f i).msgs else queue m t) (sym s)
  | inr s ↦
      queue-update_ne m n f t s k ∙ ap (λ (b : Bool). if b then (f i).msgs else queue m t) (sym s)
]

queue-found :
    (n : ℕ) (t : InboxTable) (i : Inbox) → find_slot (owned_by n) t ≡ some i → queue n t ≡ i.msgs
queue-found n t i e = rw (e, queue) refl

-- For an isolate that has an inbox of at most 128 messages and a message of at most 65536 bytes,
-- `send` succeeds and its event carries the isolate and the length. The message then stands last in
-- that isolate's queue, whose oldest message is gone if there were 128; the queue of every other
-- isolate is what it was.
pub queue-send :
    (dst other : ℕ) (msg : List ℕ) (t : InboxTable) (i : Inbox)
    → find_slot (owned_by dst) t ≡ some i
    → length i.msgs ≤ inbox_depth
    → length msg ≤ max_msg_size
    → (u : InboxTable) × (send dst msg t
        ≡ ok (u, record { kind = ev_isolate_msg; flags = 0; a = dst; b = length msg }))
      × (queue other u ≡ (
          if other == dst
          then drop (length i.msgs + 1 - inbox_depth) (i.msgs ++ (msg ∷ []))
          else queue other t))
unfolding send
queue-send dst other msg t i e b l = (
  update_slot (owned_by dst) (push msg) t,
  rw (ge→ltb max_msg_size (length msg) l, e) refl,
  queue-update other dst (push msg) t i e (owned-push dst msg)
      ∙ ap (λ (q : List (List ℕ)). if other == dst then q else queue other t) (msgs-push msg i b),
)

recv-eq :
    (id : ℕ) (buf msg : List ℕ) (rest : List (List ℕ)) (t : InboxTable) (i : Inbox)
    → find_slot (owned_by id) t ≡ some i
    → i.msgs ≡ msg ∷ rest
    → recv id buf t ≡ (
      update_slot (owned_by id) (λ _. record i { msgs = rest }) t,
      (copied msg buf).0,
      (copied msg buf).1,
    )
unfolding recv pop_into
recv-eq id buf msg rest t i e q = rw (e, q, recv, pop_into) refl

-- With a message waiting for an isolate, `recv` takes the oldest one: it reports the smaller of the
-- lengths of message and buffer, that many bytes of the message stand at the front of the buffer, the
-- rest of the queue is kept, and so is the queue of every other isolate.
pub queue-recv :
    (id other : ℕ) (buf msg : List ℕ) (rest : List (List ℕ)) (t : InboxTable) (i : Inbox)
    → find_slot (owned_by id) t ≡ some i
    → i.msgs ≡ msg ∷ rest
    → (queue other (recv id buf t).0 ≡ (if other == id then rest else queue other t))
      × ((recv id buf t).2 ≡ min (length msg) (length buf))
      × (take (recv id buf t).2 (recv id buf t).1 ≡ take (min (length msg) (length buf)) msg)
queue-recv id other buf msg rest t i e q = rw (recv-eq id buf msg rest t i e q) (
  queue-update other id (λ _. record i { msgs = rest }) t i e
      (λ j h. find_slot-holds (owned_by id) t i e),
  refl,
  take-copy_front (min (length msg) (length buf)) buf msg (omega arith),
)
