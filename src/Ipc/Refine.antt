-- ===== src/Ipc/Refine.antt =====
-- The rings of kernel/src/ipc/mod.rs behave as bounded queues of payloads.
use oscortex.Base.{
  ℕ, false, ◌+◌, ◌%◌, ◌≤◌, ◌<◌, ◌≡◌, refl, sym, ap, ap₂, ◌∙◌, min, Option, none, some, List, [],
  ◌∷◌, ◌++◌, map, map-append, length, get_or, set, take, All, arith, length-set, take-copy_front,
  map-set, get_or-map, All-set, All-get_or, All-replicate, length-replicate, length-map, Bool-cases,
  ltb→lt, ltb→ge, ==→eq, ◌==◌, take-min, ltb, leb, inl, inr,
}
use oscortex.Base.Ring.{window, length-window, window-push, window-pop, set-Writes}
use oscortex.Ipc.{
  Ipc, Inbox, Message, Call, sends, recvs, max_procs, inbox_cap, msg_len, empty, new, push, pop,
  init, pack, send, recv, deliver, payload, run,
}
use oscortex.Ipc.Mailbox
use oscortex.Ipc.Mailbox.{Queue, enqueue, dequeue}

-- The ring's indices are in range, and `tail` is where the window ends.
pub record IsRing (q : Inbox) : Type 0 where
  pub slots : length q.buf ≡ inbox_cap
  pub head_in : q.head < inbox_cap
  pub len_in : q.len ≤ inbox_cap
  pub tail_at : q.tail ≡ (q.head + q.len) % inbox_cap

pub record IsValid (s : Ipc) : Type 0 where
  pub procs : length s.inboxes ≡ max_procs
  pub rings : All IsRing s.inboxes

abbrev pub messages : Inbox → List Message
messages q = window (λ i. get_or q.buf i empty) inbox_cap q.head q.len

abbrev pub contents : Inbox → Queue
contents q = map payload (messages q)

abbrev pub view : Ipc → List Queue
view s = map contents s.inboxes

new-IsRing : IsRing new
unfolding new
new-IsRing = record {
  slots = length-replicate inbox_cap empty;
  head_in = omega arith;
  len_in = omega arith;
  tail_at = refl;
}

-- Every inbox of the boot state is a valid empty ring.
pub init-IsValid : IsValid init
unfolding init
init-IsValid = record {
  procs = length-replicate max_procs new;
  rings = All-replicate IsRing max_procs new new-IsRing;
}

push_full : (q : Inbox) (m : Message) → q.len ≡ inbox_cap → (push q m).0 ≡ q
unfolding push
push_full q m h = ground arith

-- What `send` packs reads back as the first 64 bytes.
payload-pack : (src : List ℕ) → payload (pack src) ≡ take msg_len src
unfolding pack
payload-pack src =
    take-copy_front (min (length src) msg_len) empty.bytes src (omega arith) ∙ take-min msg_len src

push-IsRing : (q : Inbox) (m : Message) → IsRing q → IsRing (push q m).0
unfolding push
push-IsRing q m v = ground (arith, length-set q.buf q.tail m)

pop-IsRing : (q : Inbox) → IsRing q → IsRing (pop q).0
unfolding pop
pop-IsRing q v = ground arith

length-contents : (q : Inbox) → length (contents q) ≡ q.len
length-contents q =
    length-map (messages q) payload
    ∙ length-window (λ i. get_or q.buf i empty) inbox_cap q.head q.len

-- A push below the capacity appends its message.
messages-push :
    (q : Inbox) (m : Message)
    → IsRing q
    → q.len < inbox_cap
    → messages (push q m).0 ≡ messages q ++ (m ∷ [])
unfolding push
messages-push q m v h = ground (
  arith,
  window-push (λ i. get_or q.buf i empty) (λ i. get_or (set q.buf q.tail m) i empty) inbox_cap
      q.head q.len m h
      (rw (← v.tail_at) (set-Writes q.buf q.tail m empty (omega (arith, v.tail_at, v.slots)))),
)

push_refines :
    (q : Inbox) (src : List ℕ)
    → IsRing q
    → contents (push q (pack src)).0 ≡ enqueue (contents q) src
unfolding enqueue
push_refines q src v = elim (Bool-cases (ltb q.len inbox_cap)) [
  | inl room ↦
      rw (length-contents q, room)
        (ap (map payload) (messages-push q (pack src) v (ltb→lt _ _ room))
          ∙ map-append payload (messages q) (pack src ∷ [])
          ∙ ap (λ m. contents q ++ (m ∷ [])) (payload-pack src))
  | inr full ↦
      rw (length-contents q, full)
        (ap contents (push_full q (pack src) (omega (arith, ltb→ge q.len inbox_cap full))))
]

abbrev popped : Inbox × Option Message → Queue × Option (List ℕ)
popped (q, none) = (contents q, none)
popped (q, some m) = (contents q, some (payload m))

pop_refines : (q : Inbox) → IsRing q → popped (pop q) ≡ dequeue (contents q)
unfolding pop dequeue
pop_refines q v = elim (Bool-cases (q.len == 0)) [
  | inl nil ↦
      rw (nil, pop)
        (let e : contents q ≡ [] =
            ap (λ n. map payload (window (λ i. get_or q.buf i empty) inbox_cap q.head n))
              (==→eq _ _ nil) in
          rw (e, dequeue))
  | inr more ↦
      rw (more, pop)
        (rw (
          window-pop (λ i. get_or q.buf i empty) inbox_cap q.head q.len (ground arith) v.head_in,
          dequeue,
        ))
]

get_or-view :
    (qs : List Inbox) (pid : ℕ) → get_or (map contents qs) pid [] ≡ contents (get_or qs pid new)
unfolding new
get_or-view qs pid = get_or-map contents qs pid new

abbrev pub seen : Ipc × Option (List ℕ) → List Queue × Option (List ℕ)
seen (s, r) = (view s, r)

abbrev stored : List Queue → ℕ → Queue × Option (List ℕ) → List Queue × Option (List ℕ)
stored qs pid (q, r) = (set qs pid q, r)

deliver_refines :
    (s : Ipc) (pid : ℕ) (r : Inbox × Option Message)
    → seen (deliver s pid r) ≡ stored (view s) pid (popped r)
unfolding deliver
deliver_refines s pid (q, none) = rw (map-set contents s.inboxes pid q)
deliver_refines s pid (q, some m) = rw (map-set contents s.inboxes pid q)

deliver-IsValid :
    (s : Ipc) (pid : ℕ) (r : Inbox × Option Message)
    → IsValid s
    → IsRing r.0
    → IsValid (deliver s pid r).0
unfolding deliver
deliver-IsValid s pid (q, none) v w = record {
  procs = length-set s.inboxes pid q ∙ v.procs;
  rings = All-set IsRing s.inboxes pid q v.rings w;
}
deliver-IsValid s pid (q, some m) v w = record {
  procs = length-set s.inboxes pid q ∙ v.procs;
  rings = All-set IsRing s.inboxes pid q v.rings w;
}

module _ (s : Ipc) (v : IsValid s) (pid : ℕ) where
  IsRing-at : leb max_procs pid ≡ false → IsRing (get_or s.inboxes pid new)
  IsRing-at h = All-get_or IsRing s.inboxes pid new v.rings (ground (arith, v.procs))

  -- A `send` on the table of rings is a `send` on the table of queues, and keeps the rings valid.
  pub send_refines :
      (src : List ℕ)
      → (view (send s pid src) ≡ Mailbox.send (view s) pid src) × IsValid (send s pid src)
  unfolding send Mailbox.send
  send_refines src = elim (Bool-cases (leb max_procs pid)) [
    | inl out ↦ rw out (refl, v)
    | inr fits ↦
        let q = get_or s.inboxes pid new in
        let q' = (push q (pack src)).0 in
        rw fits (
          map-set contents s.inboxes pid q'
              ∙ ap (set (view s) pid) (
                  push_refines q src (IsRing-at fits)
                  ∙ ap (λ c. enqueue c src) (sym (get_or-view s.inboxes pid))),
          record {
            procs = length-set s.inboxes pid q' ∙ v.procs;
            rings =
                All-set IsRing s.inboxes pid q' v.rings (push-IsRing q (pack src) (IsRing-at fits));
          },
        )
  ]

  -- A `recv` on the table of rings returns what a `recv` on the table of queues returns, leaves the
  -- rest of it, and keeps the rings valid.
  pub recv_refines : (seen (recv s pid) ≡ Mailbox.recv (view s) pid) × IsValid (recv s pid).0
  unfolding recv Mailbox.recv
  recv_refines = elim (Bool-cases (leb max_procs pid)) [
    | inl out ↦ rw out (refl, v)
    | inr fits ↦
        let q = get_or s.inboxes pid new in
        rw fits (
          deliver_refines s pid (pop q)
              ∙ ap (stored (view s) pid)
                  (pop_refines q (IsRing-at fits) ∙ ap dequeue (sym (get_or-view s.inboxes pid))),
          deliver-IsValid s pid (pop q) v (pop-IsRing q (IsRing-at fits)),
        )
  ]

-- For any sequence of `send` and `recv` calls on a valid table, what the `recv` calls return is what
-- bounded queues of payloads, one for each process, return: each payload is cut to 64 bytes, and a
-- send to a queue of 16 or to a process out of range does nothing.
pub run_refines : (cs : List Call) (s : Ipc) → IsValid s → run s cs ≡ Mailbox.run (view s) cs
unfolding run Mailbox.run
run_refines [] s v = refl
run_refines (sends pid src ∷ cs) s v =
    run_refines cs (send s pid src) (send_refines s v pid src).1
    ∙ ap (λ qs. Mailbox.run qs cs) (send_refines s v pid src).0
run_refines (recvs pid ∷ cs) s v =
    let e = recv_refines s v pid in
    ap₂ ◌∷◌ (ap (λ r. r.1) e.0)
      (run_refines cs (recv s pid).0 e.1 ∙ ap (λ r. Mailbox.run r.0 cs) e.0)
