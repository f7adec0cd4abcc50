-- ===== src/PlatformChannel/Box.antt =====
-- The box of kernel/src/platform_channel/mod.rs stays within its bounds, and its numbers stay distinct.
use oscortex.Base.{
  ℕ, ◌+◌, ◌^◌, ◌≤◌, ◌<◌, ◌≡◌, refl, subst, ◌≢◌, ◌∙◌, Bool, some, List, [], ◌∷◌, ◌++◌, length, find,
  count_if, length-append, arith, if◌then◌else◌, ◌==◌, leb, ltb, Bool-cases, Option-cases, inl, inr,
  ltb→ge, All, All-append,
}
use oscortex.PlatformChannel.{
  PlatformMsg, MsgBox, has_seq, answered, max_pending, max_payload, post, unanswered_msg, set_reply,
  reply, remove_first, ack, retain_others, reap_pid, Call, posts, replies, acks, reaps, step, run,
  bump_seq, with_reply,
}

abbrev Short : PlatformMsg → Type 0
Short m = length m.payload ≤ max_payload

-- At most 32 messages, no payload above 32 KiB, every number used once and below the next one.
pub record IsBox (mb : MsgBox) : Type 0 where
  pub bounded : length mb.msgs ≤ max_pending
  pub short : All Short mb.msgs
  pub once : (n : ℕ) → count_if (has_seq n) mb.msgs ≤ 1
  pub fresh : (n : ℕ) → mb.next_seq ≤ n → count_if (has_seq n) mb.msgs ≡ 0

abbrev Kept : List PlatformMsg → List PlatformMsg → Type 0
Kept ms ns =
    (length ns ≡ length ms)
    × (All Short ms → All Short ns)
    × ((n : ℕ) → count_if (has_seq n) ns ≡ count_if (has_seq n) ms)

abbrev Fewer : List PlatformMsg → List PlatformMsg → Type 0
Fewer ms ns =
    (length ns ≤ length ms)
    × (All Short ms → All Short ns)
    × ((n : ℕ) → count_if (has_seq n) ns ≤ count_if (has_seq n) ms)

Fewer-IsBox :
    (mb : MsgBox) (ns : List PlatformMsg)
    → Fewer mb.msgs ns
    → IsBox mb
    → IsBox (record mb { msgs = ns })
Fewer-IsBox mb ns (l, a, c) b = record {
  bounded = omega (arith, l, b.bounded);
  short = a b.short;
  once = λ n. omega (arith, c n, b.once n);
  fresh = λ n h. omega (arith, c n, b.fresh n h);
}

some_inj : {a b : List PlatformMsg} → some a ≡ some b → a ≡ b
some_inj e = cc

abbrev pub from_pid : ℕ → PlatformMsg → Bool
from_pid pid m = m.sender_pid == pid

-- The messages that pass a test, in their order.
abbrev pub select : (PlatformMsg → Bool) → List PlatformMsg → List PlatformMsg
select p [] = []
select p (m ∷ ms) = if p m then m ∷ select p ms else select p ms

gone : (pid : ℕ) (ms : List PlatformMsg) → count_if (from_pid pid) (retain_others pid ms) ≡ 0
unfolding retain_others
gone pid [] = refl
gone pid (m ∷ ms) = ground (arith, gone pid ms)

others :
    (pid other : ℕ)
    → other ≢ pid
    → (ms : List PlatformMsg)
    → select (from_pid other) (retain_others pid ms) ≡ select (from_pid other) ms
unfolding retain_others
others pid other ne [] = refl
others pid other ne (m ∷ ms) = ground (arith, ne, others pid other ne ms)

pub count_if-snoc :
    (p : PlatformMsg → Bool) (ms : List PlatformMsg) (m : PlatformMsg)
    → count_if p (ms ++ (m ∷ [])) ≡ (if p m then count_if p ms + 1 else count_if p ms)
count_if-snoc p [] m = ground arith
count_if-snoc p (x ∷ xs) m = ground (arith, count_if-snoc p xs m)

post-IsBox :
    (pid : ℕ) (ch pl : List ℕ) (mb : MsgBox)
    → IsBox mb
    → mb.next_seq + 1 < 2 ^ 64
    → IsBox (post pid ch pl mb).0
unfolding post
post-IsBox pid ch pl mb b small = elim (Bool-cases (ltb max_payload (length pl))) [
  | inl e ↦ rw e b
  | inr e ↦ elim (Bool-cases (leb max_pending (length mb.msgs))) [
    | inl f ↦ rw (e, f) b
    | inr f ↦
        rw (e, f)
          (record {
            bounded =
                ground
                  (arith, f, length-append mb.msgs (unanswered_msg mb.next_seq pid ch pl ∷ []));
            short =
                All-append Short mb.msgs (unanswered_msg mb.next_seq pid ch pl ∷ []) b.short
                  (ltb→ge max_payload (length pl) e, tt);
            once = λ n. ground (
              arith,
              count_if-snoc (has_seq n) mb.msgs (unanswered_msg mb.next_seq pid ch pl),
              b.once n,
              b.fresh n,
            );
            fresh = λ n h. ground (
              arith,
              count_if-snoc (has_seq n) mb.msgs (unanswered_msg mb.next_seq pid ch pl),
              b.fresh n,
            );
          })
  ]
]

set_reply-keeps :
    (k : ℕ) (r : List ℕ) (ms ns : List PlatformMsg) → set_reply k r ms ≡ some ns → Kept ms ns
unfolding set_reply
set_reply-keeps k r [] ns e = cc
set_reply-keeps k r (m ∷ ms) ns e = elim (Bool-cases (has_seq k m)) [
  | inl h ↦
      (let g : some (with_reply r m ∷ ms) ≡ some ns = ground (arith, h, e) in
        subst (λ (o : List PlatformMsg). Kept (m ∷ ms) o) (some_inj g) (refl, λ a. a, λ n. refl))
  | inr h ↦ elim (Option-cases (set_reply k r ms)) [
    | inl f ↦ absurd (ground (arith, h, e, f))
    | inr (os, f) ↦
        (let g : some (m ∷ os) ≡ some ns = ground (arith, h, e, f) in
          let (l, a, c) = set_reply-keeps k r ms os f in
          subst (λ (o : List PlatformMsg). Kept (m ∷ ms) o) (some_inj g)
            (omega (arith, l), λ b. (b.0, a b.1), λ n. ground (arith, c n)))
  ]
]

reply-IsBox : (k : ℕ) (r : List ℕ) (mb : MsgBox) → IsBox mb → IsBox (reply k r mb).0
unfolding reply
reply-IsBox k r mb b = elim (Option-cases (set_reply k r mb.msgs)) [
  | inl e ↦ rw (e, reply) b
  | inr (ns, e) ↦
      (let (l, a, c) = set_reply-keeps k r mb.msgs ns e in
        rw (e, reply)
          (record {
            bounded = omega (arith, l, b.bounded);
            short = a b.short;
            once = λ n. omega (arith, c n, b.once n);
            fresh = λ n h. c n ∙ b.fresh n h;
          }))
]

remove_first-keeps : (p : PlatformMsg → Bool) (ms : List PlatformMsg) → Fewer ms (remove_first p ms)
unfolding remove_first
remove_first-keeps p [] = (omega arith, λ a. a, λ n. omega arith)
remove_first-keeps p (m ∷ ms) = elim (Bool-cases (p m)) [
  | inl h ↦ rw (h) (omega arith, λ a. a.1, λ n. ground arith)
  | inr h ↦
      (let (l, a, c) = remove_first-keeps p ms in
        rw (h) (omega (arith, l), λ b. (b.0, a b.1), λ n. ground (arith, c n)))
]

ack-IsBox : (k : ℕ) (buf : List ℕ) (mb : MsgBox) → IsBox mb → IsBox (ack k buf mb).0
unfolding ack
ack-IsBox k buf mb b = elim (Option-cases (find (answered k) mb.msgs)) [
  | inl e ↦ rw (e, ack) b
  | inr (m, e) ↦
      rw (e, ack)
        (Fewer-IsBox mb (remove_first (answered k) mb.msgs)
          (remove_first-keeps (answered k) mb.msgs) b)
]

retain_others-keeps : (pid : ℕ) (ms : List PlatformMsg) → Fewer ms (retain_others pid ms)
unfolding retain_others
retain_others-keeps pid [] = (omega arith, λ a. a, λ n. omega arith)
retain_others-keeps pid (m ∷ ms) =
    let (l, a, c) = retain_others-keeps pid ms in
    elim (Bool-cases (m.sender_pid == pid)) [
      | inl h ↦ rw (h) (omega (arith, l), λ b. a b.1, λ n. ground (arith, c n))
      | inr h ↦ rw (h) (omega (arith, l), λ b. (b.0, a b.1), λ n. ground (arith, c n))
    ]

reap_pid-IsBox : (pid : ℕ) (mb : MsgBox) → IsBox mb → IsBox (reap_pid pid mb)
unfolding reap_pid
reap_pid-IsBox pid mb b =
    Fewer-IsBox mb (retain_others pid mb.msgs) (retain_others-keeps pid mb.msgs) b

-- After `reap_pid` no message of that process is left, and the messages of every other process are
-- those of before, in their order.
pub reap_pid-gone :
    (pid : ℕ) (mb : MsgBox)
    → (count_if (from_pid pid) (reap_pid pid mb).msgs ≡ 0)
      × ((other : ℕ)
          → other ≢ pid
          → select (from_pid other) (reap_pid pid mb).msgs ≡ select (from_pid other) mb.msgs)
unfolding reap_pid
reap_pid-gone pid mb = (gone pid mb.msgs, λ other ne. others pid other ne mb.msgs)

bump_seq_small : (n : ℕ) → n + 1 < 2 ^ 64 → bump_seq n ≡ n + 1
bump_seq_small n h = omega arith

next_seq-step_le :
    (c : Call) (mb : MsgBox) → mb.next_seq + 1 < 2 ^ 64 → (step c mb).next_seq ≤ mb.next_seq + 1
unfolding step post reply ack reap_pid
next_seq-step_le (posts pid ch pl) mb h = ground (arith, bump_seq_small mb.next_seq h)
next_seq-step_le (replies k r) mb h = elim (Option-cases (set_reply k r mb.msgs)) [
  | inl e ↦ rw (step, e, reply) (omega arith)
  | inr (ns, e) ↦ rw (step, e, reply) (omega arith)
]
next_seq-step_le (acks k buf) mb h = elim (Option-cases (find (answered k) mb.msgs)) [
  | inl e ↦ rw (step, e, ack) (omega arith)
  | inr (m, e) ↦ rw (step, e, ack) (omega arith)
]
next_seq-step_le (reaps pid) mb h = omega arith

step-IsBox : (c : Call) (mb : MsgBox) → IsBox mb → mb.next_seq + 1 < 2 ^ 64 → IsBox (step c mb)
unfolding step
step-IsBox (posts pid ch pl) mb b h = post-IsBox pid ch pl mb b h
step-IsBox (replies k r) mb b h = reply-IsBox k r mb b
step-IsBox (acks k buf) mb b h = ack-IsBox k buf mb b
step-IsBox (reaps pid) mb b h = reap_pid-IsBox pid mb b

-- Any sequence of `post`, `reply`, `ack` and `reap_pid` calls, successful or not, keeps the mailbox
-- well formed: at most 32 messages, no payload above 32 KiB, every number used once and below the next
-- one. The sequence must be too short to bring the counter to the end of its 64 bits.
pub run-IsBox :
    (cs : List Call) (mb : MsgBox) → IsBox mb → mb.next_seq + length cs < 2 ^ 64 → IsBox (run cs mb)
unfolding run
run-IsBox [] mb b h = b
run-IsBox (c ∷ cs) mb b h =
    run-IsBox cs (step c mb) (step-IsBox c mb b (omega arith))
      (omega (arith, next_seq-step_le c mb (omega arith)))
