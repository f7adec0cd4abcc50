-- ===== src/PlatformChannel/Talk.antt =====
-- A whole exchange over kernel/src/platform_channel/mod.rs.
use oscortex.Base.{
  ℕ, ◌≤◌, ◌<◌, ◌≡◌, refl, min, false, some, List, [], ◌∷◌, ◌++◌, length, take, find, count_if,
  arith, ok, leb, ltb, copy_front, take-copy_front,
}
use oscortex.PlatformChannel.{
  PlatformMsg, MsgBox, has_seq, answered, unanswered_msg, max_pending, max_payload, post, set_reply,
  reply, remove_first, ack, with_reply, bump_seq,
}
use oscortex.PlatformChannel.Box.{IsBox}

module _ (n : ℕ) (m : PlatformMsg) (e : m.seq ≡ n) where
  set_reply-snoc :
      (r : List ℕ) (ms : List PlatformMsg)
      → count_if (has_seq n) ms ≡ 0
      → set_reply n r (ms ++ (m ∷ [])) ≡ some (ms ++ (with_reply r m ∷ []))
  unfolding set_reply
  set_reply-snoc r [] h = ground arith
  set_reply-snoc r (x ∷ xs) h = ground (arith, set_reply-snoc r xs)

  find-snoc :
      (r : List ℕ) (ms : List PlatformMsg)
      → count_if (has_seq n) ms ≡ 0
      → find (answered n) (ms ++ (with_reply r m ∷ [])) ≡ some (with_reply r m)
  find-snoc r [] h = ground arith
  find-snoc r (x ∷ xs) h = ground (arith, find-snoc r xs)

  remove_first-snoc :
      (r : List ℕ) (ms : List PlatformMsg)
      → count_if (has_seq n) ms ≡ 0
      → remove_first (answered n) (ms ++ (with_reply r m ∷ [])) ≡ ms
  unfolding remove_first
  remove_first-snoc r [] h = ground arith
  remove_first-snoc r (x ∷ xs) h = ground (arith, remove_first-snoc r xs)

  reply-snoc :
      (r : List ℕ) (ms : List PlatformMsg) (k : ℕ)
      → count_if (has_seq n) ms ≡ 0
      → reply n r (record { msgs = ms ++ (m ∷ []); next_seq = k })
        ≡ (record { msgs = ms ++ (with_reply r m ∷ []); next_seq = k }, ok tt)
  unfolding reply
  reply-snoc r ms k h = rw (set_reply-snoc r ms h, reply) refl

  ack-snoc :
      (r buf : List ℕ) (ms : List PlatformMsg) (k : ℕ)
      → count_if (has_seq n) ms ≡ 0
      → ack n buf (record { msgs = ms ++ (with_reply r m ∷ []); next_seq = k }) ≡ (
        record { msgs = ms; next_seq = k },
        copy_front buf (take (min (length r) (length buf)) r),
        min (length r) (length buf),
      )
  unfolding ack
  ack-snoc r buf ms k h = rw (find-snoc r ms h, ack, remove_first-snoc r ms h) refl

post-eq :
    (pid : ℕ) (ch pl : List ℕ) (mb : MsgBox)
    → length pl ≤ max_payload
    → length mb.msgs < max_pending
    → post pid ch pl mb ≡ (
      record {
        msgs = mb.msgs ++ (unanswered_msg mb.next_seq pid ch pl ∷ []);
        next_seq = bump_seq mb.next_seq;
      },
      ok mb.next_seq,
    )
unfolding post
post-eq pid ch pl mb h l =
    let a : ltb max_payload (length pl) ≡ false = ground arith in
    let b : leb max_pending (length mb.msgs) ≡ false = ground arith in rw (a, b) refl

-- In a well-formed mailbox with room, a message with a payload of at most 32 KiB that is posted,
-- answered and acknowledged: each call succeeds, the sender gets the reply, cut to its buffer, and the
-- mailbox holds the messages that it held before.
pub ack-reply-post :
    (pid : ℕ) (ch pl r buf : List ℕ) (mb : MsgBox)
    → IsBox mb
    → length pl ≤ max_payload
    → length mb.msgs < max_pending
    → let posted = post pid ch pl mb in
      let replied = reply mb.next_seq r posted.0 in
      let (after, out, n) = ack mb.next_seq buf replied.0 in
      (posted.1 ≡ ok mb.next_seq)
      × (replied.1 ≡ ok tt)
      × (after.msgs ≡ mb.msgs)
      × (n ≡ min (length r) (length buf))
      × (take n out ≡ take n r)
ack-reply-post pid ch pl r buf mb b h l =
    let m = unanswered_msg mb.next_seq pid ch pl in
    let z : count_if (has_seq mb.next_seq) mb.msgs ≡ 0 = b.fresh mb.next_seq (omega arith) in
    rw
      (
        post-eq pid ch pl mb h l,
        reply-snoc mb.next_seq m refl r mb.msgs (bump_seq mb.next_seq) z,
        ack-snoc mb.next_seq m refl r buf mb.msgs (bump_seq mb.next_seq) z,
      )
      (refl, refl, refl, refl, take-copy_front (min (length r) (length buf)) buf r (omega arith))
