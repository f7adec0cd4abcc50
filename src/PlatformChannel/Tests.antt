-- ===== src/PlatformChannel/Tests.antt =====
-- The theorems on the mailbox of kernel/src/platform_channel/mod.rs at a box with one message.
use oscortex.Base.{ℕ, ◌≡◌, refl, min, List, [], ◌∷◌, take, length, ok, arith}
use oscortex.PlatformChannel.{
  MsgBox, new, post, reply, ack, recv_into, unanswered_msg, Call, posts, replies, acks, reaps, run,
}
use oscortex.PlatformChannel.Box.{IsBox, run-IsBox}
use oscortex.PlatformChannel.Wire.{parse, parse-recv_into}
use oscortex.PlatformChannel.Talk.{ack-reply-post}

new-IsBox : IsBox new
unfolding new
new-IsBox = record {
  bounded = omega arith;
  short = tt;
  once = λ n. omega arith;
  fresh = λ n h. refl;
}

abbrev channel : List ℕ
channel = 97 ∷ 98 ∷ []

abbrev payload : List ℕ
payload = 7 ∷ 8 ∷ 9 ∷ []

abbrev answer : List ℕ
answer = 1 ∷ 2 ∷ []

abbrev buffer : List ℕ
buffer = 0 ∷ []

abbrev talk : List Call
talk =
    posts 3 channel payload ∷ posts 4 channel [] ∷ replies 1 answer ∷ acks 1 buffer ∷ reaps 4 ∷ []

run-IsBox_example : IsBox (run talk new)
unfolding new
run-IsBox_example = run-IsBox talk new new-IsBox (omega arith)

abbrev one : MsgBox
one = (post 3 channel payload new).0

abbrev large : List ℕ
large = 0 ∷ 0 ∷ 0 ∷ 0 ∷ 0 ∷ 0 ∷ 0 ∷ 0 ∷ 0 ∷ 0 ∷ 0 ∷ 0 ∷ 0 ∷ 0 ∷ 0 ∷ 0 ∷ 0 ∷ 0 ∷ 0 ∷ 0 ∷ []

abbrev pending : MsgBox
pending = record { msgs = unanswered_msg 1 3 channel payload ∷ []; next_seq = 2 }

pending-IsBox : IsBox pending
pending-IsBox = record {
  bounded = omega arith;
  short = (omega arith, tt);
  once = λ n. ground arith;
  fresh = λ n h. ground arith;
}

parse-recv_into_example :
    parse (take (recv_into large pending).1 (recv_into large pending).0) ≡ (1, channel, payload)
parse-recv_into_example =
    parse-recv_into pending large (unanswered_msg 1 3 channel payload) refl (omega arith)
      (omega arith) (omega arith) (omega arith)

ack-reply-post_example :
    let posted = post 3 channel payload pending in
    let replied = reply 2 answer posted.0 in
    let (after, out, n) = ack 2 buffer replied.0 in
    (posted.1 ≡ ok 2)
    × (replied.1 ≡ ok tt)
    × (after.msgs ≡ pending.msgs)
    × (n ≡ min (length answer) (length buffer))
    × (take n out ≡ take n answer)
ack-reply-post_example =
    ack-reply-post 3 channel payload answer buffer pending pending-IsBox (omega arith) (omega arith)
