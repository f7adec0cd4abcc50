-- ===== src/PlatformChannel.antt =====
-- kernel/src/platform_channel/mod.rs: the mailbox of platform messages between native code and the
-- engine host. The box behind the lock is the state; a call that returns an error leaves it.
pub mod Box
pub mod Wire
pub mod Talk
mod Tests
use oscortex.Base.{
  ℕ, ◌+◌, ◌%◌, ◌^◌, min, max, Bool, true, false, not, ◌&&◌, Option, none, some, List, [], ◌∷◌, ◌++◌,
  length, take, find, copy_front, Result, ok, err, if◌then◌else◌, ◌==◌, leb, ltb,
}
use oscortex.Base.Bytes.{to_le_bytes}

abbrev pub max_pending : ℕ
max_pending = 32

abbrev pub max_payload : ℕ
max_payload = 32768

pub record PlatformMsg : Type 0 where
  pub seq : ℕ
  pub sender_pid : ℕ
  pub channel : List ℕ
  pub payload : List ℕ
  pub reply : Option (List ℕ)

pub record MsgBox : Type 0 where
  pub msgs : List PlatformMsg
  pub next_seq : ℕ

pub new : MsgBox
new = record { msgs = []; next_seq = 1 }

abbrev pub is_some : Option (List ℕ) → Bool
is_some none = false
is_some (some r) = true

abbrev pub has_seq : ℕ → PlatformMsg → Bool
has_seq n m = m.seq == n

abbrev pub unanswered : PlatformMsg → Bool
unanswered m = not (is_some m.reply)

abbrev pub answered : ℕ → PlatformMsg → Bool
answered n m = m.seq == n && is_some m.reply

abbrev pub bump_seq : ℕ → ℕ
bump_seq n = max ((n + 1) % 2 ^ 64) 1

abbrev pub unanswered_msg : ℕ → ℕ → List ℕ → List ℕ → PlatformMsg
unanswered_msg seq sender_pid channel payload = record {
  seq = seq;
  sender_pid = sender_pid;
  channel = channel;
  payload = payload;
  reply = none;
}

pub post : ℕ → List ℕ → List ℕ → MsgBox → MsgBox × Result ℕ
post sender_pid channel payload mb =
    if ltb max_payload (length payload)
    then (mb, err "payload too large")
    else if leb max_pending (length mb.msgs)
    then (mb, err "platform message queue full")
    else (
      record {
        msgs = mb.msgs ++ (unanswered_msg mb.next_seq sender_pid channel payload ∷ []);
        next_seq = bump_seq mb.next_seq;
      },
      ok mb.next_seq,
    )

-- The bytes of a message on the wire: the fields in the order in which they are copied.
pub wire : PlatformMsg → List ℕ
wire m =
    to_le_bytes 8 m.seq
    ++ (to_le_bytes 2 (length m.channel % 2 ^ 16)
        ++ (to_le_bytes 4 (length m.payload % 2 ^ 32) ++ (m.channel ++ m.payload)))

-- The buffer afterwards and the number of bytes written; the box stays as it is.
pub recv_into : List ℕ → MsgBox → List ℕ × ℕ
recv_into buf mb = elim (find unanswered mb.msgs) [
  | none ↦ (buf, 0)
  | some m ↦
      (let total = 14 + length m.channel + length m.payload in
        if ltb (length buf) total then (buf, 0) else (copy_front buf (wire m), total))
]

abbrev pub with_reply : List ℕ → PlatformMsg → PlatformMsg
with_reply r m = record m { reply = some r }

-- The first message of that number takes the reply; `none` if there is no such message.
unfoldable pub set_reply : ℕ → List ℕ → List PlatformMsg → Option (List PlatformMsg)
set_reply n r [] = none
set_reply n r (m ∷ ms) =
    let rest = set_reply n r ms in
    if has_seq n m
    then some (with_reply r m ∷ ms)
    else elim rest [ none ↦ none | some ms' ↦ some (m ∷ ms') ]

pub reply : ℕ → List ℕ → MsgBox → MsgBox × Result (Unit {0})
reply n r mb = elim (set_reply n r mb.msgs) [
  | none ↦ (mb, err "no such sequence")
  | some ms ↦ (record mb { msgs = ms }, ok tt)
]

-- `remove` at the position of the first message that passes the test.
unfoldable pub remove_first : (PlatformMsg → Bool) → List PlatformMsg → List PlatformMsg
remove_first p [] = []
remove_first p (m ∷ ms) = if p m then ms else m ∷ remove_first p ms

abbrev reply_bytes : PlatformMsg → List ℕ
reply_bytes m = elim m.reply [ none ↦ [] | some r ↦ r ]

pub ack : ℕ → List ℕ → MsgBox → MsgBox × List ℕ × ℕ
ack n buf mb = elim (find (answered n) mb.msgs) [
  | none ↦ (mb, buf, 0)
  | some m ↦
      (let copy_len = min (length (reply_bytes m)) (length buf) in
        (
          record mb { msgs = remove_first (answered n) mb.msgs },
          copy_front buf (take copy_len (reply_bytes m)),
          copy_len,
        ))
]

-- `retain(|m| m.sender_pid != pid)`.
unfoldable pub retain_others : ℕ → List PlatformMsg → List PlatformMsg
retain_others pid [] = []
retain_others pid (m ∷ ms) =
    let rest = retain_others pid ms in if m.sender_pid == pid then rest else m ∷ rest

pub reap_pid : ℕ → MsgBox → MsgBox
reap_pid pid mb = record mb { msgs = retain_others pid mb.msgs }

-- The calls, as the two sides and the process table make them.
pub data Call : Type 0 where
  posts : ℕ → List ℕ → List ℕ → Call
  replies : ℕ → List ℕ → Call
  acks : ℕ → List ℕ → Call
  reaps : ℕ → Call

pub step : Call → MsgBox → MsgBox
step (posts sender_pid channel payload) mb = (post sender_pid channel payload mb).0
step (replies n r) mb = (reply n r mb).0
step (acks n buf) mb = (ack n buf mb).0
step (reaps pid) mb = reap_pid pid mb

pub run : List Call → MsgBox → MsgBox
run [] mb = mb
run (c ∷ cs) mb = run cs (step c mb)
