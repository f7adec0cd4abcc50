-- ===== src/Ipc.antt =====
-- kernel/src/ipc/mod.rs: a ring of messages for each process, and the two calls on them.
pub mod Mailbox
pub mod Refine
mod Tests
use oscortex.Base.{
  ℕ, ◌+◌, ◌-◌, ◌%◌, ◌≡◌, min, Bool, true, false, Option, none, some, List, [], ◌∷◌, length, get_or,
  set, take, replicate, copy_front, if◌then◌else◌, ◌==◌, leb,
}
use oscortex.Base.Ring.{window}

abbrev pub max_procs : ℕ
max_procs = 256

abbrev pub msg_len : ℕ
msg_len = 64

abbrev pub inbox_cap : ℕ
inbox_cap = 16

pub record Message : Type 0 where
  pub len : ℕ
  pub bytes : List ℕ

unfoldable pub empty : Message
empty = record { len = 0; bytes = replicate msg_len 0 }

pub record Inbox : Type 0 where
  pub buf : List Message
  pub head : ℕ
  pub tail : ℕ
  pub len : ℕ

pub new : Inbox
new = record { buf = replicate inbox_cap empty; head = 0; tail = 0; len = 0 }

pub push : Inbox → Message → Inbox × Bool
push q msg = if q.len == inbox_cap then (q, false) else (
  record q { buf = set q.buf q.tail msg; tail = (q.tail + 1) % inbox_cap; len = q.len + 1 },
  true,
)

-- `len -= 1` runs only at `len != 0`.
pub pop : Inbox → Inbox × Option Message
pop q = if q.len == 0 then (q, none) else (
  record q { head = (q.head + 1) % inbox_cap; len = q.len - 1 },
  some (get_or q.buf q.head empty),
)

-- The statics: `INBOXES`, and the buffer that the slice returned by `recv` points into.
pub record Ipc : Type 0 where
  pub inboxes : List Inbox
  pub recv_buf : Message

pub init : Ipc
init = record { inboxes = replicate max_procs new; recv_buf = empty }

-- The message that `send` builds: at most 64 bytes of the data, the rest zero.
pub pack : List ℕ → Message
pack src =
    let copy_len = min (length src) msg_len in
    record { len = copy_len; bytes = copy_front empty.bytes (take copy_len src) }

pub send : Ipc → ℕ → List ℕ → Ipc
send s dst_pid src = if leb max_procs dst_pid then s else record s {
  inboxes = set s.inboxes dst_pid (push (get_or s.inboxes dst_pid new) (pack src)).0;
}

abbrev pub payload : Message → List ℕ
payload m = take m.len m.bytes

-- The second part of `recv`: copy the popped message into `RECV_BUF` and return its slice.
deliver : Ipc → ℕ → Inbox × Option Message → Ipc × Option (List ℕ)
deliver s pid (q, none) = (record s { inboxes = set s.inboxes pid q }, none)
deliver s pid (q, some msg) =
    (record { inboxes = set s.inboxes pid q; recv_buf = msg }, some (payload msg))

pub recv : Ipc → ℕ → Ipc × Option (List ℕ)
recv s src_pid =
    if leb max_procs src_pid
    then (s, none)
    else deliver s src_pid (pop (get_or s.inboxes src_pid new))

pub data Call : Type 0 where
  sends : ℕ → List ℕ → Call
  recvs : ℕ → Call

-- A sequence of calls, with what each `recv` returns.
pub run : Ipc → List Call → List (Option (List ℕ))
run s [] = []
run s (sends pid src ∷ cs) = run (send s pid src) cs
run s (recvs pid ∷ cs) = let (s', r) = recv s pid in r ∷ run s' cs
