-- ===== src/Ipc/Mailbox.antt =====
-- What a client of kernel/src/ipc/mod.rs may rely on: a bounded first-in first-out queue of
-- payloads for each process.
use oscortex.Base.{
  ℕ, Option, none, some, List, [], ◌∷◌, ◌++◌, length, get_or, set, take, if◌then◌else◌, leb, ltb,
}
use oscortex.Ipc.{Call, sends, recvs, max_procs, msg_len, inbox_cap}

abbrev pub Queue : Type 0
Queue = List (List ℕ)

-- A payload is cut at 64 bytes; the seventeenth is dropped.
unfoldable pub enqueue : Queue → List ℕ → Queue
enqueue q src = if ltb (length q) inbox_cap then q ++ (take msg_len src ∷ []) else q

unfoldable pub dequeue : Queue → Queue × Option (List ℕ)
dequeue [] = ([], none)
dequeue (m ∷ q) = (q, some m)

unfoldable pub send : List Queue → ℕ → List ℕ → List Queue
send qs pid src = if leb max_procs pid then qs else set qs pid (enqueue (get_or qs pid []) src)

unfoldable pub recv : List Queue → ℕ → List Queue × Option (List ℕ)
recv qs pid =
    if leb max_procs pid
    then (qs, none)
    else (let (q, r) = dequeue (get_or qs pid []) in (set qs pid q, r))

unfoldable pub run : List Queue → List Call → List (Option (List ℕ))
run qs [] = []
run qs (sends pid src ∷ cs) = run (send qs pid src) cs
run qs (recvs pid ∷ cs) = let (qs', r) = recv qs pid in r ∷ run qs' cs
