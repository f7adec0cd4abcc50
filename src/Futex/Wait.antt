-- ===== src/Futex/Wait.antt =====
-- A wait of `sys_futex` in kernel/src/syscall/handlers/futex.rs, up to the point where the caller goes to
-- sleep: FUTEX_WAIT, and FUTEX_WAIT_BITSET, which is operation 9. The word at the address and the
-- calling process are arguments. The pulse that every sixteenth taken wake sends to the task runners
-- is left out.
use oscortex.Base.{ℕ, ◌+◌, ◌%◌, ◌^◌, Bool, false, not, ◌&&◌, ◌||◌, if◌then◌else◌, ◌==◌, ltb}
use oscortex.Futex.{
  Futexes, futex_addr_pid1_wait, futex_addr_is_target, futex_pending_take, futex_waiter_add,
}

-- -22, -11 and 0; or the caller is queued and goes to sleep.
pub data Outcome : Type 0 where
  einval : Outcome
  eagain : Outcome
  success : Outcome
  parks : Outcome

-- With `PID1_WAIT_LOOP_BYPASS`.
pub record WaitState : Type 0 where
  pub futexes : Futexes
  pub passes : ℕ

unfoldable pub futex_pid1_postrun_bypass : ℕ → ℕ → ℕ → WaitState → WaitState × Bool
futex_pid1_postrun_bypass uaddr val pid s =
    if not (uaddr == futex_addr_pid1_wait) || not (val == 0)
    then (s, false)
    else if not (pid == 1)
    then (s, false)
    else (record s { passes = (s.passes + 1) % 2 ^ 32 }, ltb s.passes 256)

-- The tests with which both waits start, and what follows them.
abbrev checked : ℕ → ℕ → ℕ → ℕ → (WaitState → WaitState × Outcome) → WaitState → WaitState × Outcome
checked uaddr val cur pid then_wait s =
    if ltb uaddr 0x1000 || not (uaddr % 4 == 0)
    then (s, einval)
    else if not (cur == val)
    then (s, eagain)
    else if pid == 0
    then (s, success)
    else (let (s', bypass) = futex_pid1_postrun_bypass uaddr val pid s in
        if bypass then (s', success) else then_wait s')

abbrev pub queued : ℕ → ℕ → WaitState → WaitState × Outcome
queued uaddr pid s = (
  record s {
    futexes = record s.futexes { waiters = futex_waiter_add uaddr pid s.futexes.waiters };
  },
  parks,
)

unfoldable pub futex_wait : ℕ → ℕ → ℕ → ℕ → WaitState → WaitState × Outcome
futex_wait uaddr val cur pid = checked uaddr val cur pid (λ s.
    let (pending, taken) = futex_pending_take uaddr s.futexes.pending in
    if futex_addr_is_target uaddr && taken
    then (record s { futexes = record s.futexes { pending = pending } }, success)
    else queued uaddr pid s)

unfoldable pub futex_wait_bitset : ℕ → ℕ → ℕ → ℕ → WaitState → WaitState × Outcome
futex_wait_bitset uaddr val cur pid = checked uaddr val cur pid (queued uaddr pid)
