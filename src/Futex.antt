-- ===== src/Futex.antt =====
-- kernel/src/syscall/wait.rs and kernel/src/syscall/handlers/futex.rs: the threads that wait at an address,
-- the wakes that arrived before a wait, and whom a wake reaches. The maps are lists of keys and values;
-- the calling process, the thread groups and the address translation are arguments.
pub mod Map
pub mod Wait
pub mod Wake
pub mod Pending
mod Tests
use oscortex.Base.{
  ℕ, zero, suc, ◌+◌, ◌-◌, ◌%◌, ◌^◌, min, Bool, true, false, not, ◌&&◌, ◌||◌, Option, none, some,
  List, [], ◌∷◌, ◌++◌, find, length, map, if◌then◌else◌, ◌==◌, ltb,
}
use oscortex.Futex.Map.{AddrMap, get, put, remove}

-- `FUTEX_WAITERS`.
abbrev pub Waiters : Type 0
Waiters = AddrMap (List ℕ)

-- `FUTEX_PENDING_WAKES`.
abbrev pub PendingWakes : Type 0
PendingWakes = AddrMap ℕ

unfoldable pub has_pid : ℕ → List ℕ → Bool
has_pid pid [] = false
has_pid pid (w ∷ ws) = let rest = has_pid pid ws in if w == pid then true else rest

-- The waiters at an address.
abbrev pub waiters_at : ℕ → Waiters → List ℕ
waiters_at addr t = elim (get addr t) [ none ↦ [] | some ws ↦ ws ]

pub futex_waiter_add : ℕ → ℕ → Waiters → Waiters
futex_waiter_add addr pid t =
    let ws = waiters_at addr t in put addr (if has_pid pid ws then ws else ws ++ (pid ∷ [])) t

-- `retain(|&waiter| waiter != pid)`.
unfoldable pub without : ℕ → List ℕ → List ℕ
without pid [] = []
without pid (w ∷ ws) = let rest = without pid ws in if w == pid then rest else w ∷ rest

-- An address without waiters leaves the map.
abbrev pub store : ℕ → List ℕ → Waiters → Waiters
store addr [] t = remove addr t
store addr (w ∷ ws) t = put addr (w ∷ ws) t

pub futex_waiter_remove : ℕ → ℕ → Waiters → Waiters
futex_waiter_remove addr pid t = elim (get addr t) [
  | none ↦ t
  | some ws ↦ store addr (without pid ws) t
]

-- `free` is whether the lock could be taken.
abbrev pub futex_waiter_remove_try : Bool → ℕ → ℕ → Waiters → Waiters × Bool
futex_waiter_remove_try free addr pid t =
    if free then (futex_waiter_remove addr pid t, true) else (t, false)

abbrev pub futex_waiter_present : ℕ → ℕ → Waiters → Bool
futex_waiter_present addr pid t = elim (get addr t) [ none ↦ false | some ws ↦ has_pid pid ws ]

abbrev pub futex_addr_pid1_wait : ℕ
futex_addr_pid1_wait = 0x00007ffffffec8f0

abbrev pub futex_addr_worker_wait : ℕ
futex_addr_worker_wait = 0x0000000457000040

abbrev pub futex_addr_handoff : ℕ
futex_addr_handoff = 0x0000000338000070

abbrev pub futex_addr_is_target : ℕ → Bool
futex_addr_is_target addr =
    addr == futex_addr_pid1_wait || addr == futex_addr_worker_wait || addr == futex_addr_handoff

abbrev pub futex_target_waiter_count : ℕ → Waiters → ℕ
futex_target_waiter_count addr t = elim (get addr t) [ none ↦ 0 | some ws ↦ length ws ]

abbrev pub pending_at : ℕ → PendingWakes → ℕ
pending_at addr t = elim (get addr t) [ none ↦ 0 | some n ↦ n ]

-- `saturating_add` of 32-bit numbers, then at most 64.
pub futex_pending_post : ℕ → ℕ → PendingWakes → PendingWakes
futex_pending_post addr count t =
    if count == 0 then t else put addr (min (min (pending_at addr t + count) (2 ^ 32 - 1)) 64) t

pub futex_pending_take : ℕ → PendingWakes → PendingWakes × Bool
futex_pending_take addr t = elim (get addr t) [
  | none ↦ (t, false)
  | some zero ↦ (t, false)
  | some (suc zero) ↦ (remove addr t, true)
  | some (suc (suc n)) ↦ (put addr (suc n) t, true)
]

-- The processes as `futex_wake_waiters` asks for them: the thread group's leader, and the physical
-- address behind a virtual one.
pub record Processes : Type 0 where
  pub group_leader : ℕ → ℕ
  pub futex_phys_of : ℕ → ℕ → Option ℕ

abbrev pub same_group : Processes → ℕ → ℕ → Bool
same_group k caller w = k.group_leader w == k.group_leader caller

abbrev pub same_space : Processes → ℕ → ℕ → ℕ → Bool
same_space k caller addr w =
    if caller == 0 || k.group_leader caller == 0 then true else elim (k.futex_phys_of caller addr) [
      | none ↦ same_group k caller w
      | some cp ↦ elim (k.futex_phys_of w addr) [
        | none ↦ same_group k caller w
        | some wp ↦ cp == wp
      ]
    ]

-- The loop of `futex_wake_waiters` from the waiter `i` on, with room for `room` more: those that wake, and
-- those that stay.
unfoldable pub wake_loop : (ℕ → Bool) → ℕ → List ℕ → List ℕ × List ℕ
wake_loop p room [] = ([], [])
wake_loop p zero (w ∷ ws) = ([], w ∷ ws)
wake_loop p (suc room) (w ∷ ws) = elim (p w) [
  | true ↦ (let (woken, left) = wake_loop p room ws in (w ∷ woken, left))
  | false ↦ (let (woken, left) = wake_loop p (suc room) ws in (woken, w ∷ left))
]

pub record Futexes : Type 0 where
  pub waiters : Waiters
  pub pending : PendingWakes

-- The processes that are set running are returned; the source returns their number.
pub futex_wake_waiters : Processes → ℕ → ℕ → ℕ → Futexes → Futexes × List ℕ
futex_wake_waiters k caller addr count s = elim (get addr s.waiters) [
  | none ↦ (
    if futex_addr_is_target addr
        then record s { pending = futex_pending_post addr count s.pending }
        else s,
    [],
  )
  | some ws ↦
      (let (woken, left) = wake_loop (same_space k caller addr) count ws in
        (record s { waiters = store addr left s.waiters }, woken))
]

-- `futex_waiter_for`: a waiter of the caller's group other than the caller.
abbrev pub futex_waiter_for : Processes → ℕ → ℕ → Waiters → Option ℕ
futex_waiter_for k addr exclude t =
    let grp = if exclude == 0 then 0 else k.group_leader exclude in
    elim (get addr t) [
      | none ↦ none
      | some ws ↦ find (λ w. not (w == exclude) && (grp == 0 || k.group_leader w == grp)) ws
    ]

-- The loop of `futex_wake_all_known_waiters` over the addresses; the total saturates.
unfoldable pub wake_addrs : Processes → ℕ → List ℕ → ℕ → Futexes → Futexes × ℕ
wake_addrs k caller [] total s = (s, total)
wake_addrs k caller (a ∷ more) total s =
    let (s', woken) = futex_wake_waiters k caller a (2 ^ 32 - 1) s in
    wake_addrs k caller more (min (total + length woken) (2 ^ 32 - 1)) s'

abbrev pub futex_wake_all_known_waiters : Processes → ℕ → Futexes → Futexes × ℕ
futex_wake_all_known_waiters k caller s = wake_addrs k caller (map (λ e. e.0) s.waiters) 0 s
