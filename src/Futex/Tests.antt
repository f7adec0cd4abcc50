-- ===== src/Futex/Tests.antt =====
-- The theorems on futexes, with three waiters of two thread groups.
use oscortex.Base.{
  suc, ◌-◌, length, replicate, ℕ, ◌+◌, ◌≡◌, ◌≢◌, refl, min, Bool, not, none, List, [], ◌∷◌, take,
  drop, arith, if◌then◌else◌, leb,
}
use oscortex.Futex.{
  Processes, Futexes, futex_wake_waiters, waiters_at, same_space, pending_at, futex_addr_handoff,
}
use oscortex.Futex.Map.{get}
use oscortex.Futex.Wake.{keep, futex_wake_waiters-wakes}
use oscortex.Futex.Pending.{waits, first_return, wake-not_lost}
use oscortex.Futex.Wait.{WaitState, futex_wait, futex_wait_bitset, parks}

-- Processes from 10 on are of group 10; nothing is mapped.
abbrev two_groups : Processes
two_groups = record {
  group_leader = λ pid. if leb 10 pid then 10 else 1;
  futex_phys_of = λ pid addr. none;
}

abbrev parked : Futexes
parked = record { waiters = (4096, 2 ∷ 11 ∷ 3 ∷ []) ∷ []; pending = [] }

futex_wake_waiters-wakes_example :
    let r : Futexes × List ℕ = futex_wake_waiters two_groups 1 4096 1 parked in
    let same : ℕ → Bool = same_space two_groups 1 4096 in
    let left : List ℕ = waiters_at 4096 r.0.waiters in
    (r.1 ≡ take 1 (keep same (2 ∷ 11 ∷ 3 ∷ [])))
    × (keep same left ≡ drop 1 (keep same (2 ∷ 11 ∷ 3 ∷ [])))
    × (keep (λ w. not (same w)) left ≡ keep (λ w. not (same w)) (2 ∷ 11 ∷ 3 ∷ []))
    × ((other : ℕ) → other ≢ 4096 → get other r.0.waiters ≡ get other parked.waiters)
unfolding get
futex_wake_waiters-wakes_example =
    futex_wake_waiters-wakes two_groups 1 4096 1 parked (2 ∷ 11 ∷ 3 ∷ []) refl

abbrev idle : Futexes
idle = record { waiters = []; pending = [] }

abbrev quiet : WaitState
quiet = record { futexes = idle; passes = 0 }

nonzero : (n : ℕ) → suc n ≢ 0
nonzero n e = omega arith

wake-not_lost_example :
    let woken : WaitState = record quiet {
      futexes = (futex_wake_waiters two_groups 1 futex_addr_handoff 2 idle).0;
    } in
    let granted : ℕ = min (pending_at futex_addr_handoff idle.pending + 2) 64 in
    let (s', os) = waits (futex_wait futex_addr_handoff 7 7) (4 ∷ 5 ∷ 6 ∷ []) woken in
    let (t', bs) = waits (futex_wait_bitset futex_addr_handoff 7 7) (4 ∷ 5 ∷ 6 ∷ []) woken in
    (os ≡ first_return granted (length {A = ℕ} (4 ∷ 5 ∷ 6 ∷ [])))
    × (pending_at futex_addr_handoff s'.futexes.pending ≡ granted - length {A = ℕ} (4 ∷ 5 ∷ 6 ∷ []))
    × (bs ≡ replicate (length {A = ℕ} (4 ∷ 5 ∷ 6 ∷ [])) parks)
    × (pending_at futex_addr_handoff t'.futexes.pending ≡ granted)
unfolding get
wake-not_lost_example =
    wake-not_lost two_groups 1 futex_addr_handoff 2 7 (4 ∷ 5 ∷ 6 ∷ []) quiet refl refl (omega arith)
      refl (nonzero 3, (nonzero 4, (nonzero 5, tt)))
