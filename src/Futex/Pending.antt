-- ===== src/Futex/Pending.antt =====
-- A wake that comes before the wait, in kernel/src/syscall/handlers/futex.rs.
use oscortex.Base.{
  List, [], ◌∷◌, ◌++◌, length, replicate, All, ◌<◌, ◌≢◌, ◌%◌, false, not, ◌||◌, ◌&&◌, ltb→lt,
  ltb→ge, ℕ, zero, suc, ◌+◌, ◌-◌, ◌^◌, ◌≤◌, ◌≡◌, refl, ap, ◌∙◌, min, true, none, ◌==◌, ltb, arith,
  Bool-cases, Option-cases, inl, inr,
}
use oscortex.Futex.{
  PendingWakes, pending_at, futex_pending_post, futex_pending_take, futex_addr_is_target,
  futex_addr_pid1_wait, Processes, futex_wake_waiters,
}
use oscortex.Futex.Wait.{
  Outcome, success, parks, WaitState, futex_pid1_postrun_bypass, futex_wait, futex_wait_bitset,
  queued,
}
use oscortex.Futex.Map.{get, get-put, get-remove}

eq_refl : (a : ℕ) → (a == a) ≡ true
eq_refl a = ground arith

-- A take succeeds if there is a pending wake, and uses it up.
take_cases :
    (addr : ℕ) (t : PendingWakes)
    → ((futex_pending_take addr t).1 ≡ ltb 0 (pending_at addr t))
      × (pending_at addr (futex_pending_take addr t).0 ≡ pending_at addr t - 1)
unfolding futex_pending_take
take_cases addr t = elim (Option-cases (get addr t)) [
  | inl e ↦ (rw (futex_pending_take, pending_at, e) refl, rw (futex_pending_take, e) (none_at e))
  | inr (zero, e) ↦ (
    rw (futex_pending_take, pending_at, e) (ground arith),
    rw (futex_pending_take, e) (rw (pending_at, e) (omega arith)),
  )
  | inr (suc zero, e) ↦ (
    rw (futex_pending_take, pending_at, e) (ground arith),
    rw (futex_pending_take, e)
        (rw (pending_at, e, get-remove addr addr t, eq_refl addr) (omega arith)),
  )
  | inr (suc (suc n), e) ↦ (
    rw (futex_pending_take, pending_at, e) (ground arith),
    rw (futex_pending_take, e)
        (rw (pending_at, e, get-put addr addr (suc n) t, eq_refl addr) (omega arith)),
  )
]
  where
    none_at : get addr t ≡ none → pending_at addr t ≡ pending_at addr t - 1
    none_at e = rw (pending_at, e) (omega arith)

pending_at-post :
    (addr count : ℕ) (t : PendingWakes)
    → pending_at addr t ≤ 64
    → pending_at addr (futex_pending_post addr count t) ≡ min (pending_at addr t + count) 64
unfolding futex_pending_post
pending_at-post addr count t h = elim (Bool-cases (count == 0)) [
  | inl z ↦ rw z (ground (arith, z))
  | inr z ↦
      rw
        (
          z,
          pending_at,
          get-put addr addr (min (min (pending_at addr t + count) (2 ^ 32 - 1)) 64) t,
          eq_refl addr,
        )
        (omega arith)
]

-- A sequence of waits, by processes in turn.
unfoldable pub waits :
    (ℕ → WaitState → WaitState × Outcome) → List ℕ → WaitState → WaitState × List Outcome
waits wait [] s = (s, [])
waits wait (pid ∷ pids) s =
    let (s', o) = wait pid s in let (s'', os) = waits wait pids s' in (s'', o ∷ os)

-- The first waits, as many as are granted, return; the others park.
abbrev pub first_return : ℕ → ℕ → List Outcome
first_return granted n = replicate (min n granted) success ++ replicate (n - granted) parks

first_return-nil : (p : ℕ) → [] ≡ first_return p 0
first_return-nil p =
    let a : min 0 p ≡ 0 = omega arith in let b : 0 - p ≡ 0 = omega arith in rw (a, b) refl

first_return-zero : (p n : ℕ) → p ≡ 0 → parks ∷ first_return p n ≡ first_return p (suc n)
first_return-zero p n z =
    let a : min (suc n) p ≡ 0 = omega (arith, z) in
    let b : suc n - p ≡ suc (n - p) = omega (arith, z) in
    let c : min n p ≡ 0 = omega (arith, z) in rw (a, b, c) refl

first_return-suc : (p n : ℕ) → 0 < p → success ∷ first_return (p - 1) n ≡ first_return p (suc n)
first_return-suc p n z =
    let a : min (suc n) p ≡ suc (min n (p - 1)) = omega arith in
    let b : suc n - p ≡ n - (p - 1) = omega arith in rw (a, b) refl

module _ (addr val : ℕ) (target : futex_addr_is_target addr ≡ true)
    (no_bypass : (addr == futex_addr_pid1_wait && val == 0) ≡ false) where
  in_range : (ltb addr 0x1000 || not (addr % 4 == 0)) ≡ false
  in_range = ground arith

  bypass-skipped : (pid : ℕ) (s : WaitState) → futex_pid1_postrun_bypass addr val pid s ≡ (s, false)
  unfolding futex_pid1_postrun_bypass
  bypass-skipped pid s =
      let e : (not (addr == futex_addr_pid1_wait) || not (val == 0)) ≡ true = ground arith in
      rw (futex_pid1_postrun_bypass, e) refl

  futex_wait-none :
      (pid : ℕ) (s : WaitState)
      → pid ≢ 0
      → pending_at addr s.futexes.pending ≡ 0
      → futex_wait addr val val pid s ≡ queued addr pid s
  unfolding futex_wait
  futex_wait-none pid s n z =
      let v : (val == val) ≡ true = eq_refl val in
      let w : (pid == 0) ≡ false = ground (arith, n) in
      let (a, b) = take_cases addr s.futexes.pending in
      let f : (futex_pending_take addr s.futexes.pending).1 ≡ false = a ∙ ground (arith, z) in
      rw (futex_wait, in_range, v, w, bypass-skipped pid s, target, f) refl

  futex_wait-some :
      (pid : ℕ) (s : WaitState)
      → pid ≢ 0
      → 0 < pending_at addr s.futexes.pending
      → futex_wait addr val val pid s ≡ (
        record s {
          futexes = record s.futexes { pending = (futex_pending_take addr s.futexes.pending).0 };
        },
        success,
      )
  unfolding futex_wait
  futex_wait-some pid s n z =
      let v : (val == val) ≡ true = eq_refl val in
      let w : (pid == 0) ≡ false = ground (arith, n) in
      let (a, b) = take_cases addr s.futexes.pending in
      let f : (futex_pending_take addr s.futexes.pending).1 ≡ true = a ∙ ground (arith, z) in
      rw (futex_wait, in_range, v, w, bypass-skipped pid s, target, f) refl

  futex_wait_bitset-parks :
      (pid : ℕ) (s : WaitState) → pid ≢ 0 → futex_wait_bitset addr val val pid s ≡ queued addr pid s
  unfolding futex_wait_bitset
  futex_wait_bitset-parks pid s n =
      let v : (val == val) ≡ true = eq_refl val in
      let w : (pid == 0) ≡ false = ground (arith, n) in
      rw (futex_wait_bitset, in_range, v, w, bypass-skipped pid s) refl

  waits-take :
      (pids : List ℕ) (s : WaitState)
      → All (λ pid. pid ≢ 0) pids
      → let p = pending_at addr s.futexes.pending in
        let (s', os) = waits (futex_wait addr val val) pids s in
        (os ≡ first_return p (length pids)) × (pending_at addr s'.futexes.pending ≡ p - length pids)
  unfolding waits
  waits-take [] s n = (first_return-nil (pending_at addr s.futexes.pending), omega arith)
  waits-take (pid ∷ pids) s n =
      let p = pending_at addr s.futexes.pending in
      elim (Bool-cases (ltb 0 p)) [
        | inr e ↦
            (let z : p ≡ 0 = omega (arith, ltb→ge 0 p e) in
              let (a, b) = waits-take pids (queued addr pid s).0 n.1 in
              rw (waits, futex_wait-none pid s n.0 z)
                (ap (◌∷◌ parks) a ∙ first_return-zero p (length pids) z, b ∙ omega (arith, z)))
        | inl e ↦
            (let z = ltb→lt 0 p e in
              let t = (futex_pending_take addr s.futexes.pending).0 in
              let q = (take_cases addr s.futexes.pending).1 in
              let (a, b) =
                waits-take pids (record s { futexes = record s.futexes { pending = t } }) n.1 in
              rw (waits, futex_wait-some pid s n.0 z)
                (
                  ap (◌∷◌ success) (a ∙ ap (λ m. first_return m (length pids)) q)
                      ∙ first_return-suc p (length pids) z,
                  b ∙ omega (arith, q),
                ))
      ]

  waits-miss :
      (pids : List ℕ) (s : WaitState)
      → All (λ pid. pid ≢ 0) pids
      → let (s', os) = waits (futex_wait_bitset addr val val) pids s in
        (os ≡ replicate (length pids) parks) × (s'.futexes.pending ≡ s.futexes.pending)
  unfolding waits
  waits-miss [] s n = (refl, refl)
  waits-miss (pid ∷ pids) s n =
      let (a, b) = waits-miss pids (queued addr pid s).0 n.1 in
      rw (waits, futex_wait_bitset-parks pid s n.0) (ap (◌∷◌ parks) a, b)

-- Nobody waits at one of the three target addresses, where at most 64 wakes are pending; the word
-- there has the value that the waiters expect, and address and value are not those at which process 1
-- may pass by. After a wake for `count` waiters, of a sequence of FUTEX_WAIT calls by processes other
-- than 0 the first ones return 0 at once, as many as the wakes then pending, which are those before
-- and `count` more but at most 64, and use them up; the others are queued to sleep. The same sequence
-- of FUTEX_WAIT_BITSET calls is queued to sleep as a whole and leaves the pending wakes.
pub wake-not_lost :
    (k : Processes) (caller addr count val : ℕ) (pids : List ℕ) (s : WaitState)
    → get addr s.futexes.waiters ≡ none
    → futex_addr_is_target addr ≡ true
    → pending_at addr s.futexes.pending ≤ 64
    → (addr == futex_addr_pid1_wait && val == 0) ≡ false
    → All (λ pid. pid ≢ 0) pids
    → let woken : WaitState = record s {
      futexes = (futex_wake_waiters k caller addr count s.futexes).0;
    } in
      let granted : ℕ = min (pending_at addr s.futexes.pending + count) 64 in
      let (s', os) = waits (futex_wait addr val val) pids woken in
      let (t', bs) = waits (futex_wait_bitset addr val val) pids woken in
      (os ≡ first_return granted (length pids))
      × (pending_at addr s'.futexes.pending ≡ granted - length pids)
      × (bs ≡ replicate (length pids) parks)
      × (pending_at addr t'.futexes.pending ≡ granted)
unfolding futex_wake_waiters
wake-not_lost k caller addr count val pids s e g h v n =
    let posted : WaitState = record s {
      futexes = record s.futexes { pending = futex_pending_post addr count s.futexes.pending };
    } in
    let q = pending_at-post addr count s.futexes.pending h in
    let (a, b) = waits-take addr val g v pids posted n in
    let (c, d) = waits-miss addr val g v pids posted n in
    rw (futex_wake_waiters, e, g)
      (
        a ∙ ap (λ m. first_return m (length pids)) q,
        b ∙ ap (λ m. m - length pids) q,
        c,
        ap (pending_at addr) d ∙ q,
      )
