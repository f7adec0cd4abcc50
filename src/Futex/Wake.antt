-- ===== src/Futex/Wake.antt =====
-- Whom `futex_wake_waiters` of kernel/src/syscall/handlers/futex.rs wakes.
use oscortex.Base.{
  ℕ, zero, suc, ◌≡◌, ◌≢◌, refl, ap, ◌∙◌, Bool, true, false, not, some, List, [], ◌∷◌, take, drop,
  if◌then◌else◌, ◌==◌, arith, Bool-cases, inl, inr,
}
use oscortex.Futex.{
  Waiters, waiters_at, store, Processes, same_space, wake_loop, Futexes, futex_wake_waiters,
}
use oscortex.Futex.Map.{get, get-put, get-remove}

-- The entries that pass a test, in order.
unfoldable pub keep : (ℕ → Bool) → List ℕ → List ℕ
keep p [] = []
keep p (w ∷ ws) = let rest = keep p ws in if p w then w ∷ rest else rest

wake_loop-keep :
    (p : ℕ → Bool) (room : ℕ) (ws : List ℕ)
    → ((wake_loop p room ws).0 ≡ take room (keep p ws))
      × (keep p (wake_loop p room ws).1 ≡ drop room (keep p ws))
      × (keep (λ w. not (p w)) (wake_loop p room ws).1 ≡ keep (λ w. not (p w)) ws)
unfolding wake_loop keep
wake_loop-keep p zero [] = (refl, refl, refl)
wake_loop-keep p (suc room) [] = (refl, refl, refl)
wake_loop-keep p zero (w ∷ ws) = (refl, refl, refl)
wake_loop-keep p (suc room) (w ∷ ws) = elim (Bool-cases (p w)) [
  | inl e ↦
      (let (a, b, c) = wake_loop-keep p room ws in
        (
          rw (wake_loop, keep, e) (ap (◌∷◌ w) a),
          rw (wake_loop, keep, e) b,
          rw (wake_loop, keep, e) c,
        ))
  | inr e ↦
      (let (a, b, c) = wake_loop-keep p (suc room) ws in
        (
          rw (wake_loop, keep, e) a,
          rw (wake_loop, e) (rw (keep, e) b),
          rw (wake_loop, e) (rw (keep, e) (ap (◌∷◌ w) c)),
        ))
]

eq_refl : (a : ℕ) → (a == a) ≡ true
eq_refl a = ground arith

ne→== : (a b : ℕ) → b ≢ a → (a == b) ≡ false
ne→== a b n = grind arith

waiters_at-store : (addr : ℕ) (ws : List ℕ) (t : Waiters) → waiters_at addr (store addr ws t) ≡ ws
waiters_at-store addr [] t = rw (waiters_at, get-remove addr addr t, eq_refl addr) refl
waiters_at-store addr (w ∷ ws) t = rw (waiters_at, get-put addr addr (w ∷ ws) t, eq_refl addr) refl

get-store_ne :
    (addr other : ℕ) (ws : List ℕ) (t : Waiters)
    → other ≢ addr
    → get other (store addr ws t) ≡ get other t
get-store_ne addr other [] t n = get-remove addr other t ∙ rw (ne→== addr other n) refl
get-store_ne addr other (w ∷ ws) t n = get-put addr other (w ∷ ws) t ∙ rw (ne→== addr other n) refl

-- With waiters at the address, `futex_wake_waiters` wakes the first `count` of those that share the
-- address space of the caller, in order; the other waiters, of the same space or not, stay in their
-- order, and the waiters at other addresses are untouched.
pub futex_wake_waiters-wakes :
    (k : Processes) (caller addr count : ℕ) (s : Futexes) (ws : List ℕ)
    → get addr s.waiters ≡ some ws
    → let r : Futexes × List ℕ = futex_wake_waiters k caller addr count s in
      let same : ℕ → Bool = same_space k caller addr in
      let left : List ℕ = waiters_at addr r.0.waiters in
      (r.1 ≡ take count (keep same ws))
      × (keep same left ≡ drop count (keep same ws))
      × (keep (λ w. not (same w)) left ≡ keep (λ w. not (same w)) ws)
      × ((other : ℕ) → other ≢ addr → get other r.0.waiters ≡ get other s.waiters)
unfolding futex_wake_waiters
futex_wake_waiters-wakes k caller addr count s ws e =
    let p = same_space k caller addr in
    let (a, b, c) = wake_loop-keep p count ws in
    let left = (wake_loop p count ws).1 in
    let d = waiters_at-store addr left s.waiters in
    rw (futex_wake_waiters, e)
      (
        a,
        ap (keep p) d ∙ b,
        ap (keep (λ w. not (p w))) d ∙ c,
        λ other n. get-store_ne addr other left s.waiters n,
      )
