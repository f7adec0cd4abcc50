-- ===== src/Sched/Choice.antt =====
-- Which task `schedule` of kernel/src/sched/mod.rs switches to: no ready task is passed over for ever.
use native.Mathlib.Nat.{mod-add-mod, mod-eq_of_lt, mod-eq-sub-mod, mod-lt}
use native.Mathlib.Decide.{ℕ_discrete, dec_lt}
use oscortex.Base.{
  ℕ, suc, ◌+◌, ◌-◌, ◌%◌, ◌≤◌, ◌<◌, ◌≡◌, refl, sym, ap, ◌∙◌, ◌≢◌, ◌⊎◌, inl, inr, true, false, Option,
  none, some, List, [], ◌∷◌, length, take, get_or, arith, get_or-set_ne, if◌then◌else◌, leb,
}
use oscortex.Sched.{Scheduler, task_at, in_state, is_ready, next_task, switch_to, schedule}
use oscortex.Sched.Search.{Outcome, found, nothing_ready, FirstReady, find_ready-Outcome}
use oscortex.Sched.Invariant.{IsSched, schedule-IsSched}

-- How far round the table `j` is from the current task.
abbrev pub distance : Scheduler → ℕ → ℕ
distance s j = if leb s.current j then j - s.current else j + s.count - s.current

-- A sum of two indices goes round at most once.
wrap : (x c : ℕ) → x < c + c → ((x < c) × (x % c ≡ x)) ⊎ ((c ≤ x) × (x % c ≡ x - c))
wrap x c h = elim (dec_lt x c) [
  | yes p ↦ inl (p, mod-eq_of_lt p)
  | no p ↦ inr (
    omega arith,
    mod-eq-sub-mod {n = x} {m = c} (omega arith) ∙ mod-eq_of_lt {n = x - c} {m = c} (omega arith),
  )
]

module _ (s : Scheduler) (j : ℕ) (v : IsSched s) (hj : j < s.count) (ne : j ≢ s.current) where
  abbrev start : ℕ
  start = (s.current + 1) % s.count

  steps_from_start : (i : ℕ) → (start + i) % s.count ≡ (s.current + 1 + i) % s.count
  steps_from_start i = mod-add-mod (s.current + 1) s.count i

  distance_bounds : (0 < distance s j) × (distance s j < s.count)
  distance_bounds = ground (arith, v.in_range)

  -- The task `j` is met after `distance - 1` steps of the search.
  met : (start + (distance s j - 1)) % s.count ≡ j
  met = ground (
    arith,
    steps_from_start (distance s j - 1),
    wrap (s.current + 1 + (distance s j - 1)) s.count (omega (arith, distance_bounds, v.in_range)),
    v.in_range,
  )

  -- A slot met before `j` is nearer to `j`.
  nearer :
      (i n : ℕ) (t : Scheduler)
      → n ≡ (start + i) % s.count
      → t.current ≡ n
      → t.count ≡ s.count
      → i < distance s j - 1
      → (distance t j < distance s j) × (n ≢ j)
  nearer i n t e c d h = ground (
    arith,
    steps_from_start i,
    wrap (s.current + 1 + i) s.count (omega (arith, distance_bounds, v.in_range)),
    v.in_range,
  )

  -- A switch leaves the tasks that it is not about.
  task_at-switch_to : (sp next : ℕ) → j ≢ next → task_at (switch_to sp next s) j ≡ task_at s j
  unfolding switch_to
  task_at-switch_to sp next h =
      get_or-set_ne _ s.current j _ none ne
      ∙ get_or-set_ne _ next j _ none h
      ∙ get_or-set_ne s.tasks s.current j _ none ne

  abbrev Progress : Scheduler → Type 0
  Progress t =
      (t.current ≡ j) ⊎ ((in_state is_ready (task_at t j) ≡ true) × (distance t j < distance s j))

  Progress-found :
      (sp n : ℕ)
      → in_state is_ready (task_at s j) ≡ true
      → FirstReady s.tasks s.count s.count start n
      → Progress (switch_to sp n s)
  unfolding switch_to
  Progress-found sp n r f = elim (dec_lt f.steps (distance s j - 1)) [
    | yes p ↦
        let near = nearer f.steps n (switch_to sp n s) f.place refl refl p in
        inr (ap (in_state is_ready) (task_at-switch_to sp n (λ e. near.1 (sym e))) ∙ r, near.0)
    | no p ↦ elim (dec_lt (distance s j - 1) f.steps) [
      | yes q ↦ absurd (
          true_false (
            sym r
            ∙ ap (λ i. in_state is_ready (get_or s.tasks i none)) (sym met)
            ∙ f.skipped (distance s j - 1) q))
      | no q ↦ inl (
          f.place
          ∙ ap (λ i. (start + i) % s.count) {x = f.steps} {y = distance s j - 1} (omega arith)
          ∙ met)
    ]
  ]
    where
      true_false : true ≡ false → ⊥
      true_false e = cc

  -- While a task stays ready, every call of `schedule` either switches to it or comes nearer to it.
  pub schedule-nearer : (sp : ℕ) → in_state is_ready (task_at s j) ≡ true → Progress (schedule sp s)
  unfolding schedule next_task
  schedule-nearer sp r =
      rw (several, schedule)
        (go (find_ready-Outcome s.tasks s.count s.count start (mod-lt _ (omega arith))))
    where
      several : leb s.count 1 ≡ false
      several = ground (arith, v.in_range)

      go :
          {o : Option ℕ}
          → Outcome s.tasks s.count s.count start o
          → Progress (elim o [ none ↦ s | some next ↦ switch_to sp next s ])
      go (found {n} f) = Progress-found sp n r f
      go (nothing_ready all) = absurd (
          true_false (
            sym r
            ∙ ap (λ i. in_state is_ready (get_or s.tasks i none)) (sym met)
            ∙ all (distance s j - 1) (omega (arith, distance_bounds))))
        where
          true_false : true ≡ false → ⊥
          true_false e = cc

-- Calls of `schedule` one after the other, each with its caller's stack pointer.
pub schedules : List ℕ → Scheduler → Scheduler
schedules [] s = s
schedules (sp ∷ sps) s = schedules sps (schedule sp s)

count-schedule : (sp : ℕ) (s : Scheduler) → (schedule sp s).count ≡ s.count
unfolding schedule switch_to
count-schedule sp s = ground arith

-- In a consistent task table, a ready task other than the current one is switched to within as many
-- calls of `schedule` as it is slots away, whatever stack pointers the calls save.
pub schedules-reach :
    (sps : List ℕ) (s : Scheduler) (j : ℕ)
    → IsSched s
    → j < s.count
    → j ≢ s.current
    → in_state is_ready (task_at s j) ≡ true
    → distance s j ≤ length sps
    → (n : ℕ) × (n ≤ length sps) × ((schedules (take n sps) s).current ≡ j)
unfolding schedules
schedules-reach [] s j v hj ne r d = absurd (omega (arith, distance_bounds s j v hj ne))
schedules-reach (sp ∷ sps) s j v hj ne r d = elim (ℕ_discrete j (schedule sp s).current) [
  | yes here ↦ (1, omega arith, sym here)
  | no away ↦ elim (schedule-nearer s j v hj ne sp r) [
    | inl e ↦ (1, omega arith, e)
    | inr (r', nearer') ↦
        let (n, le, e) =
          schedules-reach sps (schedule sp s) j (schedule-IsSched sp s v)
            (omega (arith, count-schedule sp s)) away r' (omega (arith, nearer')) in
        (suc n, omega (arith, le), e)
  ]
]
