-- ===== src/Sched/History.antt =====
-- Sequences of calls of kernel/src/sched/mod.rs, from the boot of the scheduler on.
use oscortex.Base.{
  none_ne_some, some-inj, ℕ, zero, suc, ◌<◌, ◌≢◌, ◌∙◌, sym, ◌≡◌, refl, Option, none, some, List, [],
  ◌∷◌, get_or, replicate, Option-cases, inl, inr, subst, true, false, arith,
}
use oscortex.Sched.{
  Scheduler, Task, running, new, register_current_as_task0, add_task, spawn_kernel_task,
  mark_current_zombie, schedule, tick, in_state, is_running, task_at,
}
use oscortex.Sched.Invariant.{
  IsSched, mark_current_zombie-IsSched, spawn_kernel_task-IsSched, schedule-IsSched, tick-IsSched,
}

-- Each call carries the stack pointer that the source gets from the architecture.
pub data Call : Type 0 where
  spawns : ℕ → Call
  exits : Call
  yields : ℕ → Call
  timer : ℕ → Call

unfoldable pub step : Call → Scheduler → Option Scheduler
step (spawns sp) s = spawn_kernel_task sp s
step exits s = some (mark_current_zombie s)
step (yields sp) s = some (schedule sp s)
step (timer sp) s = some (tick sp s)

-- A panic ends the sequence with `none`.
unfoldable pub run : List Call → Scheduler → Option Scheduler
run [] s = some s
run (c ∷ cs) s = elim (step c s) [ none ↦ none | some s' ↦ run cs s' ]

step-IsSched : (c : Call) (s t : Scheduler) → step c s ≡ some t → IsSched s → IsSched t
unfolding step
step-IsSched (spawns sp) s t e v = spawn_kernel_task-IsSched sp s t e v
step-IsSched exits s t e v = subst IsSched (some-inj e) (mark_current_zombie-IsSched s v)
step-IsSched (yields sp) s t e v = subst IsSched (some-inj e) (schedule-IsSched sp s v)
step-IsSched (timer sp) s t e v = subst IsSched (some-inj e) (tick-IsSched sp s v)

run_from : (cs : List Call) (s t : Scheduler) → run cs s ≡ some t → IsSched s → IsSched t
unfolding run
run_from [] s t e v = subst IsSched (some-inj e) v
run_from (c ∷ cs) s t e v = elim (Option-cases (step c s)) [
  | inl n ↦ absurd (none_ne_some (sym (rw (run, n) refl) ∙ e))
  | inr (s', k) ↦ run_from cs s' t (sym (rw (run, k) refl) ∙ e) (step-IsSched c s s' k v)
]

no_task : (n i : ℕ) → get_or (replicate {A = Option Task} n none) i none ≡ none
no_task zero i = refl
no_task (suc n) zero = refl
no_task (suc n) (suc i) = no_task n i

abbrev idle : ℕ → Task
idle pid = record { pid = pid; state = running; priority = 128; kernel_sp = 0 }

-- The table once the idle task is registered.
abbrev pub booted : Scheduler
booted = record {
  tasks = some (idle 10000) ∷ replicate 63 none;
  count = 1;
  current = 0;
  ticks = 0;
  next_pid = 10001;
}

booted-register : register_current_as_task0 new ≡ some booted
unfolding add_task
booted-register = refl

alone : (i : ℕ) → i ≢ 0 → in_state is_running (task_at booted i) ≡ false
alone zero h = absurd (h refl)
alone (suc i) h = rw (no_task 63 i) refl

filled_one : (i : ℕ) → i < 1 → in_state (λ _. true) (task_at booted i) ≡ true
filled_one zero h = refl
filled_one (suc i) h = absurd (omega arith)

booted-IsSched : IsSched booted
booted-IsSched = record {
  slots = refl;
  fits = omega arith;
  in_range = omega arith;
  filled = filled_one;
  current_active = refl;
  others_wait = alone;
}

-- After the scheduler's first task is registered, any sequence of spawns, exits, yields and timer
-- ticks that does not panic leaves a consistent table: 64 slots, the first `count` of them filled, the
-- current task running or a zombie, and no other task running.
pub run-IsSched :
    (cs : List Call) (s t : Scheduler)
    → register_current_as_task0 new ≡ some s
    → run cs s ≡ some t
    → IsSched t
run-IsSched cs s t r e =
    let q : booted ≡ s = some-inj (sym booted-register ∙ r) in
    run_from cs s t e (subst IsSched q booted-IsSched)
