-- ===== src/Sched/Tests.antt =====
-- The theorems on the scheduler at a table with the idle task, a second task and a third.
use oscortex.Base.{
  true, false, ℕ, zero, suc, ◌≤◌, ◌<◌, ◌≡◌, ◌≢◌, refl, Option, none, some, List, [], ◌∷◌, replicate,
  take, get_or, arith,
}
use oscortex.Sched.{
  Task, running, ready, zombie, Scheduler, switch_to, find_ready, next_task, spawn_kernel_task,
  add_task, mark_current_zombie, schedule, tick, in_state, task_at, is_running,
}
use oscortex.Sched.Invariant.{IsSched}
use oscortex.Sched.History.{Call, spawns, exits, yields, timer, run, step, run-IsSched}
use oscortex.Sched.Choice.{schedules, schedules-reach}

abbrev task : ℕ → Task
task pid = record { pid = pid; state = ready; priority = 128; kernel_sp = 0 }

abbrev tasks : List (Option Task)
tasks =
    some (record { pid = 10000; state = running; priority = 128; kernel_sp = 0 })
    ∷ some (task 10001)
    ∷ some (task 10002)
    ∷ replicate 61 none

abbrev booted : Scheduler
booted = record { tasks = tasks; count = 3; current = 0; ticks = 0; next_pid = 10003 }

get_or-replicate : (n i : ℕ) → get_or (replicate {A = Option Task} n none) i none ≡ none
get_or-replicate zero i = refl
get_or-replicate (suc n) zero = refl
get_or-replicate (suc n) (suc i) = get_or-replicate n i

filled_slots : (i : ℕ) → i < 3 → in_state (λ _. true) (task_at booted i) ≡ true
filled_slots zero h = refl
filled_slots (suc zero) h = refl
filled_slots (suc (suc zero)) h = refl
filled_slots (suc (suc (suc i))) h = absurd (omega arith)

waiting_slots : (i : ℕ) → i ≢ 0 → in_state is_running (task_at booted i) ≡ false
waiting_slots zero h = absurd (h refl)
waiting_slots (suc zero) h = refl
waiting_slots (suc (suc zero)) h = refl
waiting_slots (suc (suc (suc i))) h = rw (get_or-replicate 61 i) refl

booted-IsSched : IsSched booted
booted-IsSched = record {
  slots = refl;
  fits = omega arith;
  in_range = omega arith;
  filled = filled_slots;
  current_active = refl;
  others_wait = waiting_slots;
}

other : ◌≢◌ {A = ℕ} 2 0
other e = cc

schedules-reach_example : (n : ℕ) × (n ≤ 2) × ((schedules (take n (8 ∷ 9 ∷ [])) booted).current ≡ 2)
schedules-reach_example =
    schedules-reach (8 ∷ 9 ∷ []) booted 2 booted-IsSched (omega arith) other refl (omega arith)

-- The table once the idle task is registered.
abbrev start : Scheduler
start = record {
  tasks =
      some (record { pid = 10000; state = running; priority = 128; kernel_sp = 0 })
      ∷ replicate 63 none;
  count = 1;
  current = 0;
  ticks = 0;
  next_pid = 10001;
}

abbrev calls : List Call
calls = spawns 64 ∷ yields 32 ∷ exits ∷ timer 16 ∷ []

abbrev after : Scheduler
after = record {
  tasks =
      some (record { pid = 10000; state = ready; priority = 128; kernel_sp = 32 })
      ∷ some (record { pid = 10001; state = zombie; priority = 128; kernel_sp = 64 })
      ∷ replicate 62 none;
  count = 2;
  current = 1;
  ticks = 1;
  next_pid = 10002;
}

run-IsSched_example : IsSched after
unfolding run step add_task spawn_kernel_task schedule switch_to find_ready next_task
    mark_current_zombie tick
run-IsSched_example = run-IsSched calls start after refl refl
