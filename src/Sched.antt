-- ===== src/Sched.antt =====
-- kernel/src/sched/mod.rs: the table of kernel tasks and round-robin scheduling.
-- A task's name and stack base carry no behaviour and are left out; what the architecture's
-- `context_switch` leaves in the saved stack pointer is an argument.
pub mod Search
pub mod Invariant
pub mod Choice
pub mod History
mod Tests
use oscortex.Base.{
  ℕ, zero, suc, ◌+◌, ◌%◌, ◌^◌, Bool, true, false, ◌&&◌, Option, none, some, List, get_or, set,
  replicate, if◌then◌else◌, ◌==◌, leb, ltb,
}

abbrev pub max_tasks : ℕ
max_tasks = 64

abbrev pub sched_slice : ℕ
sched_slice = 5

pub data TaskState : Type 0 where
  ready running blocked zombie : TaskState

pub record Task : Type 0 where
  pub pid : ℕ
  pub state : TaskState
  pub priority : ℕ
  pub kernel_sp : ℕ

-- `SCHED` and `NEXT_PID`.
pub record Scheduler : Type 0 where
  pub tasks : List (Option Task)
  pub count : ℕ
  pub current : ℕ
  pub ticks : ℕ
  pub next_pid : ℕ

abbrev pub new : Scheduler
new = record {
  tasks = replicate max_tasks none;
  count = 0;
  current = 0;
  ticks = 0;
  next_pid = 10000;
}

abbrev pub task_at : Scheduler → ℕ → Option Task
task_at s i = get_or s.tasks i none

-- The assertion `slot < MAX_TASKS` panics: `none`.
pub add_task : Scheduler → Task → Option Scheduler
add_task s t =
    if ltb s.count max_tasks
    then some (record s { tasks = set s.tasks s.count (some t); count = s.count + 1 })
    else none

abbrev fetch_pid : Scheduler → Scheduler
fetch_pid s = record s { next_pid = (s.next_pid + 1) % 2 ^ 64 }

abbrev pub register_current_as_task0 : Scheduler → Option Scheduler
register_current_as_task0 s =
    elim (add_task (fetch_pid s)
      (record { pid = s.next_pid; state = running; priority = 128; kernel_sp = 0 })) [
        | none ↦ none
        | some s' ↦ some (record s' { current = s.count })
      ]

-- `kernel_sp` points to the first-run frame that the architecture's code builds.
pub spawn_kernel_task : ℕ → Scheduler → Option Scheduler
spawn_kernel_task kernel_sp s =
    add_task (fetch_pid s)
      (record { pid = s.next_pid; state = ready; priority = 128; kernel_sp = kernel_sp })

abbrev pub update : (Task → Task) → Option Task → Option Task
update f none = none
update f (some t) = some (f t)

abbrev pub modify : (Task → Task) → ℕ → Scheduler → Scheduler
modify f i s = record s { tasks = set s.tasks i (update f (task_at s i)) }

pub mark_current_zombie : Scheduler → Scheduler
mark_current_zombie s = modify (λ t. record t { state = zombie }) s.current s

abbrev pub in_state : (TaskState → Bool) → Option Task → Bool
in_state p none = false
in_state p (some t) = p t.state

abbrev pub is_ready : TaskState → Bool
is_ready ready = true
is_ready _ = false

abbrev pub is_running : TaskState → Bool
is_running running = true
is_running _ = false

abbrev pub is_zombie : TaskState → Bool
is_zombie zombie = true
is_zombie _ = false

-- The `loop` of `schedule`: `rest` slots are left before the search is back at its start.
pub find_ready : List (Option Task) → ℕ → ℕ → ℕ → Option ℕ
find_ready tasks count zero next = none
find_ready tasks count (suc rest) next =
    if in_state is_ready (get_or tasks next none)
    then some next
    else find_ready tasks count rest ((next + 1) % count)

pub next_task : Scheduler → Option ℕ
next_task s = find_ready s.tasks s.count s.count ((s.current + 1) % s.count)

abbrev pub preempt : TaskState → TaskState
preempt running = ready
preempt other = other

-- What `context_switch` saves for the outgoing task: nothing for a zombie, which gets a scratch word.
abbrev pub save : ℕ → Task → Task
save sp t = if is_zombie t.state then t else record t { kernel_sp = sp }

-- Leave the current task for `next`; `sp` is the outgoing stack pointer.
pub switch_to : ℕ → ℕ → Scheduler → Scheduler
switch_to sp next s =
    let left = modify (λ t. record t { state = preempt t.state }) s.current s in
    let entered = modify (λ t. record t { state = running }) next left in
    let saved = modify (save sp) s.current entered in record saved { current = next }

-- The table after `schedule`, whose caller's stack pointer is `sp`.
pub schedule : ℕ → Scheduler → Scheduler
schedule sp s =
    if leb s.count 1 then s else elim (next_task s) [ none ↦ s | some next ↦ switch_to sp next s ]

pub tick : ℕ → Scheduler → Scheduler
tick sp s =
    let s' : Scheduler = record s { ticks = (s.ticks + 1) % 2 ^ 64 } in
    if ltb 1 s'.count && s'.ticks % sched_slice == 0 then schedule sp s' else s'
