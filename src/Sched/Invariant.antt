-- ===== src/Sched/Invariant.antt =====
-- What holds of the task table of kernel/src/sched/mod.rs once the idle task is registered.
use native.Mathlib.Decide.{ℕ_discrete}
use native.Mathlib.Nat.{mod-lt}
use oscortex.Base.{
  ℕ, ◌+◌, ◌%◌, ◌^◌, ◌≤◌, ◌<◌, ◌≡◌, refl, sym, ap, subst, ◌∙◌, ◌≢◌, inl, inr, Bool, true, false,
  ◌||◌, ◌&&◌, Option, none, some, length, set, arith, length-set, get_or-set_self, get_or-set_ne,
  ◌==◌, Bool-cases, Option-cases, ltb, leb,
}
use oscortex.Sched.{
  Task, TaskState, ready, running, zombie, Scheduler, max_tasks, sched_slice, task_at, add_task,
  update, modify, in_state, is_running, is_zombie, next_task, save, preempt, switch_to, schedule,
  tick, spawn_kernel_task, mark_current_zombie,
}
use oscortex.Sched.Search.{Outcome, found, nothing_ready, find_ready-Outcome}

abbrev pub active : TaskState → Bool
active st = is_running st || is_zombie st

-- The filled slots are the first `count`; the current task is running, or a zombie that was left;
-- no other task is running.
pub record IsSched (s : Scheduler) : Type 0 where
  pub slots : length s.tasks ≡ max_tasks
  pub fits : s.count ≤ max_tasks
  pub in_range : s.current < s.count
  pub filled : (i : ℕ) → i < s.count → in_state (λ _. true) (task_at s i) ≡ true
  pub current_active : in_state active (task_at s s.current) ≡ true
  pub others_wait : (i : ℕ) → i ≢ s.current → in_state is_running (task_at s i) ≡ false

-- A test that holds of the updated task, and of the others as they were, holds of the new table.
modify_at :
    (P : Option Task → Type 0) (f : Task → Task) (i j : ℕ) (s : Scheduler)
    → i < length s.tasks
    → (j ≡ i → P (update f (task_at s i)))
    → (j ≢ i → P (task_at s j))
    → P (task_at (modify f i s) j)
modify_at P f i j s h same other = elim (ℕ_discrete j i) [
  | yes e ↦
      subst P
        (sym (get_or-set_self s.tasks i (update f (task_at s i)) none h)
          ∙ ap (task_at (modify f i s)) (sym e))
        (same e)
  | no n ↦ subst P (sym (get_or-set_ne s.tasks i j (update f (task_at s i)) none n)) (other n)
]

abbrev pub IsFilled : Option Task → Type 0
IsFilled o = in_state (λ _. true) o ≡ true

IsFilled-update : (f : Task → Task) (o : Option Task) → IsFilled o → IsFilled (update f o)
IsFilled-update f none h = h
IsFilled-update f (some t) h = refl

modify-IsFilled :
    (f : Task → Task) (i j : ℕ) (s : Scheduler)
    → i < length s.tasks
    → IsFilled (task_at s j)
    → IsFilled (task_at (modify f i s) j)
modify-IsFilled f i j s h e =
    modify_at IsFilled f i j s h
      (λ p. IsFilled-update f (task_at s i) (subst (λ t. IsFilled (task_at s t)) p e)) (λ _. e)

-- Marking the current task of a consistent task table as a zombie keeps the table consistent.
pub mark_current_zombie-IsSched : (s : Scheduler) → IsSched s → IsSched (mark_current_zombie s)
unfolding mark_current_zombie
mark_current_zombie-IsSched s v = record {
  slots = length-set s.tasks s.current _ ∙ v.slots;
  fits = v.fits;
  in_range = v.in_range;
  filled = λ i p. modify-IsFilled to_zombie s.current i s here (v.filled i p);
  current_active =
      modify_at (λ o. in_state active o ≡ true) to_zombie s.current s.current s here
        (λ _. zombie_active (task_at s s.current) (v.filled s.current v.in_range))
        (λ n. absurd (n refl));
  others_wait = λ i n.
      modify_at (λ o. in_state is_running o ≡ false) to_zombie s.current i s here
        (λ e. absurd (n e)) (λ _. v.others_wait i n);
}
  where
    to_zombie : Task → Task
    to_zombie t = record t { state = zombie }

    here : s.current < length s.tasks
    here = omega (arith, v.slots, v.fits, v.in_range)

    zombie_active : (o : Option Task) → IsFilled o → in_state active (update to_zombie o) ≡ true
    zombie_active none h = h
    zombie_active (some t) h = refl

abbrev pub added : Scheduler → Task → Scheduler
added s t = record s {
  tasks = set s.tasks s.count (some t);
  count = s.count + 1;
  next_pid = (s.next_pid + 1) % 2 ^ 64;
}

-- Spawning takes the next slot and the next pid, or panics on a full table.
pub spawn_cases :
    (sp : ℕ) (s t : Scheduler)
    → spawn_kernel_task sp s ≡ some t
    → (s.count < max_tasks)
      × (t ≡ added s (record { pid = s.next_pid; state = ready; priority = 128; kernel_sp = sp }))
unfolding spawn_kernel_task add_task
spawn_cases sp s t e = ground arith

added-IsSched :
    (s : Scheduler) (t : Task)
    → t.state ≡ ready
    → s.count < max_tasks
    → IsSched s
    → IsSched (added s t)
added-IsSched s t r h v = record {
  slots = length-set s.tasks s.count (some t) ∙ v.slots;
  fits = omega arith;
  in_range = omega (arith, v.in_range);
  filled = λ i p. elim (ℕ_discrete i s.count) [
    | yes e ↦
        subst IsFilled
          (sym (get_or-set_self s.tasks s.count (some t) none here)
            ∙ ap (task_at (added s t)) (sym e))
          refl
    | no n ↦
        subst IsFilled (sym (get_or-set_ne s.tasks s.count i (some t) none n))
          (v.filled i (omega arith))
  ];
  current_active =
      ap (in_state active)
        (get_or-set_ne s.tasks s.count s.current (some t) none (λ e. omega (arith, v.in_range)))
      ∙ v.current_active;
  others_wait = λ i c. elim (ℕ_discrete i s.count) [
    | yes e ↦
        ap (in_state is_running)
          (ap (task_at (added s t)) e ∙ get_or-set_self s.tasks s.count (some t) none here)
        ∙ ap is_running r
    | no n ↦
        ap (in_state is_running) (get_or-set_ne s.tasks s.count i (some t) none n)
        ∙ v.others_wait i c
  ];
}
  where
    here : s.count < length s.tasks
    here = omega (arith, v.slots)

-- When `spawn_kernel_task` finds room in a consistent task table, the table with the new task is
-- consistent.
pub spawn_kernel_task-IsSched :
    (sp : ℕ) (s t : Scheduler) → spawn_kernel_task sp s ≡ some t → IsSched s → IsSched t
spawn_kernel_task-IsSched sp s t e v =
    let (h, eq) = spawn_cases sp s t e in subst IsSched (sym eq) (added-IsSched s _ refl h v)

preempt_waits :
    (o : Option Task)
    → in_state is_running (update (λ t. record t { state = preempt t.state }) o) ≡ false
preempt_waits none = refl
preempt_waits (some t) = ground arith

save-in_state :
    (p : TaskState → Bool) (sp : ℕ) (o : Option Task)
    → in_state p (update (save sp) o) ≡ in_state p o
save-in_state p sp none = refl
save-in_state p sp (some t) = ground arith

-- The three updates of a switch, one after the other.
abbrev left : Scheduler → Scheduler
left s = modify (λ t. record t { state = preempt t.state }) s.current s

abbrev entered : ℕ → Scheduler → Scheduler
entered next s = modify (λ t. record t { state = running }) next (left s)

running_active :
    (o : Option Task)
    → IsFilled o
    → in_state active (update (λ t. record t { state = running }) o) ≡ true
running_active none h = h
running_active (some t) h = refl

module _ (sp next : ℕ) (s : Scheduler) (v : IsSched s) (h : next < s.count) where
  here : s.current < length s.tasks
  here = omega (arith, v.slots, v.fits, v.in_range)

  length-left : length (left s).tasks ≡ length s.tasks
  length-left = length-set s.tasks s.current _

  there : next < length (left s).tasks
  there = omega (arith, length-left, v.slots, v.fits)

  length-entered : length (entered next s).tasks ≡ length s.tasks
  length-entered = length-set (left s).tasks next _ ∙ length-left

  -- Saving the stack pointer changes no state.
  state-saved :
      (p : TaskState → Bool) (i : ℕ)
      → in_state p (task_at (modify (save sp) s.current (entered next s)) i)
        ≡ in_state p (task_at (entered next s) i)
  state-saved p i =
      modify_at (λ o. in_state p o ≡ in_state p (task_at (entered next s) i)) (save sp) s.current i
        (entered next s) (omega (arith, length-entered, here))
        (λ e. save-in_state p sp _ ∙ ap (λ t. in_state p (task_at (entered next s) t)) (sym e))
        (λ _. refl)

  left-IsFilled : (i : ℕ) → i < s.count → IsFilled (task_at (left s) i)
  left-IsFilled i p = modify-IsFilled _ s.current i s here (v.filled i p)

  switch_to-IsSched : IsSched (switch_to sp next s)
  unfolding switch_to
  switch_to-IsSched = record {
    slots = length-set (entered next s).tasks s.current _ ∙ length-entered ∙ v.slots;
    fits = v.fits;
    in_range = h;
    filled = λ i p.
        state-saved (λ _. true) i ∙ modify-IsFilled _ next i (left s) there (left-IsFilled i p);
    current_active =
        state-saved active next
        ∙ modify_at (λ o. in_state active o ≡ true) _ next next (left s) there
            (λ _. running_active (task_at (left s) next) (left-IsFilled next h))
            (λ n. absurd (n refl));
    others_wait = λ i n.
        state-saved is_running i
        ∙ modify_at (λ o. in_state is_running o ≡ false) _ next i (left s) there (λ e. absurd (n e))
            (λ _.
              modify_at (λ o. in_state is_running o ≡ false) _ s.current i s here
                (λ _. preempt_waits (task_at s s.current)) (v.others_wait i));
  }

-- The search stays inside the filled slots.
next_task-lt : (s : Scheduler) (next : ℕ) → 0 < s.count → next_task s ≡ some next → next < s.count
unfolding next_task
next_task-lt s next h e =
    go (find_ready-Outcome s.tasks s.count s.count ((s.current + 1) % s.count) (mod-lt _ h)) e
  where
    go :
        {o : Option ℕ}
        → Outcome s.tasks s.count s.count ((s.current + 1) % s.count) o
        → o ≡ some next
        → next < s.count
    go (found {n} f) q = ground (arith, q, f.place, mod-lt ((s.current + 1) % s.count + f.steps) h)
    go (nothing_ready all) q = cc

-- `schedule` keeps the task table consistent: the first `count` slots are filled, the current task is
-- running or a zombie, and no other task is running.
pub schedule-IsSched : (sp : ℕ) (s : Scheduler) → IsSched s → IsSched (schedule sp s)
unfolding schedule
schedule-IsSched sp s v = elim (Bool-cases (leb s.count 1)) [
  | inl few ↦ rw few v
  | inr more ↦ elim (Option-cases (next_task s)) [
    | inl n ↦ rw (more, n, schedule) v
    | inr (next, e) ↦
        rw (more, e, schedule)
          (switch_to-IsSched sp next s v (next_task-lt s next (omega (arith, v.in_range)) e))
  ]
]

-- A timer tick, whether it ends a time slice or not, keeps the task table consistent.
pub tick-IsSched : (sp : ℕ) (s : Scheduler) → IsSched s → IsSched (tick sp s)
unfolding tick
tick-IsSched sp s v =
    let s' : Scheduler = record s { ticks = (s.ticks + 1) % 2 ^ 64 } in
    let v' : IsSched s' = record {
      slots = v.slots;
      fits = v.fits;
      in_range = v.in_range;
      filled = v.filled;
      current_active = v.current_active;
      others_wait = v.others_wait;
    } in
    elim (Bool-cases (ltb 1 s'.count && s'.ticks % sched_slice == 0)) [
      | inl due ↦ rw due (schedule-IsSched sp s' v')
      | inr early ↦ rw early v'
    ]
