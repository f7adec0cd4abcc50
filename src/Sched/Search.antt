-- ===== src/Sched/Search.antt =====
-- The round-robin search of `schedule` in kernel/src/sched/mod.rs.
use native.Mathlib.Nat.{mod-add-mod, mod-eq_of_lt}
use oscortex.Base.{
  ℕ, zero, suc, ◌+◌, ◌%◌, ◌<◌, ◌≡◌, sym, ap, ◌∙◌, inl, inr, Bool, true, false, Option, none, some,
  List, get_or, arith, Bool-cases,
}
use oscortex.Sched.{Task, in_state, is_ready, find_ready}

module _ (tasks : List (Option Task)) (count : ℕ) where
  abbrev pub ready_at : ℕ → Bool
  ready_at i = in_state is_ready (get_or tasks (i % count) none)

  -- The first ready slot from `next` on, going round, is `steps` further on.
  pub record FirstReady (rest next n : ℕ) : Type 0 where
    pub steps : ℕ
    pub within : steps < rest
    pub place : n ≡ (next + steps) % count
    pub ready : ready_at (next + steps) ≡ true
    pub skipped : (i : ℕ) → i < steps → ready_at (next + i) ≡ false

  pub data Outcome (rest next : ℕ) : Option ℕ → Type 0 where
    found : {n : ℕ} → FirstReady rest next n → Outcome rest next (some n)
    nothing_ready : ((i : ℕ) → i < rest → ready_at (next + i) ≡ false) → Outcome rest next none

  slot_step : (next i : ℕ) → ((next + 1) % count + i) % count ≡ (next + suc i) % count
  slot_step next i =
      mod-add-mod (next + 1) count i
      ∙ ap (λ (t : ℕ). t % count) {x = next + 1 + i} {y = next + suc i} (omega arith)

  at_slot : (p q : ℕ) → p % count ≡ q % count → ready_at p ≡ ready_at q
  at_slot p q e = ap (λ i. in_state is_ready (get_or tasks i none)) e

  first_slot :
      (next : ℕ) → next < count → ready_at (next + 0) ≡ in_state is_ready (get_or tasks next none)
  first_slot next h =
      ap (λ i. in_state is_ready (get_or tasks i none))
        (ap (λ (t : ℕ). t % count) {x = next + 0} {y = next} (omega arith) ∙ mod-eq_of_lt h)

  skip_slot :
      (rest next : ℕ) {o : Option ℕ}
      → next < count
      → in_state is_ready (get_or tasks next none) ≡ false
      → Outcome rest ((next + 1) % count) o
      → Outcome (suc rest) next o
  skip_slot rest next h busy (found f) = found (record {
    steps = suc f.steps;
    within = omega (arith, f.within);
    place = f.place ∙ slot_step next f.steps;
    ready =
        sym (at_slot ((next + 1) % count + f.steps) (next + suc f.steps) (slot_step next f.steps))
        ∙ f.ready;
    skipped = before;
  })
    where
      before : (i : ℕ) → i < suc f.steps → ready_at (next + i) ≡ false
      before zero p = first_slot next h ∙ busy
      before (suc i) p =
          sym (at_slot ((next + 1) % count + i) (next + suc i) (slot_step next i))
          ∙ f.skipped i (omega arith)
  skip_slot rest next h busy (nothing_ready none_at) = nothing_ready after
    where
      after : (i : ℕ) → i < suc rest → ready_at (next + i) ≡ false
      after zero p = first_slot next h ∙ busy
      after (suc i) p =
          sym (at_slot ((next + 1) % count + i) (next + suc i) (slot_step next i))
          ∙ none_at i (omega arith)

  -- The loop ends within `rest` rounds, at the first ready slot or with none ready.
  pub find_ready-Outcome :
      (rest next : ℕ) → next < count → Outcome rest next (find_ready tasks count rest next)
  unfolding find_ready
  find_ready-Outcome zero next h = nothing_ready (λ i p. absurd (omega arith))
  find_ready-Outcome (suc rest) next h =
      elim (Bool-cases (in_state is_ready (get_or tasks next none))) [
        | inl r ↦ rw r (
            found (record {
              steps = 0;
              within = omega arith;
              place = sym (
                  ap (λ (t : ℕ). t % count) {x = next + 0} {y = next} (omega arith)
                  ∙ mod-eq_of_lt h);
              ready = first_slot next h ∙ r;
              skipped = λ i p. absurd (omega arith);
            }))
        | inr r ↦
            rw r
              (skip_slot rest next h r (find_ready-Outcome rest ((next + 1) % count) (grind arith)))
      ]
