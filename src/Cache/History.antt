-- ===== src/Cache/History.antt =====
-- Sequences of calls of kernel/src/pkg/cache.rs: a pinned entry outlives all of them.
use oscortex.Base.{
  ℕ, ◌≡◌, refl, sym, ap, ◌∙◌, ◌<◌, Bool, true, List, [], ◌∷◌, set, arith, Option-cases, inl, inr,
  get_or-set_ne, get_or-set_self, length, subst,
}
use oscortex.Cache.{
  CacheEntry, CacheState, position, insert, remove, lookup, touch, used_at, entry_at, is_pinned,
  empty, holds_hash, holds_app,
}
use oscortex.Cache.Victim.{position_sound}
use oscortex.Cache.Evict.{insert-keeps_pinned, remove-keeps_pinned}
use native.Mathlib.Decide.{ℕ_discrete}

pub data Call : Type 0 where
  inserts : ℕ → List ℕ → Bool → ℕ → Call
  removes : ℕ → Call
  looks_up : List ℕ → ℕ → Call
  touches : ℕ → ℕ → Call

abbrev step : Call → CacheState → CacheState
step (inserts id hash pinned now) c = (insert id hash pinned now c).0
step (removes id) c = (remove id c).0
step (looks_up hash now) c = (lookup hash now c).0
step (touches id now) c = touch id now c

abbrev pub run : List Call → CacheState → CacheState
run [] c = c
run (x ∷ xs) c = run xs (step x c)

-- The application and the contents that an entry holds.
abbrev pub held : CacheEntry → ℕ × List ℕ × Bool
held e = (e.app_id, e.hash, is_pinned e)

held-used :
    (es : List CacheEntry) (i j now : ℕ)
    → i < length es
    → held (entry_at (set es i (used_at now (entry_at es i))) j) ≡ held (entry_at es j)
held-used es i j now l = elim (ℕ_discrete j i) [
  | yes e ↦
      subst (λ k. held (entry_at (set es i (used_at now (entry_at es i))) k) ≡ held (entry_at es k))
        (sym e) (ap held (get_or-set_self es i (used_at now (entry_at es i)) empty l))
  | no n ↦ ap held (get_or-set_ne es i j (used_at now (entry_at es i)) empty n)
]

held-lookup :
    (hash : List ℕ) (now : ℕ) (c : CacheState) (j : ℕ)
    → held (entry_at (lookup hash now c).0.entries j) ≡ held (entry_at c.entries j)
held-lookup hash now c j = elim (Option-cases (position (holds_hash hash) c.entries 0)) [
  | inl e ↦ rw (e, lookup) refl
  | inr (i, e) ↦
      (let (k, a, b, q) = position_sound (holds_hash hash) c.entries 0 i e in
        rw (e, lookup) (held-used c.entries i j now (omega arith)))
]

held-touch :
    (id now : ℕ) (c : CacheState) (j : ℕ)
    → held (entry_at (touch id now c).entries j) ≡ held (entry_at c.entries j)
held-touch id now c j = elim (Option-cases (position (holds_app id) c.entries 0)) [
  | inl e ↦ rw (e, touch) refl
  | inr (i, e) ↦
      (let (k, a, b, q) = position_sound (holds_app id) c.entries 0 i e in
        rw (e, touch) (held-used c.entries i j now (omega arith)))
]

step_keeps :
    (x : Call) (c : CacheState) (j : ℕ)
    → is_pinned (entry_at c.entries j) ≡ true
    → held (entry_at (step x c).entries j) ≡ held (entry_at c.entries j)
step_keeps (inserts id hash pinned now) c j h =
    ap held (insert-keeps_pinned id hash pinned now c j h)
step_keeps (removes id) c j h = ap held (remove-keeps_pinned id c j h)
step_keeps (looks_up hash now) c j h = held-lookup hash now c j
step_keeps (touches id now) c j h = held-touch id now c j

-- An entry that is active and pinned keeps its application, its hash and its pin through any sequence
-- of `insert`, `remove`, `lookup` and `touch` calls.
pub run-keeps_pinned :
    (xs : List Call) (c : CacheState) (j : ℕ)
    → is_pinned (entry_at c.entries j) ≡ true
    → held (entry_at (run xs c).entries j) ≡ held (entry_at c.entries j)
run-keeps_pinned [] c j h = refl
run-keeps_pinned (x ∷ xs) c j h =
    let k = step_keeps x c j h in
    run-keeps_pinned xs (step x c) j (ap (λ (t : ℕ × List ℕ × Bool). t.2) k ∙ h) ∙ k
