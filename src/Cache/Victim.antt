-- ===== src/Cache/Victim.antt =====
-- The entry that kernel/src/pkg/cache.rs chooses to evict.
use oscortex.Base.{
  ℕ, zero, suc, ◌+◌, ◌≤◌, ◌<◌, ◌≡◌, Bool, true, false, none, some, List, [], ◌∷◌, length, arith,
  leb, Bool-cases, Option-cases, inl, inr,
}
use oscortex.Cache.{CacheEntry, position, victim, evictable, entry_at}

pub position_sound :
    (p : CacheEntry → Bool) (es : List CacheEntry) (k i : ℕ)
    → position p es k ≡ some i
    → (j : ℕ) × (i ≡ k + j) × (j < length es) × (p (entry_at es j) ≡ true)
unfolding position
position_sound p [] k i e = cc
position_sound p (o ∷ es) k i e = elim (Bool-cases (p o)) [
  | inl h ↦ (0, ground (arith, h, e), omega arith, h)
  | inr h ↦
      (let (j, a, b, q) = position_sound p es (k + 1) i (ground (arith, h, e)) in
        (suc j, omega arith, omega arith, q))
]

pub position-none :
    (p : CacheEntry → Bool) (es : List CacheEntry) (k : ℕ)
    → position p es k ≡ none
    → (j : ℕ) → j < length es
    → p (entry_at es j) ≡ false
unfolding position
position-none p [] k e j h = absurd (omega arith)
position-none p (o ∷ es) k e zero h = ground (arith, e)
position-none p (o ∷ es) k e (suc j) h =
    position-none p es (k + 1) (ground (arith, e)) j (omega arith)

pub victim-none :
    (es : List CacheEntry) (k : ℕ)
    → victim es k ≡ none
    → (j : ℕ) → j < length es
    → evictable (entry_at es j) ≡ false
unfolding victim
victim-none [] k e j h = absurd (omega arith)
victim-none (o ∷ es) k e zero h = elim (Option-cases (victim es (k + 1))) [
  | inl f ↦ ground (arith, e, f)
  | inr ((i, t), f) ↦ ground (arith, e, f)
]
victim-none (o ∷ es) k e (suc j) h = elim (Option-cases (victim es (k + 1))) [
  | inl f ↦ victim-none es (k + 1) f j (omega arith)
  | inr ((i, t), f) ↦ absurd (ground (arith, e, f))
]

-- The victim can be evicted, and no entry that can be evicted was used before it.
abbrev pub Oldest : List CacheEntry → ℕ → Type 0
Oldest es j =
    (j < length es)
    × (evictable (entry_at es j) ≡ true)
    × ((k : ℕ)
        → k < length es
        → evictable (entry_at es k) ≡ true
        → (entry_at es j).last_used ≤ (entry_at es k).last_used)

older :
    (o : CacheEntry) (es : List CacheEntry) (j : ℕ)
    → ((k : ℕ)
        → k < length es
        → evictable (entry_at es k) ≡ true
        → (entry_at es j).last_used ≤ (entry_at es k).last_used)
    → (evictable o ≡ true → (entry_at es j).last_used ≤ o.last_used)
    → (k : ℕ) → k < length (o ∷ es)
    → evictable (entry_at (o ∷ es) k) ≡ true
    → (entry_at es j).last_used ≤ (entry_at (o ∷ es) k).last_used
older o es j c h zero l v = h v
older o es j c h (suc k) l v = c k (omega arith) v

newer :
    (o : CacheEntry) (es : List CacheEntry)
    → ((k : ℕ)
        → k < length es
        → evictable (entry_at es k) ≡ true
        → o.last_used ≤ (entry_at es k).last_used)
    → (k : ℕ) → k < length (o ∷ es)
    → evictable (entry_at (o ∷ es) k) ≡ true
    → o.last_used ≤ (entry_at (o ∷ es) k).last_used
newer o es h zero l v = omega arith
newer o es h (suc k) l v = h k (omega arith) v

Oldest-skip :
    (o : CacheEntry) (es : List CacheEntry) (j : ℕ)
    → Oldest es j
    → (evictable o ≡ true → (entry_at es j).last_used ≤ o.last_used)
    → Oldest (o ∷ es) (suc j)
Oldest-skip o es j (a, b, c) h = (omega arith, b, λ k l v. older o es j c h k l v)

Oldest-here :
    (o : CacheEntry) (es : List CacheEntry)
    → evictable o ≡ true
    → ((k : ℕ)
        → k < length es
        → evictable (entry_at es k) ≡ true
        → o.last_used ≤ (entry_at es k).last_used)
    → Oldest (o ∷ es) 0
Oldest-here o es b h = (omega arith, b, λ k l v. newer o es h k l v)

pub victim_sound :
    (es : List CacheEntry) (k i t : ℕ)
    → victim es k ≡ some (i, t)
    → (j : ℕ) × (i ≡ k + j) × (t ≡ (entry_at es j).last_used) × Oldest es j
unfolding victim
victim_sound [] k i t e = cc
victim_sound (o ∷ es) k i t e = elim (Bool-cases (evictable o)) [
  | inr h ↦
      (let (j, a, b, q) = victim_sound es (k + 1) i t (ground (arith, h, e)) in
        (suc j, omega arith, b, Oldest-skip o es j q (λ v. ground (arith, h, v))))
  | inl h ↦ elim (Option-cases (victim es (k + 1))) [
    | inl f ↦ (
      0,
      ground (arith, h, f, e),
      ground (arith, h, f, e),
      Oldest-here o es h (λ m l v. absurd (ground (arith, victim-none es (k + 1) f m, l, v))),
    )
    | inr ((i', t'), f) ↦
        (let (j, a, b, q) = victim_sound es (k + 1) i' t' f in
          elim (Bool-cases (leb o.last_used t')) [
            | inl g ↦ (
              0,
              ground (arith, h, f, e, g),
              ground (arith, h, f, e, g),
              Oldest-here o es h (λ m l v. ground (arith, q.2 m l v, b, g)),
            )
            | inr g ↦ (
              suc j,
              ground (arith, h, f, e, g, a),
              ground (arith, h, f, e, g, b),
              Oldest-skip o es j q (λ v. ground (arith, b, g)),
            )
          ])
  ]
]
