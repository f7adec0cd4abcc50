-- ===== src/Cache/Evict.antt =====
-- What kernel/src/pkg/cache.rs evicts: never a pinned entry, and of the others the one that was used
-- the longest ago.
use oscortex.Base.{
  ℕ, ◌<◌, ◌≡◌, refl, sym, ap, ◌∙◌, ◌≢◌, ◌⊎◌, Bool, true, false, none, some, List, [], ◌∷◌, ◌++◌,
  length, set, arith, Bool-cases, Option-cases, inl, inr, get_or-set_ne, get_or-set_self,
  length-set,
}
use oscortex.Cache.{
  CacheEntry, CacheState, position, victim, insert, remove, is_free, evictable, entry_at, fetched,
  empty, holds_app, is_pinned, is_active, lookup_by_id,
}
use oscortex.Cache.Victim.{position_sound, position-none, victim-none, victim_sound, Oldest}

abbrev pub IsFull : List CacheEntry → Type 0
IsFull es = (j : ℕ) → j < length es → is_active (entry_at es j) ≡ true

full-position : (es : List CacheEntry) → IsFull es → position is_free es 0 ≡ none
full-position es full = elim (Option-cases (position is_free es 0)) [
  | inl e ↦ e
  | inr (i, e) ↦
      (let (j, a, b, q) = position_sound is_free es 0 i e in absurd (ground (arith, full j b, q)))
]

pinned_one : (e : CacheEntry) → is_active e ≡ true → evictable e ≡ false → is_pinned e ≡ true
pinned_one e a b = ground (arith, a, b)

-- With every slot taken, `insert` either fails and changes nothing, and then every entry is pinned; or
-- it succeeds, and the new entry takes the slot of an entry that is not pinned and that no other such
-- entry precedes in time of use, whose application is uninstalled.
pub insert-full :
    (app_id : ℕ) (hash : List ℕ) (pinned : Bool) (now : ℕ) (c : CacheState)
    → IsFull c.entries
    → ((insert app_id hash pinned now c ≡ (c, false))
        × ((j : ℕ) → j < length c.entries → is_pinned (entry_at c.entries j) ≡ true))
      ⊎ ((j : ℕ) × Oldest c.entries j
          × (insert app_id hash pinned now c ≡ (
            record {
              entries = set c.entries j (fetched app_id hash pinned now);
              uninstalled = c.uninstalled ++ ((entry_at c.entries j).app_id ∷ []);
            },
            true,
          )))
unfolding insert
insert-full app_id hash pinned now c full =
    let free = full-position c.entries full in
    elim (Option-cases (victim c.entries 0)) [
      | inl v ↦ inl (
        rw (free, insert, v) refl,
        λ j l. pinned_one (entry_at c.entries j) (full j l) (victim-none c.entries 0 v j l),
      )
      | inr ((i, t), v) ↦
          (let (j, a, b, q) = victim_sound c.entries 0 i t v in
            let g : i ≡ j = omega arith in inr (j, q, rw (free, insert, v, g) refl))
    ]

true_ne_false : true ≢ false
true_ne_false e = cc

set_apart :
    (es : List CacheEntry) (i j : ℕ) (e : CacheEntry)
    → is_pinned (entry_at es j) ≡ true
    → is_pinned (entry_at es i) ≡ false
    → entry_at (set es i e) j ≡ entry_at es j
set_apart es i j e h k =
    get_or-set_ne es i j e empty
      (λ g. true_ne_false (sym h ∙ ap (λ (x : ℕ). is_pinned (entry_at es x)) g ∙ k))

free_unpinned : (e : CacheEntry) → is_free e ≡ true → is_pinned e ≡ false
free_unpinned e h = ground (arith, h)

evictable_unpinned : (e : CacheEntry) → evictable e ≡ true → is_pinned e ≡ false
evictable_unpinned e h = ground (arith, h)

plain_unpinned : (e : CacheEntry) → e.pinned ≡ false → is_pinned e ≡ false
plain_unpinned e h = ground (arith, h)

-- An entry that is active and pinned stays as it is, whatever is inserted.
pub insert-keeps_pinned :
    (app_id : ℕ) (hash : List ℕ) (pinned : Bool) (now : ℕ) (c : CacheState) (j : ℕ)
    → is_pinned (entry_at c.entries j) ≡ true
    → entry_at (insert app_id hash pinned now c).0.entries j ≡ entry_at c.entries j
unfolding insert
insert-keeps_pinned app_id hash pinned now c j h =
    elim (Option-cases (position is_free c.entries 0)) [
      | inr (i, e) ↦
          (let (k, a, b, q) = position_sound is_free c.entries 0 i e in
            let g : i ≡ k = omega arith in
            rw (e, insert, g)
              (set_apart c.entries k j _ h (free_unpinned (entry_at c.entries k) q)))
      | inl e ↦ elim (Option-cases (victim c.entries 0)) [
        | inl v ↦ rw (e, insert, v) refl
        | inr ((i, t), v) ↦
            (let (k, a, b, q) = victim_sound c.entries 0 i t v in
              let g : i ≡ k = omega arith in
              rw (e, insert, v, g)
                (set_apart c.entries k j _ h (evictable_unpinned (entry_at c.entries k) q.1)))
      ]
    ]

-- An entry that is active and pinned stays as it is, whatever application is removed.
pub remove-keeps_pinned :
    (app_id : ℕ) (c : CacheState) (j : ℕ)
    → is_pinned (entry_at c.entries j) ≡ true
    → entry_at (remove app_id c).0.entries j ≡ entry_at c.entries j
unfolding remove
remove-keeps_pinned app_id c j h = elim (Option-cases (position (holds_app app_id) c.entries 0)) [
  | inl e ↦ rw (e, remove) refl
  | inr (i, e) ↦ elim (Bool-cases ((entry_at c.entries i).pinned)) [
    | inl p ↦ rw (e, remove, p) refl
    | inr p ↦
        rw (e, remove, p) (set_apart c.entries i j _ h (plain_unpinned (entry_at c.entries i) p))
  ]
]

found :
    (p : CacheEntry → Bool) (es : List CacheEntry) (i : ℕ) (e : CacheEntry)
    → i < length es
    → p e ≡ true
    → elim (position p (set es i e) 0) as (λ o. Bool) [ none ↦ false | some k ↦ true ] ≡ true
found p es i e l h = elim (Option-cases (position p (set es i e) 0)) [
  | inr (k, f) ↦ rw f refl
  | inl f ↦
      (let g = position-none p (set es i e) 0 f i (omega (arith, length-set es i e)) in
        absurd (true_ne_false (sym h ∙ ap p (sym (get_or-set_self es i e empty l)) ∙ g)))
]

fetched-held :
    (app_id : ℕ) (hash : List ℕ) (pinned : Bool) (now : ℕ)
    → holds_app app_id (fetched app_id hash pinned now) ≡ true
fetched-held app_id hash pinned now = ground arith

-- After an `insert` that succeeds, `lookup_by_id` finds the application.
pub lookup_by_id-insert :
    (app_id : ℕ) (hash : List ℕ) (pinned : Bool) (now : ℕ) (c : CacheState)
    → (insert app_id hash pinned now c).1 ≡ true
    → lookup_by_id app_id (insert app_id hash pinned now c).0 ≡ true
unfolding insert lookup_by_id
lookup_by_id-insert app_id hash pinned now c h =
    elim (Option-cases (position is_free c.entries 0)) [
      | inr (i, e) ↦
          (let (k, a, b, q) = position_sound is_free c.entries 0 i e in
            rw (e, insert)
              (found (holds_app app_id) c.entries i (fetched app_id hash pinned now) (omega arith)
                (fetched-held app_id hash pinned now)))
      | inl e ↦ elim (Option-cases (victim c.entries 0)) [
        | inl v ↦ absurd (true_ne_false (sym h ∙ rw (e, insert, v) refl))
        | inr ((i, t), v) ↦
            (let (k, a, b, q) = victim_sound c.entries 0 i t v in
              rw (e, insert, v)
                (found (holds_app app_id) c.entries i (fetched app_id hash pinned now) (omega arith)
                  (fetched-held app_id hash pinned now)))
      ]
    ]
