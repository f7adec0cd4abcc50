-- ===== src/Compositor/Hit.antt =====
-- The surface that `surface_at_point` of kernel/src/compositor/mod.rs finds.
use oscortex.Base.{
  ℕ, zero, suc, ◌%◌, ◌^◌, ◌≤◌, ◌<◌, ◌≡◌, ◌⊎◌, refl, Bool, true, false, ◌&&◌, Option, none, some,
  List, [], ◌∷◌, length, arith, Bool-cases, inl, inr, ltb→lt, ltb→ge,
}
use oscortex.Base.Signed.{rank, slt, i32_min}
use oscortex.Compositor.{Slot, Compositor, slot_at}
use oscortex.Compositor.Frame.{is_hit, hit_loop, surface_at_point}
use oscortex.Compositor.Paint.{depth}

-- The first of the surfaces at the point that no other one at the point is above.
pub record IsTopmost (px py : ℕ) (ss : List Slot) (i : ℕ) : Type 0 where
  pub in_range : i < length ss
  pub hit : is_hit px py (slot_at ss i) ≡ true
  pub above :
      (j : ℕ)
      → j < length ss
      → is_hit px py (slot_at ss j) ≡ true
      → depth (slot_at ss j) ≤ depth (slot_at ss i)
  pub first :
      (j : ℕ)
      → j < i
      → is_hit px py (slot_at ss j) ≡ true
      → depth (slot_at ss j) < depth (slot_at ss i)

-- No surface at the point is above `best`.
abbrev NoneAbove : ℕ → ℕ → List Slot → ℕ → Type 0
NoneAbove px py ss best =
    (j : ℕ) → j < length ss → is_hit px py (slot_at ss j) ≡ true → depth (slot_at ss j) ≤ rank best

none_next :
    (px py : ℕ) (s : Slot) (ss : List Slot) (best : ℕ)
    → (is_hit px py s ≡ true → depth s ≤ rank best)
    → NoneAbove px py ss best
    → NoneAbove px py (s ∷ ss) best
none_next px py s ss best h n zero l e = h e
none_next px py s ss best h n (suc j) l e = n j (omega arith) e

abbrev pub answer : Slot → Option (ℕ × ℕ)
answer s = some (s.surface.id, s.owner)

parts :
    (h : Bool) (s : Slot) (best : ℕ)
    → (h && slt best s.surface.z) ≡ true
    → (h ≡ true) × (rank best < depth s)
parts true s best e = (refl, ltb→lt (rank best) (depth s) e)
parts false s best e = cc

hit_loop-IsTopmost :
    (px py : ℕ) (ss : List Slot) (best : ℕ) (r : Option (ℕ × ℕ))
    → ((hit_loop px py ss best r ≡ r) × NoneAbove px py ss best)
      ⊎ ((i : ℕ) × (hit_loop px py ss best r ≡ answer (slot_at ss i))
          × IsTopmost px py ss i
          × (rank best < depth (slot_at ss i)))
unfolding hit_loop
hit_loop-IsTopmost px py [] best r = inl (refl, λ j l e. absurd (omega arith))
hit_loop-IsTopmost px py (s ∷ ss) best r =
    elim (Bool-cases (is_hit px py s && slt best s.surface.z)) [
      | inr e ↦
          (let low : is_hit px py s ≡ true → depth s ≤ rank best =
              λ k. not_above (is_hit px py s) s best e k in
            elim (hit_loop-IsTopmost px py ss best r) [
              | inl (q, n) ↦ inl (rw (hit_loop, e) q, none_next px py s ss best low n)
              | inr (i, q, t, b) ↦
                  inr (suc i, rw (hit_loop, e) q, later s ss i t (λ k. omega (arith, low k, b)), b)
            ])
      | inl e ↦
          (let (k, m) = parts (is_hit px py s) s best e in
            elim (hit_loop-IsTopmost px py ss s.surface.z (answer s)) [
              | inl (q, n) ↦ inr (zero, rw (hit_loop, e) q, at_head s ss k n, m)
              | inr (i, q, t, b) ↦
                  inr (suc i, rw (hit_loop, e) q, later s ss i t (λ l. b), omega (arith, m, b))
            ])
    ]
  where
    not_above :
        (h : Bool) (s : Slot) (best : ℕ)
        → (h && slt best s.surface.z) ≡ false
        → h ≡ true
        → depth s ≤ rank best
    not_above true s best e k = ltb→ge (rank best) (depth s) e
    not_above false s best e k = cc

    later :
        (s : Slot) (ss : List Slot) (i : ℕ)
        → IsTopmost px py ss i
        → (is_hit px py s ≡ true → depth s < depth (slot_at ss i))
        → IsTopmost px py (s ∷ ss) (suc i)
    later s ss i t h = record {
      in_range = omega (arith, t.in_range);
      hit = t.hit;
      above = later_above;
      first = later_first;
    }
      where
        later_above :
            (j : ℕ)
            → j < suc (length ss)
            → is_hit px py (slot_at (s ∷ ss) j) ≡ true
            → depth (slot_at (s ∷ ss) j) ≤ depth (slot_at ss i)
        later_above zero l e = omega (arith, h e)
        later_above (suc j) l e = t.above j (omega arith) e

        later_first :
            (j : ℕ)
            → j < suc i
            → is_hit px py (slot_at (s ∷ ss) j) ≡ true
            → depth (slot_at (s ∷ ss) j) < depth (slot_at ss i)
        later_first zero l e = h e
        later_first (suc j) l e = t.first j (omega arith) e

    at_head :
        (s : Slot) (ss : List Slot)
        → is_hit px py s ≡ true
        → NoneAbove px py ss s.surface.z
        → IsTopmost px py (s ∷ ss) zero
    at_head s ss k n = record {
      in_range = omega arith;
      hit = k;
      above = none_next px py s ss s.surface.z (λ e. omega arith) n;
      first = λ j l. absurd (omega arith);
    }

-- `surface_at_point` returns the identifier and the owner of a surface in use that contains the point,
-- above which no other such surface lies, and of several with the same z the first in the table; it
-- returns nothing only if every such surface has the lowest possible z.
pub surface_at_point-IsTopmost :
    (px py : ℕ) (c : Compositor)
    → ((surface_at_point px py c ≡ none)
        × ((j : ℕ)
            → j < length c.slots
            → is_hit px py (slot_at c.slots j) ≡ true
            → (slot_at c.slots j).surface.z % 2 ^ 32 ≡ i32_min))
      ⊎ ((i : ℕ) × (surface_at_point px py c ≡ answer (slot_at c.slots i))
          × IsTopmost px py c.slots i)
surface_at_point-IsTopmost px py c = elim (hit_loop-IsTopmost px py c.slots i32_min none) [
  | inl (q, n) ↦ inl (q, λ j l e. lowest (slot_at c.slots j) (n j l e))
  | inr (i, q, t, b) ↦ inr (i, q, t)
]
  where
    lowest : (s : Slot) → depth s ≤ rank i32_min → s.surface.z % 2 ^ 32 ≡ i32_min
    lowest s h = omega arith
