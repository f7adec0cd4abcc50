-- ===== src/Compositor/Access.antt =====
-- What the processes of one thread group can do to the surfaces of another in
-- kernel/src/compositor/mod.rs.
use native.Mathlib.Decide.{ℕ_discrete}
use oscortex.Base.{
  ℕ, zero, suc, ◌+◌, ◌*◌, ◌<◌, ◌≡◌, ◌≢◌, refl, sym, ap, ◌∙◌, subst, Bool, true, false, not, ◌&&◌,
  ◌||◌, Option, none, some, List, [], ◌∷◌, All, length, set, map, arith, Bool-cases, Option-cases,
  inl, inr, get_or-set_ne, get_or-map, none_ne_some, some-inj, Result, ok, err, ◌==◌, leb, count_if,
  if◌then◌else◌,
}
use oscortex.Compositor.{
  Surface, Slot, Compositor, free_slot, position, is_surface, slot_at, is_free, with_surface,
  denied, create_surface_for, move_surface_for, destroy_surface_for, surface_z_set_for,
  surface_geometry_set_for, surface_visibility_set_for, surface_clip_set_for,
  surface_damage_set_for, too_large, leader_of, owned_by, max_surfaces_per_pid,
}
use oscortex.Compositor.Frame.{
  flip_pending, render_frame, then_render, surface_flip_for, present_surface_for,
  upload_surface_rgba32_for, upload_loop, upload_target, uploaded, swapped, pixels,
}

true_ne_false : true ≢ false
true_ne_false e = cc

position_sound :
    (p : Slot → Bool) (ss : List Slot) (i k : ℕ)
    → position p ss i ≡ some k
    → (j : ℕ) × (k ≡ i + j) × (j < length ss) × (p (slot_at ss j) ≡ true)
unfolding position
position_sound p [] i k e = absurd (none_ne_some e)
position_sound p (s ∷ ss) i k e = elim (Bool-cases (p s)) [
  | inl q ↦
      (let f : i ≡ k =
          some-inj (sym (ap (λ (b : Bool). if b then some i else position p ss (i + 1)) q) ∙ e) in
        (zero, omega arith, omega arith, q))
  | inr q ↦
      (let (j, a, b, h) =
          position_sound p ss (i + 1) k
            (sym (ap (λ (b : Bool). if b then some i else position p ss (i + 1)) q) ∙ e) in
        (suc j, omega arith, omega arith, h))
]

-- The part of a slot that only its owner may change.
abbrev pub seen : Slot → Surface × ℕ
seen s = (s.surface, s.owner)

pub data Call : Type 0 where
  creates : ℕ → ℕ → Call
  moves : ℕ → ℕ → ℕ → ℕ → Call
  destroys : ℕ → Call
  sets_z : ℕ → ℕ → Call
  sets_geometry : ℕ → ℕ → ℕ → ℕ → ℕ → Call
  sets_visibility : ℕ → Bool → Call
  sets_clip : ℕ → ℕ → ℕ → ℕ → ℕ → Call
  sets_damage : ℕ → ℕ → ℕ → ℕ → ℕ → Call
  flips : Bool → ℕ → Call
  presents : Bool → ℕ → Call
  uploads : ℕ → List ℕ → Call
  renders : Bool → Call

module _ (group_leader : ℕ → ℕ) where
  -- A call of a process; `none` is a panic.
  unfoldable pub step : ℕ → Call → Compositor → Option Compositor
  step p (creates w h) c = some (create_surface_for group_leader p w h c).0
  step p (moves id x y z) c = some (move_surface_for group_leader p id x y z c).0
  step p (destroys id) c = some (destroy_surface_for group_leader p id c).0
  step p (sets_z id z) c = some (surface_z_set_for group_leader p id z c).0
  step p (sets_geometry id x y w h) c =
      some (surface_geometry_set_for group_leader p id x y w h c).0
  step p (sets_visibility id v) c = some (surface_visibility_set_for group_leader p id v c).0
  step p (sets_clip id x y w h) c = some (surface_clip_set_for group_leader p id x y w h c).0
  step p (sets_damage id x y w h) c = some (surface_damage_set_for group_leader p id x y w h c).0
  step p (flips ready id) c = some (surface_flip_for group_leader ready p id c).0
  step p (presents ready id) c = some (present_surface_for group_leader ready p id c).0
  step p (uploads id payload) c = elim (upload_surface_rgba32_for group_leader p id payload c) [
    | none ↦ none
    | some (c', r) ↦ some c'
  ]
  step p (renders ready) c = some (render_frame ready c).0

  unfoldable pub run : List (ℕ × Call) → Compositor → Option Compositor
  run [] c = some c
  run ((p, k) ∷ cs) c = elim (step p k c) [ none ↦ none | some c' ↦ run cs c' ]

  -- The process is neither the kernel nor of the owner's group.
  abbrev pub IsStranger : ℕ → ℕ × Call → Type 0
  IsStranger owner (p, k) = ((p == 0) ≡ false) × ((owner == group_leader p) ≡ false)

  module _ (p i owner : ℕ) (kernel : (p == 0) ≡ false)
      (other : (owner == group_leader p) ≡ false) where
    -- Slot `i` holds a surface of the owner, and it is as it was.
    abbrev Same : Surface → Compositor → Type 0
    Same s c = seen (slot_at c.slots i) ≡ (s, owner)

    is_denied : (s : Slot) → s.owner ≡ owner → denied group_leader p s ≡ true
    is_denied s e = rw (kernel, e, other) refl

    not_mine :
        (s : Surface) (k : ℕ) (c : Compositor)
        → Same s c
        → denied group_leader p (slot_at c.slots k) ≡ false
        → i ≢ k
    not_mine s k c h d q = true_ne_false (
        sym (
          is_denied (slot_at c.slots k)
            (ap (λ (n : ℕ). (slot_at c.slots n).owner) (sym q) ∙ ap (λ (v : Surface × ℕ). v.1) h))
        ∙ d)

    with_surface-Same :
        (s : Surface) (id : ℕ) (f : Slot → Slot) (c : Compositor)
        → Same s c
        → Same s (with_surface group_leader p id f c).0
    unfolding with_surface
    with_surface-Same s id f c h = elim (Option-cases (position (is_surface id) c.slots 0)) [
      | inl e ↦ rw (with_surface, e) h
      | inr (k, e) ↦ elim (Bool-cases (denied group_leader p (slot_at c.slots k))) [
        | inl d ↦ rw (with_surface, e, d) h
        | inr d ↦
            rw (with_surface, e, d)
              (ap seen
                  (get_or-set_ne c.slots k i (f (slot_at c.slots k)) free_slot (not_mine s k c h d))
                ∙ h)
      ]
    ]

    map_slots-Same :
        (s : Surface) (ss : List Slot)
        → seen (slot_at ss i) ≡ (s, owner)
        → seen (slot_at (map flip_pending ss) i) ≡ (s, owner)
    map_slots-Same s ss h =
        ap seen (get_or-map flip_pending ss i free_slot) ∙ kept (slot_at ss i) ∙ h
      where
        kept : (t : Slot) → seen (flip_pending t) ≡ seen t
        kept t = elim (Bool-cases t.back_pending) [ inl e ↦ rw e refl | inr e ↦ rw e refl ]

    render_frame-Same :
        (s : Surface) (ready : Bool) (c : Compositor) → Same s c → Same s (render_frame ready c).0
    unfolding render_frame
    render_frame-Same s true c h = map_slots-Same s c.slots h
    render_frame-Same s false c h = h

    then_render-Same :
        (s : Surface) (ready : Bool) (r : Compositor × Result (Unit {0}))
        → Same s r.0
        → Same s (then_render ready r).0
    then_render-Same s ready (c, err e) h = h
    then_render-Same s ready (c, ok u) h = render_frame-Same s ready c h

    geometry-Same :
        (s : Surface) (id x y w h : ℕ) (c : Compositor)
        → Same s c
        → Same s (surface_geometry_set_for group_leader p id x y w h c).0
    geometry-Same s id x y w h c e = elim (Bool-cases (w == 0 || h == 0)) [
      | inl a ↦ rw a e
      | inr a ↦ elim (Bool-cases (too_large w h)) [
        | inl b ↦ rw (a, b) e
        | inr b ↦ rw (a, b) (with_surface-Same s id _ c e)
      ]
    ]

    create-Same :
        (s : Surface) (w h : ℕ) (c : Compositor)
        → s.in_use ≡ true
        → Same s c
        → Same s (create_surface_for group_leader p w h c).0
    unfolding create_surface_for
    create-Same s w h c u e = elim (Bool-cases (w == 0 || h == 0)) [
      | inl a ↦ rw a e
      | inr a ↦ elim (Bool-cases (too_large w h)) [
        | inl b ↦ rw (a, b) e
        | inr b ↦ elim (Bool-cases (full c)) [
          | inl d ↦ rw (a, b, d) e
          | inr d ↦ elim (Option-cases (position is_free c.slots 0)) [
            | inl k ↦ rw (a, b, d, k) e
            | inr (j, k) ↦
                rw (a, b, d, k)
                  (elim (ℕ_discrete i j) [
                    | no n ↦ ap seen (get_or-set_ne c.slots j i _ free_slot n) ∙ e
                    | yes q ↦
                        (let (m, g, l, free) = position_sound is_free c.slots 0 j k in
                          let r : m ≡ i = omega (arith, g, q) in
                          absurd (
                            true_ne_false (
                              sym u
                              ∙ sym (ap (λ (v : Surface × ℕ). v.0.in_use) e)
                              ∙ not_free (slot_at c.slots i)
                                  (ap (λ (n : ℕ). is_free (slot_at c.slots n)) (sym r) ∙ free))))
                  ])
          ]
        ]
      ]
    ]
      where
        not_free : (t : Slot) → is_free t ≡ true → t.surface.in_use ≡ false
        not_free t h = ground (arith, h)

        full : Compositor → Bool
        full c =
            not (leader_of group_leader p == 0)
            && leb max_surfaces_per_pid (count_if (owned_by (leader_of group_leader p)) c.slots)

    upload-Same :
        (s : Surface) (id : ℕ) (payload : List ℕ) (c t : Compositor)
        → Same s c
        → step p (uploads id payload) c ≡ some t
        → Same s t
    unfolding step upload_surface_rgba32_for
    upload-Same s id payload c t h e = elim (Option-cases (position (is_surface id) c.slots 0)) [
      | inl k ↦
          subst (Same s) (some-inj {x = c} (sym (rw (step, upload_surface_rgba32_for, k) refl) ∙ e))
            h
      | inr (j, k) ↦ elim (Bool-cases (denied group_leader p (slot_at c.slots j))) [
        | inl d ↦
            subst (Same s)
              (some-inj {x = c} (sym (rw (step, upload_surface_rgba32_for, k, d) refl) ∙ e)) h
        | inr d ↦ elim (Bool-cases (not (length payload == pixels (slot_at c.slots j) * 4))) [
          | inl l ↦
              subst (Same s)
                (some-inj {x = c} (sym (rw (step, upload_surface_rgba32_for, k, d, l) refl) ∙ e)) h
          | inr l ↦
              elim (Option-cases (
                upload_loop (pixels (slot_at c.slots j)) 0 payload
                  (upload_target (slot_at c.slots j)))) [
                    | inl m ↦ absurd (
                        none_ne_some
                          (sym (rw (step, upload_surface_rgba32_for, k, d, l, m) refl) ∙ e))
                    | inr (target, m) ↦
                        (let moved : Compositor = record c {
                          slots = set c.slots j (uploaded (slot_at c.slots j) target);
                        } in
                          let q : step p (uploads id payload) c ≡ some moved =
                            rw (step, upload_surface_rgba32_for, k, d, l, m) refl in
                          let r : Same s moved =
                            ap seen (
                              get_or-set_ne c.slots j i (uploaded (slot_at c.slots j) target)
                                free_slot (not_mine s j c h d))
                            ∙ h in
                          subst (Same s) (some-inj (sym q ∙ e)) r)
                  ]
        ]
      ]
    ]

    step-Same :
        (s : Surface) (k : Call) (c t : Compositor)
        → s.in_use ≡ true
        → Same s c
        → step p k c ≡ some t
        → Same s t
    unfolding step
    step-Same s (creates w h) c t u e q = subst (Same s) (some-inj q) (create-Same s w h c u e)
    step-Same s (moves id x y z) c t u e q =
        subst (Same s) (some-inj q) (with_surface-Same s id _ c e)
    step-Same s (destroys id) c t u e q = subst (Same s) (some-inj q) (with_surface-Same s id _ c e)
    step-Same s (sets_z id z) c t u e q = subst (Same s) (some-inj q) (with_surface-Same s id _ c e)
    step-Same s (sets_geometry id x y w h) c t u e q =
        subst (Same s) (some-inj q) (geometry-Same s id x y w h c e)
    step-Same s (sets_visibility id v) c t u e q =
        subst (Same s) (some-inj q) (with_surface-Same s id _ c e)
    step-Same s (sets_clip id x y w h) c t u e q =
        subst (Same s) (some-inj q) (with_surface-Same s id _ c e)
    step-Same s (sets_damage id x y w h) c t u e q =
        subst (Same s) (some-inj q) (with_surface-Same s id _ c e)
    step-Same s (flips ready id) c t u e q =
        subst (Same s) (some-inj q)
          (then_render-Same s ready _ (with_surface-Same s id swapped c e))
    step-Same s (presents ready id) c t u e q = subst (Same s) (some-inj q) (
        then_render-Same s ready _
          (with_surface-Same s id (λ s. record s { presented = true }) c e))
    step-Same s (uploads id payload) c t u e q = upload-Same s id payload c t e q
    step-Same s (renders ready) c t u e q =
        subst (Same s) (some-inj q) (render_frame-Same s ready c e)

  -- Whatever sequence of calls the processes of other thread groups make, creating, moving, resizing,
  -- clipping, damaging, flipping, presenting, uploading and destroying surfaces and rendering frames,
  -- a surface that is in use keeps its record and its owner, unless the kernel panics.
  pub run-keeps_others :
      (i : ℕ) (cs : List (ℕ × Call)) (c t : Compositor)
      → (slot_at c.slots i).surface.in_use ≡ true
      → All (IsStranger (slot_at c.slots i).owner) cs
      → run cs c ≡ some t
      → seen (slot_at t.slots i) ≡ seen (slot_at c.slots i)
  unfolding run
  run-keeps_others i [] c t u a e =
      ap (λ (x : Compositor). seen (slot_at x.slots i)) (sym (some-inj e))
  run-keeps_others i ((p, k) ∷ cs) c t u a e = elim (Option-cases (step p k c)) [
    | inl n ↦ absurd (none_ne_some (sym (rw (run, n) refl) ∙ e))
    | inr (c', n) ↦
        (let s = slot_at c.slots i in
          let same = step-Same p i s.owner a.0.0 a.0.1 s.surface k c c' u refl n in
          run-keeps_others i cs c' t (ap (λ (v : Surface × ℕ). v.0.in_use) same ∙ u)
            (subst (λ (o : ℕ). All (IsStranger o) cs) (sym (ap (λ (v : Surface × ℕ). v.1) same))
              a.1)
            (sym (rw (run, n) refl) ∙ e)
          ∙ same)
  ]
