-- ===== src/Compositor/Upload.antt =====
-- When an upload of kernel/src/compositor/mod.rs runs over the end of the buffer.
use oscortex.Base.{
  ℕ, zero, suc, ◌+◌, ◌*◌, ◌≤◌, ◌<◌, ◌≡◌, ◌≢◌, ◌↔◌, refl, sym, ap, ◌∙◌, false, not, none, some, List,
  length, set, arith, Bool-cases, inl, inr, length-set, lt→ltb, ltb→ge, ltb→lt, ◌==◌, eq→==, ok,
  Option-cases, none_ne_some, ltb,
}
use oscortex.Compositor.{Compositor, is_surface, position, slot_at, denied}
use oscortex.Compositor.Frame.{
  upload_loop, upload_target, upload_surface_rgba32_for, uploaded, pixels, rgba,
}

upload_loop-none :
    (n i : ℕ) (payload target : List ℕ)
    → length target < i + n
    → i ≤ length target
    → upload_loop n i payload target ≡ none
unfolding upload_loop
upload_loop-none zero i payload target h l = absurd (omega arith)
upload_loop-none (suc n) i payload target h l = elim (Bool-cases (ltb i (length target))) [
  | inr e ↦ rw (upload_loop, e) refl
  | inl e ↦
      (let k = length-set target i (rgba payload (i * 4)) in
        rw (upload_loop, e)
          (upload_loop-none n (i + 1) payload (set target i (rgba payload (i * 4)))
            (omega (arith, k)) (omega (arith, k, ltb→lt i (length target) e))))
]

upload_loop-some :
    (n i : ℕ) (payload target : List ℕ)
    → i + n ≤ length target
    → upload_loop n i payload target ≢ none
unfolding upload_loop
upload_loop-some zero i payload target h e = absurd cc
upload_loop-some (suc n) i payload target h e =
    let q = lt→ltb i (length target) (omega arith) in
    let k = length-set target i (rgba payload (i * 4)) in
    upload_loop-some n (i + 1) payload (set target i (rgba payload (i * 4))) (omega (arith, k))
      (sym (rw (upload_loop, q) refl) ∙ e)

-- An upload to a surface that exists and that the caller may change, with a payload of the surface's
-- size, panics exactly when the buffer that it writes to is shorter than the surface has pixels.
pub upload-panics_iff :
    (group_leader : ℕ → ℕ) (caller id i : ℕ) (payload : List ℕ) (c : Compositor)
    → position (is_surface id) c.slots 0 ≡ some i
    → denied group_leader caller (slot_at c.slots i) ≡ false
    → length payload ≡ pixels (slot_at c.slots i) * 4
    → (upload_surface_rgba32_for group_leader caller id payload c ≡ none)
      ↔ (length (upload_target (slot_at c.slots i)) < pixels (slot_at c.slots i))
unfolding upload_surface_rgba32_for
upload-panics_iff group_leader caller id i payload c e d l =
    let s = slot_at c.slots i in
    let f : not (length payload == pixels s * 4) ≡ false =
      ap not (eq→== (length payload) (pixels s * 4) l) in
    (
      λ p. elim (Bool-cases (ltb (length (upload_target s)) (pixels s))) [
        | inl k ↦ ltb→lt (length (upload_target s)) (pixels s) k
        | inr k ↦ elim (Option-cases (upload_loop (pixels s) 0 payload (upload_target s))) [
          | inl n ↦ absurd (
              upload_loop-some (pixels s) 0 payload (upload_target s)
                (omega (arith, ltb→ge (length (upload_target s)) (pixels s) k)) n)
          | inr (t, n) ↦
              (let moved : Compositor = record c { slots = set c.slots i (uploaded s t) } in
                let q : upload_surface_rgba32_for group_leader caller id payload c
                    ≡ some (moved, ok tt) =
                  rw (upload_surface_rgba32_for, e, d, f, n) refl in
                absurd (none_ne_some (sym p ∙ q)))
        ]
      ],
      λ h.
          let n =
            upload_loop-none (pixels s) 0 payload (upload_target s) (omega arith) (omega arith) in
          rw (upload_surface_rgba32_for, e, d, f, n) refl,
    )
