-- ===== src/Compositor/Tests.antt =====
-- The theorems on the compositor, with two overlapping surfaces of two processes.
use oscortex.Base.{
  ℕ, ◌%◌, ◌^◌, ◌<◌, ◌≡◌, ◌⊎◌, refl, true, none, some, List, [], ◌∷◌, length, replicate, ◌↔◌,
}
use oscortex.Base.Signed.{i32_min}
use oscortex.Compositor.{
  Slot, Compositor, created, occupied, free_slot, slot_at, with_surface, position,
}
use oscortex.Compositor.Frame.{
  is_hit, surface_at_point, upload_surface_rgba32_for, upload_target, pixels,
}
use oscortex.Compositor.Hit.{IsTopmost, answer, surface_at_point-IsTopmost}
use oscortex.Compositor.Upload.{upload-panics_iff}
use oscortex.Compositor.Access.{Call, moves, destroys, step, run, seen, run-keeps_others}

abbrev lower : Slot
lower = occupied (created 1 4 4) 3 free_slot

abbrev upper : Slot
upper = occupied (record (created 2 4 4) { x = 2; z = 5 }) 4 free_slot

abbrev screen : Compositor
screen = record { slots = upper ∷ lower ∷ free_slot ∷ []; next_id = 3; frame_counter = 0 }

-- Both surfaces presented, with their pixels.
abbrev lit : Slot → Slot
lit s = record s { presented = true; buffer = some (replicate 16 7) }

abbrev lit_screen : Compositor
lit_screen = record screen { slots = lit upper ∷ lit lower ∷ upper ∷ [] }

surface_at_point-IsTopmost_example :
    ((surface_at_point 3 3 screen ≡ none)
      × ((j : ℕ)
          → j < length screen.slots
          → is_hit 3 3 (slot_at screen.slots j) ≡ true
          → (slot_at screen.slots j).surface.z % 2 ^ 32 ≡ i32_min))
    ⊎ ((i : ℕ) × (surface_at_point 3 3 screen ≡ answer (slot_at screen.slots i))
        × IsTopmost 3 3 screen.slots i)
surface_at_point-IsTopmost_example = surface_at_point-IsTopmost 3 3 screen

-- Every process leads its own group.
abbrev alone : ℕ → ℕ
alone pid = pid

abbrev calls : List (ℕ × Call)
calls = (3, moves 2 0 0 9) ∷ (3, destroys 2) ∷ []

run-keeps_others_example : seen (slot_at screen.slots 0) ≡ seen (slot_at screen.slots 0)
unfolding run step with_surface position
run-keeps_others_example =
    run-keeps_others alone 0 calls screen screen refl ((refl, refl), ((refl, refl), tt)) refl

-- A surface that has grown from one pixel to four.
abbrev grown : Slot
grown = record lower { surface = created 1 2 2; buffer = some (7 ∷ []) }

abbrev small_screen : Compositor
small_screen = record { slots = grown ∷ []; next_id = 2; frame_counter = 0 }

upload-panics_iff_example :
    (upload_surface_rgba32_for alone 3 1 (replicate 16 1) small_screen ≡ none) ↔ (
      length (upload_target (slot_at small_screen.slots 0)) < pixels (slot_at small_screen.slots 0))
unfolding position
upload-panics_iff_example =
    upload-panics_iff alone 3 1 0 (replicate 16 1) small_screen refl refl refl
