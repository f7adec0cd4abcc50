-- ===== src/Compositor/Paint.antt =====
-- The order in which `render_frame` of kernel/src/compositor/mod.rs paints the surfaces.
use oscortex.Base.{ℕ, ◌≤◌, Bool, ◌&&◌, List, [], ◌∷◌, All, ◌==◌, none, some}
use oscortex.Base.Signed.{rank}
use oscortex.Compositor.{Slot, Compositor}
use oscortex.Compositor.Frame.{Blit, blit, has_buffer}

abbrev pub depth : Slot → ℕ
depth s = rank s.surface.z

abbrev pub at_depth : ℕ → Slot → Bool
at_depth d s = depth s == d

-- None is below a later one.
abbrev pub IsAscending : List Slot → Type 0
IsAscending [] = Unit
IsAscending (s ∷ ss) = All (λ t. depth s ≤ depth t) ss × IsAscending ss

abbrev IsDescending : List Slot → Type 0
IsDescending [] = Unit
IsDescending (s ∷ ss) = All (λ t. depth t ≤ depth s) ss × IsDescending ss

-- Whether `render_frame` copies the front buffer of a slot that is in use.
abbrev pub is_shown : Slot → Bool
is_shown s = s.presented && has_buffer s.buffer

-- A surface with the pixels of its front buffer.
abbrev pub blit_of : Slot → Blit
blit_of s = blit s (elim s.buffer [ none ↦ [] | some buffer ↦ buffer ])
