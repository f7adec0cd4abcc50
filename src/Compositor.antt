-- ===== src/Compositor.antt =====
-- kernel/src/compositor/mod.rs: the table of surfaces, their owners and buffers, hit testing and the order
-- in which a frame is painted. Coordinates are the bit patterns of `i32`. The leader of a process's
-- thread group is a parameter.
pub mod Frame
pub mod Access
pub mod Paint
pub mod Hit
pub mod Upload
mod Tests
use oscortex.Base.{
  ℕ, zero, suc, ◌+◌, ◌*◌, ◌-◌, ◌/◌, ◌%◌, ◌^◌, min, max, Bool, true, false, not, ◌&&◌, ◌||◌, Option,
  none, some, List, [], ◌∷◌, ◌++◌, get_or, set, replicate, length, count_if, if◌then◌else◌, ◌==◌,
  ltb, leb, Result, ok, err,
}
use mathlib.Core.Option as Option
use oscortex.Base.Signed.{slt, sle, smax, smin, add32, sub32, i32_min}

abbrev pub max_surfaces : ℕ
max_surfaces = 32

abbrev pub max_surfaces_per_pid : ℕ
max_surfaces_per_pid = 8

abbrev pub max_surface_pixels : ℕ
max_surface_pixels = 1920 * 1080 * 2

pub record Surface : Type 0 where
  pub id : ℕ
  pub x : ℕ
  pub y : ℕ
  pub width : ℕ
  pub height : ℕ
  pub z : ℕ
  pub visible : Bool
  pub clip_x : ℕ
  pub clip_y : ℕ
  pub clip_w : ℕ
  pub clip_h : ℕ
  pub damage_x : ℕ
  pub damage_y : ℕ
  pub damage_w : ℕ
  pub damage_h : ℕ
  pub has_damage : Bool
  pub in_use : Bool

abbrev pub empty : Surface
empty = record {
  id = 0;
  x = 0;
  y = 0;
  width = 0;
  height = 0;
  z = 0;
  visible = true;
  clip_x = 0;
  clip_y = 0;
  clip_w = 0;
  clip_h = 0;
  damage_x = 0;
  damage_y = 0;
  damage_w = 0;
  damage_h = 0;
  has_damage = false;
  in_use = false;
}

-- What the six arrays of `CompositorState` hold at one index.
pub record Slot : Type 0 where
  pub surface : Surface
  pub owner : ℕ
  pub buffer : Option (List ℕ)
  pub back_buffer : Option (List ℕ)
  pub presented : Bool
  pub back_pending : Bool

abbrev pub free_slot : Slot
free_slot = record {
  surface = empty;
  owner = 0;
  buffer = none;
  back_buffer = none;
  presented = false;
  back_pending = false;
}

pub record Compositor : Type 0 where
  pub slots : List Slot
  pub next_id : ℕ
  pub frame_counter : ℕ

abbrev pub new : Compositor
new = record { slots = replicate max_surfaces free_slot; next_id = 1; frame_counter = 0 }

abbrev pub is_surface : ℕ → Slot → Bool
is_surface id s = s.surface.in_use && s.surface.id == id

-- `iter().position(p)`, counted from `i`.
unfoldable pub position : (Slot → Bool) → List Slot → ℕ → Option ℕ
position p [] i = none
position p (s ∷ ss) i = let rest = position p ss (i + 1) in if p s then some i else rest

abbrev pub slot_at : List Slot → ℕ → Slot
slot_at ss i = get_or ss i free_slot

abbrev pub in_table : (Slot → Bool) → ℕ → Slot → Bool
in_table p i s = p s

abbrev pub too_large : ℕ → ℕ → Bool
too_large width height = ltb max_surface_pixels (width * height)

abbrev pub created : ℕ → ℕ → ℕ → Surface
created id width height = record empty {
  id = id;
  width = width;
  height = height;
  clip_w = width;
  clip_h = height;
  in_use = true;
}

-- A new surface keeps the back buffer of its slot.
abbrev pub occupied : Surface → ℕ → Slot → Slot
occupied s owner slot = record slot {
  surface = s;
  owner = owner;
  buffer = some (replicate (s.width * s.height) 0);
  presented = false;
}

abbrev pub is_free : Slot → Bool
is_free s = not s.surface.in_use

abbrev pub bump_id : ℕ → ℕ
bump_id n = max ((n + 1) % 2 ^ 32) 1

abbrev pub owned_by : ℕ → Slot → Bool
owned_by owner s = s.surface.in_use && s.owner == owner

-- `CURSOR_SHAPE_MAX`; `none` is a shape that is refused.
abbrev pub cursor_shape_max : ℕ
cursor_shape_max = 8

abbrev pub set_cursor_shape : ℕ → Option ℕ
set_cursor_shape shape = if ltb cursor_shape_max shape then none else some shape

abbrev pub active_surfaces : Compositor → ℕ
active_surfaces c = count_if (λ s. s.surface.in_use) c.slots

-- `iter().find(|s| s.in_use && s.id == id)`.
abbrev pub find_surface : ℕ → Compositor → Option Slot
find_surface id c = elim (position (is_surface id) c.slots 0) [
  | none ↦ none
  | some i ↦ some (slot_at c.slots i)
]

abbrev pub surface_owner : ℕ → Compositor → Option ℕ
surface_owner id c = Option.map (λ s. s.owner) (find_surface id c)

abbrev pub surface_z_get : ℕ → Compositor → Option ℕ
surface_z_get id c = Option.map (λ s. s.surface.z) (find_surface id c)

abbrev pub surface_geometry_get : ℕ → Compositor → Option (ℕ × ℕ × ℕ × ℕ)
surface_geometry_get id c =
    Option.map (λ s. (s.surface.x, s.surface.y, s.surface.width, s.surface.height))
      (find_surface id c)

abbrev pub surface_visibility_get : ℕ → Compositor → Option Bool
surface_visibility_get id c = Option.map (λ s. s.surface.visible) (find_surface id c)

abbrev pub surface_damage_get : ℕ → Compositor → Option (ℕ × ℕ × ℕ × ℕ × Bool)
surface_damage_get id c =
    Option.map
      (λ s. (
        s.surface.damage_x, s.surface.damage_y, s.surface.damage_w, s.surface.damage_h,
        s.surface.has_damage,
      ))
      (find_surface id c)

module _ (group_leader : ℕ → ℕ) where
  abbrev pub leader_of : ℕ → ℕ
  leader_of pid = if pid == 0 then 0 else group_leader pid

  abbrev pub surface_count_for : ℕ → Compositor → ℕ
  surface_count_for pid c = count_if (owned_by (leader_of pid)) c.slots

  pub create_surface_for : ℕ → ℕ → ℕ → Compositor → Compositor × Result ℕ
  create_surface_for owner_pid width height c =
      let leader = leader_of owner_pid in
      if width == 0 || height == 0
      then (c, err "invalid size")
      else if too_large width height
      then (c, err "surface too large")
      else if not (leader == 0) && leb max_surfaces_per_pid (count_if (owned_by leader) c.slots)
      then (c, err "per-pid surface limit reached")
      else elim (position is_free c.slots 0) [
        | none ↦ (c, err "surface table full")
        | some i ↦ (
          record c {
            slots =
                set c.slots i
                  (occupied (created c.next_id width height) leader (slot_at c.slots i));
            next_id = bump_id c.next_id;
          },
          ok c.next_id,
        )
      ]

  -- The caller, unless it is the kernel, must lead the owner's group.
  abbrev pub denied : ℕ → Slot → Bool
  denied caller s = not (caller == 0) && not (s.owner == group_leader caller)

  -- The start of every call on a surface; `f` is what the call does to its slot.
  pub with_surface : ℕ → ℕ → (Slot → Slot) → Compositor → Compositor × Result (Unit {0})
  with_surface caller id f c = elim (position (is_surface id) c.slots 0) [
    | none ↦ (c, err "no such surface")
    | some i ↦
        (if denied caller (slot_at c.slots i)
          then (c, err "permission denied")
          else (record c { slots = set c.slots i (f (slot_at c.slots i)) }, ok tt))
  ]

  abbrev pub move_surface_for : ℕ → ℕ → ℕ → ℕ → ℕ → Compositor → Compositor × Result (Unit {0})
  move_surface_for caller id x y z c =
      with_surface caller id (λ s. record s { surface = record s.surface { x = x; y = y; z = z } })
        c

  abbrev pub destroy_surface_for : ℕ → ℕ → Compositor → Compositor × Result (Unit {0})
  destroy_surface_for caller id c = with_surface caller id (λ s. free_slot) c

  abbrev pub surface_z_set_for : ℕ → ℕ → ℕ → Compositor → Compositor × Result (Unit {0})
  surface_z_set_for caller id z c =
      with_surface caller id (λ s. record s { surface = record s.surface { z = z } }) c

  abbrev pub surface_geometry_set_for :
      ℕ → ℕ → ℕ → ℕ → ℕ → ℕ → Compositor → Compositor × Result (Unit {0})
  surface_geometry_set_for caller id x y width height c =
      if width == 0 || height == 0
      then (c, err "invalid size")
      else if too_large width height
      then (c, err "surface too large")
      else with_surface caller id
          (λ s. record s {
            surface = record s.surface { x = x; y = y; width = width; height = height };
          })
          c

  abbrev pub surface_visibility_set_for : ℕ → ℕ → Bool → Compositor → Compositor × Result (Unit {0})
  surface_visibility_set_for caller id visible c =
      with_surface caller id (λ s. record s { surface = record s.surface { visible = visible } }) c

  -- A coordinate is clamped to the surface, an extent to what is left of it.
  abbrev pub clamp : ℕ → ℕ → ℕ
  clamp bound x = smin (smax x 0) bound

  abbrev pub surface_clip_set_for :
      ℕ → ℕ → ℕ → ℕ → ℕ → ℕ → Compositor → Compositor × Result (Unit {0})
  surface_clip_set_for caller id x y w h c =
      with_surface caller id
        (λ s.
          let clip_x = clamp s.surface.width x in
          let clip_y = clamp s.surface.height y in
          record s {
            surface = record s.surface {
              clip_x = clip_x;
              clip_y = clip_y;
              clip_w = min w (sub32 s.surface.width clip_x);
              clip_h = min h (sub32 s.surface.height clip_y);
            };
          })
        c

  abbrev pub surface_damage_set_for :
      ℕ → ℕ → ℕ → ℕ → ℕ → ℕ → Compositor → Compositor × Result (Unit {0})
  surface_damage_set_for caller id x y w h c =
      with_surface caller id
        (λ s.
          let dx = clamp s.surface.width x in
          let dy = clamp s.surface.height y in
          let dw = min w (sub32 s.surface.width dx) in
          let dh = min h (sub32 s.surface.height dy) in
          record s {
            surface = record s.surface {
              damage_x = dx;
              damage_y = dy;
              damage_w = dw;
              damage_h = dh;
              has_damage = ltb 0 dw && ltb 0 dh;
            };
          })
        c
