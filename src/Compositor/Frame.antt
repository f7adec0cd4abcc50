-- ===== src/Compositor/Frame.antt =====
-- kernel/src/compositor/mod.rs: uploads, flips and frames, and the surface below a point. A frame is what is
-- copied to the framebuffer, in order, and the number of the vsync that is sent.
use oscortex.Base.{
  ℕ, zero, suc, ◌+◌, ◌*◌, ◌%◌, ◌^◌, bit_or, Bool, true, false, not, ◌&&◌, Option, none, some, List,
  [], ◌∷◌, get_or, set, replicate, length, map, if◌then◌else◌, ◌==◌, ltb, Result, ok, err,
}
use oscortex.Base.Signed.{slt, sle, add32, i32_min}
use oscortex.Compositor.{
  Surface, Slot, Compositor, position, is_surface, slot_at, with_surface, denied,
}

abbrev pub pixels : Slot → ℕ
pixels s = s.surface.width * s.surface.height

abbrev pub has_buffer : Option (List ℕ) → Bool
has_buffer none = false
has_buffer (some b) = true

-- `render_frame` first makes pending back buffers the front ones.
abbrev pub flip_pending : Slot → Slot
flip_pending s =
    if s.back_pending
    then record s {
      buffer = s.back_buffer;
      back_buffer = s.buffer;
      back_pending = false;
      presented = true;
    }
    else s

abbrev pub has_content : Slot → Bool
has_content s = s.surface.in_use && s.presented && has_buffer s.buffer

unfoldable pub has_visible_content : List Slot → Bool
has_visible_content [] = false
has_visible_content (s ∷ ss) =
    let rest = has_visible_content ss in if has_content s then true else rest

-- The slots that pass a test, in order.
unfoldable pub filter : (Slot → Bool) → List Slot → List Slot
filter p [] = []
filter p (s ∷ ss) = let rest = filter p ss in if p s then s ∷ rest else rest

abbrev pub in_use : Slot → Bool
in_use s = s.surface.in_use

-- The inner loop of the insertion sort: `order` from its right end on.
unfoldable pub insert_back : Slot → List Slot → List Slot
insert_back key [] = key ∷ []
insert_back key (s ∷ ss) =
    let rest = insert_back key ss in
    if slt key.surface.z s.surface.z then s ∷ rest else key ∷ s ∷ ss

-- The outer loop; `sorted` is what is sorted so far, from its right end on.
unfoldable pub sort_back : List Slot → List Slot → List Slot
sort_back sorted [] = sorted
sort_back sorted (s ∷ ss) = sort_back (insert_back s sorted) ss

unfoldable pub onto : List Slot → List Slot → List Slot
onto [] acc = acc
onto (s ∷ ss) acc = onto ss (s ∷ acc)

-- `order`, as the slots that it names.
abbrev pub paint_order : List Slot → List Slot
paint_order slots = onto (sort_back [] (filter in_use slots)) []

-- The arguments of `blit_rgba32`.
pub record Blit : Type 0 where
  pub x : ℕ
  pub y : ℕ
  pub width : ℕ
  pub height : ℕ
  pub buffer : List ℕ

abbrev pub blit : Slot → List ℕ → Blit
blit s buffer = record {
  x = s.surface.x;
  y = s.surface.y;
  width = s.surface.width;
  height = s.surface.height;
  buffer = buffer;
}

unfoldable pub blits : List Slot → List Blit
blits [] = []
blits (s ∷ ss) =
    let rest = blits ss in
    if not s.presented
    then rest
    else elim s.buffer [ none ↦ rest | some buffer ↦ blit s buffer ∷ rest ]

pub record Frame : Type 0 where
  pub painted : List Blit
  pub vsync : ℕ

abbrev pub next_frame : Compositor → ℕ
next_frame c = (c.frame_counter + 1) % 2 ^ 64

-- `ready` is whether there is a framebuffer. Without content the boot screen is drawn instead.
unfoldable pub render_frame : Bool → Compositor → Compositor × Option Frame
render_frame ready c =
    if not ready
    then (c, none)
    else (let slots = map flip_pending c.slots in
        (
          record c { slots = slots; frame_counter = next_frame c },
          some (record {
            painted = if has_visible_content slots then blits (paint_order slots) else [];
            vsync = next_frame c;
          }),
        ))

-- The front and the back buffer change places; the first flip copies the front buffer.
abbrev pub swapped : Slot → Slot
swapped s =
    let front : List ℕ = elim s.buffer [ none ↦ replicate (pixels s) 0 | some b ↦ b ] in
    record s {
      buffer = elim s.back_buffer [ none ↦ some front | some b ↦ some b ];
      back_buffer = s.buffer;
      presented = true;
    }

-- The call `render_frame` at the end of a call that succeeds.
abbrev pub then_render :
    Bool → Compositor × Result (Unit {0}) → Compositor × Result (Unit {0}) × Option Frame
then_render ready (c, err e) = (c, err e, none)
then_render ready (c, ok u) = let (c', f) = render_frame ready c in (c', ok u, f)

-- Four bytes of the payload make a pixel.
abbrev pub rgba : List ℕ → ℕ → ℕ
rgba payload b =
    bit_or
      (bit_or (bit_or (get_or payload b 0) (get_or payload (b + 1) 0 * 2 ^ 8))
        (get_or payload (b + 2) 0 * 2 ^ 16))
      (get_or payload (b + 3) 0 * 2 ^ 24)

-- `for i in 0..pixels { target[i] = ... }`, with `n` pixels to go; `none` is the panic of an index out of
-- range.
unfoldable pub upload_loop : ℕ → ℕ → List ℕ → List ℕ → Option (List ℕ)
upload_loop zero i payload target = some target
upload_loop (suc n) i payload target =
    if ltb i (length target)
    then upload_loop n (i + 1) payload (set target i (rgba payload (i * 4)))
    else none

-- The buffer that an upload writes to: the back buffer, of the right size, if there is one; else the front
-- buffer, of the size that it has.
abbrev pub upload_target : Slot → List ℕ
upload_target s = elim s.back_buffer [
  | some b ↦ if length b == pixels s then b else replicate (pixels s) 0
  | none ↦ elim s.buffer [ some b ↦ b | none ↦ replicate (pixels s) 0 ]
]

abbrev pub uploaded : Slot → List ℕ → Slot
uploaded s target = elim s.back_buffer [
  | some b ↦ record s { back_buffer = some target }
  | none ↦ record s { buffer = some target; presented = true }
]

module _ (group_leader : ℕ → ℕ) where
  abbrev pub surface_flip_for :
      Bool → ℕ → ℕ → Compositor → Compositor × Result (Unit {0}) × Option Frame
  surface_flip_for ready caller id c =
      then_render ready (with_surface group_leader caller id swapped c)

  abbrev pub present_surface_for :
      Bool → ℕ → ℕ → Compositor → Compositor × Result (Unit {0}) × Option Frame
  present_surface_for ready caller id c =
      then_render ready (with_surface group_leader caller id (λ s. record s { presented = true }) c)

  -- `none` is a panic.
  unfoldable pub upload_surface_rgba32_for :
      ℕ → ℕ → List ℕ → Compositor → Option (Compositor × Result (Unit {0}))
  upload_surface_rgba32_for caller id payload c = elim (position (is_surface id) c.slots 0) [
    | none ↦ some (c, err "no such surface")
    | some i ↦
        (let s = slot_at c.slots i in
          if denied group_leader caller s
          then some (c, err "permission denied")
          else if not (length payload == pixels s * 4)
          then some (c, err "bad payload size")
          else elim (upload_loop (pixels s) 0 payload (upload_target s)) [
            | none ↦ none
            | some target ↦ some (record c { slots = set c.slots i (uploaded s target) }, ok tt)
          ])
  ]

-- Whether the point lies in the surface.
abbrev pub contains : ℕ → ℕ → Surface → Bool
contains px py s =
    sle s.x px && slt px (add32 s.x s.width) && (sle s.y py && slt py (add32 s.y s.height))

abbrev pub is_hit : ℕ → ℕ → Slot → Bool
is_hit px py s = s.surface.in_use && contains px py s.surface

unfoldable pub hit_loop : ℕ → ℕ → List Slot → ℕ → Option (ℕ × ℕ) → Option (ℕ × ℕ)
hit_loop px py [] best result = result
hit_loop px py (s ∷ ss) best result = elim (is_hit px py s && slt best s.surface.z) [
  | true ↦ hit_loop px py ss s.surface.z (some (s.surface.id, s.owner))
  | false ↦ hit_loop px py ss best result
]

abbrev pub surface_at_point : ℕ → ℕ → Compositor → Option (ℕ × ℕ)
surface_at_point px py c = hit_loop px py c.slots i32_min none
