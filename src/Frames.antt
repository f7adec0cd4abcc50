-- ===== src/Frames.antt =====
-- kernel/src/mm/frame_allocator.rs: the bitmap of free physical frames of 4 KiB, 64 to a word. A bit
-- that is set marks a free frame. Addresses stay below 4 GiB, so `frame * 4096` does not wrap.
pub mod Bitmap
pub mod Alloc
pub mod Run
pub mod Count
pub mod Reserve
pub mod History
mod Tests
use oscortex.Base.{
  ℕ, zero, suc, ◌+◌, ◌*◌, ◌-◌, ◌/◌, ◌%◌, ◌^◌, min, max, bit_and, bit_or, Bool, true, false, not,
  Option, none, some, List, [], ◌∷◌, ◌++◌, get_or, set, take, drop, replicate, if◌then◌else◌, ◌==◌,
  ltb,
}
use oscortex.Base.Bits.{has_bit, set_bit, clear_bit, trailing_zeros}

abbrev pub frame_size : ℕ
frame_size = 4096

abbrev pub max_frames : ℕ
max_frames = 2 ^ 20

abbrev pub min_alloc_phys : ℕ
min_alloc_phys = 0x100000

abbrev pub min_alloc_frame : ℕ
min_alloc_frame = min_alloc_phys / frame_size

pub record FrameBitmap : Type 0 where
  pub bits : List ℕ
  pub total : ℕ
  pub used : ℕ
  pub hhdm : ℕ

-- `BITMAP` and `HHDM_OFFSET`.
pub record Frames : Type 0 where
  pub bitmap : FrameBitmap
  pub hhdm_offset : ℕ

abbrev pub new : FrameBitmap
new = record { bits = replicate (max_frames / 64) 0; total = 0; used = 0; hhdm = 0 }

abbrev pub bump : ℕ → ℕ
bump n = (n + 1) % 2 ^ 64

abbrev pub is_free : List ℕ → ℕ → Bool
is_free bits frame = has_bit (get_or bits (frame / 64) 0) (frame % 64)

abbrev pub set_frame : ℕ → List ℕ → List ℕ
set_frame frame bits = set bits (frame / 64) (set_bit (get_or bits (frame / 64) 0) (frame % 64))

abbrev pub clear_frame : ℕ → List ℕ → List ℕ
clear_frame frame bits = set bits (frame / 64) (clear_bit (get_or bits (frame / 64) 0) (frame % 64))

abbrev pub mark_free : ℕ → FrameBitmap → FrameBitmap
mark_free frame bm = record bm { bits = set_frame frame bm.bits; total = bump bm.total }

abbrev pub mark_used : ℕ → FrameBitmap → FrameBitmap
mark_used frame bm = record bm { bits = clear_frame frame bm.bits; used = bump bm.used }

-- The loop of `alloc` from word `i` on: the words, the frames in use and the address it returns.
unfoldable pub alloc_words : List ℕ → ℕ → ℕ → List ℕ × ℕ × Option ℕ
alloc_words [] i used = ([], used, none)
alloc_words (word ∷ words) i used = elim (word == 0) [
  | true ↦ (let (ws, u, r) = alloc_words words (i + 1) used in (word ∷ ws, u, r))
  | false ↦
      (let bit = trailing_zeros 64 word in
        let cleared = clear_bit word bit in
        let frame = i * 64 + bit in
        elim (ltb frame min_alloc_frame) [
          | true ↦ (let (ws, u, r) = alloc_words words (i + 1) (bump used) in (cleared ∷ ws, u, r))
          | false ↦ (cleared ∷ words, bump used, some (frame * frame_size))
        ])
]

-- `iter_mut().enumerate().skip(MIN_ALLOC_FRAME / 64)`.
abbrev pub first_word : ℕ
first_word = min_alloc_frame / 64

pub alloc : FrameBitmap → FrameBitmap × Option ℕ
alloc bm =
    let (ws, u, r) = alloc_words (drop first_word bm.bits) first_word bm.used in
    (record bm { bits = take first_word bm.bits ++ ws; used = u }, r)

-- The search of `alloc_contiguous`, with `left` frames to go: the start of the first run that is long
-- enough.
unfoldable pub find_run : List ℕ → ℕ → ℕ → ℕ → ℕ → ℕ → Option ℕ
find_run bits count zero frame run_start run_len = none
find_run bits count (suc left) frame run_start run_len = elim (is_free bits frame) [
  | false ↦ find_run bits count left (frame + 1) run_start 0
  | true ↦
      (let start : ℕ = if run_len == 0 then frame else run_start in
        elim (run_len + 1 == count) [
          | true ↦ some start
          | false ↦ find_run bits count left (frame + 1) start (run_len + 1)
        ])
]

unfoldable pub clear_run : ℕ → ℕ → List ℕ → List ℕ
clear_run zero f bits = bits
clear_run (suc n) f bits = clear_run n (f + 1) (clear_frame f bits)

pub alloc_contiguous : ℕ → FrameBitmap → FrameBitmap × Option ℕ
alloc_contiguous count bm =
    if count == 0
    then (bm, none)
    else elim (find_run bm.bits count (max_frames - min_alloc_frame) min_alloc_frame 0 0) [
      | none ↦ (bm, none)
      | some start ↦ (
        record bm { bits = clear_run count start bm.bits; used = (bm.used + count) % 2 ^ 64 },
        some (start * frame_size),
      )
    ]

pub free : ℕ → FrameBitmap → FrameBitmap
free phys bm =
    let frame = phys / frame_size in
    if ltb frame max_frames
    then (if is_free bm.bits frame
        then bm
        else record bm { bits = set_frame frame bm.bits; used = bm.used - 1 })
    else bm

abbrev pub set_hhdm_offset : ℕ → Frames → Frames
set_hhdm_offset offset s = record s { hhdm_offset = offset }

-- `for frame in first..first + n { bm.mark_free(frame) }`.
unfoldable pub mark_free_all : ℕ → ℕ → FrameBitmap → FrameBitmap
mark_free_all zero first bm = bm
mark_free_all (suc n) first bm = mark_free_all n (first + 1) (mark_free first bm)

pub record Region : Type 0 where
  pub base : ℕ
  pub len : ℕ

abbrev pub mark_region : Region → FrameBitmap → FrameBitmap
mark_region r bm =
    let start_frame = r.base / frame_size in
    let end_frame = (r.base + r.len) % 2 ^ 64 / frame_size in
    let first = max start_frame min_alloc_frame in
    mark_free_all (min end_frame max_frames - first) first bm

abbrev pub mark_regions : List Region → FrameBitmap → FrameBitmap
mark_regions [] bm = bm
mark_regions (r ∷ rs) bm = mark_regions rs (mark_region r bm)

abbrev pub init_from_regions : List Region → ℕ → Frames → Frames
init_from_regions map hhdm_offset s = record {
  bitmap = mark_regions map (record s.bitmap { hhdm = hhdm_offset });
  hhdm_offset = hhdm_offset;
}

-- `for frame in first..first + n`, of `reserve_range`: only free frames are taken and counted.
unfoldable pub reserve_frames : ℕ → ℕ → FrameBitmap → FrameBitmap
reserve_frames zero first bm = bm
reserve_frames (suc n) first bm = reserve_frames n (first + 1) (
    if is_free bm.bits first
    then record bm { bits = clear_frame first bm.bits; used = bump bm.used }
    else bm)

pub reserve_range : ℕ → ℕ → FrameBitmap → FrameBitmap
reserve_range base len bm =
    if len == 0
    then bm
    else (let start_frame = base / frame_size in
        let end_frame = min ((base + len + (frame_size - 1)) % 2 ^ 64 / frame_size) max_frames in
        reserve_frames (end_frame - start_frame) start_frame bm)

abbrev pub alloc_frame : Frames → Frames × Option ℕ
alloc_frame s = let (bm, r) = alloc s.bitmap in (record s { bitmap = bm }, r)

abbrev pub alloc_contiguous_frames : ℕ → Frames → Frames × Option ℕ
alloc_contiguous_frames count s =
    let (bm, r) = alloc_contiguous count s.bitmap in (record s { bitmap = bm }, r)

abbrev pub free_frame : ℕ → Frames → Frames
free_frame phys s = record s { bitmap = free phys s.bitmap }

abbrev pub frames_used : Frames → ℕ
frames_used s = s.bitmap.used

abbrev pub frames_total : Frames → ℕ
frames_total s = s.bitmap.total
