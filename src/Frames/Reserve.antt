-- ===== src/Frames/Reserve.antt =====
-- `reserve_range` of kernel/src/mm/frame_allocator.rs: which frames it takes and how it counts them.
use oscortex.Base.{
  ℕ, zero, suc, ◌+◌, ◌-◌, ◌/◌, ◌%◌, ◌^◌, ◌<◌, ◌≤◌, ◌≡◌, refl, ap, ◌∙◌, false, not, ◌&&◌, arith,
  ◌==◌, Bool-cases, ==→eq, inl, inr, ◌⊎◌, leb, ltb, min, if◌then◌else◌,
}
use oscortex.Frames.{
  FrameBitmap, is_free, clear_frame, reserve_frames, reserve_range, max_frames, frame_size, bump,
}
use oscortex.Frames.Bitmap.{IsBitmap, is_free-clear_frame, clear_frame-IsBitmap}
use oscortex.Frames.Run.{join_tests}
use oscortex.Frames.Count.{free_count, free_count-clear_frame}

abbrev reserve_one : ℕ → FrameBitmap → FrameBitmap
reserve_one f bm =
    if is_free bm.bits f
    then record bm { bits = clear_frame f bm.bits; used = bump bm.used }
    else bm

reserve_one-IsBitmap :
    (f : ℕ) (bm : FrameBitmap)
    → f < max_frames
    → IsBitmap bm.bits
    → IsBitmap (reserve_one f bm).bits
reserve_one-IsBitmap f bm h v = elim (Bool-cases (is_free bm.bits f)) [
  | inl e ↦ rw e (clear_frame-IsBitmap bm.bits f v h)
  | inr e ↦ rw e v
]

is_free-reserve_one :
    (f g : ℕ) (bm : FrameBitmap)
    → f < max_frames
    → IsBitmap bm.bits
    → is_free (reserve_one f bm).bits g ≡ (not (g == f) && is_free bm.bits g)
is_free-reserve_one f g bm h v = elim (Bool-cases (is_free bm.bits f)) [
  | inl e ↦ rw e (is_free-clear_frame bm.bits f g v h)
  | inr e ↦ rw e (elim (Bool-cases (g == f)) [
    | inl q ↦ ap (is_free bm.bits) (==→eq g f q) ∙ e ∙ rw q refl
    | inr q ↦ rw q refl
  ])
]

-- The frames in use and the free ones.
abbrev pub accounted : FrameBitmap → ℕ
accounted bm = bm.used + free_count bm.bits

accounted-reserve_one :
    (f : ℕ) (bm : FrameBitmap)
    → f < max_frames
    → IsBitmap bm.bits
    → accounted bm < 2 ^ 64
    → accounted (reserve_one f bm) ≡ accounted bm
accounted-reserve_one f bm h v s = elim (Bool-cases (is_free bm.bits f)) [
  | inl e ↦
      (let k = free_count-clear_frame bm.bits f v h e in
        let u : bump bm.used ≡ bm.used + 1 = omega arith in rw (e, u) (omega (arith, k)))
  | inr e ↦ rw e refl
]

pub reserve_frames-IsBitmap :
    (n f : ℕ) (bm : FrameBitmap)
    → f + n ≤ max_frames
    → IsBitmap bm.bits
    → IsBitmap (reserve_frames n f bm).bits
unfolding reserve_frames
reserve_frames-IsBitmap zero f bm h v = v
reserve_frames-IsBitmap (suc n) f bm h v =
    reserve_frames-IsBitmap n (f + 1) (reserve_one f bm) (omega arith)
      (reserve_one-IsBitmap f bm (omega arith) v)

-- No frame of the range is free afterwards; no frame becomes free.
pub is_free-reserve_frames :
    (n f g : ℕ) (bm : FrameBitmap)
    → f + n ≤ max_frames
    → IsBitmap bm.bits
    → is_free (reserve_frames n f bm).bits g ≡ (not (leb f g && ltb g (f + n)) && is_free bm.bits g)
unfolding reserve_frames
is_free-reserve_frames zero f g bm h v =
    let e : (leb f g && ltb g (f + 0)) ≡ false = ground arith in rw e refl
is_free-reserve_frames (suc n) f g bm h v =
    is_free-reserve_frames n (f + 1) g (reserve_one f bm) (omega arith)
      (reserve_one-IsBitmap f bm (omega arith) v)
    ∙ rw (is_free-reserve_one f g bm (omega arith) v) (join_tests f n g (is_free bm.bits g))

pub accounted-reserve_frames :
    (n f : ℕ) (bm : FrameBitmap)
    → f + n ≤ max_frames
    → IsBitmap bm.bits
    → accounted bm < 2 ^ 64
    → accounted (reserve_frames n f bm) ≡ accounted bm
unfolding reserve_frames
accounted-reserve_frames zero f bm h v s = refl
accounted-reserve_frames (suc n) f bm h v s =
    let one = accounted-reserve_one f bm (omega arith) v s in
    accounted-reserve_frames n (f + 1) (reserve_one f bm) (omega arith)
      (reserve_one-IsBitmap f bm (omega arith) v) (omega (arith, one))
    ∙ one

-- The range that `reserve_range` walks.
abbrev pub first_frame : ℕ → ℕ
first_frame base = base / frame_size

abbrev pub frame_count : ℕ → ℕ → ℕ
frame_count base len =
    min ((base + len + (frame_size - 1)) % 2 ^ 64 / frame_size) max_frames - first_frame base

pub reserve_cases :
    (base len : ℕ) (bm : FrameBitmap)
    → (reserve_range base len bm ≡ bm)
      ⊎ ((reserve_range base len bm ≡ reserve_frames (frame_count base len) (first_frame base) bm)
          × (first_frame base + frame_count base len ≤ max_frames))
unfolding reserve_range reserve_frames
reserve_cases base len bm = elim (Bool-cases (len == 0)) [
  | inl z ↦ inl (rw z refl)
  | inr z ↦ elim (Bool-cases (leb (first_frame base) max_frames)) [
    | inl l ↦ inr (rw z refl, ground (arith, l))
    | inr l ↦
        (let e : frame_count base len ≡ 0 = ground (arith, l) in
          inl (rw (z, reserve_frames, e) refl))
  ]
]
