-- ===== src/Frames/Count.antt =====
-- How many frames the bitmap of kernel/src/mm/frame_allocator.rs holds free.
use native.Mathlib.Decide.{ℕ_discrete}
use oscortex.Base.{
  ℕ, zero, suc, ◌+◌, ◌<◌, ◌≤◌, ◌≡◌, refl, sym, ap, ◌∙◌, Bool, true, false, not, ◌&&◌, List, arith,
  ◌==◌, if◌then◌else◌,
}
use oscortex.Frames.{is_free, clear_frame, set_frame, clear_run, max_frames}
use oscortex.Frames.Bitmap.{
  IsBitmap, is_free-clear_frame, is_free-set_frame, clear_frame-IsBitmap, ne→==,
}

-- How many of the numbers below `n` pass a test.
unfoldable pub count_below : (ℕ → Bool) → ℕ → ℕ
count_below p zero = 0
count_below p (suc n) = count_below p n + (if p n then 1 else 0)

abbrev pub free_count : List ℕ → ℕ
free_count bits = count_below (is_free bits) max_frames

pub count_below_le : (p : ℕ → Bool) (n : ℕ) → count_below p n ≤ n
unfolding count_below
count_below_le p zero = omega arith
count_below_le p (suc n) = ground (arith, count_below_le p n)

count_below-ext :
    (p q : ℕ → Bool) (n : ℕ) → ((g : ℕ) → g < n → p g ≡ q g) → count_below p n ≡ count_below q n
unfolding count_below
count_below-ext p q zero h = refl
count_below-ext p q (suc n) h =
    let e = count_below-ext p q n (λ g l. h g (omega arith)) in
    let k = h n (omega arith) in rw (e, k) refl

count_below-drop :
    (p q : ℕ → Bool) (f n : ℕ)
    → ((g : ℕ) → q g ≡ (not (g == f) && p g))
    → p f ≡ true
    → f < n
    → count_below q n + 1 ≡ count_below p n
unfolding count_below
count_below-drop p q f zero h e l = absurd (omega arith)
count_below-drop p q f (suc n) h e l = elim (ℕ_discrete n f) [
  | yes k ↦
      let same = count_below-ext q p n (λ g m. h g ∙ rw (ne→== g f (λ r. omega arith)) refl) in
      let at : q n ≡ false = h n ∙ ground (arith, k) in
      let was : p n ≡ true = ap p k ∙ e in rw (at, was) (omega (arith, same))
  | no k ↦
      let same : q n ≡ p n = h n ∙ rw (ne→== n f k) refl in
      rw same (omega (arith, count_below-drop p q f n h e (grind arith)))
]

pub free_count-clear_frame :
    (bits : List ℕ) (f : ℕ)
    → IsBitmap bits
    → f < max_frames
    → is_free bits f ≡ true
    → free_count (clear_frame f bits) + 1 ≡ free_count bits
free_count-clear_frame bits f v h e =
    count_below-drop (is_free bits) (is_free (clear_frame f bits)) f max_frames
      (λ g. is_free-clear_frame bits f g v h) e h

pub free_count-set_frame :
    (bits : List ℕ) (f : ℕ)
    → IsBitmap bits
    → f < max_frames
    → is_free bits f ≡ false
    → free_count (set_frame f bits) ≡ free_count bits + 1
free_count-set_frame bits f v h e = sym (
    count_below-drop (is_free (set_frame f bits)) (is_free bits) f max_frames
      (λ g. elim (ℕ_discrete g f) [
        | yes k ↦ ap (is_free bits) k ∙ e ∙ ground (arith, k)
        | no k ↦ sym (rw (ne→== g f k) (is_free-set_frame bits f g v h ∙ rw (ne→== g f k) refl))
      ])
      (is_free-set_frame bits f f v h ∙ ground arith) h)

pub free_count-clear_run :
    (n f : ℕ) (bits : List ℕ)
    → IsBitmap bits
    → f + n ≤ max_frames
    → ((g : ℕ) → f ≤ g → g < f + n → is_free bits g ≡ true)
    → free_count (clear_run n f bits) + n ≡ free_count bits
unfolding clear_run
free_count-clear_run zero f bits v h free = omega arith
free_count-clear_run (suc n) f bits v h free =
    let rest =
      free_count-clear_run n (f + 1) (clear_frame f bits)
        (clear_frame-IsBitmap bits f v (omega arith)) (omega arith)
        (λ g a b.
          is_free-clear_frame bits f g v (omega arith)
          ∙ rw (ne→== g f (λ r. omega arith)) (free g (omega arith) (omega arith))) in
    omega (
      arith,
      rest,
      free_count-clear_frame bits f v (omega arith) (free f (omega arith) (omega arith)),
    )
