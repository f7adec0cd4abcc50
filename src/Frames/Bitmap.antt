-- ===== src/Frames/Bitmap.antt =====
-- Which frames the bitmap of kernel/src/mm/frame_allocator.rs holds free, when one bit changes.
use native.Mathlib.Decide.{ℕ_discrete}
use oscortex.Base.{
  ℕ, ◌/◌, ◌%◌, ◌^◌, ◌<◌, ◌≡◌, ◌≢◌, refl, ap, ◌∙◌, false, not, ◌&&◌, ◌||◌, List, length, get_or, set,
  arith, ◌==◌, get_or-set_self, get_or-set_ne, length-set, All, All-set, All-get_or, inl, inr, ◌⊎◌,
  Bool-cases, ==→eq,
}
use oscortex.Base.Bits.{
  has_bit, set_bit, clear_bit, has_bit-set_bit, has_bit-clear_bit, set_bit_lt, clear_bit_lt,
}
use oscortex.Frames.{is_free, set_frame, clear_frame, max_frames}

abbrev pub IsWord : ℕ → Type 0
IsWord w = w < 2 ^ 64

-- 2^20 bits in words of 64 bits.
pub record IsBitmap (bits : List ℕ) : Type 0 where
  pub words : length bits ≡ max_frames / 64
  pub fit : All IsWord bits

word_in_range : (bits : List ℕ) → IsBitmap bits → (f : ℕ) → f < max_frames → f / 64 < length bits
word_in_range bits v f h = omega (arith, v.words)

-- A frame of the word that changes is read from the new word, every other one as before.
is_free-set :
    (bits : List ℕ) (f g w : ℕ)
    → IsBitmap bits
    → f < max_frames
    → ((g / 64 ≡ f / 64)
        × (is_free (set bits (f / 64) w) g ≡ has_bit w (g % 64))
        × (is_free bits g ≡ has_bit (get_or bits (f / 64) 0) (g % 64)))
      ⊎ ((g ≢ f) × (is_free (set bits (f / 64) w) g ≡ is_free bits g))
is_free-set bits f g w v h = elim (ℕ_discrete (g / 64) (f / 64)) [
  | yes e ↦ inl (
    e,
    ap (λ (i : ℕ). has_bit (get_or (set bits (f / 64) w) i 0) (g % 64)) e
        ∙ ap (λ (x : ℕ). has_bit x (g % 64))
            (get_or-set_self bits (f / 64) w 0 (word_in_range bits v f h)),
    ap (λ (i : ℕ). has_bit (get_or bits i 0) (g % 64)) e,
  )
  | no n ↦ inr (
    λ q. n (ap (λ (x : ℕ). x / 64) q),
    ap (λ (x : ℕ). has_bit x (g % 64)) (get_or-set_ne bits (f / 64) (g / 64) w 0 n),
  )
]

pub ne→== : (g f : ℕ) → g ≢ f → (g == f) ≡ false
ne→== g f n = elim (Bool-cases (g == f)) [ inl e ↦ absurd (n (==→eq g f e)) | inr e ↦ e ]

same_word : (g f : ℕ) → g / 64 ≡ f / 64 → (g % 64 == f % 64) ≡ (g == f)
same_word g f e = ground arith

-- Taking a frame makes that frame, and no other, not free.
pub is_free-clear_frame :
    (bits : List ℕ) (f g : ℕ)
    → IsBitmap bits
    → f < max_frames
    → is_free (clear_frame f bits) g ≡ (not (g == f) && is_free bits g)
is_free-clear_frame bits f g v h =
    let w = get_or bits (f / 64) 0 in
    elim (is_free-set bits f g (clear_bit w (f % 64)) v h) [
      | inr (n, e) ↦ e ∙ rw (ne→== g f n) refl
      | inl (q, e, k) ↦
          e
          ∙ has_bit-clear_bit w (f % 64) (g % 64) (omega arith) (omega arith)
          ∙ rw (same_word g f q, k) refl
    ]

-- Giving a frame back makes that frame, and no other, free.
pub is_free-set_frame :
    (bits : List ℕ) (f g : ℕ)
    → IsBitmap bits
    → f < max_frames
    → is_free (set_frame f bits) g ≡ (g == f || is_free bits g)
is_free-set_frame bits f g v h =
    let w = get_or bits (f / 64) 0 in
    elim (is_free-set bits f g (set_bit w (f % 64)) v h) [
      | inr (n, e) ↦ e ∙ rw (ne→== g f n) refl
      | inl (q, e, k) ↦ e ∙ has_bit-set_bit w (f % 64) (g % 64) ∙ rw (same_word g f q, k) refl
    ]

set-IsBitmap : (bits : List ℕ) (i w : ℕ) → IsBitmap bits → IsWord w → IsBitmap (set bits i w)
set-IsBitmap bits i w v h = record {
  words = length-set bits i w ∙ v.words;
  fit = All-set IsWord bits i w v.fit h;
}

pub fit_at :
    (bits : List ℕ) (f : ℕ) → IsBitmap bits → f < max_frames → IsWord (get_or bits (f / 64) 0)
fit_at bits f v h = All-get_or IsWord bits (f / 64) 0 v.fit (word_in_range bits v f h)

pub clear_frame-IsBitmap :
    (bits : List ℕ) (f : ℕ) → IsBitmap bits → f < max_frames → IsBitmap (clear_frame f bits)
clear_frame-IsBitmap bits f v h =
    set-IsBitmap bits (f / 64) _ v (clear_bit_lt _ (f % 64) (fit_at bits f v h))

pub set_frame-IsBitmap :
    (bits : List ℕ) (f : ℕ) → IsBitmap bits → f < max_frames → IsBitmap (set_frame f bits)
set_frame-IsBitmap bits f v h =
    set-IsBitmap bits (f / 64) _ v (set_bit_lt _ (f % 64) (fit_at bits f v h) (omega arith))
