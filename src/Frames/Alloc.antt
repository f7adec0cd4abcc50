-- ===== src/Frames/Alloc.antt =====
-- What `alloc` of kernel/src/mm/frame_allocator.rs hands out.
use native.Mathlib.Decide.{ℕ_discrete}
use oscortex.Base.{
  ℕ, zero, suc, ◌+◌, ◌-◌, ◌*◌, ◌/◌, ◌%◌, ◌<◌, ◌≤◌, ◌≡◌, refl, sym, ap, ◌∙◌, true, false, ◌⊎◌, inl,
  inr, none, some, List, [], ◌∷◌, ◌++◌, length, get_or, set, take, drop, arith, ◌==◌, All,
  Bool-cases, ==→eq, length-drop, ltb, ge→ltb, take-append-drop,
}
use oscortex.Base.Bits.{
  clear_bit, trailing_zeros, trailing_zeros-digit, digit, has_bit-digit, digit-zero,
}
use oscortex.Frames.{
  FrameBitmap, is_free, clear_frame, alloc_words, alloc, first_word, max_frames, min_alloc_frame,
  frame_size, bump,
}
use oscortex.Frames.Bitmap.{IsWord, IsBitmap}

module _ {ℓ} {A : Type ℓ} where
  get_or-drop : (n : ℕ) (xs : List A) (k : ℕ) (d : A) → get_or (drop n xs) k d ≡ get_or xs (n + k) d
  get_or-drop zero xs k d = let e : 0 + k ≡ k = omega arith in rw e refl
  get_or-drop (suc n) [] k d = refl
  get_or-drop (suc n) (x ∷ xs) k d =
      let e : suc n + k ≡ suc (n + k) = omega arith in rw e (get_or-drop n xs k d)

  take-set-drop :
      (n : ℕ) (xs : List A) (k : ℕ) (v : A) → take n xs ++ set (drop n xs) k v ≡ set xs (n + k) v
  take-set-drop zero xs k v = let e : 0 + k ≡ k = omega arith in rw e refl
  take-set-drop (suc n) [] k v = refl
  take-set-drop (suc n) (x ∷ xs) k v =
      let e : suc n + k ≡ suc (n + k) = omega arith in rw e (ap (◌∷◌ x) (take-set-drop n xs k v))

  All-drop {κ} : (P : A → Type κ) (n : ℕ) (xs : List A) → All P xs → All P (drop n xs)
  All-drop P zero xs a = a
  All-drop P (suc n) [] a = a
  All-drop P (suc n) (x ∷ xs) a = All-drop P n xs a.1

abbrev lowest_bit : ℕ → ℕ
lowest_bit w = trailing_zeros 64 w

zero_next :
    (w : ℕ) (ws : List ℕ)
    → w ≡ 0
    → ((k : ℕ) → get_or ws k 0 ≡ 0)
    → (k : ℕ) → get_or (w ∷ ws) k 0 ≡ 0
zero_next w ws z h zero = z
zero_next w ws z h (suc k) = h k

zero_below :
    (w : ℕ) (ws : List ℕ) (n : ℕ)
    → w ≡ 0
    → ((j : ℕ) → j < n → get_or ws j 0 ≡ 0)
    → (j : ℕ) → j < suc n
    → get_or (w ∷ ws) j 0 ≡ 0
zero_below w ws n z h zero m = z
zero_below w ws n z h (suc j) m = h j (omega arith)

-- The first word that is not 0 gives up its lowest bit.
words_cases :
    (ws : List ℕ) (i used : ℕ)
    → first_word ≤ i
    → All IsWord ws
    → ((alloc_words ws i used ≡ (ws, used, none)) × ((k : ℕ) → get_or ws k 0 ≡ 0))
      ⊎ ((k : ℕ) × (k < length ws)
          × (0 < get_or ws k 0)
          × IsWord (get_or ws k 0)
          × ((j : ℕ) → j < k → get_or ws j 0 ≡ 0)
          × (alloc_words ws i used ≡ (
            set ws k (clear_bit (get_or ws k 0) (lowest_bit (get_or ws k 0))),
            bump used,
            some (((i + k) * 64 + lowest_bit (get_or ws k 0)) * frame_size),
          )))
unfolding alloc_words
words_cases [] i used h a = inl (refl, λ k. refl)
words_cases (w ∷ ws) i used h a = elim (Bool-cases (w == 0)) [
  | inr e ↦
      (let q : ltb (i * 64 + lowest_bit w) min_alloc_frame ≡ false =
          ge→ltb (i * 64 + lowest_bit w) min_alloc_frame (omega arith) in
        let p : i + 0 ≡ i = omega arith in
        inr (
          0,
          omega arith,
          ground (arith, e),
          a.0,
          λ j l. absurd (omega arith),
          rw (alloc_words, e, q, p) refl,
        ))
  | inl e ↦
      (let z : w ≡ 0 = ==→eq w 0 e in
        elim (words_cases ws (i + 1) used (omega arith) a.1) [
          | inl (r, zeros) ↦ inl (rw (alloc_words, e, r) refl, λ k. zero_next w ws z zeros k)
          | inr (k, l, pos, fit, low, r) ↦
              (let p : i + suc k ≡ i + 1 + k = omega arith in
                inr (
                  suc k,
                  omega arith,
                  pos,
                  fit,
                  λ j m. zero_below w ws k z low j m,
                  rw (alloc_words, e, r, p) refl,
                ))
        ])
]

-- The lowest free frame that may be handed out.
pub record Lowest (bits : List ℕ) (f : ℕ) : Type 0 where
  pub above : min_alloc_frame ≤ f
  pub below : f < max_frames
  pub free : is_free bits f ≡ true
  pub first : (g : ℕ) → min_alloc_frame ≤ g → g < f → is_free bits g ≡ false

zero_word : (bits : List ℕ) (g : ℕ) → get_or bits (g / 64) 0 ≡ 0 → is_free bits g ≡ false
zero_word bits g e = rw e (has_bit-digit 0 (g % 64) ∙ ap (λ (x : ℕ). x == 1) (digit-zero (g % 64)))

word_above :
    (bits : List ℕ) (g : ℕ)
    → min_alloc_frame ≤ g
    → get_or bits (g / 64) 0 ≡ get_or (drop first_word bits) (g / 64 - first_word) 0
word_above bits g a =
    let p : first_word + (g / 64 - first_word) ≡ g / 64 = omega arith in
    ap (λ (i : ℕ). get_or bits i 0) (sym p)
    ∙ sym (get_or-drop first_word bits (g / 64 - first_word) 0)

module _ (bits : List ℕ) (v : IsBitmap bits) (k : ℕ) (l : k < length (drop first_word bits))
    (pos : 0 < get_or (drop first_word bits) k 0) (fit : IsWord (get_or (drop first_word bits) k 0))
    (low : (j : ℕ) → j < k → get_or (drop first_word bits) j 0 ≡ 0) where
  abbrev word : ℕ
  word = get_or (drop first_word bits) k 0

  abbrev frame : ℕ
  frame = (first_word + k) * 64 + lowest_bit word

  here :
      (lowest_bit word < 64)
      × (digit word (lowest_bit word) ≡ 1)
      × ((j : ℕ) → j < lowest_bit word → digit word j ≡ 0)
  here = trailing_zeros-digit 64 word pos fit

  frame-word : frame / 64 ≡ first_word + k
  frame-word = omega (arith, here.0)

  frame-bit : frame % 64 ≡ lowest_bit word
  frame-bit = omega (arith, here.0)

  word_at : get_or bits (frame / 64) 0 ≡ word
  word_at = ap (λ (i : ℕ). get_or bits i 0) frame-word ∙ sym (get_or-drop first_word bits k 0)

  bit_at : is_free bits frame ≡ true
  bit_at = rw (word_at, frame-bit) (has_bit-digit word (lowest_bit word) ∙ rw here.1 refl)

  none_before : (g : ℕ) → min_alloc_frame ≤ g → g < frame → is_free bits g ≡ false
  none_before g a b = elim (ℕ_discrete (g / 64) (frame / 64)) [
    | yes e ↦
        rw (e, word_at)
          (has_bit-digit word (g % 64)
            ∙ ap (λ (x : ℕ). x == 1) (here.2 (g % 64) (omega (arith, e, frame-bit))))
    | no n ↦
        zero_word bits g
          (word_above bits g a ∙ low (g / 64 - first_word) (omega (arith, frame-word)))
  ]

  frame-Lowest : Lowest bits frame
  frame-Lowest = record {
    above = omega (arith, frame-word);
    below = omega (arith, frame-word, length-drop first_word bits, v.words);
    free = bit_at;
    first = none_before;
  }

  cleared :
      take first_word bits ++ set (drop first_word bits) k (clear_bit word (lowest_bit word))
      ≡ clear_frame frame bits
  cleared = take-set-drop first_word bits k _ ∙ rw (frame-bit, word_at, frame-word) refl

-- On a bitmap of 16,384 words of 64 bits, `alloc` returns the lowest free frame from 1 MiB on, clears
-- its bit and no other and counts one more frame in use; it returns nothing, and changes nothing,
-- exactly when no frame from 1 MiB on is free.
pub alloc-first_free :
    (bm : FrameBitmap)
    → IsBitmap bm.bits
    → ((alloc bm ≡ (bm, none))
        × ((g : ℕ) → min_alloc_frame ≤ g → g < max_frames → is_free bm.bits g ≡ false))
      ⊎ ((f : ℕ) × Lowest bm.bits f
          × (alloc bm ≡ (
            record bm { bits = clear_frame f bm.bits; used = bump bm.used },
            some (f * frame_size),
          )))
unfolding alloc
alloc-first_free bm v =
    elim (words_cases (drop first_word bm.bits) first_word bm.used (omega arith)
      (All-drop IsWord first_word bm.bits v.fit)) [
        | inl (r, zeros) ↦ inl (
          rw (r, take-append-drop first_word bm.bits) refl,
          λ g a b. zero_word bm.bits g (word_above bm.bits g a ∙ zeros (g / 64 - first_word)),
        )
        | inr (k, l, pos, fit, low, r) ↦ inr (
          frame bm.bits v k l pos fit low,
          frame-Lowest bm.bits v k l pos fit low,
          rw (r, cleared bm.bits v k l pos fit low) refl,
        )
      ]
