-- ===== src/Frames/Run.antt =====
-- The search for contiguous frames of kernel/src/mm/frame_allocator.rs, and what taking them does.
use oscortex.Base.{
  ℕ, zero, suc, ◌+◌, ◌-◌, ◌*◌, ◌%◌, ◌^◌, ◌<◌, ◌≤◌, ◌≡◌, refl, ap, ◌∙◌, Bool, true, false, not, ◌⊎◌,
  inl, inr, ◌&&◌, none, some, List, arith, ◌==◌, Bool-cases, ==→eq, ltb, leb, ltb→lt, ltb→ge,
  if◌then◌else◌,
}
use native.Mathlib.Decide.{ℕ_discrete}
use oscortex.Frames.{
  FrameBitmap, is_free, clear_frame, find_run, clear_run, alloc_contiguous, max_frames,
  min_alloc_frame, frame_size,
}
use oscortex.Frames.Bitmap.{IsBitmap, is_free-clear_frame, clear_frame-IsBitmap}

-- `count` free frames from `s` on.
pub record IsRun (bits : List ℕ) (count s : ℕ) : Type 0 where
  pub above : min_alloc_frame ≤ s
  pub below : s + count ≤ max_frames
  pub free : (g : ℕ) → s ≤ g → g < s + count → is_free bits g ≡ true

-- One of `count` frames from `s` on is taken.
abbrev pub Blocked : List ℕ → ℕ → ℕ → Type 0
Blocked bits count s = (g : ℕ) × (s ≤ g) × (g < s + count) × (is_free bits g ≡ false)

module _ (bits : List ℕ) (count : ℕ) where
  -- No run starts before `s`.
  abbrev pub NoneBefore : ℕ → Type 0
  NoneBefore s = (r : ℕ) → min_alloc_frame ≤ r → r < s → Blocked bits count r

  step_blocked :
      (b len frame : ℕ)
      → b + len ≡ frame
      → len < count
      → is_free bits frame ≡ false
      → NoneBefore b
      → NoneBefore (frame + 1)
  step_blocked b len frame m l e none_before r above below = elim (Bool-cases (ltb r b)) [
    | inl q ↦ none_before r above (ltb→lt r b q)
    | inr q ↦ (let h = ltb→ge r b q in (frame, omega arith, omega arith, e))
  ]

  step_free :
      (b frame : ℕ)
      → is_free bits frame ≡ true
      → ((g : ℕ) → b ≤ g → g < frame → is_free bits g ≡ true)
      → (g : ℕ) → b ≤ g
      → g < frame + 1
      → is_free bits g ≡ true
  step_free b frame e fr g above below = elim (ℕ_discrete g frame) [
    | yes q ↦ ap (is_free bits) q ∙ e
    | no n ↦ fr g above (grind arith)
  ]

  -- With a free run from `b` up to `frame`, the search returns the first run that is long enough.
  find_run_first :
      (left frame start len b : ℕ)
      → frame + left ≡ max_frames
      → b + len ≡ frame
      → min_alloc_frame ≤ b
      → len < count
      → (0 < len → start ≡ b)
      → ((g : ℕ) → b ≤ g → g < frame → is_free bits g ≡ true)
      → NoneBefore b
      → ((find_run bits count left frame start len ≡ none)
          × ((r : ℕ) → min_alloc_frame ≤ r → r + count ≤ max_frames → Blocked bits count r))
        ⊎ ((s : ℕ) × (find_run bits count left frame start len ≡ some s)
            × IsRun bits count s
            × NoneBefore s)
  unfolding find_run
  find_run_first zero frame start len b m k a l st fr nb = inl (refl, λ r p q. nb r p (omega arith))
  find_run_first (suc left) frame start len b m k a l st fr nb =
      elim (Bool-cases (is_free bits frame)) [
        | inr e ↦
            rw (find_run, e)
              (find_run_first left (frame + 1) start 0 (frame + 1) (omega arith) (omega arith)
                (omega arith) (omega arith) (λ h. absurd (omega arith))
                (λ g p q. absurd (omega arith)) (step_blocked b len frame k l e nb))
        | inl e ↦
            let q : (if len == 0 then frame else start) ≡ b = start_at frame start len b k st in
            elim (Bool-cases (len + 1 == count)) [
              | inl c ↦ inr (
                b,
                rw (find_run, e, c, q) refl,
                record {
                  above = a;
                  below = omega (arith, ==→eq (len + 1) count c);
                  free =
                      λ g p r. step_free b frame e fr g p (omega (arith, ==→eq (len + 1) count c));
                },
                nb,
              )
              | inr c ↦
                  rw (find_run, e, c, q)
                    (find_run_first left (frame + 1) b (len + 1) b (omega arith) (omega arith) a
                      (ground (arith, c)) (λ h. refl) (step_free b frame e fr) nb)
            ]
      ]
    where
      start_at :
          (frame start len b : ℕ)
          → b + len ≡ frame
          → (0 < len → start ≡ b)
          → (if len == 0 then frame else start) ≡ b
      start_at frame start len b k st = grind arith

pub join_tests :
    (f n g : ℕ) (b : Bool)
    → (not (leb (f + 1) g && ltb g (f + 1 + n)) && (not (g == f) && b))
      ≡ (not (leb f g && ltb g (f + suc n)) && b)
join_tests f n g b = ground arith

-- Taking a run makes its frames, and no others, not free.
pub is_free-clear_run :
    (n f : ℕ) (bits : List ℕ) (g : ℕ)
    → IsBitmap bits
    → f + n ≤ max_frames
    → is_free (clear_run n f bits) g ≡ (not (leb f g && ltb g (f + n)) && is_free bits g)
unfolding clear_run
is_free-clear_run zero f bits g v h =
    let e : (leb f g && ltb g (f + 0)) ≡ false = ground arith in rw e refl
is_free-clear_run (suc n) f bits g v h =
    is_free-clear_run n (f + 1) (clear_frame f bits) g (clear_frame-IsBitmap bits f v (omega arith))
      (omega arith)
    ∙ rw (is_free-clear_frame bits f g v (omega arith)) (join_tests f n g (is_free bits g))

pub clear_run-IsBitmap :
    (n f : ℕ) (bits : List ℕ) → IsBitmap bits → f + n ≤ max_frames → IsBitmap (clear_run n f bits)
unfolding clear_run
clear_run-IsBitmap zero f bits v h = v
clear_run-IsBitmap (suc n) f bits v h =
    clear_run-IsBitmap n (f + 1) (clear_frame f bits) (clear_frame-IsBitmap bits f v (omega arith))
      (omega arith)

-- For a count that is not 0, `alloc_contiguous` takes the first run of that many free frames between 1
-- MiB and 4 GiB: it either returns the start of a run that is free and before which none starts, and
-- clears the run, or it returns nothing and changes nothing, and then every run of that length has a
-- frame that is not free.
pub alloc_contiguous-first_fit :
    (count : ℕ) (bm : FrameBitmap)
    → IsBitmap bm.bits
    → 0 < count
    → ((alloc_contiguous count bm ≡ (bm, none))
        × ((r : ℕ) → min_alloc_frame ≤ r → r + count ≤ max_frames → Blocked bm.bits count r))
      ⊎ ((s : ℕ) × IsRun bm.bits count s
          × NoneBefore bm.bits count s
          × (alloc_contiguous count bm ≡ (
            record bm { bits = clear_run count s bm.bits; used = (bm.used + count) % 2 ^ 64 },
            some (s * frame_size),
          )))
unfolding alloc_contiguous
alloc_contiguous-first_fit count bm v h =
    let z : (count == 0) ≡ false = ground arith in
    elim (find_run_first bm.bits count (max_frames - min_alloc_frame) min_alloc_frame 0 0
      min_alloc_frame (omega arith) (omega arith) (omega arith) h (λ p. absurd (omega arith))
      (λ g p q. absurd (omega arith)) (λ r p q. absurd (omega arith))) [
        | inl (e, b) ↦ inl (rw (alloc_contiguous, z, e) refl, b)
        | inr (s, e, r, nb) ↦ inr (s, r, nb, rw (alloc_contiguous, z, e) refl)
      ]
