-- ===== src/Frames/History.antt =====
-- Sequences of calls of kernel/src/mm/frame_allocator.rs: a frame that is taken is granted to nobody
-- else until it is freed.
use oscortex.Base.{
  ℕ, zero, suc, ◌+◌, ◌*◌, ◌/◌, ◌%◌, ◌^◌, ◌<◌, ◌≤◌, ◌≡◌, ◌≢◌, refl, sym, ap, subst, ◌∙◌, Bool, true,
  false, not, ◌&&◌, ◌⊎◌, inl, inr, Option, none, some, List, [], ◌∷◌, All, arith, ◌==◌, leb, ltb,
  Bool-cases, ltb→lt, ltb→ge,
}
use oscortex.Frames.{
  FrameBitmap, is_free, alloc, alloc_contiguous, free, reserve_range, max_frames, frame_size, bump,
}
use oscortex.Frames.Bitmap.{
  IsBitmap, is_free-clear_frame, is_free-set_frame, clear_frame-IsBitmap, set_frame-IsBitmap,
}
use oscortex.Frames.Alloc.{alloc-first_free}
use oscortex.Frames.Run.{IsRun, alloc_contiguous-first_fit, is_free-clear_run, clear_run-IsBitmap}
use oscortex.Frames.Count.{
  count_below_le, free_count-clear_frame, free_count-set_frame, free_count-clear_run,
}
use oscortex.Frames.Reserve.{
  accounted, reserve_cases, first_frame, frame_count, is_free-reserve_frames,
  reserve_frames-IsBitmap, accounted-reserve_frames,
}

pub data Call : Type 0 where
  allocs : Call
  allocs_contiguous : ℕ → Call
  frees : ℕ → Call
  reserves : ℕ → ℕ → Call

-- The address and the number of the frames that a call grants.
abbrev Grant : Type 0
Grant = Option (ℕ × ℕ)

abbrev granted : ℕ → FrameBitmap × Option ℕ → FrameBitmap × Option (ℕ × ℕ)
granted n (bm, none) = (bm, none)
granted n (bm, some phys) = (bm, some (phys, n))

unfoldable pub step : Call → FrameBitmap → FrameBitmap × Option (ℕ × ℕ)
step allocs bm = granted 1 (alloc bm)
step (allocs_contiguous count) bm = granted count (alloc_contiguous count bm)
step (frees phys) bm = (free phys bm, none)
step (reserves base len) bm = (reserve_range base len bm, none)

unfoldable pub run : List Call → FrameBitmap → FrameBitmap × List (Option (ℕ × ℕ))
run [] bm = (bm, [])
run (c ∷ cs) bm = let (bm1, g) = step c bm in let (bm2, gs) = run cs bm1 in (bm2, g ∷ gs)

-- The address is in none of the frames that are granted.
abbrev pub Avoids : ℕ → Option (ℕ × ℕ) → Type 0
Avoids x none = Unit
Avoids x (some (phys, n)) = (x < phys) ⊎ (phys + n * frame_size ≤ x)

-- The address is in one of the frames that are granted.
abbrev pub Grants : ℕ → Option (ℕ × ℕ) → Type 0
Grants x g = (phys : ℕ) × (n : ℕ) × (g ≡ some (phys, n)) × (phys ≤ x) × (x < phys + n * frame_size)

-- The call frees the frame of the address.
abbrev pub frees_frame : ℕ → Call → Bool
frees_frame x (frees phys) = phys / frame_size == x / frame_size
frees_frame x _ = false

-- The frame of the address is not free.
abbrev pub is_taken : ℕ → List ℕ → Bool
is_taken x bits = not (is_free bits (x / frame_size))

-- What each call keeps.
record Keeps (bm : FrameBitmap) (c : Call) (r : FrameBitmap × Option (ℕ × ℕ)) : Type 0 where
  shape : IsBitmap r.0.bits
  taken :
      (x : ℕ)
      → is_free bm.bits (x / frame_size) ≡ false
      → frees_frame x c ≡ false
      → is_free r.0.bits (x / frame_size) ≡ false
  avoids : (x : ℕ) → is_free bm.bits (x / frame_size) ≡ false → Avoids x r.1
  grabs : (x : ℕ) → Avoids x r.1 ⊎ (is_free r.0.bits (x / frame_size) ≡ false)
  balance : accounted bm < 2 ^ 64 → 0 < bm.used → accounted r.0 ≡ accounted bm

away_one : (x f : ℕ) → (x / frame_size) ≢ f → Avoids x (some (f * frame_size, 1))
away_one x f n = elim (Bool-cases (ltb x (f * frame_size))) [
  | inl e ↦ inl (ltb→lt x (f * frame_size) e)
  | inr e ↦ inr (grind (arith, ltb→ge x (f * frame_size) e))
]

apart : (bits : List ℕ) (g f : ℕ) → is_free bits g ≡ false → is_free bits f ≡ true → g ≢ f
apart bits g f a b e = true_ne_false (sym b ∙ ap (is_free bits) (sym e) ∙ a)
  where
    true_ne_false : true ≢ false
    true_ne_false e = cc

alloc-Keeps : (bm : FrameBitmap) → IsBitmap bm.bits → Keeps bm allocs (step allocs bm)
unfolding step
alloc-Keeps bm v = elim (alloc-first_free bm v) [
  | inl (e, h) ↦ rw e (record {
    shape = v;
    taken = λ x t f. t;
    avoids = λ x t. tt;
    grabs = λ x. inl tt;
    balance = λ s u. refl;
  })
  | inr (f, low, e) ↦ rw e (record {
    shape = clear_frame-IsBitmap bm.bits f v low.below;
    taken = λ x t k. is_free-clear_frame bm.bits f (x / frame_size) v low.below ∙ ground (arith, t);
    avoids = λ x t. away_one x f (apart bm.bits (x / frame_size) f t low.free);
    grabs = λ x.
        let k = is_free-clear_frame bm.bits f (x / frame_size) v low.below in
        elim (Bool-cases ((x / frame_size) == f)) [
          | inl e ↦ inr (k ∙ ground (arith, e))
          | inr e ↦ inl (away_one x f (λ q. ground (arith, e, q)))
        ];
    balance = λ s u.
        let k = free_count-clear_frame bm.bits f v low.below low.free in
        let b : bump bm.used ≡ bm.used + 1 = omega (arith, s, k) in omega (arith, k, b);
  })
]

away_run :
    (x s n : ℕ)
    → (leb s (x / frame_size) && ltb (x / frame_size) (s + n)) ≡ false
    → Avoids x (some (s * frame_size, n))
away_run x s n h = elim (Bool-cases (ltb x (s * frame_size))) [
  | inl e ↦ inl (ltb→lt x (s * frame_size) e)
  | inr e ↦ inr (ground (arith, ltb→ge x (s * frame_size) e))
]

outside :
    (bits : List ℕ) (count s g : ℕ)
    → IsRun bits count s
    → is_free bits g ≡ false
    → (leb s g && ltb g (s + count)) ≡ false
outside bits count s g r t = elim (Bool-cases (leb s g && ltb g (s + count))) [
  | inr e ↦ e
  | inl e ↦ absurd (apart bits g g t (r.free g (ground arith) (ground arith)) refl)
]

contiguous-Keeps :
    (count : ℕ) (bm : FrameBitmap)
    → IsBitmap bm.bits
    → 0 < count
    → Keeps bm (allocs_contiguous count) (step (allocs_contiguous count) bm)
unfolding step
contiguous-Keeps count bm v h = elim (alloc_contiguous-first_fit count bm v h) [
  | inl (e, q) ↦ rw e (record {
    shape = v;
    taken = λ x t f. t;
    avoids = λ x t. tt;
    grabs = λ x. inl tt;
    balance = λ s u. refl;
  })
  | inr (s, r, nb, e) ↦ rw e (record {
    shape = clear_run-IsBitmap count s bm.bits v r.below;
    taken = λ x t k.
        is_free-clear_run count s bm.bits (x / frame_size) v r.below
        ∙ rw (outside bm.bits count s (x / frame_size) r t) t;
    avoids = λ x t. away_run x s count (outside bm.bits count s (x / frame_size) r t);
    grabs = λ x.
        let k = is_free-clear_run count s bm.bits (x / frame_size) v r.below in
        elim (Bool-cases (leb s (x / frame_size) && ltb (x / frame_size) (s + count))) [
          | inl e ↦ inr (k ∙ rw e refl)
          | inr e ↦ inl (away_run x s count e)
        ];
    balance = λ q u.
        let k = free_count-clear_run count s bm.bits v r.below r.free in
        let b : (bm.used + count) % 2 ^ 64 ≡ bm.used + count = omega (arith, q, k) in
        omega (arith, k, b);
  })
]

free-Keeps :
    (phys : ℕ) (bm : FrameBitmap) → IsBitmap bm.bits → Keeps bm (frees phys) (step (frees phys) bm)
unfolding step free
free-Keeps phys bm v =
    let f = phys / frame_size in
    elim (Bool-cases (ltb f max_frames)) [
      | inr e ↦
          rw (e, free)
            (record {
              shape = v;
              taken = λ x t k. t;
              avoids = λ x t. tt;
              grabs = λ x. inl tt;
              balance = λ s u. refl;
            })
      | inl e ↦ elim (Bool-cases (is_free bm.bits f)) [
        | inl k ↦
            rw (e, k, free)
              (record {
                shape = v;
                taken = λ x t k. t;
                avoids = λ x t. tt;
                grabs = λ x. inl tt;
                balance = λ s u. refl;
              })
        | inr k ↦
            (let l = ltb→lt f max_frames e in
              rw (e, k, free)
                (record {
                  shape = set_frame-IsBitmap bm.bits f v l;
                  taken = λ x t o.
                      is_free-set_frame bm.bits f (x / frame_size) v l ∙ ground (arith, t, o);
                  avoids = λ x t. tt;
                  grabs = λ x. inl tt;
                  balance = λ s u. omega (arith, free_count-set_frame bm.bits f v l k);
                }))
      ]
    ]

reserve-Keeps :
    (base len : ℕ) (bm : FrameBitmap)
    → IsBitmap bm.bits
    → Keeps bm (reserves base len) (step (reserves base len) bm)
unfolding step
reserve-Keeps base len bm v = elim (reserve_cases base len bm) [
  | inl e ↦ rw e (record {
    shape = v;
    taken = λ x t k. t;
    avoids = λ x t. tt;
    grabs = λ x. inl tt;
    balance = λ s u. refl;
  })
  | inr (e, h) ↦
      (let n = frame_count base len in
        let f = first_frame base in
        rw e (record {
          shape = reserve_frames-IsBitmap n f bm h v;
          taken = λ x t k. is_free-reserve_frames n f (x / frame_size) bm h v ∙ ground (arith, t);
          avoids = λ x t. tt;
          grabs = λ x. inl tt;
          balance = λ s u. accounted-reserve_frames n f bm h v s;
        }))
]

step-Keeps : (c : Call) (bm : FrameBitmap) → IsBitmap bm.bits → Keeps bm c (step c bm)
unfolding step alloc_contiguous
step-Keeps allocs bm v = alloc-Keeps bm v
step-Keeps (allocs_contiguous zero) bm v = record {
  shape = v;
  taken = λ x t f. t;
  avoids = λ x t. tt;
  grabs = λ x. inl tt;
  balance = λ s u. refl;
}
step-Keeps (allocs_contiguous (suc count)) bm v = contiguous-Keeps (suc count) bm v (omega arith)
step-Keeps (frees phys) bm v = free-Keeps phys bm v
step-Keeps (reserves base len) bm v = reserve-Keeps base len bm v

run_taken :
    (cs : List Call) (bm : FrameBitmap) (x : ℕ)
    → IsBitmap bm.bits
    → is_free bm.bits (x / frame_size) ≡ false
    → All (λ c. frees_frame x c ≡ false) cs
    → (is_free (run cs bm).0.bits (x / frame_size) ≡ false) × All (Avoids x) (run cs bm).1
unfolding run
run_taken [] bm x v t a = (t, tt)
run_taken (c ∷ cs) bm x v t a =
    let k = step-Keeps c bm v in
    let r = run_taken cs (step c bm).0 x k.shape (k.taken x t a.0) a.1 in (r.0, (k.avoids x t, r.1))

grants_outside : (x : ℕ) (g : Option (ℕ × ℕ)) → Grants x g → (P : Type 0) → Avoids x g → P
grants_outside x g (phys, n, e, low, high) P a = elim (subst (Avoids x) e a) [
  | inl h ↦ absurd (omega (arith, h, low))
  | inr h ↦ absurd (omega (arith, h, high))
]

granted_taken :
    (c : Call) (bm : FrameBitmap) (x : ℕ)
    → IsBitmap bm.bits
    → Grants x (step c bm).1
    → (is_free bm.bits (x / frame_size) ≡ true)
      × (is_free (step c bm).0.bits (x / frame_size) ≡ false)
granted_taken c bm x v g =
    let k = step-Keeps c bm v in
    (
      elim (Bool-cases (is_free bm.bits (x / frame_size))) [
        | inl e ↦ e
        | inr e ↦ grants_outside x (step c bm).1 g _ (k.avoids x e)
      ],
      elim (k.grabs x) [ inl a ↦ grants_outside x (step c bm).1 g _ a | inr e ↦ e ],
    )

-- No frame that is handed out is handed out again before it is freed. Let an address be given, and any
-- sequence of allocations, contiguous allocations, frees and reservations none of whose frees is of
-- that address's frame, on a well-formed bitmap. If the frame is not free at the start, no call of the
-- sequence grants it. If a call grants it, it was free before that call, is not free after it, and no
-- call of the sequence, when that is made after it, grants it again.
pub run-never_regrants :
    (cs : List Call) (bm : FrameBitmap) (x : ℕ)
    → IsBitmap bm.bits
    → All (λ c. frees_frame x c ≡ false) cs
    → (is_free bm.bits (x / frame_size) ≡ false → All (Avoids x) (run cs bm).1)
      × ((c : Call)
          → Grants x (step c bm).1
          → (is_free bm.bits (x / frame_size) ≡ true)
            × (is_free (step c bm).0.bits (x / frame_size) ≡ false)
            × All (Avoids x) (run cs (step c bm).0).1)
run-never_regrants cs bm x v a = (
  λ t. (run_taken cs bm x v t a).1,
  λ c g.
      let (before, after) = granted_taken c bm x v g in
      (before, after, (run_taken cs (step c bm).0 x (step-Keeps c bm v).shape after a).1),
)

-- Every call, be it an allocation of one or more frames, a free (of a free frame or an address out of
-- range too) or a reservation, keeps the bitmap's shape and the sum of the frames counted as in use
-- and the free bits, if that count is neither 0 nor within 2^20 of its 64-bit limit.
pub step-accounted :
    (c : Call) (bm : FrameBitmap)
    → IsBitmap bm.bits
    → bm.used + max_frames < 2 ^ 64
    → 0 < bm.used
    → IsBitmap (step c bm).0.bits × (accounted (step c bm).0 ≡ accounted bm)
step-accounted c bm v s u =
    let k = step-Keeps c bm v in
    let m = count_below_le (is_free bm.bits) max_frames in
    (k.shape, k.balance (omega (arith, s, m)) u)
