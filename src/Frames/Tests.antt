-- ===== src/Frames/Tests.antt =====
-- The theorems on the frame allocator, with three free frames from 1 MiB on.
use oscortex.Base.{
  ℕ, ◌+◌, ◌*◌, ◌/◌, ◌%◌, ◌^◌, ◌<◌, ◌≤◌, ◌≡◌, ◌⊎◌, refl, true, false, none, some, List, [], ◌∷◌,
  replicate, All, arith, length-replicate, All-replicate,
}
use oscortex.Frames.{
  FrameBitmap, alloc, alloc_contiguous, is_free, clear_frame, clear_run, max_frames,
  min_alloc_frame, frame_size, bump,
}
use oscortex.Frames.Bitmap.{IsBitmap, IsWord}
use oscortex.Frames.Alloc.{Lowest, alloc-first_free}
use oscortex.Frames.Run.{IsRun, Blocked, NoneBefore, alloc_contiguous-first_fit}
use oscortex.Frames.Reserve.{accounted}
use oscortex.Frames.History.{
  Call, allocs, allocs_contiguous, frees, step, run, Avoids, Grants, run-never_regrants,
  step-accounted,
}

abbrev bits : List ℕ
bits = 0 ∷ 0 ∷ 0 ∷ 0 ∷ 7 ∷ replicate 16379 0

abbrev bm : FrameBitmap
bm = record { bits = bits; total = 5; used = 2; hhdm = 0 }

bits-IsBitmap : IsBitmap bits
bits-IsBitmap = record {
  words = omega (arith, length-replicate {A = ℕ} 16379 0);
  fit = (small, (small, (small, (small, (omega arith, All-replicate IsWord 16379 0 small)))));
}
  where
    small : 0 < 2 ^ 64
    small = omega arith

alloc-first_free_example :
    ((alloc bm ≡ (bm, none))
      × ((g : ℕ) → min_alloc_frame ≤ g → g < max_frames → is_free bm.bits g ≡ false))
    ⊎ ((f : ℕ) × Lowest bm.bits f
        × (alloc bm ≡ (
          record bm { bits = clear_frame f bm.bits; used = bump bm.used },
          some (f * frame_size),
        )))
alloc-first_free_example = alloc-first_free bm bits-IsBitmap

alloc_contiguous-first_fit_example :
    ((alloc_contiguous 2 bm ≡ (bm, none))
      × ((r : ℕ) → min_alloc_frame ≤ r → r + 2 ≤ max_frames → Blocked bm.bits 2 r))
    ⊎ ((s : ℕ) × IsRun bm.bits 2 s
        × NoneBefore bm.bits 2 s
        × (alloc_contiguous 2 bm ≡ (
          record bm { bits = clear_run 2 s bm.bits; used = (bm.used + 2) % 2 ^ 64 },
          some (s * frame_size),
        )))
alloc_contiguous-first_fit_example = alloc_contiguous-first_fit 2 bm bits-IsBitmap (omega arith)

abbrev calls : List Call
calls = allocs ∷ allocs_contiguous 2 ∷ frees 0x100000 ∷ allocs ∷ []

run-never_regrants_example :
    (is_free bm.bits (0x104000 / frame_size) ≡ false → All (Avoids 0x104000) (run calls bm).1)
    × ((c : Call)
        → Grants 0x104000 (step c bm).1
        → (is_free bm.bits (0x104000 / frame_size) ≡ true)
          × (is_free (step c bm).0.bits (0x104000 / frame_size) ≡ false)
          × All (Avoids 0x104000) (run calls (step c bm).0).1)
run-never_regrants_example =
    run-never_regrants calls bm 0x104000 bits-IsBitmap (refl, (refl, (refl, (refl, tt))))

step-accounted_example :
    IsBitmap (step (frees 0x5000) bm).0.bits × (accounted (step (frees 0x5000) bm).0 ≡ accounted bm)
step-accounted_example = step-accounted (frees 0x5000) bm bits-IsBitmap (omega arith) (omega arith)
