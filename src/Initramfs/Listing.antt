-- ===== src/Initramfs/Listing.antt =====
-- The headers that the loops of kernel/src/fs/initramfs.rs reach, as a relation, and that a loop
-- visits them in order and returns.
use oscortex.Base.{
  ℕ, zero, suc, ◌+◌, ◌*◌, ◌/◌, ◌≤◌, ◌<◌, ◌≡◌, ◌⊎◌, refl, true, false, some, List, [], ◌∷◌, length,
  arith, Bool-cases, inl, inr, leb→le,
}
use oscortex.Initramfs.{Flow, next, stop, has_header, scan, rounds}
use oscortex.Initramfs.Header
use oscortex.Initramfs.Header.{block, skip-past}

-- The headers from a position on are those of the list.
pub data Listing (tar : List ℕ) : ℕ → List ℕ → Type 0 where
  ended : (pos : ℕ) → has_header tar pos ≡ false → Listing tar pos []
  entry :
      (pos : ℕ) (ps : List ℕ)
      → has_header tar pos ≡ true
      → Listing tar (Header.skip tar pos) ps
      → Listing tar pos (pos ∷ ps)

-- The body of a loop at the headers of a list.
unfoldable pub over : {S R : Type 0} → (ℕ → S → Flow S R) → (S → R) → List ℕ → S → R
over body at_end [] s = at_end s
over body at_end (p ∷ ps) s = elim (body p s) [ stop r ↦ r | next t ↦ over body at_end ps t ]

Flow-cases : {S R : Type 0} (f : Flow S R) → ((t : S) × (f ≡ next t)) ⊎ ((r : R) × (f ≡ stop r))
Flow-cases (next t) = inl (t, refl)
Flow-cases (stop r) = inr (r, refl)

pub scan-over :
    {S R : Type 0} (tar : List ℕ) (body : ℕ → S → Flow S R) (at_end : S → R) (fuel pos : ℕ)
    (ps : List ℕ)
    → Listing tar pos ps
    → length ps < fuel
    → (s : S) → scan tar body at_end fuel pos s ≡ some (over body at_end ps s)
unfolding scan over
scan-over tar body at_end zero pos ps l h s = absurd (omega arith)
scan-over tar body at_end (suc fuel) _ _ (ended pos e) h s = rw (scan, e) refl
scan-over tar body at_end (suc fuel) _ _ (entry pos ps e l) h s = elim (Flow-cases (body pos s)) [
  | inl (t, b) ↦ rw (scan, over, e, b) (scan-over tar body at_end fuel _ ps l (omega arith) t)
  | inr (r, b) ↦ rw (scan, over, e, b) refl
]

has_header-within : (tar : List ℕ) (pos : ℕ) → has_header tar pos ≡ true → pos + block ≤ length tar
unfolding has_header
has_header-within tar pos e = ground (arith, leb→le (pos + block) (length tar))

no_header : (tar : List ℕ) (pos : ℕ) → length tar < pos + block → has_header tar pos ≡ false
no_header tar pos h = elim (Bool-cases (has_header tar pos)) [
  | inl e ↦ absurd (let w = has_header-within tar pos e in omega (arith, w))
  | inr e ↦ e
]

listing :
    (tar : List ℕ) (fuel pos : ℕ)
    → length tar < pos + block + block * fuel
    → (ps : List ℕ) × Listing tar pos ps × (length ps ≤ fuel)
listing tar zero pos h = ([], ended pos (no_header tar pos (omega arith)), omega arith)
listing tar (suc fuel) pos h = elim (Bool-cases (has_header tar pos)) [
  | inl e ↦
      (let a = skip-past tar pos in
        let (ps, l, n) = listing tar fuel (Header.skip tar pos) (omega (arith, a)) in
        (pos ∷ ps, entry pos ps e l, omega (arith, n)))
  | inr e ↦ ([], ended pos e, omega arith)
]

-- The headers of an archive are reached within the fuel of the loops.
pub headers : (tar : List ℕ) → (ps : List ℕ) × Listing tar 0 ps × (length ps < rounds tar)
headers tar =
    let (ps, l, n) = listing tar (length tar / block) 0 (omega arith) in (ps, l, omega (arith, n))
