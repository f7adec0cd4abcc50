-- ===== src/Ramdisk/Budget.antt =====
-- The byte count of kernel/src/fs/ramdisk.rs is the sum of the sizes of its files.
use oscortex.Base.{
  ℕ, zero, suc, ◌+◌, ◌-◌, ◌≤◌, ◌<◌, ◌≡◌, refl, ◌∙◌, Bool, true, some, List, [], ◌∷◌, length, set,
  arith, ltb, Bool-cases, Option-cases, inl, inr, length-set, ltb→ge,
}
use oscortex.Ramdisk.{
  RamdiskEntry, RamdiskState, max_files, max_total_bytes, size, position, entry_at, is_file,
  is_free, file, overwrite, create, write, starts_with, tmp, max_path_len,
}

abbrev pub total : List RamdiskEntry → ℕ
total [] = 0
total (e ∷ es) = size e + total es

total-set :
    (es : List RamdiskEntry) (i : ℕ) (e : RamdiskEntry)
    → i < length es
    → total (set es i e) + size (entry_at es i) ≡ total es + size e
total-set [] i e h = absurd (omega arith)
total-set (x ∷ xs) zero e h = omega arith
total-set (x ∷ xs) (suc i) e h = omega (arith, total-set xs i e (omega arith))

size-le-total : (es : List RamdiskEntry) (i : ℕ) → i < length es → size (entry_at es i) ≤ total es
size-le-total [] i h = absurd (omega arith)
size-le-total (x ∷ xs) zero h = omega arith
size-le-total (x ∷ xs) (suc i) h = omega (arith, size-le-total xs i (omega arith))

-- 32 slots, and a byte count that is the sum of the sizes and within the budget.
pub record IsDisk (rd : RamdiskState) : Type 0 where
  pub slots : length rd.entries ≡ max_files
  pub counted : rd.total_bytes ≡ total rd.entries
  pub within : rd.total_bytes ≤ max_total_bytes

pub position_sound :
    (p : RamdiskEntry → Bool) (es : List RamdiskEntry) (k i : ℕ)
    → position p es k ≡ some i
    → (j : ℕ) × (i ≡ k + j) × (j < length es) × (p (entry_at es j) ≡ true)
unfolding position
position_sound p [] k i e = cc
position_sound p (o ∷ es) k i e = elim (Bool-cases (p o)) [
  | inl h ↦ (0, ground (arith, h, e), omega arith, h)
  | inr h ↦
      (let (j, a, b, q) = position_sound p es (k + 1) i (ground (arith, h, e)) in
        (suc j, omega arith, omega arith, q))
]

overwrite-IsDisk :
    (i : ℕ) (src : List ℕ) (rd : RamdiskState)
    → i < length rd.entries
    → IsDisk rd
    → IsDisk (overwrite i src rd).0
unfolding overwrite
overwrite-IsDisk i src rd h d =
    let old = entry_at rd.entries i in
    let e : RamdiskEntry = record old { contents = some src } in
    elim (Bool-cases (ltb max_total_bytes (rd.total_bytes - size old + length src))) [
      | inl f ↦ rw f d
      | inr f ↦ rw f (record {
        slots = length-set rd.entries i e ∙ d.slots;
        counted =
            omega (arith, total-set rd.entries i e h, size-le-total rd.entries i h, d.counted);
        within = ltb→ge max_total_bytes (rd.total_bytes - size old + length src) f;
      })
    ]

size_free : (e : RamdiskEntry) → is_free e ≡ true → size e ≡ 0
size_free e h = elim (Option-cases e.contents) [
  | inl f ↦ rw f refl
  | inr (src, f) ↦ absurd (ground (arith, f, h))
]

create-IsDisk : (path src : List ℕ) (rd : RamdiskState) → IsDisk rd → IsDisk (create path src rd).0
unfolding create
create-IsDisk path src rd d =
    elim (Bool-cases (ltb max_total_bytes (rd.total_bytes + length src))) [
      | inl f ↦ rw f d
      | inr f ↦ elim (Option-cases (position is_free rd.entries 0)) [
        | inl g ↦ rw (f, g) d
        | inr (i, g) ↦
            (let (j, a, b, q) = position_sound is_free rd.entries 0 i g in
              let e : i ≡ j = omega arith in
              rw (f, g, e)
                (record {
                  slots = length-set rd.entries j (file path src) ∙ d.slots;
                  counted = omega (
                    arith,
                    total-set rd.entries j (file path src) b,
                    size_free (entry_at rd.entries j) q,
                    d.counted,
                  );
                  within = ltb→ge max_total_bytes (rd.total_bytes + length src) f;
                }))
      ]
    ]

-- `write`, on every path and whether it succeeds or not, keeps the 32 slots, the byte count equal to
-- the sum of the sizes of the files, and that count within the budget of 512 KiB.
pub write-IsDisk :
    (path src : List ℕ) (rd : RamdiskState) → IsDisk rd → IsDisk (write path src rd).0
unfolding write
write-IsDisk path src rd d = elim (Bool-cases (starts_with path tmp)) [
  | inr s ↦ rw s d
  | inl s ↦ elim (Bool-cases (ltb max_path_len (length path))) [
    | inl l ↦ rw (s, l) d
    | inr l ↦ elim (Option-cases (position (is_file path) rd.entries 0)) [
      | inl e ↦ rw (s, l, e) (create-IsDisk path src rd d)
      | inr (i, e) ↦
          (let (j, a, b, q) = position_sound (is_file path) rd.entries 0 i e in
            rw (s, l, e) (overwrite-IsDisk i src rd (omega arith) d))
    ]
  ]
]
