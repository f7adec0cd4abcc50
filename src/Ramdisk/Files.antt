-- ===== src/Ramdisk/Files.antt =====
-- Files of kernel/src/fs/ramdisk.rs read back as they were written.
use Prim.Native.String.{String}
use oscortex.Base.{
  ℕ, zero, suc, ◌+◌, ◌-◌, ◌<◌, ◌≡◌, refl, ◌∙◌, ap, sym, ◌≢◌, ◌&&◌, Bool, true, none, some, List, [],
  ◌∷◌, length, set, arith, Result, ok, err, ltb, Bool-cases, Option-cases, inl, inr,
  get_or-set_self,
}
use oscortex.Base.Slots.{bytes_eq, bytes_eq_refl}
use oscortex.Ramdisk.{
  RamdiskEntry, RamdiskState, position, entry_at, is_file, is_free, file, overwrite, create, write,
  starts_with, tmp, max_path_len, max_total_bytes, lookup_static, size, empty, has_contents,
}
use oscortex.Ramdisk.Budget.{position_sound}

module _ (p : RamdiskEntry → Bool) (e : RamdiskEntry) (pe : p e ≡ true) where
  position-set_first :
      (es : List RamdiskEntry) (k j : ℕ)
      → position p es k ≡ some (k + j)
      → position p (set es j e) k ≡ some (k + j)
  unfolding position
  position-set_first [] k j h = cc
  position-set_first (o ∷ es) k zero h = ground (arith, pe)
  position-set_first (o ∷ es) k (suc j) h = ground (arith, h, position-set_first es (k + 1) j)

  position-set_new :
      (es : List RamdiskEntry) (k j : ℕ)
      → position p es k ≡ none
      → j < length es
      → position p (set es j e) k ≡ some (k + j)
  unfolding position
  position-set_new [] k j h l = absurd (omega arith)
  position-set_new (o ∷ es) k zero h l = ground (arith, pe)
  position-set_new (o ∷ es) k (suc j) h l = ground (arith, h, l, position-set_new es (k + 1) j)

err_ne_ok : (m : String) → ◌≢◌ {A = Result (Unit {0})} (err m) (ok tt)
err_ne_ok m e = cc

and_right : (a b : Bool) → (a && b) ≡ true → b ≡ true
and_right a b h = ground (arith, h)

lookup-found :
    (path src : List ℕ) (es : List RamdiskEntry) (i : ℕ) (e : RamdiskEntry) (n : ℕ)
    → i < length es
    → e.contents ≡ some src
    → position (is_file path) (set es i e) 0 ≡ some i
    → lookup_static path (record { entries = set es i e; total_bytes = n }) ≡ some src
lookup-found path src es i e n l c h = rw (h, lookup_static, get_or-set_self es i e empty l) c

file_self : (path src : List ℕ) → is_file path (file path src) ≡ true
file_self path src = bytes_eq_refl path

lookup_static-overwrite :
    (path src : List ℕ) (i : ℕ) (rd : RamdiskState)
    → position (is_file path) rd.entries 0 ≡ some i
    → (overwrite i src rd).1 ≡ ok tt
    → lookup_static path (overwrite i src rd).0 ≡ some src
unfolding overwrite
lookup_static-overwrite path src i rd f h =
    let old = entry_at rd.entries i in
    let e : RamdiskEntry = record old { contents = some src } in
    let n = rd.total_bytes - size old + length src in
    let (j, a, b, q) = position_sound (is_file path) rd.entries 0 i f in
    let g : i ≡ j = omega arith in
    let pe : is_file path e ≡ true =
      and_right (has_contents old) (bytes_eq old.path path)
        (ap (λ (x : ℕ). is_file path (entry_at rd.entries x)) g ∙ q) in
    elim (Bool-cases (ltb max_total_bytes n)) [
      | inl full ↦ absurd (err_ne_ok "ramdisk full" (sym (rw full refl) ∙ h))
      | inr room ↦ rw room (
          lookup-found path src rd.entries i e n (omega arith) refl (
            position-set_first (is_file path) e pe rd.entries 0 i (f ∙ ap some (omega arith))
            ∙ ap some (omega arith)))
    ]

lookup_static-create :
    (path src : List ℕ) (rd : RamdiskState)
    → position (is_file path) rd.entries 0 ≡ none
    → (create path src rd).1 ≡ ok tt
    → lookup_static path (create path src rd).0 ≡ some src
unfolding create
lookup_static-create path src rd f h =
    elim (Bool-cases (ltb max_total_bytes (rd.total_bytes + length src))) [
      | inl full ↦ absurd (err_ne_ok "ramdisk full" (sym (rw full refl) ∙ h))
      | inr room ↦ elim (Option-cases (position is_free rd.entries 0)) [
        | inl g ↦ absurd (err_ne_ok "ramdisk slot table full" (sym (rw (room, g) refl) ∙ h))
        | inr (i, g) ↦
            (let (j, a, b, q) = position_sound is_free rd.entries 0 i g in
              rw (room, g)
                (lookup-found path src rd.entries i (file path src) (rd.total_bytes + length src)
                  (omega arith) refl
                  (position-set_new (is_file path) (file path src) (file_self path src) rd.entries 0
                      i f (omega arith)
                    ∙ ap some (omega arith))))
      ]
    ]

-- After a `write` that succeeds, whether the file is new or overwritten, `lookup_static` of that path
-- gives the bytes written.
pub lookup_static-write :
    (path src : List ℕ) (rd : RamdiskState)
    → (write path src rd).1 ≡ ok tt
    → lookup_static path (write path src rd).0 ≡ some src
unfolding write
lookup_static-write path src rd h = elim (Bool-cases (starts_with path tmp)) [
  | inr s ↦ absurd (err_ne_ok "not under /tmp/" (sym (rw s refl) ∙ h))
  | inl s ↦ elim (Bool-cases (ltb max_path_len (length path))) [
    | inl l ↦ absurd (err_ne_ok "path too long" (sym (rw (s, l) refl) ∙ h))
    | inr l ↦ elim (Option-cases (position (is_file path) rd.entries 0)) [
      | inl f ↦ rw (s, l, f) (lookup_static-create path src rd f (sym (rw (s, l, f) refl) ∙ h))
      | inr (i, f) ↦
          rw (s, l, f) (lookup_static-overwrite path src i rd f (sym (rw (s, l, f) refl) ∙ h))
    ]
  ]
]
