-- ===== src/Pty/Stream.antt =====
-- What goes into one end of a pty of kernel/src/drivers/pty.rs and what comes out at the other.
use native.Mathlib.Decide.{dec_lt}
use oscortex.Base.{
  ℕ, zero, suc, ◌-◌, ◌<◌, ◌≡◌, refl, sym, ap, ◌∙◌, min, List, [], ◌∷◌, ◌++◌, map, length, take,
  drop, arith,
}
use oscortex.Base.Ring.{window}
use oscortex.Pty.{
  RingBuf, buf_size, available, push, pop, read_loop, write_loop, echo_loop, line_discipline,
}
use oscortex.Pty.Ring.{at, contents, IsRingBuf, push_full, push_room, pop_eq, pop-none}

append_assoc : (xs : List ℕ) (b : ℕ) (ys : List ℕ) → (xs ++ (b ∷ [])) ++ ys ≡ xs ++ (b ∷ ys)
append_assoc [] b ys = refl
append_assoc (x ∷ xs) b ys = ap (◌∷◌ x) (append_assoc xs b ys)

append-nil : (xs : List ℕ) → xs ++ [] ≡ xs
append-nil [] = refl
append-nil (x ∷ xs) = ap (◌∷◌ x) (append-nil xs)

take_nil : (n : ℕ) → take {A = ℕ} n [] ≡ []
take_nil zero = refl
take_nil (suc n) = refl

below : (r : RingBuf) → available r < buf_size
below r = omega arith

-- A write by the master takes as many bytes as the ring has room for, at its end, in their order, and
-- returns how many they are.
pub write_loop-contents :
    (bs : List ℕ) (r : RingBuf)
    → IsRingBuf r
    → IsRingBuf (write_loop bs r).0
      × ((write_loop bs r).1 ≡ min (length bs) (buf_size - 1 - available r))
      × (contents (write_loop bs r).0 ≡ contents r ++ take (write_loop bs r).1 bs)
unfolding write_loop
write_loop-contents [] r w = (w, omega arith, sym (append-nil (contents r)))
write_loop-contents (b ∷ bs) r w = elim (dec_lt (available r) (buf_size - 1)) [
  | no s ↦
      (let e = push_full b r w (omega (arith, s)) in
        rw (e) (w, omega (arith, s), sym (append-nil (contents r))))
  | yes s ↦
      (let (d, w', g, c) = push_room b r w s in
        let (w2, n, c2) = write_loop-contents bs (push b r).0 w' in
        rw (d) (
          w2,
          omega (arith, n, g),
          c2
              ∙ ap (λ (x : List ℕ). x ++ take (write_loop bs (push b r).0).1 bs) c
              ∙ append_assoc (contents r) b _,
        ))
]

-- A read takes the oldest bytes, at most as many as the buffer holds, and leaves the others.
pub read_loop-contents :
    (k : ℕ) (r : RingBuf)
    → IsRingBuf r
    → IsRingBuf (read_loop k r).0
      × ((read_loop k r).1 ≡ take k (contents r))
      × (contents (read_loop k r).0 ≡ drop k (contents r))
unfolding read_loop
read_loop-contents zero r w = (w, refl, refl)
read_loop-contents (suc k) r w = elim (dec_lt 0 (available r)) [
  | no s ↦
      (let z : available r ≡ 0 = omega (arith, s) in
        let n : contents r ≡ [] = ap (window (at r) buf_size r.head) z in
        rw (read_loop, pop-none r w z, n) (w, refl, refl))
  | yes s ↦
      (let (o, w', g, c) = pop_eq r w s in
        let (w2, n, c2) = read_loop-contents k (pop r).0 w' in
        rw (read_loop, o, c) (w2, ap (◌∷◌ (at r r.head)) n, c2))
]

take_none : (n : ℕ) (xs : List ℕ) → n ≡ 0 → take n xs ≡ []
take_none n xs e = ap (λ (t : ℕ). take t xs) e

-- The loop of a write by the slave turns CR into LF and keeps the ring well formed; it reports all of
-- its bytes as written, although only those for which the ring had room are in it.
pub echo_loop-contents :
    (bs : List ℕ) (r : RingBuf)
    → IsRingBuf r
    → IsRingBuf (echo_loop bs r).0
      × ((echo_loop bs r).1 ≡ length bs)
      × (contents (echo_loop bs r).0
          ≡ contents r ++ take (buf_size - 1 - available r) (map line_discipline bs))
unfolding echo_loop
echo_loop-contents [] r w = (
  w,
  refl,
  sym (
      ap (λ (x : List ℕ). contents r ++ x) (take_nil (buf_size - 1 - available r))
      ∙ append-nil (contents r)),
)
echo_loop-contents (b ∷ bs) r w = elim (dec_lt (available r) (buf_size - 1)) [
  | no s ↦
      (let e = push_full (line_discipline b) r w (omega (arith, s)) in
        let z : buf_size - 1 - available r ≡ 0 = omega (arith, s) in
        let (w2, n, c2) = echo_loop-contents bs r w in
        rw (e) (
          w2,
          ap suc n,
          c2
              ∙ ap (λ (x : List ℕ). contents r ++ x)
                  (take_none _ (map line_discipline bs) z
                    ∙ sym (take_none _ (map line_discipline (b ∷ bs)) z)),
        ))
  | yes s ↦
      (let (d, w', g, c) = push_room (line_discipline b) r w s in
        let (w2, n, c2) = echo_loop-contents bs (push (line_discipline b) r).0 w' in
        let k = buf_size - 1 - available (push (line_discipline b) r).0 in
        let z : suc k ≡ buf_size - 1 - available r = omega (arith, g, s) in
        (
          w2,
          ap suc n,
          c2
              ∙ ap (λ (x : List ℕ). x ++ take k (map line_discipline bs)) c
              ∙ append_assoc (contents r) (line_discipline b) (take k (map line_discipline bs))
              ∙ ap (λ (t : ℕ). contents r ++ take t (map line_discipline (b ∷ bs))) z,
        ))
]
