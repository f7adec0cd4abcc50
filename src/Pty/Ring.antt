-- ===== src/Pty/Ring.antt =====
-- The rings of kernel/src/drivers/pty.rs as queues of bytes.
use oscortex.Base.{
  ℕ, suc, ◌+◌, ◌-◌, ◌%◌, ◌<◌, ◌≡◌, refl, sym, ap, subst, ◌∙◌, true, false, none, some, List, [],
  ◌∷◌, ◌++◌, length, get_or, set, arith, ◌==◌, length-set,
}
use oscortex.Base.Ring.{window, window-push, window-pop, set-Writes, Writes}
use oscortex.Pty.{RingBuf, buf_size, available, is_empty, push, pop}

abbrev pub at : RingBuf → ℕ → ℕ
at r = λ i. get_or r.bytes i 0

-- The bytes that wait in the ring, oldest first.
abbrev pub contents : RingBuf → List ℕ
contents r = window (at r) buf_size r.head (available r)

pub record IsRingBuf (r : RingBuf) : Type 0 where
  pub bytes_length : length r.bytes ≡ buf_size
  pub head_lt : r.head < buf_size
  pub tail_lt : r.tail < buf_size

pub push_full :
    (b : ℕ) (r : RingBuf) → IsRingBuf r → available r ≡ buf_size - 1 → push b r ≡ (r, false)
unfolding push
push_full b r w e =
    let h = w.head_lt in
    let t = w.tail_lt in
    let f : ((r.tail + 1) % buf_size == r.head) ≡ true = ground (arith, h, t, e) in rw f refl

pub push_room :
    (b : ℕ) (r : RingBuf)
    → IsRingBuf r
    → available r < buf_size - 1
    → ((push b r).1 ≡ true)
      × IsRingBuf (push b r).0
      × (available (push b r).0 ≡ available r + 1)
      × (contents (push b r).0 ≡ contents r ++ (b ∷ []))
unfolding push
push_room b r w e =
    let h = w.head_lt in
    let t = w.tail_lt in
    let f : ((r.tail + 1) % buf_size == r.head) ≡ false = ground (arith, h, t, e) in
    let g : available (record r { bytes = set r.bytes r.tail b; tail = (r.tail + 1) % buf_size })
        ≡ available r + 1 =
      omega (arith, h, t, e) in
    let s : (r.head + available r) % buf_size ≡ r.tail = omega (arith, h, t) in
    rw f (
      refl,
      record {
        bytes_length = length-set r.bytes r.tail b ∙ w.bytes_length;
        head_lt = h;
        tail_lt = omega arith;
      },
      g,
      ap (window (λ i. get_or (set r.bytes r.tail b) i 0) buf_size r.head) {y = suc (available r)}
            (omega (arith, g))
          ∙ window-push (at r) (λ i. get_or (set r.bytes r.tail b) i 0) buf_size r.head
              (available r) b (omega (arith, e))
              (subst (λ (x : ℕ). Writes (at r) (λ i. get_or (set r.bytes r.tail b) i 0) x b) (sym s)
                (set-Writes r.bytes r.tail b 0 (omega (arith, w.bytes_length, t)))),
    )

pub pop_eq :
    (r : RingBuf)
    → IsRingBuf r
    → 0 < available r
    → ((pop r).1 ≡ some (get_or r.bytes r.head 0))
      × IsRingBuf (pop r).0
      × (available (pop r).0 ≡ available r - 1)
      × (contents r ≡ get_or r.bytes r.head 0 ∷ contents (pop r).0)
unfolding pop
pop_eq r w e =
    let h = w.head_lt in
    let t = w.tail_lt in
    let f : is_empty r ≡ false = ground (arith, h, t, e) in
    let g : available (record r { head = (r.head + 1) % buf_size }) ≡ available r - 1 =
      omega (arith, h, t, e) in
    rw f (
      refl,
      record { bytes_length = w.bytes_length; head_lt = omega arith; tail_lt = t },
      g,
      window-pop (at r) buf_size r.head (available r) e h
          ∙ ap (λ (x : ℕ). at r r.head ∷ window (at r) buf_size ((r.head + 1) % buf_size) x)
              (sym g),
    )

pub pop-none : (r : RingBuf) → IsRingBuf r → available r ≡ 0 → pop r ≡ (r, none)
unfolding pop
pop-none r w e =
    let h = w.head_lt in
    let t = w.tail_lt in let f : is_empty r ≡ true = ground (arith, h, t, e) in rw f refl
