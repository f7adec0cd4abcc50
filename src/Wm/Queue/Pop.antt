-- ===== src/Wm/Queue/Pop.antt =====
-- `pop_for` of kernel/src/wm/mod.rs on the ring, against the list of entries.
use oscortex.Base.{
  ℕ, zero, suc, ◌+◌, ◌-◌, ◌%◌, ◌<◌, ◌≡◌, refl, sym, ap, ap₂, ◌∙◌, inl, inr, Option, none, some,
  List, [], ◌∷◌, length, get_or, set, erase_at, arith, length-set, ◌==◌, Bool-cases, Option-cases,
  ==→eq, erase_at-set_next, erase_at-last,
}
use oscortex.Base.Ring.{window, get_or-window, window-write_in, take-window}
use oscortex.Wm.Queue.{
  WmEvent, EventQueue, empty, event_cap, is_baton_for, is_input_for, is_any_for, or_else, select,
  move_back, close_gap, take_at, pop_for,
}
use oscortex.Wm.Queue.Spec
use oscortex.Wm.Queue.Spec.{Entry, nothing, test_entry, find_index, with_frame, with_move}
use oscortex.Wm.Queue.Entries.{
  IsRing, Holds, slot, entries, length-entries, slot-Writes, find_index-lt, scan_queue-find_index,
}

-- After the loop that closes the gap at `j`, the first `len - 1` slots hold the other entries.
record Closed (q r : EventQueue) (j : ℕ) : Type 0 where
  ring : IsRing r
  head_same : r.head ≡ q.head
  len_same : r.len ≡ q.len
  tail_same : r.tail ≡ q.tail
  gone : window (slot r.buf r.owner_pid) event_cap q.head (q.len - 1) ≡ erase_at (entries q) j

move_back-Holds :
    (q : EventQueue) (j : ℕ)
    → IsRing q
    → suc j < q.len
    → Holds (move_back q j) (set (entries q) j (get_or (entries q) (suc j) nothing))
unfolding move_back
move_back-Holds q j v h =
    let from = (q.head + j + 1) % event_cap in
    let to = (q.head + j) % event_cap in
    record {
      ring = ground (
        arith,
        length-set q.buf to (get_or q.buf from empty),
        length-set q.owner_pid to (get_or q.owner_pid from 0),
      );
      held =
          window-write_in (slot q.buf q.owner_pid)
            (slot (set q.buf to (get_or q.buf from empty))
              (set q.owner_pid to (get_or q.owner_pid from 0)))
            event_cap q.head q.len (slot q.buf q.owner_pid from) j (omega arith) v.len_in
            (slot-Writes q.buf q.owner_pid to _ _ (omega arith) (omega arith))
          ∙ ap (set (entries q) j) (
              ap (λ (t : ℕ). slot q.buf q.owner_pid (t % event_cap)) {x = q.head + j + 1}
                {y = q.head + suc j} (omega arith)
              ∙ sym (
                  get_or-window (slot q.buf q.owner_pid) event_cap q.head q.len (suc j) nothing h));
    }

-- One round of the loop, and then the rest of it.
Closed-step :
    (q r : EventQueue) (j : ℕ)
    → IsRing q
    → suc j < q.len
    → Closed (move_back q j) r (j + 1)
    → Closed q r j
unfolding move_back
Closed-step q r j v h c = record {
  ring = c.ring;
  head_same = c.head_same;
  len_same = c.len_same;
  tail_same = c.tail_same;
  gone =
      c.gone
      ∙ ap (erase_at (entries (move_back q j))) {x = j + 1} {y = suc j} (omega arith)
      ∙ ap (λ xs. erase_at xs (suc j)) (move_back-Holds q j v h).held
      ∙ erase_at-set_next (entries q) j nothing (omega (arith, length-entries q));
}

len-move_back : (q : EventQueue) (j : ℕ) → (move_back q j).len ≡ q.len
unfolding move_back
len-move_back q j = refl

close_gap-Closed :
    (q : EventQueue) (rest j : ℕ)
    → IsRing q
    → j + rest + 1 ≡ q.len
    → Closed q (close_gap q rest j) j
unfolding close_gap
close_gap-Closed q zero j v e = record {
  ring = v;
  head_same = refl;
  len_same = refl;
  tail_same = refl;
  gone =
      ap (window (slot q.buf q.owner_pid) event_cap q.head) {x = q.len - 1} {y = j} (omega arith)
      ∙ sym (take-window (slot q.buf q.owner_pid) event_cap q.head q.len j (omega arith))
      ∙ sym (erase_at-last (entries q) j (omega (arith, length-entries q)));
}
close_gap-Closed q (suc rest) j v e =
    Closed-step q (close_gap (move_back q j) rest (j + 1)) j v (omega arith) (
      close_gap-Closed (move_back q j) rest (j + 1) (move_back-Holds q j v (omega arith)).ring
        (omega (arith, len-move_back q j)))

-- What a consumer sees of a pop: the entries left, and the event taken.
abbrev pub seen : EventQueue × Option WmEvent → List Entry × Option WmEvent
seen (q, r) = (entries q, r)

take_at_refines :
    (q : EventQueue) (k : ℕ)
    → IsRing q
    → k < q.len
    → (seen (take_at q k) ≡ (erase_at (entries q) k, some (get_or (entries q) k nothing).0))
      × IsRing (take_at q k).0
unfolding take_at
take_at_refines q k v h =
    let c = close_gap-Closed q (q.len - (k + 1)) k v (omega arith) in
    let moved = close_gap q (q.len - (k + 1)) k in
    (
      ap₂ (λ xs e. (xs, e))
          (ap (λ (t : ℕ). window (slot moved.buf moved.owner_pid) event_cap t (q.len - 1))
              c.head_same
            ∙ c.gone)
          (ap (λ (e : Entry). some e.0)
            (sym (get_or-window (slot q.buf q.owner_pid) event_cap q.head q.len k nothing h))),
      record {
        slots = c.ring.slots;
        owners = c.ring.owners;
        head_in = c.ring.head_in;
        len_in = omega arith;
        tail_at = omega (arith, c.head_same);
      },
    )

select_refines : (q : EventQueue) (pid : ℕ) → select q pid ≡ Spec.select (entries q) pid
unfolding select Spec.select
select_refines q pid = rw (
  scan_queue-find_index (is_baton_for pid) q,
  scan_queue-find_index (is_input_for pid) q,
  scan_queue-find_index (is_any_for pid) q,
)

or_else-lt :
    (a b : Option ℕ) (n : ℕ)
    → ((k : ℕ) → a ≡ some k → k < n)
    → ((k : ℕ) → b ≡ some k → k < n)
    → (k : ℕ) → or_else a b ≡ some k
    → k < n
or_else-lt none b n f g = g
or_else-lt (some x) b n f g = f

select-lt : (xs : List Entry) (pid k : ℕ) → Spec.select xs pid ≡ some k → k < length xs
unfolding Spec.select
select-lt xs pid = or_else-lt _ _ (length xs) (find_index-lt (test_entry (is_baton_for pid)) xs) (
    or_else-lt _ _ (length xs) (find_index-lt (test_entry (is_input_for pid)) xs)
      (find_index-lt (test_entry (is_any_for pid)) xs))

-- An empty list has nothing to select.
select-nil : (xs : List Entry) (pid : ℕ) → length xs ≡ 0 → Spec.select xs pid ≡ none
unfolding Spec.select find_index
select-nil [] pid e = refl
select-nil (x ∷ xs) pid e = absurd (omega arith)

-- On a well-formed ring `pop_for` returns the event, and leaves the entries, that `pop_for` on the
-- list of entries returns and leaves, with the gap closed and the ring well formed.
pub pop_for_refines :
    (q : EventQueue) (pid : ℕ)
    → IsRing q
    → (seen (pop_for q pid) ≡ Spec.pop_for (entries q) pid) × IsRing (pop_for q pid).0
unfolding pop_for Spec.pop_for
pop_for_refines q pid v = elim (Bool-cases (q.len == 0)) [
  | inl nil ↦
      rw (nil, select-nil (entries q) pid (length-entries q ∙ ==→eq q.len 0 nil), Spec.pop_for)
        (refl, v)
  | inr more ↦ elim (Option-cases (Spec.select (entries q) pid)) [
    | inl n ↦ rw (more, select_refines q pid, n, pop_for, Spec.pop_for) (refl, v)
    | inr (k, f) ↦
        rw (more, select_refines q pid, f, pop_for, Spec.pop_for)
          (take_at_refines q k v (omega (arith, select-lt (entries q) pid k f, length-entries q)))
  ]
]
