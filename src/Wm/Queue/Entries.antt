-- ===== src/Wm/Queue/Entries.antt =====
-- The ring of kernel/src/wm/mod.rs as a list of entries: its shape, its searches and its counts.
use oscortex.Base.{
  ℕ, zero, suc, ◌+◌, ◌%◌, ◌≤◌, ◌<◌, ◌≡◌, refl, ap, ap₂, ◌∙◌, Bool, Option, none, some, List, [],
  ◌∷◌, length, get_or, set, arith, length-replicate, count_if, get_or-set_self, get_or-set_ne,
  Option-cases, inl, inr,
}
use oscortex.Base.Ring.{window, length-window, Writes}
use oscortex.Wm.Queue.{
  WmEvent, EventQueue, empty, new, event_cap, scan, scan_queue, count_slots, pending_for,
  input_pending_for, is_any_for, is_input_for,
}
use oscortex.Wm.Queue.Spec.{Entry, test_entry, find_index}

pub record IsRing (q : EventQueue) : Type 0 where
  pub slots : length q.buf ≡ event_cap
  pub owners : length q.owner_pid ≡ event_cap
  pub head_in : q.head < event_cap
  pub len_in : q.len ≤ event_cap
  pub tail_at : q.tail ≡ (q.head + q.len) % event_cap

abbrev pub slot : List WmEvent → List ℕ → ℕ → Entry
slot buf owners i = (get_or buf i empty, get_or owners i 0)

abbrev pub entries : EventQueue → List Entry
entries q = window (slot q.buf q.owner_pid) event_cap q.head q.len

pub length-entries : (q : EventQueue) → length (entries q) ≡ q.len
length-entries q = length-window (slot q.buf q.owner_pid) event_cap q.head q.len

-- The queue after an operation is a ring, and holds these entries.
pub record Holds (q : EventQueue) (xs : List Entry) : Type 0 where
  pub ring : IsRing q
  pub held : entries q ≡ xs

-- The boot state is a valid ring.
pub new-IsRing : IsRing new
unfolding new
new-IsRing = record {
  slots = length-replicate event_cap empty;
  owners = length-replicate {A = ℕ} event_cap 0;
  head_in = omega arith;
  len_in = omega arith;
  tail_at = refl;
}

-- A write to both arrays at one index writes the pair.
pub slot-Writes :
    (buf : List WmEvent) (owners : List ℕ) (i : ℕ) (ev : WmEvent) (o : ℕ)
    → i < length buf
    → i < length owners
    → Writes (slot buf owners) (slot (set buf i ev) (set owners i o)) i (ev, o)
slot-Writes buf owners i ev o p q = (
  ap₂ (λ e k. (e, k)) (get_or-set_self buf i ev empty p) (get_or-set_self owners i o 0 q),
  λ j ne. ap₂ (λ e k. (e, k)) (get_or-set_ne buf i j ev empty ne) (get_or-set_ne owners i j o 0 ne),
)

-- So does a write to the events alone, with the owner that stands there.
pub slot-Writes_event :
    (buf : List WmEvent) (owners : List ℕ) (i : ℕ) (ev : WmEvent)
    → i < length buf
    → Writes (slot buf owners) (slot (set buf i ev) owners) i (ev, get_or owners i 0)
slot-Writes_event buf owners i ev p = (
  ap (λ e. (e, get_or owners i 0)) (get_or-set_self buf i ev empty p),
  λ j ne. ap (λ e. (e, get_or owners j 0)) (get_or-set_ne buf i j ev empty ne),
)

abbrev shift : ℕ → Option ℕ → Option ℕ
shift off none = none
shift off (some k) = some (off + k)

shift-zero : (o : Option ℕ) → shift 0 o ≡ o
shift-zero none = refl
shift-zero (some k) = ap some (omega arith)

pub find_index-lt :
    (p : Entry → Bool) (xs : List Entry) (k : ℕ) → find_index p xs ≡ some k → k < length xs
unfolding find_index
find_index-lt p [] k e = cc
find_index-lt p (x ∷ xs) k e = elim (Option-cases (find_index p xs)) [
  | inl n ↦ ground (arith, n)
  | inr (j, f) ↦ ground (arith, f, find_index-lt p xs j f)
]

module _ (test : WmEvent → ℕ → Bool) where
  scan-find_index_from :
      (f : ℕ → Entry) (head n off : ℕ)
      → scan (λ i. test_entry test (f i)) head n off
        ≡ shift off (find_index (test_entry test) (window f event_cap (head + off) n))
  unfolding scan find_index
  scan-find_index_from f head zero off = refl
  scan-find_index_from f head (suc n) off = ground (
    arith,
    scan-find_index_from f head n (off + 1),
    ap (λ (t : ℕ). window f event_cap t n) {x = head + (off + 1)} {y = suc (head + off)}
        (omega arith),
  )

  -- A search of the ring finds the first entry of the list that passes its test.
  pub scan_queue-find_index :
      (q : EventQueue) → scan_queue q test ≡ find_index (test_entry test) (entries q)
  unfolding scan_queue
  scan_queue-find_index q =
      scan-find_index_from (slot q.buf q.owner_pid) q.head q.len 0
      ∙ ground (
        arith,
        shift-zero (find_index (test_entry test) (entries q)),
        ap (λ (t : ℕ). window (slot q.buf q.owner_pid) event_cap t q.len) {x = q.head + 0}
            {y = q.head} (omega arith),
      )

  count_slots-count_if :
      (q : EventQueue) (n off : ℕ)
      → count_slots q test n off
        ≡ count_if (test_entry test) (window (slot q.buf q.owner_pid) event_cap (q.head + off) n)
  unfolding count_slots
  count_slots-count_if q zero off = refl
  count_slots-count_if q (suc n) off = ground (
    arith,
    count_slots-count_if q n (off + 1),
    ap (λ (t : ℕ). window (slot q.buf q.owner_pid) event_cap t n) {x = q.head + (off + 1)}
        {y = suc (q.head + off)} (omega arith),
  )

count_slots_all :
    (test : WmEvent → ℕ → Bool) (q : EventQueue)
    → count_slots q test q.len 0 ≡ count_if (test_entry test) (entries q)
count_slots_all test q =
    count_slots-count_if test q q.len 0
    ∙ ap (λ (t : ℕ). count_if (test_entry test) (window (slot q.buf q.owner_pid) event_cap t q.len))
        {x = q.head + 0} {y = q.head} (omega arith)

-- The two counts are counts of the list of entries.
pub pending-count_if :
    (q : EventQueue) (pid : ℕ)
    → pending_for q pid ≡ count_if (test_entry (is_any_for pid)) (entries q)
unfolding pending_for
pending-count_if q pid = count_slots_all (is_any_for pid) q

pub input_pending-count_if :
    (q : EventQueue) (pid : ℕ)
    → input_pending_for q pid ≡ count_if (test_entry (is_input_for pid)) (entries q)
unfolding input_pending_for
input_pending-count_if q pid = count_slots_all (is_input_for pid) q
