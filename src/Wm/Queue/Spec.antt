-- ===== src/Wm/Queue/Spec.antt =====
-- The event queue as a list of owned events, oldest first: what `push`, `push_front` and `pop_for`
-- of kernel/src/wm/mod.rs mean for it.
use oscortex.Base.{
  ℕ, ◌+◌, ◌-◌, Bool, ◌&&◌, Option, none, some, List, [], ◌∷◌, ◌++◌, length, get_or, set, erase_at,
  take, drop, bit_or, if◌then◌else◌, ◌==◌, ltb,
}
use oscortex.Wm.Queue.{
  WmEvent, empty, event_cap, ev_vsync, ev_pointer, is_tick_of, is_move_of, is_baton_for,
  is_input_for, is_any_for, or_else,
}

abbrev pub Entry : Type 0
Entry = WmEvent × ℕ

abbrev pub nothing : Entry
nothing = (empty, 0)

abbrev pub test_entry : (WmEvent → ℕ → Bool) → Entry → Bool
test_entry test (e, o) = test e o

-- Where the first entry that passes a test stands.
unfoldable pub find_index : (Entry → Bool) → List Entry → Option ℕ
find_index p [] = none
find_index p (x ∷ xs) =
    if p x then some 0 else elim (find_index p xs) [ none ↦ none | some k ↦ some (k + 1) ]

abbrev pub with_frame : ℕ → Entry → Entry
with_frame frame (e, o) = (record e { a = frame }, o)

abbrev pub with_move : WmEvent → Entry → Entry
with_move ev (e, o) = (record e { a = ev.a; b = bit_or e.b ev.b }, o)

-- At the capacity the oldest entry makes room.
unfoldable pub append : List Entry → Entry → List Entry
append xs x = if ltb (length xs) event_cap then xs ++ (x ∷ []) else drop 1 xs ++ (x ∷ [])

unfoldable pub push_move_or_append : List Entry → WmEvent → ℕ → List Entry
push_move_or_append xs ev owner =
    let last = length xs - 1 in
    if (ev.kind == ev_pointer && ltb 0 (length xs))
      && test_entry (is_move_of ev owner) (get_or xs last nothing)
    then set xs last (with_move ev (get_or xs last nothing))
    else append xs (ev, owner)

unfoldable pub push : List Entry → WmEvent → ℕ → List Entry
push xs ev owner =
    if ev.kind == ev_vsync && ev.b == 0
    then elim (find_index (test_entry (is_tick_of owner)) xs) [
      | some k ↦ set xs k (with_frame ev.a (get_or xs k nothing))
      | none ↦ push_move_or_append xs ev owner
    ]
    else push_move_or_append xs ev owner

-- At the capacity the newest entry makes room.
unfoldable pub push_front : List Entry → Entry → List Entry
push_front xs x = if ltb (length xs) event_cap then x ∷ xs else x ∷ take (length xs - 1) xs

unfoldable pub select : List Entry → ℕ → Option ℕ
select xs pid = or_else (find_index (test_entry (is_baton_for pid)) xs) (
    or_else (find_index (test_entry (is_input_for pid)) xs)
      (find_index (test_entry (is_any_for pid)) xs))

unfoldable pub pop_for : List Entry → ℕ → List Entry × Option WmEvent
pop_for xs pid = elim (select xs pid) [
  | none ↦ (xs, none)
  | some k ↦ (erase_at xs k, some (get_or xs k nothing).0)
]
