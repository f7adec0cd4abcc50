-- ===== src/PortNs/Laws.antt =====
-- What the name table of kernel/src/port_ns/mod.rs promises.
use native.Mathlib.Nat.{mod-eq_of_lt, le_trans}
use oscortex.Base.{
  ℕ, ◌+◌, ◌≤◌, ◌<◌, ◌≡◌, refl, sym, ap, subst, ◌∙◌, ◌≢◌, ◌⊎◌, inl, inr, Bool, true, false, none,
  some, List, [], ◌∷◌, ◌++◌, length, take, arith, if◌then◌else◌, Bool-cases, Option-cases,
  take-append,
}
use oscortex.Base.Int.{pos}
use oscortex.Base.Slots.{
  find_slot, clear_slot, fill_slot, count_slots, any_entry, bytes_eq, find_slot-count,
  count-find_slot, count-fill_slot, find-fill_slot, count-clear_slot, count-clear_slot_le,
  find-clear_slot_ne, bytes_eq_refl, bytes_eq→eq,
}
use oscortex.PortNs.{
  PortRecord, PortTable, name_bytes, named, find, insert, record_of, max_ports, max_port_name,
  enoent, bind, lookup, unbind,
}

-- No name is bound twice, and the table holds at most 256 records.
pub record IsTable (t : PortTable) : Type 0 where
  pub once : (name : List ℕ) → count_slots (named name) t ≤ 1
  pub bounded : count_slots any_entry t ≤ max_ports

-- The record of `bind` carries exactly the given name.
pub name_bytes-record_of :
    (name : List ℕ) (iso pid : ℕ)
    → length name ≤ max_port_name
    → name_bytes (record_of name iso pid) ≡ name
unfolding record_of
name_bytes-record_of name iso pid h =
    ap (λ (n : ℕ). take n (record_of name iso pid).name)
      (mod-eq_of_lt {n = length name} {m = 256} (omega arith))
    ∙ take-append name _

named_self :
    (name : List ℕ) (iso pid : ℕ)
    → length name ≤ max_port_name
    → named name (record_of name iso pid) ≡ true
named_self name iso pid h =
    ap (λ n. bytes_eq n name) (name_bytes-record_of name iso pid h) ∙ bytes_eq_refl name

named_other :
    (name other : List ℕ) (iso pid : ℕ)
    → length name ≤ max_port_name
    → name ≢ other
    → named other (record_of name iso pid) ≡ false
named_other name other iso pid h ne =
    ap (λ n. bytes_eq n other) (name_bytes-record_of name iso pid h)
    ∙ elim (Bool-cases (bytes_eq name other)) [
      | inl e ↦ absurd (ne (bytes_eq→eq name other e))
      | inr e ↦ e
    ]

-- A record that answers to one name answers to no other.
named_apart :
    (name other : List ℕ)
    → name ≢ other
    → (r : PortRecord) → named name r ≡ true
    → named other r ≡ false
named_apart name other ne r h = elim (Bool-cases (named other r)) [
  | inl e ↦ absurd (ne (sym (bytes_eq→eq _ name h) ∙ bytes_eq→eq _ other e))
  | inr e ↦ e
]

find-append :
    (p : PortRecord → Bool) (t : PortTable) (r : PortRecord)
    → find_slot p t ≡ none ⊎ (p r ≡ false)
    → find_slot p (t ++ (some r ∷ [])) ≡ (if p r then some r else find_slot p t)
unfolding find_slot
find-append p [] r h = ground arith
find-append p (none ∷ t) r h = find-append p t r h
find-append p (some a ∷ t) r h = ground (arith, find-append p t r)

count-append :
    (p : PortRecord → Bool) (t : PortTable) (r : PortRecord)
    → count_slots p (t ++ (some r ∷ [])) ≡ (if p r then count_slots p t + 1 else count_slots p t)
count-append p [] r = ground arith
count-append p (o ∷ t) r = ground (arith, count-append p t r)

-- `insert` adds one record, wherever it puts it.
insert-find :
    (p : PortRecord → Bool) (t u : PortTable) (r : PortRecord)
    → insert t r ≡ some u
    → find_slot p t ≡ none ⊎ (p r ≡ false)
    → find_slot p u ≡ (if p r then some r else find_slot p t)
unfolding insert
insert-find p t u r e h = elim (Option-cases (fill_slot r t)) [
  | inl f ↦ ground (arith, f, find-append p t r h)
  | inr (v, f) ↦ ground (arith, f, find-fill_slot p r t v f h)
]

insert-count :
    (p : PortRecord → Bool) (t u : PortTable) (r : PortRecord)
    → insert t r ≡ some u
    → (count_slots any_entry t < max_ports)
      × (count_slots p u ≡ (if p r then count_slots p t + 1 else count_slots p t))
unfolding insert
insert-count p t u r e = elim (Option-cases (fill_slot r t)) [
  | inl f ↦ ground (arith, f, count-append p t r)
  | inr (v, f) ↦ ground (arith, f, count-fill_slot p r t v f)
]

-- What a successful `bind` found and did.
bind_cases :
    (name : List ℕ) (iso pid : ℕ) (t : PortTable)
    → (bind name iso pid t).1 ≡ pos 0
    → (length name ≤ max_port_name)
      × (find_slot (named name) t ≡ none)
      × (insert t (record_of name iso pid) ≡ some (bind name iso pid t).0)
unfolding bind find
bind_cases name iso pid t e = ground arith

unbind_cases :
    (name : List ℕ) (t : PortTable)
    → (unbind name t).1 ≡ pos 0
    → (unbind name t).0 ≡ clear_slot (named name) t
unfolding unbind
unbind_cases name t e = ground arith

record_of_target :
    (name : List ℕ) (iso pid : ℕ)
    → ((record_of name iso pid).isolate_id ≡ iso) × ((record_of name iso pid).pid ≡ pid)
unfolding record_of
record_of_target name iso pid = (refl, refl)

bind_or_same :
    (name : List ℕ) (iso pid : ℕ) (t : PortTable)
    → ((bind name iso pid t).1 ≡ pos 0) ⊎ ((bind name iso pid t).0 ≡ t)
unfolding bind
bind_or_same name iso pid t = ground arith

unbind_or_same :
    (name : List ℕ) (t : PortTable) → ((unbind name t).1 ≡ pos 0) ⊎ ((unbind name t).0 ≡ t)
unfolding unbind
unbind_or_same name t = ground arith

-- After a `bind` that succeeds, a look-up of that name gives the bound isolate and process, and a
-- look-up of any other name gives what it gave before.
pub lookup-bind :
    (name other : List ℕ) (iso pid : ℕ) (t : PortTable)
    → (bind name iso pid t).1 ≡ pos 0
    → lookup other (bind name iso pid t).0
      ≡ (if bytes_eq other name then (pos 0, some (iso, pid)) else lookup other t)
unfolding lookup find
lookup-bind name other iso pid t e =
    let (short, free, ins) = bind_cases name iso pid t e in
    elim (Bool-cases (bytes_eq other name)) [
      | inl same ↦
          let eq = bytes_eq→eq other name same in
          ground (
            arith,
            eq,
            same,
            named_self name iso pid short,
            record_of_target name iso pid,
            insert-find (named name) t _ (record_of name iso pid) ins (inl free),
          )
      | inr new ↦
          let no_match = named_other name other iso pid short (λ q. differ q new) in
          ground (
            arith,
            new,
            no_match,
            insert-find (named other) t _ (record_of name iso pid) ins (inr no_match),
          )
    ]
  where
    differ : name ≡ other → bytes_eq other name ≡ false → ⊥
    differ q new = ground (arith, bytes_eq_refl other, q, new)

-- After an `unbind` that succeeds on a table where no name is bound twice, a look-up of that name
-- finds nothing, and a look-up of any other name of at most 128 bytes gives what it gave before.
pub lookup-unbind :
    (name other : List ℕ) (t : PortTable)
    → IsTable t
    → (unbind name t).1 ≡ pos 0
    → length other ≤ max_port_name
    → lookup other (unbind name t).0
      ≡ (if bytes_eq other name then (enoent, none) else lookup other t)
unfolding lookup find
lookup-unbind name other t v e short = elim (Bool-cases (bytes_eq other name)) [
  | inl same ↦ ground (
    arith,
    bytes_eq→eq other name same,
    same,
    unbind_cases name t e,
    count-find_slot (named name) (clear_slot (named name) t)
        (omega (arith, count-clear_slot (named name) t, v.once name)),
  )
  | inr new ↦ ground (
    arith,
    new,
    unbind_cases name t e,
    find-clear_slot_ne (named name) (named other)
        (named_apart name other (λ q. ground (arith, bytes_eq_refl other, q, new))) t,
  )
]

-- `bind`, whether it succeeds or not, keeps every name bound at most once and at most 256 records in
-- the table.
pub bind-IsTable :
    (name : List ℕ) (iso pid : ℕ) (t : PortTable) → IsTable t → IsTable (bind name iso pid t).0
bind-IsTable name iso pid t v = elim (bind_or_same name iso pid t) [
  | inr same ↦ subst IsTable (sym same) v
  | inl e ↦
      let (short, free, ins) = bind_cases name iso pid t e in
      let r = record_of name iso pid in
      record {
        once = λ other. elim (Bool-cases (bytes_eq name other)) [
          | inl eq ↦
              let e' = bytes_eq→eq name other eq in
              ground (
                arith,
                e',
                insert-count (named other) t _ r ins,
                find_slot-count (named name) t free,
              )
          | inr new ↦ ground (
            arith,
            insert-count (named other) t _ r ins,
            named_other name other iso pid short (λ q. differ q new),
            v.once other,
          )
        ];
        bounded = ground (arith, insert-count any_entry t _ r ins);
      }
]
  where
    differ : {other : List ℕ} → name ≡ other → bytes_eq name other ≡ false → ⊥
    differ q new = ground (arith, bytes_eq_refl name, q, new)

-- `unbind`, whether it succeeds or not, keeps every name bound at most once and at most 256 records in
-- the table.
pub unbind-IsTable : (name : List ℕ) (t : PortTable) → IsTable t → IsTable (unbind name t).0
unbind-IsTable name t v = elim (unbind_or_same name t) [
  | inr same ↦ subst IsTable (sym same) v
  | inl e ↦ subst IsTable (sym (unbind_cases name t e)) (record {
    once = λ other. le_trans (count-clear_slot_le (named name) (named other) t) (v.once other);
    bounded = le_trans (count-clear_slot_le (named name) any_entry t) v.bounded;
  })
]
