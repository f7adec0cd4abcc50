-- ===== src/PortNs.antt =====
-- kernel/src/port_ns/mod.rs: names bound to an isolate and a process.
pub mod Laws
pub mod History
mod Tests
use oscortex.Base.{
  ℕ, ◌+◌, ◌%◌, ◌^◌, Bool, true, false, Option, none, some, List, [], ◌∷◌, ◌++◌, length, take,
  replicate, copy_front, if◌then◌else◌, leb, ltb,
}
use oscortex.Base.Int.{ℤ, pos, negsuc}
use oscortex.Base.Slots.{find_slot, clear_slot, fill_slot, count_slots, any_entry, bytes_eq}

abbrev pub max_port_name : ℕ
max_port_name = 128

abbrev pub max_ports : ℕ
max_ports = 256

-- `name` is padded to 128 bytes; `name_len` is a `u8`.
pub record PortRecord : Type 0 where
  pub name : List ℕ
  pub name_len : ℕ
  pub isolate_id : ℕ
  pub pid : ℕ

abbrev pub name_bytes : PortRecord → List ℕ
name_bytes r = take r.name_len r.name

abbrev pub PortTable : Type 0
PortTable = List (Option PortRecord)

abbrev pub named : List ℕ → PortRecord → Bool
named name r = bytes_eq (name_bytes r) name

unfoldable pub find : PortTable → List ℕ → Option PortRecord
find t name = find_slot (named name) t

-- A full table refuses; else the first free slot, or a new one, takes the record.
insert : PortTable → PortRecord → Option PortTable
insert t r =
    if leb max_ports (count_slots any_entry t)
    then none
    else elim (fill_slot r t) [ some t' ↦ some t' | none ↦ some (t ++ (some r ∷ [])) ]

-- The record that `bind` builds.
pub record_of : List ℕ → ℕ → ℕ → PortRecord
record_of name isolate_id pid = record {
  name = copy_front (replicate max_port_name 0) name;
  name_len = length name % 256;
  isolate_id = isolate_id;
  pid = pid;
}

abbrev pub einval : ℤ
einval = negsuc 21

abbrev pub eexist : ℤ
eexist = negsuc 16

abbrev pub enomem : ℤ
enomem = negsuc 11

abbrev pub enoent : ℤ
enoent = negsuc 1

pub bind : List ℕ → ℕ → ℕ → PortTable → PortTable × ℤ
bind name isolate_id pid t =
    if ltb max_port_name (length name) then (t, einval) else elim (find t name) [
      | some r ↦ (t, eexist)
      | none ↦ elim (insert t (record_of name isolate_id pid)) [
        | none ↦ (t, enomem)
        | some t' ↦ (t', pos 0)
      ]
    ]

-- The status, and what is written through the two references.
pub lookup : List ℕ → PortTable → ℤ × Option (ℕ × ℕ)
lookup name t =
    if ltb max_port_name (length name)
    then (einval, none)
    else elim (find t name) [ some r ↦ (pos 0, some (r.isolate_id, r.pid)) | none ↦ (enoent, none) ]

pub unbind : List ℕ → PortTable → PortTable × ℤ
unbind name t =
    if ltb max_port_name (length name)
    then (t, einval)
    else elim (find t name) [ some r ↦ (clear_slot (named name) t, pos 0) | none ↦ (t, enoent) ]

abbrev pub count : PortTable → ℕ
count t = count_slots any_entry t % 2 ^ 32
