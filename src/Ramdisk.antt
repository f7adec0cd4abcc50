-- ===== src/Ramdisk.antt =====
-- kernel/src/fs/ramdisk.rs: the files under /tmp, in a table of 32 slots within a budget of bytes.
-- A path is the list of its bytes; an entry's padded array and its length are one list.
pub mod Budget
pub mod Files
mod Tests
use oscortex.Base.{
  ℕ, zero, suc, ◌+◌, ◌-◌, Bool, true, false, ◌&&◌, Option, none, some, List, [], ◌∷◌, ◌++◌,
  replicate, set, get_or, length, Result, ok, err, if◌then◌else◌, ◌==◌, ltb,
}
use oscortex.Base.Slots.{bytes_eq}

abbrev pub max_files : ℕ
max_files = 32

abbrev pub max_total_bytes : ℕ
max_total_bytes = 524288

abbrev pub max_path_len : ℕ
max_path_len = 128

pub record RamdiskEntry : Type 0 where
  pub path : List ℕ
  pub contents : Option (List ℕ)

abbrev pub empty : RamdiskEntry
empty = record { path = []; contents = none }

pub record RamdiskState : Type 0 where
  pub entries : List RamdiskEntry
  pub total_bytes : ℕ

abbrev pub new : RamdiskState
new = record { entries = replicate max_files empty; total_bytes = 0 }

-- The bytes of "/tmp/".
abbrev pub tmp : List ℕ
tmp = 47 ∷ 116 ∷ 109 ∷ 112 ∷ 47 ∷ []

unfoldable pub starts_with : List ℕ → List ℕ → Bool
starts_with path [] = true
starts_with [] (p ∷ ps) = false
starts_with (b ∷ bs) (p ∷ ps) = if b == p then starts_with bs ps else false

abbrev pub has_contents : RamdiskEntry → Bool
has_contents e = elim e.contents [ none ↦ false | some src ↦ true ]

-- `data.as_ref().map(|v| v.len()).unwrap_or(0)`.
abbrev pub size : RamdiskEntry → ℕ
size e = elim e.contents [ none ↦ 0 | some src ↦ length src ]

abbrev pub is_file : List ℕ → RamdiskEntry → Bool
is_file path e = has_contents e && bytes_eq e.path path

abbrev pub is_free : RamdiskEntry → Bool
is_free e = if has_contents e then false else length e.path == 0

-- The first entry, from index `i` on, that passes a test.
unfoldable pub position : (RamdiskEntry → Bool) → List RamdiskEntry → ℕ → Option ℕ
position p [] i = none
position p (e ∷ es) i = let rest = position p es (i + 1) in if p e then some i else rest

abbrev pub entry_at : List RamdiskEntry → ℕ → RamdiskEntry
entry_at es i = get_or es i empty

abbrev pub file : List ℕ → List ℕ → RamdiskEntry
file path src = record { path = path; contents = some src }

-- The part of `write` for a path that has a file at index `i`.
pub overwrite : ℕ → List ℕ → RamdiskState → RamdiskState × Result (Unit {0})
overwrite i src rd =
    let old = entry_at rd.entries i in
    if ltb max_total_bytes (rd.total_bytes - size old + length src)
    then (rd, err "ramdisk full")
    else (
      record {
        entries = set rd.entries i (record old { contents = some src });
        total_bytes = rd.total_bytes - size old + length src;
      },
      ok tt,
    )

-- The part for a new path.
pub create : List ℕ → List ℕ → RamdiskState → RamdiskState × Result (Unit {0})
create path src rd =
    if ltb max_total_bytes (rd.total_bytes + length src)
    then (rd, err "ramdisk full")
    else elim (position is_free rd.entries 0) [
      | none ↦ (rd, err "ramdisk slot table full")
      | some i ↦ (
        record {
          entries = set rd.entries i (file path src);
          total_bytes = rd.total_bytes + length src;
        },
        ok tt,
      )
    ]

pub write : List ℕ → List ℕ → RamdiskState → RamdiskState × Result (Unit {0})
write path src rd =
    if starts_with path tmp
    then if ltb max_path_len (length path)
      then (rd, err "path too long")
      else elim (position (is_file path) rd.entries 0) [
        | some i ↦ overwrite i src rd
        | none ↦ create path src rd
      ]
    else (rd, err "not under /tmp/")

-- The contents of the file, as the bytes that the returned slice shows.
abbrev pub lookup_static : List ℕ → RamdiskState → Option (List ℕ)
lookup_static path rd = elim (position (is_file path) rd.entries 0) [
  | none ↦ none
  | some i ↦ (entry_at rd.entries i).contents
]

abbrev pub stat : List ℕ → RamdiskState → Option ℕ
stat path rd = elim (position (is_file path) rd.entries 0) [
  | none ↦ none
  | some i ↦ some (size (entry_at rd.entries i))
]
