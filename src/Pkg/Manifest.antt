-- ===== src/Pkg/Manifest.antt =====
-- kernel/src/pkg/manifest.rs: the catalog of packages and its binary form. A packed entry is its fields one
-- after the other; texts are padded with zeros.
pub mod Catalog
use oscortex.Base.{
  ℕ, zero, suc, ◌+◌, ◌*◌, ◌-◌, ◌/◌, ◌%◌, ◌^◌, bit_and, Bool, true, false, not, Option, none, some,
  List, [], ◌∷◌, ◌++◌, take, drop, length, if◌then◌else◌, ◌==◌, ltb,
}
use oscortex.Base.Bytes.{to_le_bytes, from_le_bytes}

abbrev pub manifest_size : ℕ
manifest_size = 128

abbrev pub flag_system : ℕ
flag_system = 1

pub record PkgManifest : Type 0 where
  pub name : List ℕ
  pub version : List ℕ
  pub hash : List ℕ
  pub size_bytes : ℕ
  pub flags : ℕ
  pub reserved : List ℕ

abbrev pub is_system : PkgManifest → Bool
is_system m = not (bit_and m.flags flag_system == 0)

-- The bytes before the first 0, or all.
unfoldable pub until_nul : List ℕ → List ℕ
until_nul [] = []
until_nul (b ∷ bs) = let rest = until_nul bs in if b == 0 then [] else b ∷ rest

-- The memory of an entry.
abbrev pub entry_bytes : PkgManifest → List ℕ
entry_bytes m =
    m.name
    ++ (m.version
        ++ (m.hash ++ (to_le_bytes 4 m.size_bytes ++ (to_le_bytes 4 m.flags ++ m.reserved))))

-- `read_unaligned` at the start of the bytes.
abbrev pub read_entry : List ℕ → PkgManifest
read_entry bytes = record {
  name = take 64 bytes;
  version = take 16 (drop 64 bytes);
  hash = take 32 (drop 80 bytes);
  size_bytes = from_le_bytes (take 4 (drop 112 bytes));
  flags = from_le_bytes (take 4 (drop 116 bytes));
  reserved = take 8 (drop 120 bytes);
}

-- The loop over `i`, with `n` entries to go.
unfoldable pub read_entries : ℕ → ℕ → List ℕ → List PkgManifest
read_entries zero i bytes = []
read_entries (suc n) i bytes =
    read_entry (drop (4 + i * manifest_size) bytes) ∷ read_entries n (i + 1) bytes

pub parse_catalog : List ℕ → Option (List PkgManifest)
parse_catalog bytes =
    if ltb (length bytes) 4
    then none
    else (let count = from_le_bytes (take 4 bytes) in
        if ltb (length bytes) (4 + count * manifest_size)
        then none
        else some (read_entries count 0 bytes))

unfoldable pub all_bytes : List PkgManifest → List ℕ
all_bytes [] = []
all_bytes (m ∷ ms) = entry_bytes m ++ all_bytes ms

pub serialize_catalog : List PkgManifest → List ℕ
serialize_catalog entries = to_le_bytes 4 (length entries % 2 ^ 32) ++ all_bytes entries
