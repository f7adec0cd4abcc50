-- ===== src/Pkg/Manifest/Catalog.antt =====
-- The binary form of the catalog of kernel/src/pkg/manifest.rs, read back.
use oscortex.Base.{
  none_ne_some, some-inj, ℕ, zero, suc, ◌+◌, ◌*◌, ◌%◌, ◌^◌, ◌<◌, ◌≤◌, ◌≡◌, refl, sym, subst, ◌⊎◌,
  ap, ap₂, ◌∙◌, none, some, List, [], ◌∷◌, ◌++◌, take, drop, length, ltb, All, arith, length-append,
  length-take, length-drop, ge→ltb, Bool-cases, inl, inr, take_exact, drop_exact, append_assoc,
  ltb→ge, drop-drop,
}
use oscortex.Base.Bytes.{to_le_bytes, from_le_bytes, length-to_le_bytes, from_le_bytes-to_le_bytes}
use oscortex.Pkg.Manifest.{
  PkgManifest, entry_bytes, read_entry, read_entries, parse_catalog, all_bytes, serialize_catalog,
  manifest_size,
}

pub record IsManifest (m : PkgManifest) : Type 0 where
  pub name_size : length m.name ≡ 64
  pub version_size : length m.version ≡ 16
  pub hash_size : length m.hash ≡ 32
  pub size_fits : m.size_bytes < 2 ^ 32
  pub flags_fit : m.flags < 2 ^ 32
  pub reserved_size : length m.reserved ≡ 8

length-entry_bytes : (m : PkgManifest) → IsManifest m → length (entry_bytes m) ≡ 128
length-entry_bytes m v = omega (
  arith,
  v.name_size,
  v.version_size,
  v.hash_size,
  v.reserved_size,
  length-append m.name (
      m.version
      ++ (m.hash ++ (to_le_bytes 4 m.size_bytes ++ (to_le_bytes 4 m.flags ++ m.reserved)))),
  length-append m.version
      (m.hash ++ (to_le_bytes 4 m.size_bytes ++ (to_le_bytes 4 m.flags ++ m.reserved))),
  length-append m.hash (to_le_bytes 4 m.size_bytes ++ (to_le_bytes 4 m.flags ++ m.reserved)),
  length-append (to_le_bytes 4 m.size_bytes) (to_le_bytes 4 m.flags ++ m.reserved),
  length-append (to_le_bytes 4 m.flags) m.reserved,
  length-to_le_bytes 4 m.size_bytes,
  length-to_le_bytes 4 m.flags,
)

-- The first field, and what follows it.
field :
    (at : ℕ) (bytes xs rest : List ℕ) (n : ℕ)
    → drop at bytes ≡ xs ++ rest
    → length xs ≡ n
    → (take n (drop at bytes) ≡ xs) × (drop (at + n) bytes ≡ rest)
field at bytes xs rest n e l = (
  ap (take n) e ∙ take_exact n xs rest l,
  sym (drop-drop at n bytes) ∙ ap (drop n) e ∙ drop_exact n xs rest l,
)

read_entry-entry_bytes :
    (m : PkgManifest) (rest : List ℕ) → IsManifest m → read_entry (entry_bytes m ++ rest) ≡ m
read_entry-entry_bytes m rest v =
    let bytes = entry_bytes m ++ rest in
    let size = to_le_bytes 4 m.size_bytes in
    let flags = to_le_bytes 4 m.flags in
    let (n, e1) = field 0 bytes m.name _ 64 (append_assoc m.name _ rest) v.name_size in
    let (w, e2) =
      field 64 bytes m.version _ 16 (e1 ∙ append_assoc m.version _ rest) v.version_size in
    let (h, e3) = field 80 bytes m.hash _ 32 (e2 ∙ append_assoc m.hash _ rest) v.hash_size in
    let (s, e4) =
      field 112 bytes size _ 4 (e3 ∙ append_assoc size _ rest)
        (length-to_le_bytes 4 m.size_bytes) in
    let (f, e5) =
      field 116 bytes flags _ 4 (e4 ∙ append_assoc flags _ rest) (length-to_le_bytes 4 m.flags) in
    let (r, e6) = field 120 bytes m.reserved rest 8 e5 v.reserved_size in
    rw
      (
        n,
        w,
        h,
        s,
        f,
        r,
        from_le_bytes-to_le_bytes 4 m.size_bytes (omega (arith, v.size_fits)),
        from_le_bytes-to_le_bytes 4 m.flags (omega (arith, v.flags_fit)),
      )
      refl

length-all_bytes :
    (ms : List PkgManifest) → All IsManifest ms → length (all_bytes ms) ≡ length ms * 128
unfolding all_bytes
length-all_bytes [] a = refl
length-all_bytes (m ∷ ms) a = omega (
  arith,
  length-append (entry_bytes m) (all_bytes ms),
  length-entry_bytes m a.0,
  length-all_bytes ms a.1,
)

-- The entries are read where they were written.
read_entries-all_bytes :
    (ms : List PkgManifest) (i : ℕ) (bytes rest : List ℕ)
    → All IsManifest ms
    → drop (4 + i * manifest_size) bytes ≡ all_bytes ms ++ rest
    → read_entries (length ms) i bytes ≡ ms
unfolding all_bytes read_entries
read_entries-all_bytes [] i bytes rest a e = refl
read_entries-all_bytes (m ∷ ms) i bytes rest a e =
    let e' : drop (4 + i * manifest_size) bytes ≡ entry_bytes m ++ (all_bytes ms ++ rest) =
      e ∙ append_assoc (entry_bytes m) (all_bytes ms) rest in
    let next : 4 + i * manifest_size + 128 ≡ 4 + (i + 1) * manifest_size = omega arith in
    let d =
      field (4 + i * manifest_size) bytes (entry_bytes m) (all_bytes ms ++ rest) 128 e'
        (length-entry_bytes m a.0) in
    ap₂ ◌∷◌ (ap read_entry e' ∙ read_entry-entry_bytes m (all_bytes ms ++ rest) a.0) (
      read_entries-all_bytes ms (i + 1) bytes rest a.1
        (ap (λ (n : ℕ). drop n bytes) (sym next) ∙ d.1))

-- `parse_catalog` gives back the entries that `serialize_catalog` wrote, whatever bytes follow, for
-- fewer than 2^32 entries whose fields have their sizes.
pub parse-serialize_catalog :
    (ms : List PkgManifest) (rest : List ℕ)
    → All IsManifest ms
    → length ms < 2 ^ 32
    → parse_catalog (serialize_catalog ms ++ rest) ≡ some ms
unfolding parse_catalog serialize_catalog
parse-serialize_catalog ms rest a h =
    let n : length ms % 2 ^ 32 ≡ length ms = omega arith in
    let head = to_le_bytes 4 (length ms % 2 ^ 32) in
    let bytes = (head ++ all_bytes ms) ++ rest in
    let len = length-append (head ++ all_bytes ms) rest in
    let len' = length-append head (all_bytes ms) in
    let four = length-to_le_bytes 4 (length ms % 2 ^ 32) in
    let (c, e) =
      field 0 bytes head (all_bytes ms ++ rest) 4 (append_assoc head (all_bytes ms) rest) four in
    let count : from_le_bytes (take 4 bytes) ≡ length ms =
      ap from_le_bytes c
      ∙ from_le_bytes-to_le_bytes 4 (length ms % 2 ^ 32) (omega (arith, n))
      ∙ n in
    let q = ge→ltb (length bytes) 4 (omega (arith, len, len', four)) in
    let r =
      ge→ltb (length bytes) (4 + length ms * manifest_size)
        (omega (arith, len, len', four, length-all_bytes ms a)) in
    rw (q, count, r) (ap some (read_entries-all_bytes ms 0 bytes rest a e))

parse_cases :
    (bytes : List ℕ)
    → (parse_catalog bytes ≡ none)
      ⊎ ((parse_catalog bytes ≡ some (read_entries (from_le_bytes (take 4 bytes)) 0 bytes))
          × (4 + from_le_bytes (take 4 bytes) * manifest_size ≤ length bytes))
unfolding parse_catalog
parse_cases bytes = elim (Bool-cases (ltb (length bytes) 4)) [
  | inl q ↦ inl (rw q refl)
  | inr q ↦
      elim (Bool-cases (ltb (length bytes) (4 + from_le_bytes (take 4 bytes) * manifest_size))) [
        | inl r ↦ inl (rw (q, r) refl)
        | inr r ↦ inr (rw (q, r) refl, ltb→ge _ _ r)
      ]
]

read_entries-hash :
    (n i : ℕ) (bytes : List ℕ)
    → 4 + (i + n) * manifest_size ≤ length bytes
    → All (λ (m : PkgManifest). length m.hash ≡ 32) (read_entries n i bytes)
unfolding read_entries
read_entries-hash zero i bytes h = tt
read_entries-hash (suc n) i bytes h =
    let rest = drop (4 + i * manifest_size) bytes in
    (
      omega (
        arith,
        length-take 32 (drop 80 rest),
        length-drop 80 rest,
        length-drop (4 + i * manifest_size) bytes,
      ),
      read_entries-hash n (i + 1) bytes (omega arith),
    )

-- Every entry that is read has a digest of 32 bytes.
pub parse_catalog-hash :
    (bytes : List ℕ) (ms : List PkgManifest)
    → parse_catalog bytes ≡ some ms
    → All (λ (m : PkgManifest). length m.hash ≡ 32) ms
parse_catalog-hash bytes ms e = elim (parse_cases bytes) [
  | inl n ↦ absurd (none_ne_some (sym n ∙ e))
  | inr (r, h) ↦
      subst (All (λ (m : PkgManifest). length m.hash ≡ 32)) (some-inj (sym r ∙ e))
        (read_entries-hash (from_le_bytes (take 4 bytes)) 0 bytes (omega (arith, h)))
]
