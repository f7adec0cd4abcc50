-- ===== src/Initramfs/Utf8.antt =====
-- `core::str::from_utf8`, as the reader of the archive uses it: which bytes are a string.
use oscortex.Base.{ℕ, zero, suc, Bool, true, false, ◌&&◌, List, [], ◌∷◌, if◌then◌else◌, ltb, leb}

-- How many bytes are still missing from a character, and the range of the next one.
pub record Pending : Type 0 where
  pub missing : ℕ
  pub low : ℕ
  pub high : ℕ

abbrev pub none_missing : Pending
none_missing = record { missing = 0; low = 0x80; high = 0xBF }

abbrev expect : ℕ → ℕ → ℕ → Pending
expect n l h = record { missing = n; low = l; high = h }

-- After the first byte of a character, from 0x80 on; with `false` when it cannot start one.
abbrev lead : ℕ → Pending × Bool
lead b =
    if ltb b 0xC2
    then (none_missing, false)
    else if ltb b 0xE0
    then (expect 1 0x80 0xBF, true)
    else if ltb b 0xE1
    then (expect 2 0xA0 0xBF, true)
    else if ltb b 0xED
    then (expect 2 0x80 0xBF, true)
    else if ltb b 0xEE
    then (expect 2 0x80 0x9F, true)
    else if ltb b 0xF0
    then (expect 2 0x80 0xBF, true)
    else if ltb b 0xF1
    then (expect 3 0x90 0xBF, true)
    else if ltb b 0xF4
    then (expect 3 0x80 0xBF, true)
    else if ltb b 0xF5
    then (expect 3 0x80 0x8F, true)
    else (none_missing, false)

-- One byte: what is pending after it, and whether it may stand there.
abbrev advance : Pending → ℕ → Pending × Bool
advance p b = elim (p.missing) [
  | zero ↦ if ltb b 0x80 then (none_missing, true) else lead b
  | suc n ↦ (expect n 0x80 0xBF, leb p.low b && leb b p.high)
]

unfoldable pub is_utf8_from : Pending → List ℕ → Bool
is_utf8_from p [] = leb p.missing 0
is_utf8_from p (b ∷ bs) = let r = advance p b in r.1 && is_utf8_from r.0 bs

-- `from_utf8(bytes).unwrap_or("")`.
pub utf8_or_empty : List ℕ → List ℕ
utf8_or_empty bytes = if is_utf8_from none_missing bytes then bytes else []
