-- ===== src/Initramfs/Header.antt =====
-- The headers of the archive that kernel/src/fs/initramfs.rs reads: blocks of 512 bytes with fields at
-- fixed places.
use oscortex.Base.{
  ℕ, ◌+◌, ◌-◌, ◌*◌, ◌/◌, ◌%◌, ◌^◌, ◌≤◌, arith, Bool, true, false, ◌&&◌, ◌||◌, List, [], ◌∷◌, get_or,
  take, drop, if◌then◌else◌, ◌==◌, leb,
}
use oscortex.Initramfs.Utf8.{utf8_or_empty}

abbrev pub block : ℕ
block = 512

octal_loop : ℕ → List ℕ → ℕ
octal_loop val [] = val
octal_loop val (b ∷ bs) = elim (b == 0 || b == 32) [
  | true ↦ val
  | false ↦ octal_loop (if leb 48 b && leb b 55 then (val * 8 + (b - 48)) % 2 ^ 64 else val) bs
]

pub parse_octal : List ℕ → ℕ
parse_octal s = octal_loop 0 s

-- The bytes before the first NUL.
abbrev until_nul : List ℕ → List ℕ
until_nul [] = []
until_nul (b ∷ bs) = let rest = until_nul bs in if b == 0 then [] else b ∷ rest

-- The fields of the header at a position, `pos` in the source.
pub bytes : List ℕ → ℕ → List ℕ
bytes tar pos = take block (drop pos tar)

pub name : List ℕ → ℕ → List ℕ
name tar pos = utf8_or_empty (until_nul (take 100 (bytes tar pos)))

pub size : List ℕ → ℕ → ℕ
size tar pos = parse_octal (take 11 (drop 124 (bytes tar pos)))

pub typeflag : List ℕ → ℕ → ℕ
typeflag tar pos = get_or (bytes tar pos) 156 0

pub is_file : List ℕ → ℕ → Bool
is_file tar pos = typeflag tar pos == 48 || typeflag tar pos == 0

-- The next header.
pub skip : List ℕ → ℕ → ℕ
skip tar pos = pos + (block + (size tar pos + (block - 1)) / block * block)

pub skip-past : (tar : List ℕ) (pos : ℕ) → pos + block ≤ skip tar pos
unfolding skip
skip-past tar pos = omega arith
