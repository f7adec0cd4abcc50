-- ===== src/Pkg/Sha256/Hex.antt =====
-- The hexadecimal form of a digest, read back.
use oscortex.Base.{
  ℕ, ◌+◌, ◌-◌, ◌*◌, ◌/◌, ◌<◌, ◌^◌, ◌≡◌, refl, ap₂, bit_and, Bool, true, List, [], ◌∷◌,
  if◌then◌else◌, leb, ◌==◌, ==→eq, All, length, arith,
}
use oscortex.Base.Range.{each_below, each_below-at}
use oscortex.Pkg.Sha256.{hex_digit, hash_hex}

abbrev hex_value : ℕ → ℕ
hex_value c = if leb c 57 then c - 48 else c - 87

-- A reader of hexadecimal digits.
unfoldable pub parse_hex : List ℕ → List ℕ
parse_hex [] = []
parse_hex (h ∷ []) = []
parse_hex (h ∷ l ∷ cs) = (hex_value h * 16 + hex_value l) ∷ parse_hex cs

abbrev pub IsByte : ℕ → Type 0
IsByte b = b < 256

abbrev reads_back : ℕ → Bool
reads_back b = hex_value (hex_digit (b / 2 ^ 4)) * 16 + hex_value (hex_digit (bit_and b 0xF)) == b

all_read_back : each_below reads_back 256 ≡ true
unfolding each_below
all_read_back = refl

-- The digits read back give the bytes.
pub parse_hex-hash_hex :
    (hash : List ℕ)
    → All IsByte hash
    → (parse_hex (hash_hex hash) ≡ hash) × (length (hash_hex hash) ≡ 2 * length hash)
unfolding parse_hex hash_hex
parse_hex-hash_hex [] a = (refl, refl)
parse_hex-hash_hex (b ∷ bs) a =
    let (r, n) = parse_hex-hash_hex bs a.1 in
    (ap₂ ◌∷◌ (==→eq _ b (each_below-at reads_back 256 all_read_back b a.0)) r, omega (arith, n))
