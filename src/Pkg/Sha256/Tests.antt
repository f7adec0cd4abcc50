-- ===== src/Pkg/Sha256/Tests.antt =====
-- The digest of "abc", from FIPS 180-4.
use oscortex.Base.{ℕ, ◌≡◌, refl, List, [], ◌∷◌}
use oscortex.Pkg.Sha256.{
  hash, digest, absorb, last_blocks, to_be_bytes, compress, rounds, load, expand, hash_hex,
}

abbrev abc_digest : List ℕ
abc_digest =
    98 ∷ 97 ∷ 55 ∷ 56 ∷ 49 ∷ 54 ∷ 98 ∷ 102 ∷ 56 ∷ 102 ∷ 48 ∷ 49 ∷ 99 ∷ 102 ∷ 101 ∷ 97 ∷ 52 ∷ 49 ∷ 52
    ∷ 49 ∷ 52 ∷ 48 ∷ 100 ∷ 101 ∷ 53 ∷ 100 ∷ 97 ∷ 101 ∷ 50 ∷ 50 ∷ 50 ∷ 51 ∷ 98 ∷ 48 ∷ 48 ∷ 51 ∷ 54
    ∷ 49 ∷ 97 ∷ 51 ∷ 57 ∷ 54 ∷ 49 ∷ 55 ∷ 55 ∷ 97 ∷ 57 ∷ 99 ∷ 98 ∷ 52 ∷ 49 ∷ 48 ∷ 102 ∷ 102 ∷ 54 ∷ 49
    ∷ 102 ∷ 50 ∷ 48 ∷ 48 ∷ 49 ∷ 53 ∷ 97 ∷ 100 ∷ []

hash_abc : hash_hex (hash (97 ∷ 98 ∷ 99 ∷ [])) ≡ abc_digest
unfolding hash digest absorb last_blocks to_be_bytes compress rounds load expand hash_hex
hash_abc = refl
