-- ===== src/Pkg/Sha256/Digest.antt =====
-- What a digest of kernel/src/pkg/sha256.rs is made of.
use oscortex.Base.{
  ℕ, zero, suc, ◌+◌, ◌*◌, ◌^◌, ◌/◌, ◌%◌, ◌≡◌, refl, List, [], ◌∷◌, ◌++◌, length, All, All-append,
  length-append, arith,
}
use oscortex.Pkg.Sha256.{State, h0, absorb, finish, to_be_bytes, digest, hash}
use oscortex.Pkg.Sha256.Hex.{IsByte}

to_be_bytes-IsByte : (k n : ℕ) → All IsByte (to_be_bytes k n)
unfolding to_be_bytes
to_be_bytes-IsByte zero n = tt
to_be_bytes-IsByte (suc k) n =
    All-append IsByte (to_be_bytes k (n / 256)) (n % 256 ∷ []) (to_be_bytes-IsByte k (n / 256))
      (omega arith, tt)

pub length-to_be_bytes : (k n : ℕ) → length (to_be_bytes k n) ≡ k
unfolding to_be_bytes
length-to_be_bytes zero n = refl
length-to_be_bytes (suc k) n =
    omega (
      arith,
      length-append (to_be_bytes k (n / 256)) (n % 256 ∷ []),
      length-to_be_bytes k (n / 256),
    )

record IsDigest (k : ℕ) (h : List ℕ) : Type 0 where
  bytes : All IsByte h
  size : length h ≡ k

word-IsDigest : (n : ℕ) → IsDigest 4 (to_be_bytes 4 n)
word-IsDigest n = record { bytes = to_be_bytes-IsByte 4 n; size = length-to_be_bytes 4 n }

append-IsDigest : (k n : ℕ) (h : List ℕ) → IsDigest k h → IsDigest (4 + k) (to_be_bytes 4 n ++ h)
append-IsDigest k n h d = record {
  bytes = All-append IsByte (to_be_bytes 4 n) h (to_be_bytes-IsByte 4 n) d.bytes;
  size = omega (arith, length-append (to_be_bytes 4 n) h, length-to_be_bytes 4 n, d.size);
}

digest-IsDigest : (s : State) → IsDigest 32 (digest s)
unfolding digest
digest-IsDigest s = append-IsDigest 28 s.a _ (
    append-IsDigest 24 s.b _ (
      append-IsDigest 20 s.c _ (
        append-IsDigest 16 s.d _ (
          append-IsDigest 12 s.e _
            (append-IsDigest 8 s.f _ (append-IsDigest 4 s.g _ (word-IsDigest s.h)))))))

-- The digest of every message has 32 bytes, each below 256.
pub hash-IsDigest : (message : List ℕ) → All IsByte (hash message) × (length (hash message) ≡ 32)
unfolding hash
hash-IsDigest message =
    let d =
      digest-IsDigest (finish (absorb (length message) h0 message) (length message * 8 % 2 ^ 64)) in
    (d.bytes, d.size)
