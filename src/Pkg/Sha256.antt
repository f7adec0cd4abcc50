-- ===== src/Pkg/Sha256.antt =====
-- kernel/src/pkg/sha256.rs: SHA-256, the comparison of two digests and their hexadecimal form. Words have
-- 32 bits; a byte is a number below 256.
pub mod Digest
pub mod Padding
pub mod Equal
pub mod Hex
mod Tests
use oscortex.Base.{
  ℕ, zero, suc, ◌+◌, ◌*◌, ◌-◌, ◌/◌, ◌%◌, ◌^◌, bit_and, bit_or, bit_xor, Bool, true, false, List, [],
  ◌∷◌, ◌++◌, get_or, set, take, drop, length, replicate, copy_front, if◌then◌else◌, ◌==◌, leb, ltb,
}

abbrev pub k_table : List ℕ
k_table =
    0x428a2f98 ∷ 0x71374491 ∷ 0xb5c0fbcf ∷ 0xe9b5dba5 ∷ 0x3956c25b ∷ 0x59f111f1 ∷ 0x923f82a4
    ∷ 0xab1c5ed5 ∷ 0xd807aa98 ∷ 0x12835b01 ∷ 0x243185be ∷ 0x550c7dc3 ∷ 0x72be5d74 ∷ 0x80deb1fe
    ∷ 0x9bdc06a7 ∷ 0xc19bf174 ∷ 0xe49b69c1 ∷ 0xefbe4786 ∷ 0xfc19dc6 ∷ 0x240ca1cc ∷ 0x2de92c6f
    ∷ 0x4a7484aa ∷ 0x5cb0a9dc ∷ 0x76f988da ∷ 0x983e5152 ∷ 0xa831c66d ∷ 0xb00327c8 ∷ 0xbf597fc7
    ∷ 0xc6e00bf3 ∷ 0xd5a79147 ∷ 0x6ca6351 ∷ 0x14292967 ∷ 0x27b70a85 ∷ 0x2e1b2138 ∷ 0x4d2c6dfc
    ∷ 0x53380d13 ∷ 0x650a7354 ∷ 0x766a0abb ∷ 0x81c2c92e ∷ 0x92722c85 ∷ 0xa2bfe8a1 ∷ 0xa81a664b
    ∷ 0xc24b8b70 ∷ 0xc76c51a3 ∷ 0xd192e819 ∷ 0xd6990624 ∷ 0xf40e3585 ∷ 0x106aa070 ∷ 0x19a4c116
    ∷ 0x1e376c08 ∷ 0x2748774c ∷ 0x34b0bcb5 ∷ 0x391c0cb3 ∷ 0x4ed8aa4a ∷ 0x5b9cca4f ∷ 0x682e6ff3
    ∷ 0x748f82ee ∷ 0x78a5636f ∷ 0x84c87814 ∷ 0x8cc70208 ∷ 0x90befffa ∷ 0xa4506ceb ∷ 0xbef9a3f7
    ∷ 0xc67178f2 ∷ []

abbrev pub wrapping_add : ℕ → ℕ → ℕ
wrapping_add x y = (x + y) % 2 ^ 32

abbrev pub rotate_right : ℕ → ℕ → ℕ
rotate_right x n = x / 2 ^ n + x % 2 ^ n * 2 ^ (32 - n)

-- `!x`.
abbrev pub complement : ℕ → ℕ
complement x = 2 ^ 32 - 1 - x

abbrev pub ch : ℕ → ℕ → ℕ → ℕ
ch x y z = bit_xor (bit_and x y) (bit_and (complement x) z)

abbrev pub maj : ℕ → ℕ → ℕ → ℕ
maj x y z = bit_xor (bit_xor (bit_and x y) (bit_and x z)) (bit_and y z)

abbrev pub sigma0 : ℕ → ℕ
sigma0 x = bit_xor (bit_xor (rotate_right x 2) (rotate_right x 13)) (rotate_right x 22)

abbrev pub sigma1 : ℕ → ℕ
sigma1 x = bit_xor (bit_xor (rotate_right x 6) (rotate_right x 11)) (rotate_right x 25)

abbrev pub gamma0 : ℕ → ℕ
gamma0 x = bit_xor (bit_xor (rotate_right x 7) (rotate_right x 18)) (x / 2 ^ 3)

abbrev pub gamma1 : ℕ → ℕ
gamma1 x = bit_xor (bit_xor (rotate_right x 17) (rotate_right x 19)) (x / 2 ^ 10)

-- The eight words of the state.
pub record State : Type 0 where
  pub a : ℕ
  pub b : ℕ
  pub c : ℕ
  pub d : ℕ
  pub e : ℕ
  pub f : ℕ
  pub g : ℕ
  pub h : ℕ

abbrev pub h0 : State
h0 = record {
  a = 0x6a09e667;
  b = 0xbb67ae85;
  c = 0x3c6ef372;
  d = 0xa54ff53a;
  e = 0x510e527f;
  f = 0x9b05688c;
  g = 0x1f83d9ab;
  h = 0x5be0cd19;
}

-- `u32::from_be_bytes` of the four bytes from `i` on.
abbrev pub be_word : List ℕ → ℕ → ℕ
be_word block i =
    get_or block i 0 * 2 ^ 24
    + get_or block (i + 1) 0 * 2 ^ 16
    + get_or block (i + 2) 0 * 2 ^ 8
    + get_or block (i + 3) 0

-- The two loops of the message schedule, with `n` words to go.
unfoldable pub load : ℕ → ℕ → List ℕ → List ℕ → List ℕ
load zero i block w = w
load (suc n) i block w = load n (i + 1) block (set w i (be_word block (i * 4)))

abbrev pub expanded : List ℕ → ℕ → ℕ
expanded w i =
    wrapping_add
      (wrapping_add (wrapping_add (gamma1 (get_or w (i - 2) 0)) (get_or w (i - 7) 0))
        (gamma0 (get_or w (i - 15) 0)))
      (get_or w (i - 16) 0)

unfoldable pub expand : ℕ → ℕ → List ℕ → List ℕ
expand zero i w = w
expand (suc n) i w = expand n (i + 1) (set w i (expanded w i))

abbrev pub schedule : List ℕ → List ℕ
schedule block = expand 48 16 (load 16 0 block (replicate 64 0))

abbrev pub round : ℕ → ℕ → State → State
round k w s =
    let t1 =
      wrapping_add (wrapping_add (wrapping_add (wrapping_add s.h (sigma1 s.e)) (ch s.e s.f s.g)) k)
        w in
    let t2 = wrapping_add (sigma0 s.a) (maj s.a s.b s.c) in
    record {
      a = wrapping_add t1 t2;
      b = s.a;
      c = s.b;
      d = s.c;
      e = wrapping_add s.d t1;
      f = s.e;
      g = s.f;
      h = s.g;
    }

unfoldable pub rounds : ℕ → ℕ → List ℕ → State → State
rounds zero i w s = s
rounds (suc n) i w s = rounds n (i + 1) w (round (get_or k_table i 0) (get_or w i 0) s)

abbrev pub add_state : State → State → State
add_state s t = record {
  a = wrapping_add s.a t.a;
  b = wrapping_add s.b t.b;
  c = wrapping_add s.c t.c;
  d = wrapping_add s.d t.d;
  e = wrapping_add s.e t.e;
  f = wrapping_add s.f t.f;
  g = wrapping_add s.g t.g;
  h = wrapping_add s.h t.h;
}

unfoldable pub compress : State → List ℕ → State
compress state block = add_state state (rounds 64 0 (schedule block) state)

-- The loop over complete blocks; `n` bounds how many there are. What it leaves are the bytes from
-- `offset` on.
unfoldable pub absorb : ℕ → State → List ℕ → State × List ℕ
absorb zero state bytes = (state, bytes)
absorb (suc n) state bytes = elim (leb 64 (length bytes)) [
  | false ↦ (state, bytes)
  | true ↦ absorb n (compress state (take 64 bytes)) (drop 64 bytes)
]

-- `to_be_bytes`, for a word of `k` bytes.
unfoldable pub to_be_bytes : ℕ → ℕ → List ℕ
to_be_bytes zero n = []
to_be_bytes (suc k) n = to_be_bytes k (n / 256) ++ (n % 256 ∷ [])

-- `buf[at..at + src.len()].copy_from_slice(src)`.
abbrev pub copy_at : ℕ → List ℕ → List ℕ → List ℕ
copy_at at src buf = take at buf ++ (src ++ drop (at + length src) buf)

abbrev pub pad_blocks : ℕ → ℕ
pad_blocks remaining = if ltb remaining 56 then 1 else 2

-- The buffer of the last one or two blocks.
abbrev pub last_buf : List ℕ → ℕ → List ℕ
last_buf rest bit_len =
    let remaining = length rest in
    let last = set (copy_front (replicate 128 0) rest) remaining 0x80 in
    copy_at (pad_blocks remaining * 64 - 8) (to_be_bytes 8 bit_len) last

unfoldable pub last_blocks : ℕ → ℕ → State → List ℕ → State
last_blocks zero i state last = state
last_blocks (suc n) i state last =
    last_blocks n (i + 1) (compress state (take 64 (drop (i * 64) last))) last

abbrev pub finish : State × List ℕ → ℕ → State
finish (state, rest) bit_len =
    last_blocks (pad_blocks (length rest)) 0 state (last_buf rest bit_len)

unfoldable pub digest : State → List ℕ
digest s =
    to_be_bytes 4 s.a
    ++ (to_be_bytes 4 s.b
        ++ (to_be_bytes 4 s.c
            ++ (to_be_bytes 4 s.d
                ++ (to_be_bytes 4 s.e
                    ++ (to_be_bytes 4 s.f ++ (to_be_bytes 4 s.g ++ to_be_bytes 4 s.h))))))

unfoldable pub hash : List ℕ → List ℕ
hash bytes = digest (finish (absorb (length bytes) h0 bytes) (length bytes * 8 % 2 ^ 64))

-- A digit of `HEX`.
abbrev pub hex_digit : ℕ → ℕ
hex_digit n =
    get_or (48 ∷ 49 ∷ 50 ∷ 51 ∷ 52 ∷ 53 ∷ 54 ∷ 55 ∷ 56 ∷ 57 ∷ 97 ∷ 98 ∷ 99 ∷ 100 ∷ 101 ∷ 102 ∷ []) n
      0

-- What `hash_hex` writes to its buffer.
unfoldable pub hash_hex : List ℕ → List ℕ
hash_hex [] = []
hash_hex (byte ∷ bytes) = hex_digit (byte / 2 ^ 4) ∷ hex_digit (bit_and byte 0xF) ∷ hash_hex bytes

-- The differences are collected without an early exit.
abbrev pub difference : List ℕ → List ℕ → ℕ → ℕ
difference [] ys acc = acc
difference (x ∷ xs) [] acc = acc
difference (x ∷ xs) (y ∷ ys) acc = difference xs ys (bit_or acc (bit_xor x y))

abbrev pub hash_eq : List ℕ → List ℕ → Bool
hash_eq a b = difference a b 0 == 0
