-- ===== src/Pkg/Sha256/Padding.antt =====
-- The digest of kernel/src/pkg/sha256.rs against the padded message of FIPS 180-4, section 5.1.1.
use oscortex.Base.{
  ℕ, zero, suc, ◌+◌, ◌*◌, ◌-◌, ◌/◌, ◌%◌, ◌^◌, ◌<◌, ◌≤◌, ◌≡◌, refl, sym, ap, ap₂, ◌∙◌, Bool, true,
  false, List, [], ◌∷◌, ◌++◌, length, take, drop, set, replicate, copy_front, leb, ltb,
  if◌then◌else◌, arith, inl, inr, Bool-cases, length-append, length-replicate, length-drop, leb→le,
  ltb→lt, ltb→ge, lt→ltb, ge→ltb, take_all, take_within, drop_within, drop-replicate, replicate_add,
  set-append, append_assoc, take_exact, drop_exact,
}
use oscortex.Pkg.Sha256.{
  State, h0, compress, absorb, to_be_bytes, copy_at, last_buf, last_blocks, finish, digest, hash,
}
use oscortex.Pkg.Sha256.Digest.{length-to_be_bytes}

-- The message, a bit 1, the fewest bits 0 that fill up a block, and the length in bits.
abbrev pub zeros : ℕ → ℕ
zeros n = (119 - n % 64) % 64

abbrev tail : ℕ → ℕ → List ℕ
tail n bit_len = 0x80 ∷ (replicate (zeros n) 0 ++ to_be_bytes 8 bit_len)

abbrev pub pad : List ℕ → List ℕ
pad message = message ++ tail (length message) (length message * 8 % 2 ^ 64)

-- The blocks of a padded message, one after the other.
unfoldable pub process : ℕ → State → List ℕ → State
process zero state message = state
process (suc n) state message = process n (compress state (take 64 message)) (drop 64 message)

abbrev pub reference : List ℕ → List ℕ
reference message = digest (process (length (pad message) / 64) h0 (pad message))

module _ (rest : List ℕ) (bit_len z m : ℕ) where
  -- The buffer before the length is written, where `m` bytes 0 follow the 8 of the length.
  buffer :
      length rest + 1 + z + 8 + m ≡ 128
      → set (copy_front (replicate 128 0) rest) (length rest) 0x80
        ≡ (rest ++ (0x80 ∷ replicate z 0)) ++ (replicate 8 0 ++ replicate m 0)
  buffer e =
      let k : 128 ≡ length rest + suc (z + (8 + m)) = omega (arith, e) in
      ap (λ (b : List ℕ). set (rest ++ b) (length rest) 0x80)
        (ap (λ (n : ℕ). drop (length rest) (replicate n 0)) k ∙ drop-replicate (length rest) _ 0)
      ∙ set-append rest (replicate (z + (8 + m)) 0) 0 0x80
      ∙ ap (λ (b : List ℕ). rest ++ (0x80 ∷ b))
          (replicate_add z (8 + m) 0 ∙ ap (◌++◌ (replicate z 0)) (replicate_add 8 m 0))
      ∙ sym (append_assoc rest (0x80 ∷ replicate z 0) _)

  written :
      (at : ℕ)
      → length rest + 1 + z ≡ at
      → at + 8 + m ≡ 128
      → copy_at at
          (to_be_bytes 8 bit_len)
          (set (copy_front (replicate 128 0) rest) (length rest) 0x80)
        ≡ (rest ++ (0x80 ∷ (replicate z 0 ++ to_be_bytes 8 bit_len))) ++ replicate m 0
  written at e k =
      let src = to_be_bytes 8 bit_len in
      let front = rest ++ (0x80 ∷ replicate z 0) in
      let len : length front ≡ at =
        omega (arith, e, length-append rest (0x80 ∷ replicate z 0), length-replicate {A = ℕ} z 0) in
      let s8 = length-to_be_bytes 8 bit_len in
      rw (buffer (omega (arith, e, k))) (
        ap
          (λ (b : List ℕ).
            b ++ (src ++ drop (at + length src) (front ++ (replicate 8 0 ++ replicate m 0))))
          (take_exact at front (replicate 8 0 ++ replicate m 0) len)
        ∙ ap (λ (b : List ℕ). front ++ (src ++ b))
            (ap (drop (at + length src)) (sym (append_assoc front (replicate 8 0) (replicate m 0)))
              ∙ drop_exact (at + length src) (front ++ replicate 8 0) (replicate m 0)
                  (omega (arith, len, s8, length-append front (replicate {A = ℕ} 8 0))))
        ∙ sym (append_assoc front src (replicate m 0))
        ∙ ap (λ (b : List ℕ). b ++ replicate m 0) (append_assoc rest (0x80 ∷ replicate z 0) src))

append-nil : (xs : List ℕ) → xs ++ [] ≡ xs
append-nil [] = refl
append-nil (x ∷ xs) = ap (◌∷◌ x) (append-nil xs)

length-padded :
    (rest : List ℕ) (bit_len n : ℕ) → length (rest ++ tail n bit_len) ≡ length rest + 9 + zeros n
length-padded rest bit_len n = omega (
  arith,
  length-append rest (tail n bit_len),
  length-append (replicate (zeros n) 0) (to_be_bytes 8 bit_len),
  length-replicate {A = ℕ} (zeros n) 0,
  length-to_be_bytes 8 bit_len,
)

-- What the padding of less than one block leaves in the buffer.
last_buf-short :
    (rest : List ℕ) (bit_len : ℕ)
    → length rest < 56
    → last_buf rest bit_len ≡ (rest ++ tail (length rest) bit_len) ++ replicate 64 0
last_buf-short rest bit_len h =
    let q : ltb (length rest) 56 ≡ true = lt→ltb (length rest) 56 h in
    rw q (written rest bit_len (zeros (length rest)) 64 56 (omega arith) (omega arith))

last_buf-long :
    (rest : List ℕ) (bit_len : ℕ)
    → 56 ≤ length rest
    → length rest < 64
    → last_buf rest bit_len ≡ rest ++ tail (length rest) bit_len
last_buf-long rest bit_len l h =
    let q : ltb (length rest) 56 ≡ false = ge→ltb (length rest) 56 l in
    rw q (written rest bit_len (zeros (length rest)) 0 120 (omega arith) (omega arith))
    ∙ append-nil _

-- The last blocks are those of the padded rest.
finish-process :
    (state : State) (rest : List ℕ) (bit_len : ℕ)
    → length rest < 64
    → finish (state, rest) bit_len
      ≡ process
          ((length rest + 9 + zeros (length rest)) / 64)
          state
          (rest ++ tail (length rest) bit_len)
unfolding last_blocks process
finish-process state rest bit_len h =
    let message = rest ++ tail (length rest) bit_len in
    let m = length-padded rest bit_len (length rest) in
    elim (Bool-cases (ltb (length rest) 56)) [
      | inl e ↦
          (let l = ltb→lt (length rest) 56 e in
            let n : (length rest + 9 + zeros (length rest)) / 64 ≡ 1 = omega arith in
            ap (λ (b : Bool). last_blocks (if b then 1 else 2) 0 state (last_buf rest bit_len)) e
            ∙ ap (last_blocks 1 0 state) (last_buf-short rest bit_len l)
            ∙ ap (compress state) (
                take_exact 64 message (replicate 64 0) (omega arith)
                ∙ sym (take_all 64 message (omega arith)))
            ∙ ap (λ (k : ℕ). process k state message) (sym n))
      | inr e ↦
          (let l = ltb→ge (length rest) 56 e in
            let n : (length rest + 9 + zeros (length rest)) / 64 ≡ 2 = omega arith in
            ap (λ (b : Bool). last_blocks (if b then 1 else 2) 0 state (last_buf rest bit_len)) e
            ∙ ap (last_blocks 2 0 state) (last_buf-long rest bit_len l h)
            ∙ ap (λ (k : ℕ). process k state message) (sym n))
    ]

-- Taking the complete blocks first makes no difference.
absorb-process :
    (n : ℕ) (state : State) (bytes : List ℕ) (bit_len : ℕ)
    → length bytes ≤ n
    → finish (absorb n state bytes) bit_len
      ≡ process
          ((length bytes + 9 + zeros (length bytes)) / 64)
          state
          (bytes ++ tail (length bytes) bit_len)
unfolding absorb process
absorb-process zero state bytes bit_len h = finish-process state bytes bit_len (omega arith)
absorb-process (suc n) state bytes bit_len h = elim (Bool-cases (leb 64 (length bytes))) [
  | inr e ↦ rw (absorb, e) (finish-process state bytes bit_len (ground (arith, e)))
  | inl e ↦
      (let l = leb→le 64 (length bytes) e in
        let d = length-drop 64 bytes in
        let z : zeros (length (drop 64 bytes)) ≡ zeros (length bytes) = omega arith in
        let k : (length bytes + 9 + zeros (length bytes)) / 64
            ≡ suc ((length (drop 64 bytes) + 9 + zeros (length (drop 64 bytes))) / 64) =
          omega arith in
        let rest = tail (length bytes) bit_len in
        rw (absorb, e)
          (absorb-process n (compress state (take 64 bytes)) (drop 64 bytes) bit_len (omega arith)
            ∙ ap
                (λ (i : ℕ).
                  process ((length (drop 64 bytes) + 9 + zeros (length (drop 64 bytes))) / 64)
                    (compress state (take 64 bytes))
                    (drop 64 bytes ++ (0x80 ∷ (replicate i 0 ++ to_be_bytes 8 bit_len))))
                z
            ∙ ap₂
                (λ (x y : List ℕ).
                  process ((length (drop 64 bytes) + 9 + zeros (length (drop 64 bytes))) / 64)
                    (compress state x) y)
                (sym (take_within 64 bytes rest l)) (sym (drop_within 64 bytes rest l))
            ∙ ap (λ (i : ℕ). process i state (bytes ++ rest)) (sym k)))
]

-- The padding of FIPS 180-4 makes a message a whole number of blocks, and `hash`, which takes the
-- complete blocks first and pads the rest in a buffer of 128 bytes, gives the digest of the blocks of
-- the padded message.
pub hash-reference :
    (bytes : List ℕ) → (length (pad bytes) % 64 ≡ 0) × (hash bytes ≡ reference bytes)
unfolding hash
hash-reference bytes =
    let bit_len = length bytes * 8 % 2 ^ 64 in
    let m = length-padded bytes bit_len (length bytes) in
    (
      omega (arith, m),
      ap digest (
          absorb-process (length bytes) h0 bytes bit_len (omega arith)
          ∙ ap (λ (i : ℕ). process (i / 64) h0 (pad bytes)) (sym m)),
    )
