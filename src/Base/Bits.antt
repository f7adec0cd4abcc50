-- ===== src/Base/Bits.antt =====
-- The bits of a machine word: the test, the setting and the clearing of one bit as the kernel writes
-- them, `w & (1 << k) != 0`, `w | (1 << k)` and `w & !(1 << k)`, and what each does to every bit.
use Prim.Native.Nat.{
  ℕ, zero, suc, ◌+◌, ◌-◌, ◌*◌, ◌/◌, ◌%◌, ◌^◌, ◌<◌, ◌≤◌, min, max, digits, bit_and, bit_or, bit_xor,
  differ, bit_and-bitwise, bit_or-bitwise, bit_xor-bitwise,
}
use native.Mathlib.Nat.{pow-suc, one-le-pow}
use native.Mathlib.Omega.{arith}
use mathlib.Core.Path.{◌≡◌, refl, sym, ap, ◌∙◌}
use mathlib.Core.Logic.{inl, inr}
use mathlib.Core.Bool.{Bool, true, false, not, ◌&&◌, ◌||◌}
use oscortex.Base.Tests.{◌==◌, if◌then◌else◌, Bool-cases, ==→eq}

abbrev pub digit : ℕ → ℕ → ℕ
digit x zero = x % 2
digit x (suc k) = digit (x / 2) k

abbrev pub has_bit : ℕ → ℕ → Bool
has_bit w k = not (bit_and w (2 ^ k) == 0)

abbrev pub set_bit : ℕ → ℕ → ℕ
set_bit w k = bit_or w (2 ^ k)

abbrev pub clear_bit : ℕ → ℕ → ℕ
clear_bit w k = bit_and w (2 ^ 64 - 1 - 2 ^ k)

pub digit-zero : (k : ℕ) → digit 0 k ≡ 0
digit-zero zero = refl
digit-zero (suc k) = digit-zero k

pub digit_lt : (x k : ℕ) → digit x k < 2
digit_lt x zero = omega arith
digit_lt x (suc k) = digit_lt (x / 2) k

module _ (z : ℕ → ℕ) (f : ℕ → ℕ → ℕ) (small : (x y : ℕ) → x < 2 → y < 2 → f x y < 2)
    (rest : (b k : ℕ) → digit (z b) k ≡ f 0 (digit b k)) where
  -- A bitwise operation acts on each bit by itself.
  digit-digits : (k n a b : ℕ) → a ≤ n → digit (digits z f n a b) k ≡ f (digit a k) (digit b k)
  digit-digits k zero zero b h = rw digit-zero (rest b k)
  digit-digits k (suc n) zero b h = rw digit-zero (rest b k)
  digit-digits k zero (suc a) b h = absurd (omega arith)
  digit-digits zero (suc n) (suc a) b h =
      omega (arith, small (suc a % 2) (b % 2) (omega arith) (omega arith))
  digit-digits (suc k) (suc n) (suc a) b h =
      let r : ℕ = digits z f n (suc a / 2) (b / 2) in
      let e : (r * 2 + f (suc a % 2) (b % 2)) / 2 ≡ r =
        omega (arith, small (suc a % 2) (b % 2) (omega arith) (omega arith)) in
      rw e (digit-digits k n (suc a / 2) (b / 2) (omega arith))

pub digit-bit_and : (k a b : ℕ) → digit (bit_and a b) k ≡ min (digit a k) (digit b k)
digit-bit_and k a b = simp bit_and-bitwise (
    digit-digits (λ y. 0) min (λ x y p q. omega arith) (λ y j. omega (arith, digit-zero j)) k a a b
      (omega arith))

pub digit-bit_or : (k a b : ℕ) → digit (bit_or a b) k ≡ max (digit a k) (digit b k)
digit-bit_or k a b =
    simp bit_or-bitwise (
      digit-digits (λ y. y) max (λ x y p q. omega arith) (λ y j. omega arith) k a a b (omega arith))

differ_small : (x y : ℕ) → x < 2 → y < 2 → differ x y < 2
differ_small zero y p q = q
differ_small (suc zero) zero p q = omega arith
differ_small (suc zero) (suc y) p q = omega arith
differ_small (suc (suc x)) y p q = absurd (omega arith)

pub digit-bit_xor : (k a b : ℕ) → digit (bit_xor a b) k ≡ differ (digit a k) (digit b k)
digit-bit_xor k a b =
    simp bit_xor-bitwise
      (digit-digits (λ y. y) differ differ_small (λ y j. refl) k a a b (omega arith))

-- The bits determine the number.
pub eq_of_digits : (n a b : ℕ) → a ≤ n → b ≤ n → ((k : ℕ) → digit a k ≡ digit b k) → a ≡ b
eq_of_digits zero a b p q h = omega arith
eq_of_digits (suc n) a b p q h =
    omega (arith, h 0, eq_of_digits n (a / 2) (b / 2) (omega arith) (omega arith) (λ k. h (suc k)))

pub lt_of_digits : (n x : ℕ) → ((k : ℕ) → n ≤ k → digit x k ≡ 0) → x < 2 ^ n
lt_of_digits zero x h =
    let e : x ≡ 0 =
      eq_of_digits x x 0 (omega arith) (omega arith)
        (λ k. h k (omega arith) ∙ sym (digit-zero k)) in
    omega arith
lt_of_digits (suc n) x h =
    omega (arith, pow-suc 2 n, lt_of_digits n (x / 2) (λ k l. h (suc k) (omega arith)))

pub digit-lt : (n x k : ℕ) → x < 2 ^ n → n ≤ k → digit x k ≡ 0
digit-lt zero x k h l = let e : x ≡ 0 = omega arith in rw e (digit-zero k)
digit-lt (suc n) x zero h l = absurd (omega arith)
digit-lt (suc n) x (suc k) h l = digit-lt n (x / 2) k (omega (arith, pow-suc 2 n)) (omega arith)

digit-pow : (k j : ℕ) → digit (2 ^ k) j ≡ (if j == k then 1 else 0)
digit-pow zero zero = refl
digit-pow zero (suc j) = ground (arith, digit-zero j)
digit-pow (suc k) zero = ground (arith, pow-suc 2 k)
digit-pow (suc k) (suc j) =
    let e : 2 ^ suc k / 2 ≡ 2 ^ k = omega (arith, pow-suc 2 k) in
    rw e (digit-pow k j ∙ ground arith)

digit-and_pow : (w k j : ℕ) → digit (bit_and w (2 ^ k)) j ≡ (if j == k then digit w j else 0)
digit-and_pow w k j = ground (arith, digit-bit_and j w (2 ^ k), digit-pow k j, digit_lt w j)

eq_refl : (k : ℕ) → (k == k) ≡ true
eq_refl k = ground arith

-- The test reads the bit.
pub has_bit-digit : (w k : ℕ) → has_bit w k ≡ (digit w k == 1)
has_bit-digit w k = elim (Bool-cases (bit_and w (2 ^ k) == 0)) [
  | inl z ↦
      let e : digit (bit_and w (2 ^ k)) k ≡ 0 =
        ap (λ (x : ℕ). digit x k) (==→eq (bit_and w (2 ^ k)) 0 z) ∙ digit-zero k in
      ground (arith, z, digit-and_pow w k k, eq_refl k, e)
  | inr z ↦ elim (Bool-cases (digit w k == 1)) [
    | inl e ↦ ap not z ∙ sym e
    | inr e ↦ absurd (ground (arith, z, none_set w k e))
  ]
]
  where
    none_set : (w k : ℕ) → (digit w k == 1) ≡ false → bit_and w (2 ^ k) ≡ 0
    none_set w k e =
        eq_of_digits (bit_and w (2 ^ k)) (bit_and w (2 ^ k)) 0 (omega arith) (omega arith) (λ j.
          elim (Bool-cases (j == k)) [
            | inl q ↦ ground (
              arith,
              digit-and_pow w k j,
              ap (digit w) (==→eq j k q),
              digit-zero j,
              digit_lt w k,
              e,
            )
            | inr q ↦ ground (arith, digit-and_pow w k j, digit-zero j)
          ])

digit-ones : (n k : ℕ) → k < n → digit (2 ^ n - 1) k ≡ 1
digit-ones zero k h = absurd (omega arith)
digit-ones (suc n) zero h = omega (arith, pow-suc 2 n, one-le-pow n 2)
digit-ones (suc n) (suc k) h =
    let e : (2 ^ suc n - 1) / 2 ≡ 2 ^ n - 1 = omega (arith, pow-suc 2 n, one-le-pow n 2) in
    rw e (digit-ones n k (omega arith))

pow_le : (k n : ℕ) → k < n → 2 ^ k < 2 ^ n
pow_le k zero h = absurd (omega arith)
pow_le zero (suc n) h = omega (arith, pow-suc 2 n, one-le-pow n 2)
pow_le (suc k) (suc n) h = omega (arith, pow-suc 2 n, pow-suc 2 k, pow_le k n (omega arith))

digit-mask : (n k j : ℕ) → k < n → j < n → digit (2 ^ n - 1 - 2 ^ k) j ≡ (if j == k then 0 else 1)
digit-mask zero k j h l = absurd (omega arith)
digit-mask (suc n) zero zero h l = omega (arith, pow-suc 2 n, one-le-pow n 2)
digit-mask (suc n) zero (suc j) h l =
    let e : (2 ^ suc n - 1 - 2 ^ 0) / 2 ≡ 2 ^ n - 1 = omega (arith, pow-suc 2 n, one-le-pow n 2) in
    rw e (digit-ones n j (omega arith) ∙ ground arith)
digit-mask (suc n) (suc k) zero h l =
    ground (arith, pow-suc 2 n, pow-suc 2 k, pow_le k n (omega arith))
digit-mask (suc n) (suc k) (suc j) h l =
    let e : (2 ^ suc n - 1 - 2 ^ suc k) / 2 ≡ 2 ^ n - 1 - 2 ^ k =
      omega (arith, pow-suc 2 n, pow-suc 2 k, pow_le k n (omega arith)) in
    rw e (digit-mask n k j (omega arith) (omega arith) ∙ ground arith)

iff_one : (x y : ℕ) → x ≡ y → (x == 1) ≡ (y == 1)
iff_one x y e = ap (λ (t : ℕ). t == 1) e

-- Setting a bit sets that bit and no other.
pub has_bit-set_bit : (w k j : ℕ) → has_bit (set_bit w k) j ≡ (j == k || has_bit w j)
has_bit-set_bit w k j =
    has_bit-digit (set_bit w k) j
    ∙ ground (arith, digit-bit_or j w (2 ^ k), digit-pow k j, digit_lt w j, has_bit-digit w j)

-- Clearing a bit clears that bit and no other.
pub has_bit-clear_bit :
    (w k j : ℕ) → k < 64 → j < 64 → has_bit (clear_bit w k) j ≡ (not (j == k) && has_bit w j)
has_bit-clear_bit w k j h l =
    has_bit-digit (clear_bit w k) j
    ∙ ground (
      arith,
      digit-bit_and j w (2 ^ 64 - 1 - 2 ^ k),
      digit-mask 64 k j h l,
      digit_lt w j,
      has_bit-digit w j,
    )

pub set_bit_lt : (w k : ℕ) → w < 2 ^ 64 → k < 64 → set_bit w k < 2 ^ 64
set_bit_lt w k h l = lt_of_digits 64 (set_bit w k) (λ j p.
    ground (
      arith,
      digit-bit_or j w (2 ^ k),
      digit-lt 64 w j h p,
      digit-lt 64 (2 ^ k) j (pow_le k 64 l) p,
    ))

pub clear_bit_lt : (w k : ℕ) → w < 2 ^ 64 → clear_bit w k < 2 ^ 64
clear_bit_lt w k h =
    lt_of_digits 64 (clear_bit w k)
      (λ j p. omega (arith, digit-bit_and j w (2 ^ 64 - 1 - 2 ^ k), digit-lt 64 w j h p))

-- `trailing_zeros` of a word of `n` bits.
abbrev pub trailing_zeros : ℕ → ℕ → ℕ
trailing_zeros zero w = 0
trailing_zeros (suc n) w = let rest = trailing_zeros n (w / 2) in if w % 2 == 1 then 0 else suc rest

-- Of a word that is not 0 it is the lowest bit that is set.
pub trailing_zeros-digit :
    (n w : ℕ)
    → 0 < w
    → w < 2 ^ n
    → (trailing_zeros n w < n)
      × (digit w (trailing_zeros n w) ≡ 1)
      × ((k : ℕ) → k < trailing_zeros n w → digit w k ≡ 0)
trailing_zeros-digit zero w h l = absurd (omega arith)
trailing_zeros-digit (suc n) w h l = elim (Bool-cases (w % 2 == 1)) [
  | inl e ↦ (ground (arith, e), rw e (==→eq (w % 2) 1 e), λ k p. absurd (ground (arith, e)))
  | inr e ↦
      (let r = trailing_zeros-digit n (w / 2) (ground arith) (omega (arith, pow-suc 2 n)) in
        (ground (arith, e, r.0), rw e (r.1), λ k p. below e r.2 k p))
]
  where
    below :
        (w % 2 == 1) ≡ false
        → ((k : ℕ) → k < trailing_zeros n (w / 2) → digit (w / 2) k ≡ 0)
        → (k : ℕ) → k < trailing_zeros (suc n) w
        → digit w k ≡ 0
    below e f zero p = ground (arith, e)
    below e f (suc k) p = f k (ground (arith, e))
