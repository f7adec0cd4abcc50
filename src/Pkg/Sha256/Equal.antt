-- ===== src/Pkg/Sha256/Equal.antt =====
-- The comparison of digests in kernel/src/pkg/sha256.rs.
use Prim.Native.Nat.{differ}
use oscortex.Base.{
  ℕ, zero, suc, ◌≡◌, ◌<◌, refl, sym, ap, ap₂, subst, ◌∙◌, max, bit_or, bit_xor, true, List, [], ◌∷◌,
  length, ◌↔◌, ◌==◌, ==→eq, arith,
}
use oscortex.Base.Bits.{digit, digit_lt, digit-zero, digit-bit_or, digit-bit_xor, eq_of_digits}
use oscortex.Pkg.Sha256.{difference, hash_eq}

bit_or-left : (a b : ℕ) → bit_or a b ≡ 0 → a ≡ 0
bit_or-left a b e =
    eq_of_digits a a 0 (omega arith) (omega arith)
      (λ k. omega (arith, digit-bit_or k a b, ap (λ (x : ℕ). digit x k) e, digit-zero k))

bit_or-right : (a b : ℕ) → bit_or a b ≡ 0 → b ≡ 0
bit_or-right a b e =
    eq_of_digits b b 0 (omega arith) (omega arith)
      (λ k. omega (arith, digit-bit_or k a b, ap (λ (x : ℕ). digit x k) e, digit-zero k))

same_digit : (x y : ℕ) → x < 2 → y < 2 → differ x y ≡ 0 → x ≡ y
same_digit zero y p q e = sym e
same_digit (suc zero) zero p q e = e
same_digit (suc zero) (suc y) p q e = omega arith
same_digit (suc (suc x)) y p q e = absurd (omega arith)

differ_self : (x : ℕ) → differ x x ≡ 0
differ_self zero = refl
differ_self (suc x) = differ_self x

bit_xor-zero : (a b : ℕ) → bit_xor a b ≡ 0 → a ≡ b
bit_xor-zero a b e = eq_of_digits (max a b) a b (omega arith) (omega arith) (λ k.
    same_digit (digit a k) (digit b k) (digit_lt a k) (digit_lt b k)
      (sym (digit-bit_xor k a b) ∙ ap (λ (x : ℕ). digit x k) e ∙ digit-zero k))

bit_xor_self : (a : ℕ) → bit_xor a a ≡ 0
bit_xor_self a =
    eq_of_digits (bit_xor a a) (bit_xor a a) 0 (omega arith) (omega arith)
      (λ k. digit-bit_xor k a a ∙ differ_self (digit a k) ∙ sym (digit-zero k))

difference-zero :
    (xs ys : List ℕ) (acc : ℕ)
    → length xs ≡ length ys
    → difference xs ys acc ≡ 0
    → (acc ≡ 0) × (xs ≡ ys)
difference-zero [] [] acc l e = (e, refl)
difference-zero [] (y ∷ ys) acc l e = absurd (omega arith)
difference-zero (x ∷ xs) [] acc l e = absurd (omega arith)
difference-zero (x ∷ xs) (y ∷ ys) acc l e =
    let (z, r) = difference-zero xs ys (bit_or acc (bit_xor x y)) (omega arith) e in
    (
      bit_or-left acc (bit_xor x y) z,
      ap₂ ◌∷◌ (bit_xor-zero x y (bit_or-right acc (bit_xor x y) z)) r,
    )

difference_self : (xs : List ℕ) → difference xs xs 0 ≡ 0
difference_self [] = refl
difference_self (x ∷ xs) = rw (bit_xor_self x) (difference_self xs)

-- The comparison holds exactly of equal byte strings.
pub hash_eq_iff : (a b : List ℕ) → length a ≡ length b → (hash_eq a b ≡ true) ↔ (a ≡ b)
hash_eq_iff a b l = (
  λ e. (difference-zero a b 0 l (==→eq (difference a b 0) 0 e)).1,
  λ e. subst (λ c. hash_eq a c ≡ true) e (ap (λ (n : ℕ). n == 0) (difference_self a)),
)
