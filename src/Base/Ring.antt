-- ===== src/Base/Ring.antt =====
-- Circular buffers: the entries that a head index and a count select, in order.
-- An array is a function from indices, so that two parallel arrays are one array of pairs.
use Prim.Native.Nat.{ℕ, zero, suc, ◌+◌, ◌-◌, ◌%◌, ◌≤◌, ◌<◌}
use mathlib.Core.Path.{◌≡◌, refl, sym, ap, ap₂, subst, ◌∙◌}
use mathlib.Core.Logic.{◌≢◌}
use mathlib.Core.List.{List, [], ◌∷◌, ◌++◌}
use native.Mathlib.Nat.{mod-add-mod, mod-eq_of_lt, mod-eq-sub-mod, mod-lt}
use native.Mathlib.Decide.{dec_lt}
use native.Mathlib.Omega.{arith}
use oscortex.Base.Lists.{length, set, take, get_or, get_or-set_self, get_or-set_ne}

module _ {ℓ} {A : Type ℓ} where
  -- The `n` entries from index `h` on, going round at `size`.
  abbrev pub window : (ℕ → A) → ℕ → ℕ → ℕ → List A
  window f size h zero = []
  window f size h (suc n) = f (h % size) ∷ window f size (suc h) n

  -- `g` is `f` with `v` written at index `i`.
  abbrev pub Writes : (ℕ → A) → (ℕ → A) → ℕ → A → Type ℓ
  Writes f g i v = (g i ≡ v) × ((j : ℕ) → j ≢ i → g j ≡ f j)

-- Two places fewer than `size` steps apart are different slots.
pub mod-ne : (size x k : ℕ) → 0 < k → k < size → (x + k) % size ≢ x % size
mod-ne size x k p q e = elim (dec_lt (x % size + k) size) [
  | yes s ↦
      absurd (omega (arith, mod-add-mod x size k, mod-eq_of_lt {n = x % size + k} {m = size} s))
  | no s ↦ absurd (
      omega (
        arith,
        mod-add-mod x size k,
        mod-lt x {m = size} (omega arith),
        mod-eq-sub-mod {n = x % size + k} {m = size} (omega arith),
        mod-eq_of_lt {n = x % size + k - size} {m = size}
            (omega (arith, mod-lt x {m = size} (omega arith))),
      ))
]

pub slot-ne : (size x j k : ℕ) → j < size → k < size → j ≢ k → (x + j) % size ≢ (x + k) % size
slot-ne size x j k hj hk ne = elim (dec_lt j k) [
  | yes s ↦ λ e.
      mod-ne size (x + j) (k - j) (omega arith) (omega arith)
        (ap (λ (t : ℕ). t % size) (omega arith) ∙ sym e)
  | no s ↦ λ e.
      mod-ne size (x + k) (j - k) (omega arith) (omega arith)
        (ap (λ (t : ℕ). t % size) (omega arith) ∙ e)
]

module _ {ℓ} {A : Type ℓ} where
  pub length-window : (f : ℕ → A) (size h n : ℕ) → length (window f size h n) ≡ n
  length-window f size h zero = refl
  length-window f size h (suc n) = ap suc (length-window f size (suc h) n)

  pub get_or-window :
      (f : ℕ → A) (size h n k : ℕ) (d : A)
      → k < n
      → get_or (window f size h n) k d ≡ f ((h + k) % size)
  get_or-window f size h zero k d p = absurd (omega arith)
  get_or-window f size h (suc n) zero d p = ap (λ (t : ℕ). f (t % size)) (omega arith)
  get_or-window f size h (suc n) (suc k) d p =
      get_or-window f size (suc h) n k d (omega arith) ∙ ap (λ (t : ℕ). f (t % size)) (omega arith)

  -- A shorter window is the front of a longer one.
  pub take-window :
      (f : ℕ → A) (size h n m : ℕ) → m ≤ n → take m (window f size h n) ≡ window f size h m
  take-window f size h n zero p = refl
  take-window f size h zero (suc m) p = absurd (omega arith)
  take-window f size h (suc n) (suc m) p =
      ap (◌∷◌ (f (h % size))) (take-window f size (suc h) n m (omega arith))

  -- Windows that agree place by place are equal.
  pub window_cong :
      (f g : ℕ → A) (size h i n : ℕ)
      → ((k : ℕ) → k < n → f ((h + k) % size) ≡ g ((i + k) % size))
      → window f size h n ≡ window g size i n
  window_cong f g size h i zero e = refl
  window_cong f g size h i (suc n) e =
      ap₂ ◌∷◌
        (ap (λ (t : ℕ). f (t % size)) {x = h} {y = h + 0} (omega arith)
          ∙ e 0 (omega arith)
          ∙ ap (λ (t : ℕ). g (t % size)) {x = i + 0} {y = i} (omega arith))
        (window_cong f g size (suc h) (suc i) n λ k p.
          ap (λ (t : ℕ). f (t % size)) {x = suc h + k} {y = h + suc k} (omega arith)
          ∙ e (suc k) (omega arith)
          ∙ ap (λ (t : ℕ). g (t % size)) {x = i + suc k} {y = suc i + k} (omega arith))

  -- The head index counts modulo the capacity.
  pub window-mod : (f : ℕ → A) (size h n : ℕ) → window f size (h % size) n ≡ window f size h n
  window-mod f size h n = window_cong f f size (h % size) h n λ k _. ap f (mod-add-mod h size k)

  pub window-snoc :
      (f : ℕ → A) (size h n : ℕ)
      → window f size h (suc n) ≡ window f size h n ++ (f ((h + n) % size) ∷ [])
  window-snoc f size h zero = ap (λ (t : ℕ). f (t % size) ∷ []) (omega arith)
  window-snoc f size h (suc n) = ap (◌∷◌ (f (h % size))) (
      window-snoc f size (suc h) n
      ∙ ap (λ (t : ℕ). window f size (suc h) n ++ (f (t % size) ∷ [])) (omega arith))

  -- Taking the entry at the head.
  pub window-pop :
      (f : ℕ → A) (size h n : ℕ)
      → 0 < n
      → h < size
      → window f size h n ≡ f h ∷ window f size ((h + 1) % size) (n - 1)
  window-pop f size h zero p q = absurd (omega arith)
  window-pop f size h (suc n) p q = ap₂ ◌∷◌ (ap f (mod-eq_of_lt q)) (
      ap (λ (t : ℕ). window f size t n) {x = suc h} {y = h + 1} (omega arith)
      ∙ sym (window-mod f size (h + 1) n)
      ∙ ap (window f size ((h + 1) % size)) {x = n} {y = suc n - 1} (omega arith))

  module _ (f g : ℕ → A) (size h n : ℕ) (v : A) where
    -- A write outside the window leaves it alone.
    pub window-write_out :
        (k : ℕ)
        → n ≤ k
        → k < size
        → Writes f g ((h + k) % size) v
        → window g size h n ≡ window f size h n
    window-write_out k p q w =
        window_cong g f size h h n λ j s. w.1 _ (slot-ne size h j k (omega arith) q (omega arith))

    -- A write just past the window extends it at the end.
    pub window-push :
        n < size
        → Writes f g ((h + n) % size) v
        → window g size h (suc n) ≡ window f size h n ++ (v ∷ [])
    window-push p w =
        window-snoc g size h n
        ∙ ap₂ (λ xs x. xs ++ (x ∷ [])) (window-write_out n (omega arith) p w) w.0

    -- A write just before the window extends it at the front.
    pub window-push_front :
        (i : ℕ)
        → suc i % size ≡ h % size
        → i < size
        → n < size
        → Writes f g i v
        → window g size i (suc n) ≡ v ∷ window f size h n
    window-push_front i e p q w = ap₂ ◌∷◌ (ap g (mod-eq_of_lt p) ∙ w.0) (
        window_cong g f size (suc i) h n λ k s.
          w.1 _ (λ c.
            mod-ne size i (suc k) (omega arith) (omega arith)
              (ap (λ (t : ℕ). t % size) (omega arith) ∙ c ∙ sym (mod-eq_of_lt p)))
          ∙ ap f (
              sym (mod-add-mod (suc i) size k)
              ∙ ap (λ (t : ℕ). (t + k) % size) e
              ∙ mod-add-mod h size k))

  -- A write inside the window is a write to the list.
  pub window-write_in :
      (f g : ℕ → A) (size h n : ℕ) (v : A) (k : ℕ)
      → k < n
      → n ≤ size
      → Writes f g ((h + k) % size) v
      → window g size h n ≡ set (window f size h n) k v
  window-write_in f g size h zero v k p q w = absurd (omega arith)
  window-write_in f g size h (suc n) v zero p q w =
      ap₂ ◌∷◌ (ap (λ (t : ℕ). g (t % size)) {x = h} {y = h + 0} (omega arith) ∙ w.0) (
        window_cong g f size (suc h) (suc h) n λ j s. w.1 _ (λ c.
          slot-ne size h (suc j) 0 (omega arith) (omega arith) (omega arith)
            (ap (λ (t : ℕ). t % size) (omega arith) ∙ c)))
  window-write_in f g size h (suc n) v (suc k) p q w =
      ap₂ ◌∷◌
        (w.1 _ (λ c.
          slot-ne size h 0 (suc k) (omega arith) (omega arith) (omega arith)
            (ap (λ (t : ℕ). t % size) {x = h + 0} {y = h} (omega arith) ∙ c)))
        (window-write_in f g size (suc h) n v k (omega arith) (omega arith)
          (subst (λ (t : ℕ). Writes f g (t % size) v) (omega arith) w))

  -- A write to an array, as one to the function of its entries.
  pub set-Writes :
      (xs : List A) (i : ℕ) (v d : A)
      → i < length xs
      → Writes (λ j. get_or xs j d) (λ j. get_or (set xs i v) j d) i v
  set-Writes xs i v d p = (get_or-set_self xs i v d p, λ j ne. get_or-set_ne xs i j v d ne)
