-- ===== src/Base/Slots.antt =====
-- Tables of optional entries: the first entry that passes a test, the first free slot.
use Prim.Native.Nat.{ℕ, zero, suc, ◌+◌, ◌-◌, ◌<◌, ◌≤◌}
use mathlib.Core.Path.{◌≡◌, refl, ap}
use mathlib.Core.Logic.{◌⊎◌, inl, inr}
use mathlib.Core.Bool.{Bool, true, false}
use mathlib.Core.List.{List, [], ◌∷◌}
use mathlib.Core.Option.{Option, none, some}
use native.Mathlib.Omega.{arith}
use oscortex.Base.Tests.{if◌then◌else◌, ◌==◌, Option-cases}
use oscortex.Base.Lists.{length, get_or, set}

module _ {ℓ} {A : Type ℓ} where
  abbrev pub holds : (A → Bool) → Option A → Bool
  holds p none = false
  holds p (some a) = p a

  abbrev pub or_next : Option A → Option A → Option A
  or_next (some a) o = some a
  or_next none o = o

  -- `iter().flatten().find(p)`.
  unfoldable pub find_slot : (A → Bool) → List (Option A) → Option A
  find_slot p [] = none
  find_slot p (o ∷ xs) = if holds p o then o else find_slot p xs

  -- `if let Some(x) = iter_mut().flatten().find(p) { *x = f(x) }`.
  unfoldable pub update_slot : (A → Bool) → (A → A) → List (Option A) → List (Option A)
  update_slot p f [] = []
  update_slot p f (none ∷ xs) = none ∷ update_slot p f xs
  update_slot p f (some a ∷ xs) = if p a then some (f a) ∷ xs else some a ∷ update_slot p f xs

  -- The first slot whose entry passes the test becomes free.
  unfoldable pub clear_slot : (A → Bool) → List (Option A) → List (Option A)
  clear_slot p [] = []
  clear_slot p (o ∷ xs) = if holds p o then none ∷ xs else o ∷ clear_slot p xs

  -- The first free slot takes the entry; `none` if there is no free slot.
  unfoldable pub fill_slot : A → List (Option A) → Option (List (Option A))
  fill_slot v [] = none
  fill_slot v (none ∷ xs) = some (some v ∷ xs)
  fill_slot v (some a ∷ xs) = elim (fill_slot v xs) [ none ↦ none | some ys ↦ some (some a ∷ ys) ]

  -- How many entries pass a test.
  abbrev pub count_slots : (A → Bool) → List (Option A) → ℕ
  count_slots p [] = 0
  count_slots p (o ∷ xs) = let rest = count_slots p xs in if holds p o then suc rest else rest

  abbrev pub any_entry : A → Bool
  any_entry a = true

module _ {ℓ} {A : Type ℓ} (p : A → Bool) where
  pub find_slot-holds : (xs : List (Option A)) (a : A) → find_slot p xs ≡ some a → p a ≡ true
  unfolding find_slot
  find_slot-holds [] a e = cc
  find_slot-holds (none ∷ xs) a e = find_slot-holds xs a e
  find_slot-holds (some b ∷ xs) a e = ground (arith, find_slot-holds xs a)

  pub find_slot-count : (xs : List (Option A)) → find_slot p xs ≡ none → count_slots p xs ≡ 0
  unfolding find_slot
  find_slot-count [] e = refl
  find_slot-count (none ∷ xs) e = find_slot-count xs e
  find_slot-count (some b ∷ xs) e = ground (arith, find_slot-count xs)

  pub count-find_slot : (xs : List (Option A)) → count_slots p xs ≡ 0 → find_slot p xs ≡ none
  unfolding find_slot
  count-find_slot [] e = refl
  count-find_slot (none ∷ xs) e = count-find_slot xs e
  count-find_slot (some b ∷ xs) e = ground (arith, count-find_slot xs)

  -- Filling a slot counts the new entry.
  pub count-fill_slot :
      (v : A) (xs ys : List (Option A))
      → fill_slot v xs ≡ some ys
      → count_slots p ys ≡ (if p v then suc (count_slots p xs) else count_slots p xs)
  unfolding fill_slot
  count-fill_slot v [] ys e = cc
  count-fill_slot v (none ∷ xs) ys e = ground arith
  count-fill_slot v (some b ∷ xs) ys e = elim (Option-cases (fill_slot v xs)) [
    | inl f ↦ ground (arith, f)
    | inr (zs, f) ↦ ground (arith, f, count-fill_slot v xs zs f)
  ]

  -- An entry that the table lacked is found once it is filled in, and the others as before.
  pub find-fill_slot :
      (v : A) (xs ys : List (Option A))
      → fill_slot v xs ≡ some ys
      → find_slot p xs ≡ none ⊎ (p v ≡ false)
      → find_slot p ys ≡ (if p v then some v else find_slot p xs)
  unfolding fill_slot find_slot
  find-fill_slot v [] ys e h = cc
  find-fill_slot v (none ∷ xs) ys e h = ground arith
  find-fill_slot v (some b ∷ xs) ys e h = elim (Option-cases (fill_slot v xs)) [
    | inl f ↦ ground (arith, f)
    | inr (zs, f) ↦ ground (arith, f, find-fill_slot v xs zs f)
  ]

  -- Clearing takes one entry out of the count.
  pub count-clear_slot :
      (xs : List (Option A)) → count_slots p (clear_slot p xs) ≡ count_slots p xs - 1
  unfolding clear_slot
  count-clear_slot [] = omega arith
  count-clear_slot (none ∷ xs) = count-clear_slot xs
  count-clear_slot (some b ∷ xs) = ground (arith, count-clear_slot xs)

module _ {ℓ} {A : Type ℓ} (p r : A → Bool) (apart : (a : A) → p a ≡ true → r a ≡ false) where
  -- Clearing one entry leaves what another test finds and counts.
  pub find-clear_slot_ne : (xs : List (Option A)) → find_slot r (clear_slot p xs) ≡ find_slot r xs
  unfolding find_slot clear_slot
  find-clear_slot_ne [] = refl
  find-clear_slot_ne (none ∷ xs) = find-clear_slot_ne xs
  find-clear_slot_ne (some b ∷ xs) = ground (arith, apart b, find-clear_slot_ne xs)

  pub count-clear_slot_ne :
      (xs : List (Option A)) → count_slots r (clear_slot p xs) ≡ count_slots r xs
  unfolding clear_slot
  count-clear_slot_ne [] = refl
  count-clear_slot_ne (none ∷ xs) = count-clear_slot_ne xs
  count-clear_slot_ne (some b ∷ xs) = ground (arith, apart b, count-clear_slot_ne xs)

module _ {ℓ} {A : Type ℓ} (p r : A → Bool) where
  -- No count grows when a slot is cleared.
  pub count-clear_slot_le :
      (xs : List (Option A)) → count_slots r (clear_slot p xs) ≤ count_slots r xs
  unfolding clear_slot
  count-clear_slot_le [] = omega arith
  count-clear_slot_le (none ∷ xs) = count-clear_slot_le xs
  count-clear_slot_le (some b ∷ xs) = ground (arith, count-clear_slot_le xs)

module _ {ℓ} {A : Type ℓ} where
  abbrev pub weight : (A → Bool) → Option A → ℕ
  weight p o = if holds p o then 1 else 0

  -- A write to a slot exchanges the weights of the old and the new entry.
  pub count-set :
      (p : A → Bool) (xs : List (Option A)) (i : ℕ) (o : Option A)
      → i < length xs
      → count_slots p (set xs i o) + weight p (get_or xs i none) ≡ count_slots p xs + weight p o
  count-set p [] i o h = absurd (omega arith)
  count-set p (x ∷ xs) zero o h = ground arith
  count-set p (x ∷ xs) (suc i) o h = ground (arith, count-set p xs i o)

  pub count-le-length : (p : A → Bool) (xs : List (Option A)) → count_slots p xs ≤ length xs
  count-le-length p [] = omega arith
  count-le-length p (x ∷ xs) = ground (arith, count-le-length p xs)

  -- A slot that fails the test leaves room in the count.
  pub count-lt_length :
      (p : A → Bool) (xs : List (Option A)) (i : ℕ)
      → i < length xs
      → holds p (get_or xs i none) ≡ false
      → count_slots p xs < length xs
  count-lt_length p [] i h e = absurd (omega arith)
  count-lt_length p (x ∷ xs) zero h e = ground (arith, count-le-length p xs)
  count-lt_length p (x ∷ xs) (suc i) h e = ground (arith, count-lt_length p xs i)

  -- A table with fewer entries than slots takes one more, and keeps its length.
  pub fill_slot-some :
      (v : A) (xs : List (Option A))
      → count_slots any_entry xs < length xs
      → (ys : List (Option A)) × (fill_slot v xs ≡ some ys) × (length ys ≡ length xs)
  unfolding fill_slot
  fill_slot-some v [] h = absurd (omega arith)
  fill_slot-some v (none ∷ xs) h = (some v ∷ xs, refl, refl)
  fill_slot-some v (some a ∷ xs) h =
      let (ys, e, l) = fill_slot-some v xs (omega arith) in (some a ∷ ys, rw e refl, ap suc l)

  pub length-clear_slot :
      (p : A → Bool) (xs : List (Option A)) → length (clear_slot p xs) ≡ length xs
  unfolding clear_slot
  length-clear_slot p [] = refl
  length-clear_slot p (x ∷ xs) = ground (arith, length-clear_slot p xs)

module _ {ℓ} {A : Type ℓ} (p : A → Bool) (f : A → A) where
  pub length-update_slot : (xs : List (Option A)) → length (update_slot p f xs) ≡ length xs
  unfolding update_slot
  length-update_slot [] = refl
  length-update_slot (none ∷ xs) = ap suc (length-update_slot xs)
  length-update_slot (some a ∷ xs) = ground (arith, length-update_slot xs)

  -- An update that keeps the test is found by it.
  pub find-update_slot :
      (xs : List (Option A)) (a : A)
      → find_slot p xs ≡ some a
      → p (f a) ≡ true
      → find_slot p (update_slot p f xs) ≡ some (f a)
  unfolding find_slot update_slot
  find-update_slot [] a e k = cc
  find-update_slot (none ∷ xs) a e k = find-update_slot xs a e k
  find-update_slot (some b ∷ xs) a e k = ground (arith, find-update_slot xs a)

  module _ (r : A → Bool) where
    -- An update exchanges the weights of the entry before and after.
    pub count-update_slot :
        (xs : List (Option A)) (a : A)
        → find_slot p xs ≡ some a
        → count_slots r (update_slot p f xs) + weight r (some a)
          ≡ count_slots r xs + weight r (some (f a))
    unfolding find_slot update_slot
    count-update_slot [] a e = cc
    count-update_slot (none ∷ xs) a e = count-update_slot xs a e
    count-update_slot (some b ∷ xs) a e = ground (arith, count-update_slot xs a)

    -- A test that the updated entry fails before and after finds what it found.
    pub find-update_slot_ne :
        ((a : A) → p a ≡ true → r a ≡ false)
        → ((a : A) → p a ≡ true → r (f a) ≡ false)
        → (xs : List (Option A)) → find_slot r (update_slot p f xs) ≡ find_slot r xs
    unfolding find_slot update_slot
    find-update_slot_ne g h [] = refl
    find-update_slot_ne g h (none ∷ xs) = find-update_slot_ne g h xs
    find-update_slot_ne g h (some b ∷ xs) = ground (arith, g b, h b, find-update_slot_ne g h xs)

-- Lists of bytes compared.
unfoldable pub bytes_eq : List ℕ → List ℕ → Bool
bytes_eq [] [] = true
bytes_eq [] (y ∷ ys) = false
bytes_eq (x ∷ xs) [] = false
bytes_eq (x ∷ xs) (y ∷ ys) = if x == y then bytes_eq xs ys else false

pub bytes_eq_refl : (xs : List ℕ) → bytes_eq xs xs ≡ true
unfolding bytes_eq
bytes_eq_refl [] = refl
bytes_eq_refl (x ∷ xs) = ground (arith, bytes_eq_refl xs)

pub bytes_eq→eq : (xs ys : List ℕ) → bytes_eq xs ys ≡ true → xs ≡ ys
unfolding bytes_eq
bytes_eq→eq [] [] e = refl
bytes_eq→eq [] (y ∷ ys) e = cc
bytes_eq→eq (x ∷ xs) [] e = cc
bytes_eq→eq (x ∷ xs) (y ∷ ys) e = ground (arith, bytes_eq→eq xs ys)
