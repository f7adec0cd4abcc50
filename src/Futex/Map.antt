-- ===== src/Futex/Map.antt =====
-- A map from addresses as a list of keys and values, and what a look-up finds after a change.
use oscortex.Base.{
  ℕ, ◌≡◌, refl, ap, ◌∙◌, false, Option, none, some, List, [], ◌∷◌, if◌then◌else◌, ◌==◌, ==→eq,
  Bool-cases, inl, inr, arith,
}

abbrev pub AddrMap {ℓ} : Type ℓ → Type ℓ
AddrMap V = List (ℕ × V)

module _ {ℓ} {V : Type ℓ} where
  unfoldable pub get : ℕ → AddrMap V → Option V
  get k [] = none
  get k ((a, v) ∷ t) = let rest = get k t in if a == k then some v else rest

  unfoldable pub put : ℕ → V → AddrMap V → AddrMap V
  put k v [] = (k, v) ∷ []
  put k v ((a, w) ∷ t) = let rest = put k v t in if a == k then (a, v) ∷ t else (a, w) ∷ rest

  unfoldable pub remove : ℕ → AddrMap V → AddrMap V
  remove k [] = []
  remove k ((a, w) ∷ t) = let rest = remove k t in if a == k then rest else (a, w) ∷ rest

  pub get-put :
      (k j : ℕ) (v : V) (t : AddrMap V) → get j (put k v t) ≡ (if k == j then some v else get j t)
  unfolding get put
  get-put k j v [] = refl
  get-put k j v ((a, w) ∷ t) = elim (Bool-cases (a == k)) [
    | inl e ↦
        (let q : (a == j) ≡ (k == j) = ap (λ (x : ℕ). x == j) (==→eq a k e) in
          elim (Bool-cases (k == j)) [
            | inl h ↦ rw (put, get, e, q, h) refl
            | inr h ↦ rw (put, get, e, q, h) refl
          ])
    | inr e ↦ elim (Bool-cases (a == j)) [
      | inl h ↦ (let q : (k == j) ≡ false = ground (arith, e, h) in rw (put, get, e, h, q) refl)
      | inr h ↦ rw (put, get, e, h) (get-put k j v t)
    ]
  ]

  pub get-remove :
      (k j : ℕ) (t : AddrMap V) → get j (remove k t) ≡ (if k == j then none else get j t)
  unfolding get remove
  get-remove k j [] = elim (Bool-cases (k == j)) [ inl h ↦ rw h refl | inr h ↦ rw h refl ]
  get-remove k j ((a, w) ∷ t) = elim (Bool-cases (a == k)) [
    | inl e ↦
        (let q : (a == j) ≡ (k == j) = ap (λ (x : ℕ). x == j) (==→eq a k e) in
          let r = get-remove k j t in
          elim (Bool-cases (k == j)) [
            | inl h ↦ rw (remove, get, e, h) (r ∙ rw h refl)
            | inr h ↦ rw (remove, get, e, q, h) (r ∙ rw h refl)
          ])
    | inr e ↦ elim (Bool-cases (a == j)) [
      | inl h ↦ (let q : (k == j) ≡ false = ground (arith, e, h) in rw (remove, get, e, h, q) refl)
      | inr h ↦ rw (remove, get, e, h) (get-remove k j t)
    ]
  ]
