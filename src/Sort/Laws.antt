-- ===== src/Sort/Laws.antt =====
-- The sort permutes its input, and orders it when `less` is a strict total order up to ties.
use mathlib.Core.List.{Perm}
use mathlib.Core.List.Perm
use pancakes_harness.Prelude.{◌≡◌, Bool, true, false, List, [], ◌∷◌, Bool-cases, inl, inr}
use pancakes_harness.Sort.{insert_sorted, sort_by}

module _ {ℓ} {A : Type ℓ} (less : A → A → Bool) where
  insert_sorted-perm : (x : A) (xs : List A) → Perm (insert_sorted less x xs) (x ∷ xs)
  unfolding insert_sorted
  insert_sorted-perm x [] = Perm.refl (x ∷ [])
  insert_sorted-perm x (y ∷ ys) = elim (Bool-cases (less y x)) [
    | inl first ↦ rw first (Perm.trans (Perm.cons y (insert_sorted-perm x ys)) (Perm.swap x y ys))
    | inr after ↦ rw after (Perm.refl (x ∷ y ∷ ys))
  ]

  pub sort_by-perm : (xs : List A) → Perm (sort_by less xs) xs
  unfolding sort_by
  sort_by-perm [] = Perm.refl []
  sort_by-perm (x ∷ xs) =
      Perm.trans (insert_sorted-perm x (sort_by less xs)) (Perm.cons x (sort_by-perm xs))

  -- No neighbours stand in the wrong order.
  abbrev pub Ordered : List A → Type 0
  Ordered [] = Unit
  Ordered (x ∷ []) = Unit
  Ordered (x ∷ y ∷ xs) = (less y x ≡ false) × Ordered (y ∷ xs)

  module _ (asym : (x y : A) → less x y ≡ true → less y x ≡ false) where
    insert_sorted-Ordered : (x : A) (xs : List A) → Ordered xs → Ordered (insert_sorted less x xs)
    unfolding insert_sorted
    insert_sorted-Ordered x [] h = tt
    insert_sorted-Ordered x (y ∷ []) h = elim (Bool-cases (less y x)) [
      | inl first ↦ rw first (asym y x first, tt)
      | inr after ↦ rw after (after, tt)
    ]
    insert_sorted-Ordered x (y ∷ z ∷ ys) (yz, h) = elim (Bool-cases (less y x)) [
      | inr after ↦ rw after (after, (yz, h))
      | inl first ↦ rw first (elim (Bool-cases (less z x)) [
        | inl second ↦ rw second (yz, rw second at (insert_sorted-Ordered x (z ∷ ys) h))
        | inr stop ↦ rw stop (asym y x first, (stop, h))
      ])
    ]

    -- The result is in order, whatever the input.
    pub sort_by-Ordered : (xs : List A) → Ordered (sort_by less xs)
    unfolding sort_by
    sort_by-Ordered [] = tt
    sort_by-Ordered (x ∷ xs) = insert_sorted-Ordered x (sort_by less xs) (sort_by-Ordered xs)
