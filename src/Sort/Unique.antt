-- ===== src/Sort/Unique.antt =====
-- A sort by a total order depends on the entries alone, not on the order in which they come.
use mathlib.Core.List.{Perm, foldr}
use mathlib.Core.List.Perm
use pancakes_harness.Prelude.{
  ◌≡◌, refl, sym, ◌∙◌, ap, Bool, true, false, List, [], ◌∷◌, arith, if◌then◌else◌, Bool-cases, inl,
  inr,
}
use pancakes_harness.Bytes.{Str, lt_str}
use pancakes_harness.Sort.{insert_sorted, sort_by, sort_strings}

-- A strict total order as a test.
pub record IsOrder {ℓ} {A : Type ℓ} (less : A → A → Bool) : Type ℓ where
  pub asym : (x y : A) → less x y ≡ true → less y x ≡ false
  pub connected : (x y : A) → less x y ≡ false → less y x ≡ false → x ≡ y
  pub compared : (x y z : A) → less x z ≡ true → less x y ≡ false → less y z ≡ true

module _ {ℓ} {A : Type ℓ} (less : A → A → Bool) (order : IsOrder less) where
  swap_heads :
      (x y : A) (zs : List A)
      → (if less y x then y ∷ x ∷ zs else x ∷ y ∷ zs)
        ≡ (if less x y then x ∷ y ∷ zs else y ∷ x ∷ zs)
  swap_heads x y zs = elim (Bool-cases (less y x)) [
    | inl yx ↦ rw (yx, order.asym y x yx)
    | inr yx ↦ elim (Bool-cases (less x y)) [
      | inl xy ↦ rw (yx, xy)
      | inr xy ↦ rw (yx, xy, order.connected x y xy yx)
    ]
  ]

  insert_sorted_comm :
      (x y : A) (zs : List A)
      → insert_sorted less x (insert_sorted less y zs)
        ≡ insert_sorted less y (insert_sorted less x zs)
  unfolding insert_sorted
  insert_sorted_comm x y [] = swap_heads x y []
  insert_sorted_comm x y (z ∷ zs) = elim (Bool-cases (less z x)) [
    | inl zx ↦ elim (Bool-cases (less z y)) [
      | inl zy ↦ rw (zx, zy, zx, insert_sorted_comm x y zs)
      | inr zy ↦ rw (zx, zy, order.compared z y x zx zy, zx)
    ]
    | inr zx ↦ elim (Bool-cases (less z y)) [
      | inl zy ↦ rw (zx, zy, order.compared z x y zy zx, zx)
      | inr zy ↦ rw (zy, zx, zy) (swap_heads x y (z ∷ zs))
    ]
  ]

  sort_by-foldr : (xs : List A) → sort_by less xs ≡ foldr (insert_sorted less) [] xs
  unfolding sort_by
  sort_by-foldr [] = refl
  sort_by-foldr (x ∷ xs) = ap (insert_sorted less x) (sort_by-foldr xs)

  -- Lists of the same entries are sorted to the same list.
  pub sort_by_unique :
      IsSet (List A) → (xs ys : List A) → Perm xs ys → sort_by less xs ≡ sort_by less ys
  sort_by_unique set xs ys p =
      sort_by-foldr xs
      ∙ Perm.foldr-eq set (insert_sorted less) insert_sorted_comm p []
      ∙ sym (sort_by-foldr ys)

lt_str-asym : (x y : Str) → lt_str x y ≡ true → lt_str y x ≡ false
unfolding lt_str
lt_str-asym [] [] h = refl
lt_str-asym [] (b ∷ y) h = refl
lt_str-asym (a ∷ x) [] h = ground arith
lt_str-asym (a ∷ x) (b ∷ y) h = ground (arith, lt_str-asym x y)

lt_str-connected : (x y : Str) → lt_str x y ≡ false → lt_str y x ≡ false → x ≡ y
unfolding lt_str
lt_str-connected [] [] h k = refl
lt_str-connected [] (b ∷ y) h k = ground arith
lt_str-connected (a ∷ x) [] h k = ground arith
lt_str-connected (a ∷ x) (b ∷ y) h k = ground (arith, lt_str-connected x y)

lt_str-compared : (x y z : Str) → lt_str x z ≡ true → lt_str x y ≡ false → lt_str y z ≡ true
unfolding lt_str
lt_str-compared x [] [] h k = ground arith
lt_str-compared x [] (c ∷ z) h k = refl
lt_str-compared [] (b ∷ y) z h k = ground arith
lt_str-compared (a ∷ x) (b ∷ y) [] h k = ground arith
lt_str-compared (a ∷ x) (b ∷ y) (c ∷ z) h k = ground (arith, lt_str-compared x y z)

pub strings : IsOrder lt_str
strings = record { asym = lt_str-asym; connected = lt_str-connected; compared = lt_str-compared }

-- `sort.Strings` gives the same list for every order of its input.
pub sort_strings_unique : (xs ys : List Str) → Perm xs ys → sort_strings xs ≡ sort_strings ys
unfolding sort_strings
sort_strings_unique = sort_by_unique lt_str strings hlevel
