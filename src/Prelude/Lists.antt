-- ===== src/Prelude/Lists.antt =====
-- Lists measured by native numbers, and filtering by a Boolean test.
use Prim.Native.Nat.{ℕ, zero, suc, ◌+◌, ◌≤◌}
use mathlib.Core.Path.{◌≡◌, refl, ◌∙◌}
use mathlib.Core.Bool.{Bool}
use mathlib.Core.List.{List, [], ◌∷◌, ◌++◌}
use mathlib.Core.Option.{Option, none, some}
use native.Mathlib.Omega.{arith}
use pancakes_harness.Prelude.Tests.{if◌then◌else◌, nat_eq}

module _ {ℓ} {A : Type ℓ} where
  abbrev pub length : List A → ℕ
  length [] = 0
  length (x ∷ xs) = suc (length xs)

  -- `l[:n]`
  unfoldable pub take : ℕ → List A → List A
  take (suc n) (x ∷ xs) = x ∷ take n xs
  take _ _ = []

  -- `l[n:]`
  unfoldable pub drop : ℕ → List A → List A
  drop (suc n) (x ∷ xs) = drop n xs
  drop _ l = l

  pub length-append : (xs ys : List A) → length (xs ++ ys) ≡ length xs + length ys
  length-append [] ys = omega arith
  length-append (x ∷ xs) ys = omega (arith, length-append xs ys)

  pub length-take_le : (n : ℕ) (l : List A) → length (take n l) ≤ n
  unfolding take
  length-take_le (suc n) (x ∷ xs) = omega (arith, length-take_le n xs)
  length-take_le _ _ = omega arith

  pub length-drop_le : (n : ℕ) (l : List A) → length (drop n l) ≤ length l
  unfolding drop
  length-drop_le (suc n) (x ∷ xs) = omega (arith, length-drop_le n xs)
  length-drop_le _ _ = omega arith

  -- the entries that pass a Boolean test, in order
  unfoldable pub keep : (A → Bool) → List A → List A
  keep p [] = []
  keep p (x ∷ xs) = let rest = keep p xs in if p x then x ∷ rest else rest

  -- every entry satisfies `P`
  abbrev pub All {κ} : (A → Type κ) → List A → Type κ
  All P [] = Unit
  All P (x ∷ xs) = P x × All P xs

  unfoldable pub get_elem? : List A → ℕ → Option A
  get_elem? [] i = none
  get_elem? (x ∷ xs) zero = some x
  get_elem? (x ∷ xs) (suc i) = get_elem? xs i

  -- A write out of bounds changes nothing.
  unfoldable pub set : List A → ℕ → A → List A
  set [] i v = []
  set (x ∷ xs) zero v = v ∷ xs
  set (x ∷ xs) (suc i) v = x ∷ set xs i v

  pub get_elem?-set :
      (xs : List A) (i j : ℕ) (v w : A)
      → get_elem? xs i ≡ some w
      → get_elem? (set xs i v) j ≡ (if nat_eq i j then some v else get_elem? xs j)
  unfolding get_elem? set
  get_elem?-set [] i j v w h = cc
  get_elem?-set (x ∷ xs) zero zero v w h = refl
  get_elem?-set (x ∷ xs) zero (suc j) v w h = ground arith
  get_elem?-set (x ∷ xs) (suc i) zero v w h = ground arith
  get_elem?-set (x ∷ xs) (suc i) (suc j) v w h = get_elem?-set xs i j v w h ∙ ground arith

  pub get_elem?-append :
      (xs : List A) (x : A) (j : ℕ)
      → get_elem? (xs ++ x ∷ []) j ≡ (if nat_eq j (length xs) then some x else get_elem? xs j)
  unfolding get_elem?
  get_elem?-append [] x zero = refl
  get_elem?-append [] x (suc j) = ground arith
  get_elem?-append (y ∷ xs) x zero = ground arith
  get_elem?-append (y ∷ xs) x (suc j) = get_elem?-append xs x j ∙ ground arith

  pub get_elem?-length : (xs : List A) → get_elem? xs (length xs) ≡ none
  unfolding get_elem?
  get_elem?-length [] = refl
  get_elem?-length (x ∷ xs) = get_elem?-length xs
