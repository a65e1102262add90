-- ===== src/Sort.antt =====
-- `sort.Slice` and `sort.Strings` as an insertion sort by a Boolean `less`. Go's sort is not
-- stable; entries that `less` does not tell apart keep their order here.
pub mod Laws
pub mod Unique
use pancakes_harness.Prelude.{Bool, List, [], ◌∷◌, if◌then◌else◌}
use pancakes_harness.Bytes.{Str, lt_str}

module _ {ℓ} {A : Type ℓ} (less : A → A → Bool) where
  unfoldable pub insert_sorted : A → List A → List A
  insert_sorted x [] = x ∷ []
  insert_sorted x (y ∷ ys) =
      let rest = insert_sorted x ys in if less y x then y ∷ rest else x ∷ y ∷ ys

  unfoldable pub sort_by : List A → List A
  unfolding insert_sorted
  sort_by [] = []
  sort_by (x ∷ xs) = insert_sorted x (sort_by xs)

unfoldable pub sort_strings : List Str → List Str
unfolding sort_by lt_str
sort_strings = sort_by lt_str
