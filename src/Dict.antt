-- ===== src/Dict.antt =====
-- Go maps with string keys as association lists: a write replaces the entry of its key or adds
-- one, and a read of a missing key is `none`. No operation here depends on the order of entries.
use pancakes_harness.Prelude.{◌≡◌, refl, Option, none, some, List, [], ◌∷◌, arith, if◌then◌else◌}
use pancakes_harness.Bytes.{Str, ◌==◌, eq_iff, eq_self}

abbrev pub Dict {ℓ} : Type ℓ → Type ℓ
Dict V = List (Str × V)

module _ {ℓ} {V : Type ℓ} where
  -- `v, ok := m[k]`
  unfoldable pub lookup : Str → Dict V → Option V
  lookup k [] = none
  lookup k ((j, v) ∷ m) = if j == k then some v else lookup k m

  -- `m[k] = v`
  unfoldable pub insert : Str → V → Dict V → Dict V
  insert k v [] = (k, v) ∷ []
  insert k v ((j, w) ∷ m) = let rest = insert k v m in if j == k then (k, v) ∷ m else (j, w) ∷ rest

  -- `delete(m, k)`; the keys of a map are different
  unfoldable pub delete : Str → Dict V → Dict V
  delete k [] = []
  delete k ((j, v) ∷ m) = let rest = delete k m in if j == k then rest else (j, v) ∷ rest

  -- `for k := range m`
  unfoldable pub keys : Dict V → List Str
  keys [] = []
  keys ((k, v) ∷ m) = k ∷ keys m

  pub lookup-insert :
      (written asked : Str) (value : V) (dict : Dict V)
      → lookup asked (insert written value dict)
        ≡ (if written == asked then some value else lookup asked dict)
  unfolding lookup insert
  lookup-insert written asked value [] = refl
  lookup-insert written asked value ((key, old) ∷ rest) = ground (
    arith,
    eq_iff key asked,
    eq_iff key written,
    eq_iff written asked,
    lookup-insert written asked value rest,
  )

  pub lookup-insert_self : (k : Str) (v : V) (m : Dict V) → lookup k (insert k v m) ≡ some v
  lookup-insert_self k v m = rw (lookup-insert k k v m, eq_self k)

  pub lookup-delete :
      (k j : Str) (m : Dict V) → lookup j (delete k m) ≡ (if k == j then none else lookup j m)
  unfolding lookup delete
  lookup-delete k j [] = ground arith
  lookup-delete k j ((i, w) ∷ m) =
      ground (arith, eq_iff k j, eq_iff i k, eq_iff i j, lookup-delete k j m)
