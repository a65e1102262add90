-- ===== src/Consult/Generate/Order.antt =====
-- A manifest does not depend on the order in which the references come.
use mathlib.Core.List.{Perm, filter_map}
use mathlib.Core.List.Perm
use pancakes_harness.Prelude.{
  ◌≡◌, refl, ap, Option, none, some, List, [], ◌∷◌, if◌then◌else◌, Bool-cases, inl, inr,
}
use pancakes_harness.Bytes.{Str, trim_space}
use pancakes_harness.Sort.Unique.{sort_strings_unique}
use pancakes_harness.Consult.{Manifest}
use pancakes_harness.Consult.Generate.{Input, is_blank, trim_refs, normalize_refs, draft, generate}

trimmed? : Str → Option Str
trimmed? r = if is_blank r then none else some (trim_space r)

trim_refs-filter_map : (rs : List Str) → trim_refs rs ≡ filter_map trimmed? rs
unfolding trim_refs trimmed? filter_map
trim_refs-filter_map [] = refl
trim_refs-filter_map (r ∷ rs) = elim (Bool-cases (is_blank r)) [
  | inl blank ↦ rw blank (trim_refs-filter_map rs)
  | inr filled ↦ rw filled (ap (λ xs. trim_space r ∷ xs) (trim_refs-filter_map rs))
]

trim_refs-Perm : (rs rs' : List Str) → Perm rs rs' → Perm (trim_refs rs) (trim_refs rs')
trim_refs-Perm rs rs' p =
    rw (trim_refs-filter_map rs, trim_refs-filter_map rs') (Perm.filter_map trimmed? p)

normalize_refs_perm : (rs rs' : List Str) → Perm rs rs' → normalize_refs rs ≡ normalize_refs rs'
unfolding normalize_refs
normalize_refs_perm rs rs' p = sort_strings_unique _ _ (trim_refs-Perm rs rs' p)

-- `Generate` gives the same manifest, or the same error, for every order of the references.
generate_perm :
    (encode : Manifest → Str) (i : Input) (refs : List Str)
    → Perm i.refs refs
    → generate encode (record i { refs = refs }) ≡ generate encode i
unfolding generate draft
generate_perm encode i refs p = rw (normalize_refs_perm i.refs refs p)
