-- ===== src/Replay/Consults/Meta.antt =====
-- The meta that `EventSummary.Meta` writes and what `ListConsultEvents` reads of it.
use pancakes_harness.Prelude.{
  ◌≡◌, refl, sym, ap, Bool, true, false, ◌||◌, not, Option, none, some, List, [], ◌∷◌, arith, All,
  Bool-cases, inl, inr,
}
use pancakes_harness.Prelude.Int.{ℤ}
use pancakes_harness.Bytes.{Str, codes, ◌==◌, eq_iff, eq_self}
use pancakes_harness.Eventlog.Event.{Fields, end, get_field}
use pancakes_harness.Consult.{SelectionItem, ReasonCount, SelectionExplanation}
use pancakes_harness.Consult.Meta.{
  put_text, item_meta, items_meta, put_items, reason_meta, selection_reason_meta, put_reasons,
  put_pressure,
}
use pancakes_harness.Replay.Graph.{read_meta_string}
use pancakes_harness.Replay.Consults.{
  positive, int_in, read_meta_int, selection_item_from_meta, reason_count_from_meta, from_objects,
  read_list, read_selection_items, read_reason_counts,
}

-- an item that is read back
unfoldable pub readable_item : SelectionItem → Bool
unfolding ◌==◌
readable_item i = not (i.id == codes "" || i.kind == codes "" || i.reason == codes "")

unfoldable pub readable_reason : ReasonCount → Bool
unfolding ◌==◌ positive
readable_reason r = not (r.reason == codes "" || not (positive r.count))

-- A field that is left out when empty: another key is read past it, its own key reads the text.
pub get_field-put_text :
    (k j s : Str) (m : Fields) → (j == k) ≡ false → get_field k (put_text j s m) ≡ get_field k m
unfolding put_text get_field
get_field-put_text k j s m apart = ground arith

pub read_meta_string-put_text :
    (k s : Str) (m : Fields) → get_field k m ≡ none → read_meta_string (put_text k s m) k ≡ s
unfolding put_text get_field read_meta_string
read_meta_string-put_text k s m missing = elim (Bool-cases (s == codes "")) [
  | inl e ↦ rw (e, missing) (sym ((eq_iff s (codes "")).0 e))
  | inr e ↦ rw (e, eq_self k) refl
]

item_from_meta_lem :
    (atoi : Str → Option ℤ) (i : SelectionItem)
    → readable_item i ≡ true
    → selection_item_from_meta atoi (item_meta i) ≡ some i
unfolding selection_item_from_meta readable_item item_meta read_meta_string get_field ◌==◌
item_from_meta_lem atoi i good =
    let named : (i.id == codes "" || i.kind == codes "" || i.reason == codes "") ≡ false =
      ground arith in
    rw named (
      ap (λ c. some (record { id = i.id; kind = i.kind; reason = i.reason; class = c }))
        (read_meta_string-put_text (codes "class") i.class end refl))

reason_from_meta_lem :
    (atoi : Str → Option ℤ) (r : ReasonCount)
    → readable_reason r ≡ true
    → reason_count_from_meta atoi (reason_meta r) ≡ some r
unfolding reason_count_from_meta readable_reason reason_meta read_meta_string read_meta_int
    get_field int_in ◌==◌
reason_from_meta_lem atoi r good =
    let counted : (r.reason == codes "" || not (positive r.count)) ≡ false = ground arith in
    rw counted refl

-- every item has an id, a kind and a reason, and every count has a reason and is positive
unfoldable pub IsReadable : SelectionExplanation → Type 0
IsReadable s =
    All (λ i. readable_item i ≡ true) s.included
    × All (λ i. readable_item i ≡ true) s.excluded
    × All (λ r. readable_reason r ≡ true) s.dominant_inclusion_reasons
    × All (λ r. readable_reason r ≡ true) s.dominant_exclusion_reasons

module _ (atoi : Str → Option ℤ) where
  from_items_meta :
      (is : List SelectionItem)
      → All (λ i. readable_item i ≡ true) is
      → from_objects (selection_item_from_meta atoi) (items_meta is) ≡ is
  unfolding from_objects items_meta
  from_items_meta [] good = refl
  from_items_meta (i ∷ is) (g, gs) = rw (item_from_meta_lem atoi i g, from_items_meta is gs) refl

  from_reasons_meta :
      (rs : List ReasonCount)
      → All (λ r. readable_reason r ≡ true) rs
      → from_objects (reason_count_from_meta atoi) (selection_reason_meta rs) ≡ rs
  unfolding from_objects selection_reason_meta
  from_reasons_meta [] good = refl
  from_reasons_meta (r ∷ rs) (g, gs) =
      rw (reason_from_meta_lem atoi r g, from_reasons_meta rs gs) refl

  -- A list under its own key is read back, and past it another key.
  pub read_items-put :
      (k : Str) (is : List SelectionItem) (m : Fields)
      → get_field k m ≡ none
      → All (λ i. readable_item i ≡ true) is
      → read_selection_items atoi (put_items k is m) k ≡ is
  unfolding read_selection_items put_items get_field read_list
  read_items-put k [] m missing good = rw missing refl
  read_items-put k (i ∷ is) m missing good = rw (eq_self k) (from_items_meta (i ∷ is) good)

  pub read_reasons-put :
      (k : Str) (rs : List ReasonCount) (m : Fields)
      → get_field k m ≡ none
      → All (λ r. readable_reason r ≡ true) rs
      → read_reason_counts atoi (put_reasons k rs m) k ≡ rs
  unfolding read_reason_counts put_reasons get_field read_list
  read_reasons-put k [] m missing good = rw missing refl
  read_reasons-put k (r ∷ rs) m missing good = rw (eq_self k) (from_reasons_meta (r ∷ rs) good)

pub get_field-put_items :
    (k j : Str) (is : List SelectionItem) (m : Fields)
    → (j == k) ≡ false
    → get_field k (put_items j is m) ≡ get_field k m
unfolding put_items get_field
get_field-put_items k j [] m apart = refl
get_field-put_items k j (i ∷ is) m apart = rw apart refl

pub get_field-put_reasons :
    (k j : Str) (rs : List ReasonCount) (m : Fields)
    → (j == k) ≡ false
    → get_field k (put_reasons j rs m) ≡ get_field k m
unfolding put_reasons get_field
get_field-put_reasons k j [] m apart = refl
get_field-put_reasons k j (r ∷ rs) m apart = rw apart refl

pub get_field-put_pressure :
    (k : Str) (b : Bool) (m : Fields)
    → (codes "budget_pressure" == k) ≡ false
    → get_field k (put_pressure b m) ≡ get_field k m
unfolding put_pressure get_field
get_field-put_pressure k b m apart = ground arith
