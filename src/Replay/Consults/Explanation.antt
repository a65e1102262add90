-- ===== src/Replay/Consults/Explanation.antt =====
-- An explanation's meta is read back as the explanation.
use pancakes_harness.Prelude.{◌≡◌, refl, ap, ◌∙◌, Bool, true, false, Option, none, All}
use pancakes_harness.Prelude.Int.{ℤ}
use pancakes_harness.Bytes.{Str, codes, ◌==◌}
use pancakes_harness.Eventlog.Event.{Fields, end, get_field}
use pancakes_harness.Consult.{SelectionExplanation}
use pancakes_harness.Consult.Meta.{put_items, put_reasons, put_pressure, selection_meta}
use pancakes_harness.Replay.Consults.{
  flag_in, selection_item_from_meta, reason_count_from_meta, read_list, read_selection_items,
  read_reason_counts, read_explanation,
}
use pancakes_harness.Replay.Consults.Meta.{
  readable_item, readable_reason, IsReadable, read_items-put, read_reasons-put, get_field-put_items,
  get_field-put_reasons, get_field-put_pressure,
}

read_pressure-put :
    (b : Bool) → flag_in (get_field (codes "budget_pressure") (put_pressure b end)) ≡ b
unfolding flag_in put_pressure get_field ◌==◌
read_pressure-put true = refl
read_pressure-put false = refl

module _ (atoi : Str → Option ℤ) (s : SelectionExplanation) where
  -- what follows each list in the meta of `s`
  abbrev last_part : Fields
  last_part = put_pressure s.budget_pressure end

  abbrev excluding_part : Fields
  excluding_part =
      put_reasons (codes "dominant_exclusion_reasons") s.dominant_exclusion_reasons last_part

  abbrev including_part : Fields
  including_part =
      put_reasons (codes "dominant_inclusion_reasons") s.dominant_inclusion_reasons excluding_part

  abbrev excluded_part : Fields
  excluded_part = put_items (codes "excluded") s.excluded including_part

  including_clear :
      (k : Str)
      → (codes "budget_pressure" == k) ≡ false
      → (codes "dominant_exclusion_reasons" == k) ≡ false
      → (codes "dominant_inclusion_reasons" == k) ≡ false
      → get_field k including_part ≡ none
  unfolding get_field
  including_clear k p x n =
      get_field-put_reasons k _ s.dominant_inclusion_reasons excluding_part n
      ∙ get_field-put_reasons k _ s.dominant_exclusion_reasons last_part x
      ∙ get_field-put_pressure k s.budget_pressure end p

  excluding_clear :
      (k : Str)
      → (codes "budget_pressure" == k) ≡ false
      → (codes "dominant_exclusion_reasons" == k) ≡ false
      → get_field k excluding_part ≡ none
  unfolding get_field
  excluding_clear k p x =
      get_field-put_reasons k _ s.dominant_exclusion_reasons last_part x
      ∙ get_field-put_pressure k s.budget_pressure end p

  past_items :
      (k : Str)
      → (codes "included" == k) ≡ false
      → (codes "excluded" == k) ≡ false
      → get_field k (selection_meta s) ≡ get_field k including_part
  unfolding selection_meta
  past_items k i e =
      get_field-put_items k _ s.included excluded_part i
      ∙ get_field-put_items k _ s.excluded including_part e

  read_excluding :
      All (λ r. readable_reason r ≡ true) s.dominant_exclusion_reasons
      → read_reason_counts atoi (selection_meta s) (codes "dominant_exclusion_reasons")
        ≡ s.dominant_exclusion_reasons
  unfolding read_reason_counts get_field ◌==◌
  read_excluding good =
      ap (read_list (reason_count_from_meta atoi)) (
        past_items (codes "dominant_exclusion_reasons") refl refl
        ∙ get_field-put_reasons (codes "dominant_exclusion_reasons") _ s.dominant_inclusion_reasons
            excluding_part refl)
      ∙ read_reasons-put atoi (codes "dominant_exclusion_reasons") s.dominant_exclusion_reasons
          last_part
          (get_field-put_pressure (codes "dominant_exclusion_reasons") s.budget_pressure end refl)
          good

  read_including :
      All (λ r. readable_reason r ≡ true) s.dominant_inclusion_reasons
      → read_reason_counts atoi (selection_meta s) (codes "dominant_inclusion_reasons")
        ≡ s.dominant_inclusion_reasons
  unfolding read_reason_counts ◌==◌
  read_including good =
      ap (read_list (reason_count_from_meta atoi))
        (past_items (codes "dominant_inclusion_reasons") refl refl)
      ∙ read_reasons-put atoi (codes "dominant_inclusion_reasons") s.dominant_inclusion_reasons
          excluding_part (excluding_clear (codes "dominant_inclusion_reasons") refl refl) good

  read_excluded :
      All (λ i. readable_item i ≡ true) s.excluded
      → read_selection_items atoi (selection_meta s) (codes "excluded") ≡ s.excluded
  unfolding read_selection_items selection_meta ◌==◌
  read_excluded good =
      ap (read_list (selection_item_from_meta atoi))
        (get_field-put_items (codes "excluded") _ s.included excluded_part refl)
      ∙ read_items-put atoi (codes "excluded") s.excluded including_part
          (including_clear (codes "excluded") refl refl refl) good

  read_included :
      All (λ i. readable_item i ≡ true) s.included
      → read_selection_items atoi (selection_meta s) (codes "included") ≡ s.included
  unfolding read_selection_items selection_meta ◌==◌
  read_included good =
      read_items-put atoi (codes "included") s.included excluded_part
        (get_field-put_items (codes "included") _ s.excluded including_part refl
          ∙ including_clear (codes "included") refl refl refl)
        good

  read_pressure :
      flag_in (get_field (codes "budget_pressure") (selection_meta s)) ≡ s.budget_pressure
  unfolding flag_in ◌==◌
  read_pressure =
      ap flag_in (
        past_items (codes "budget_pressure") refl refl
        ∙ get_field-put_reasons (codes "budget_pressure") _ s.dominant_inclusion_reasons
            excluding_part refl
        ∙ get_field-put_reasons (codes "budget_pressure") _ s.dominant_exclusion_reasons last_part
            refl)
      ∙ read_pressure-put s.budget_pressure

  pub explanation_meta_lem : IsReadable s → read_explanation atoi (selection_meta s) ≡ s
  unfolding read_explanation IsReadable
  explanation_meta_lem (inc, exc, dom, out) =
      rw
        (
          read_included inc,
          read_excluded exc,
          read_including dom,
          read_excluding out,
          read_pressure,
        )
        refl
