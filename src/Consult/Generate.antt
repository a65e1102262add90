-- ===== src/Consult/Generate.antt =====
-- internal/consult/manifest.go: the manifest of a consult from its boundary input. `encode` stands
-- for json.Marshal of a manifest, which cannot fail. `normalizeConstraints` is that of
-- internal/preflight, statement by statement, and is taken from there.
pub mod Outcomes
pub mod Order
use pancakes_harness.Prelude.{
  ℕ, zero, suc, Bool, true, false, ◌&&◌, ◌||◌, not, Option, none, some, List, [], ◌∷◌,
  if◌then◌else◌, length,
}
use pancakes_harness.Prelude.Int.{ℤ, pos, is_negative, lebℤ}
use pancakes_harness.Prelude.Result.{Result, ok, err, ◌>>=◌}
use pancakes_harness.Bytes.{Str, codes, ◌==◌, lt_str, trim_space}
use pancakes_harness.Dict.{Dict}
use pancakes_harness.Sort.{sort_by, sort_strings}
use pancakes_harness.Consult.{
  SelectedItem, SelectionItem, ReasonCount, SelectionExplanation, Manifest,
}
use pancakes_harness.Preflight.{normalize_constraints}

pub record Input : Type 0 where
  pub session_id : Str
  pub branch_id : Str
  pub fingerprint : Str
  pub mode : Str
  pub scope : Str
  pub refs : List Str
  pub constraints : Dict Str
  pub selected_items : List SelectedItem
  pub byte_budget : ℤ
  pub compacted : Bool
  pub truncated : Bool
  pub task_summary : Str
  pub selection : Option SelectionExplanation

pub data ConsultError : Type 0 where
  malformed_input : ConsultError

-- `s == ""` past trimming
abbrev pub is_blank : Str → Bool
is_blank s = trim_space s == codes ""

-- the loop of `normalizeRefs`: blank references are left out
unfoldable pub trim_refs : List Str → List Str
trim_refs [] = []
trim_refs (r ∷ rs) = let rest = trim_refs rs in if is_blank r then rest else trim_space r ∷ rest

unfoldable pub normalize_refs : List Str → List Str
unfolding trim_refs sort_strings
normalize_refs refs = sort_strings (trim_refs refs)

-- A loop that gives up at the first bad entry.
unfoldable pub each : {A : Type 0} → (A → Bool) → (A → A) → List A → Option (List A)
each bad trim [] = some []
each bad trim (x ∷ xs) =
    let rest = each bad trim xs in
    if bad x then none else elim rest [ none ↦ none | some out ↦ some (trim x ∷ out) ]

abbrev sorted : {A : Type 0} → (A → A → Bool) → Option (List A) → Option (List A)
sorted less none = none
sorted less (some xs) = some (sort_by less xs)

abbrev pub bad_item : SelectedItem → Bool
bad_item i = is_blank i.id || is_blank i.kind || is_negative i.bytes

trim_item : SelectedItem → SelectedItem
trim_item i = record i {
  id = trim_space i.id;
  kind = trim_space i.kind;
  ref = trim_space i.ref;
  summary_ref = trim_space i.summary_ref;
  reason = trim_space i.reason;
}

-- `a < b` on `int`
abbrev pub less_int : ℤ → ℤ → Bool
less_int a b = not (lebℤ b a)

item_less : SelectedItem → SelectedItem → Bool
unfolding lt_str
item_less a b =
    if not (a.id == b.id)
    then lt_str a.id b.id
    else if not (a.kind == b.kind)
    then lt_str a.kind b.kind
    else if not (a.ref == b.ref)
    then lt_str a.ref b.ref
    else if not (a.summary_ref == b.summary_ref)
    then lt_str a.summary_ref b.summary_ref
    else if not (a.reason == b.reason)
    then lt_str a.reason b.reason
    else less_int a.bytes b.bytes

unfoldable pub normalize_selected_items : List SelectedItem → Option (List SelectedItem)
unfolding each trim_item item_less sort_by
normalize_selected_items items = sorted item_less (each bad_item trim_item items)

abbrev pub bad_selection_item : SelectionItem → Bool
bad_selection_item i = is_blank i.id || is_blank i.kind || is_blank i.reason

trim_selection_item : SelectionItem → SelectionItem
trim_selection_item i = record {
  id = trim_space i.id;
  kind = trim_space i.kind;
  reason = trim_space i.reason;
  class = trim_space i.class;
}

selection_item_less : SelectionItem → SelectionItem → Bool
unfolding lt_str
selection_item_less a b =
    if not (a.id == b.id)
    then lt_str a.id b.id
    else if not (a.kind == b.kind)
    then lt_str a.kind b.kind
    else if not (a.reason == b.reason)
    then lt_str a.reason b.reason
    else lt_str a.class b.class

unfoldable pub normalize_selection_items : List SelectionItem → Option (List SelectionItem)
unfolding each trim_selection_item selection_item_less sort_by
normalize_selection_items items =
    sorted selection_item_less (each bad_selection_item trim_selection_item items)

abbrev pub bad_count : ReasonCount → Bool
bad_count c = is_blank c.reason || lebℤ c.count (pos 0)

trim_count : ReasonCount → ReasonCount
trim_count c = record c { reason = trim_space c.reason }

-- the larger count first
count_less : ReasonCount → ReasonCount → Bool
unfolding lt_str
count_less a b =
    if less_int a.count b.count || less_int b.count a.count
    then less_int b.count a.count
    else lt_str a.reason b.reason

unfoldable pub normalize_reason_counts : List ReasonCount → Option (List ReasonCount)
unfolding each trim_count count_less sort_by
normalize_reason_counts counts = sorted count_less (each bad_count trim_count counts)

-- `if !ok { return …, ErrMalformedInput }`
abbrev pub or_malformed : {A : Type 0} → Option A → Result ConsultError A
or_malformed none = err malformed_input
or_malformed (some a) = ok a

unfoldable pub normalize_selection :
    Option SelectionExplanation → Result ConsultError (Option SelectionExplanation)
normalize_selection none = ok none
normalize_selection (some s) = or_malformed (normalize_selection_items s.included) >>= λ included.
    or_malformed (normalize_selection_items s.excluded) >>= λ excluded.
    or_malformed (normalize_reason_counts s.dominant_inclusion_reasons) >>= λ inclusion.
    or_malformed (normalize_reason_counts s.dominant_exclusion_reasons) >>= λ exclusion. ok (
      some (record {
        included = included;
        excluded = excluded;
        dominant_inclusion_reasons = inclusion;
        dominant_exclusion_reasons = exclusion;
        budget_pressure = s.budget_pressure;
      }))

-- the manifest before it is measured
unfoldable pub draft : Input → Dict Str → List SelectedItem → Option SelectionExplanation → Manifest
unfolding normalize_refs
draft i constraints items selection = record {
  event_id = codes "";
  session_id = trim_space i.session_id;
  branch_id = trim_space i.branch_id;
  fingerprint = trim_space i.fingerprint;
  mode = trim_space i.mode;
  scope = trim_space i.scope;
  refs = normalize_refs i.refs;
  constraints = constraints;
  selected_items = items;
  byte_budget = i.byte_budget;
  actual_bytes = pos 0;
  compacted = i.compacted;
  truncated = i.truncated;
  serializer_version = codes "consult.v1";
  task_summary = trim_space i.task_summary;
  selection = selection;
}

module _ (encode : Manifest → Str) where
  -- the loop of `measuredBytes`, with the rounds left
  unfoldable pub measured_from : ℕ → Manifest → ℤ
  measured_from zero m = m.actual_bytes
  measured_from (suc rounds) m =
      let n = pos (length (encode m)) in
      let rest = measured_from rounds (record m { actual_bytes = n }) in
      if lebℤ m.actual_bytes n && lebℤ n m.actual_bytes then n else rest

  unfoldable pub measured_bytes : Manifest → ℤ
  unfolding measured_from
  measured_bytes m = measured_from 8 (record m { actual_bytes = pos 0 })

  -- `manifest.ActualBytes = actual`
  abbrev pub with_size : Manifest → Manifest
  with_size m = record m { actual_bytes = measured_bytes m }

  -- the end of `Generate`: a manifest over its budget is marked, and measured again
  unfoldable pub within_budget : Manifest → Manifest
  within_budget m =
      if less_int (pos 0) m.byte_budget && less_int m.byte_budget m.actual_bytes
      then with_size (record m { compacted = true })
      else m

  unfoldable pub generate : Input → Result ConsultError Manifest
  unfolding draft normalize_selected_items normalize_selection within_budget
  generate i =
      if is_blank i.session_id || is_blank i.branch_id || is_blank i.fingerprint || is_blank i.mode
      then err malformed_input
      else if is_negative i.byte_budget
      then err malformed_input
      else (or_malformed (normalize_constraints i.constraints) >>= λ constraints.
          or_malformed (normalize_selected_items i.selected_items) >>= λ items.
          normalize_selection i.selection >>= λ selection.
          ok (within_budget (with_size (draft i constraints items selection))))
