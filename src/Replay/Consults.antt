-- ===== src/Replay/Consults.antt =====
-- `ListConsultEvents` of internal/replay/replay.go: the consult events of a session, read back from
-- event meta. `atoi` is strconv.Atoi, `none` where it fails.
pub mod Meta
pub mod Explanation
pub mod RoundTrip
use pancakes_harness.Prelude.{
  Bool, true, false, ◌&&◌, ◌||◌, not, Option, none, some, List, [], ◌∷◌, if◌then◌else◌,
}
use pancakes_harness.Prelude.Result.{Result, ok, err, ◌>>=◌}
use pancakes_harness.Prelude.Int.{ℤ, pos, lebℤ}
use pancakes_harness.Bytes.{Str, codes, ◌==◌, trim_space}
use pancakes_harness.Eventlog.Event.{
  Value, text, texts, int, int64, float64, flag, object, objects, items, Fields, Objects,
  no_objects, an_object, Items, no_items, item, get_field, Event, kind_consult_resolved,
  kind_consult_unresolved,
}
use pancakes_harness.Consult.{SelectionItem, ReasonCount, SelectionExplanation}
use pancakes_harness.Replay.Session.{ReplayError, mixed_session}
use pancakes_harness.Replay.Graph.{read_meta_string}

pub record ConsultEvent : Type 0 where
  pub event_id : Str
  pub session_id : Str
  pub branch_id : Str
  pub kind : Str
  pub schema_version : Str
  pub outcome : Str
  pub role : Str
  pub fingerprint : Str
  pub contract_version : Str
  pub manifest_serializer_version : Str
  pub leader_consult_event_id : Str
  pub refs : List Str
  pub missing : List Str
  pub byte_budget : ℤ
  pub actual_bytes : ℤ
  pub task_summary : Str
  pub selection : Option SelectionExplanation

-- `consultOutcomeForKind`
unfoldable pub outcome_for_kind : Str → Str
unfolding ◌==◌
outcome_for_kind kind =
    if kind == kind_consult_resolved
    then codes "resolved"
    else if kind == kind_consult_unresolved
    then codes "unresolved"
    else codes ""

-- the strings of a `[]any`
strings_of : Items → List Str
strings_of no_items = []
strings_of (item (text s) vs) = s ∷ strings_of vs
strings_of (item _ vs) = strings_of vs

unfoldable pub strings_in : Option Value → List Str
unfolding strings_of trim_space ◌==◌
strings_in (some (texts ss)) = ss
strings_in (some (items vs)) = strings_of vs
strings_in (some (text v)) = let s = trim_space v in if s == codes "" then [] else s ∷ []
strings_in _ = []

-- `readMetaStrings`
unfoldable pub read_meta_strings : Fields → Str → List Str
unfolding get_field strings_in
read_meta_strings meta key = strings_in (get_field key meta)

unfoldable pub positive : ℤ → Bool
positive n = lebℤ (pos 1) n

unfoldable pub flag_in : Option Value → Bool
flag_in (some (flag b)) = b
flag_in _ = false

abbrev consed : {A : Type 0} → Option A → List A → List A
consed none rest = rest
consed (some a) rest = a ∷ rest

module _ {A : Type 0} (from : Fields → Option A) where
  unfoldable pub from_objects : Objects → List A
  from_objects no_objects = []
  from_objects (an_object m ms) = consed (from m) (from_objects ms)

  -- an item that is no map is left out
  unfoldable pub from_items : Items → List A
  from_items no_items = []
  from_items (item (object m) vs) = consed (from m) (from_items vs)
  from_items (item _ vs) = from_items vs

  unfoldable pub read_list : Option Value → List A
  unfolding from_objects from_items
  read_list (some (objects ms)) = from_objects ms
  read_list (some (items vs)) = from_items vs
  read_list _ = []

module _ (atoi : Str → Option ℤ) where
  or_zero : Option ℤ → ℤ
  or_zero none = pos 0
  or_zero (some n) = n

  unfoldable pub int_in : Option Value → ℤ
  unfolding or_zero trim_space
  int_in (some (int n)) = n
  int_in (some (int64 n)) = n
  int_in (some (float64 n)) = n
  int_in (some (text s)) = or_zero (atoi (trim_space s))
  int_in _ = pos 0

  -- `readMetaInt`
  unfoldable pub read_meta_int : Fields → Str → ℤ
  unfolding get_field int_in
  read_meta_int meta key = int_in (get_field key meta)

  -- `selectionItemFromMeta`
  unfoldable pub selection_item_from_meta : Fields → Option SelectionItem
  unfolding read_meta_string ◌==◌
  selection_item_from_meta meta =
      let id = read_meta_string meta (codes "id") in
      let kind = read_meta_string meta (codes "kind") in
      let reason = read_meta_string meta (codes "reason") in
      if id == codes "" || kind == codes "" || reason == codes ""
      then none
      else some (record {
        id = id;
        kind = kind;
        reason = reason;
        class = read_meta_string meta (codes "class");
      })

  -- the body of the loops of `readReasonCounts`
  unfoldable pub reason_count_from_meta : Fields → Option ReasonCount
  unfolding read_meta_string read_meta_int positive ◌==◌
  reason_count_from_meta meta =
      let reason = read_meta_string meta (codes "reason") in
      let count = read_meta_int meta (codes "count") in
      if reason == codes "" || not (positive count)
      then none
      else some (record { reason = reason; count = count })

  unfoldable pub read_selection_items : Fields → Str → List SelectionItem
  unfolding get_field selection_item_from_meta read_list
  read_selection_items meta key = read_list selection_item_from_meta (get_field key meta)

  unfoldable pub read_reason_counts : Fields → Str → List ReasonCount
  unfolding get_field reason_count_from_meta read_list
  read_reason_counts meta key = read_list reason_count_from_meta (get_field key meta)

  -- the explanation in `body`, read before it is known to be empty
  unfoldable pub read_explanation : Fields → SelectionExplanation
  unfolding read_selection_items read_reason_counts get_field flag_in
  read_explanation body = record {
    included = read_selection_items body (codes "included");
    excluded = read_selection_items body (codes "excluded");
    dominant_inclusion_reasons = read_reason_counts body (codes "dominant_inclusion_reasons");
    dominant_exclusion_reasons = read_reason_counts body (codes "dominant_exclusion_reasons");
    budget_pressure = flag_in (get_field (codes "budget_pressure") body);
  }

abbrev no_entries : {A : Type 0} → List A → Bool
no_entries [] = true
no_entries (x ∷ xs) = false

-- an explanation without content is none
unfoldable pub with_content : SelectionExplanation → Option SelectionExplanation
with_content s =
    if no_entries s.included
      && no_entries s.excluded
      && no_entries s.dominant_inclusion_reasons
      && no_entries s.dominant_exclusion_reasons
      && not s.budget_pressure
    then none
    else some s

abbrev pub is_consult : Event → Bool
is_consult e = e.kind == kind_consult_resolved || e.kind == kind_consult_unresolved

module _ (atoi : Str → Option ℤ) where
  unfoldable pub selection_in : Option Value → Option SelectionExplanation
  unfolding read_explanation with_content
  selection_in (some (object body)) = with_content (read_explanation atoi body)
  selection_in _ = none

  -- `readMetaSelection`
  unfoldable pub read_meta_selection : Fields → Str → Option SelectionExplanation
  unfolding get_field selection_in
  read_meta_selection meta key = selection_in (get_field key meta)

  -- one consult event
  unfoldable pub consult_event : Event → ConsultEvent
  unfolding outcome_for_kind read_meta_string read_meta_strings read_meta_int read_meta_selection
      ◌==◌
  consult_event e =
      let outcome = read_meta_string e.meta (codes "outcome") in
      record {
        event_id = e.id;
        session_id = e.session_id;
        branch_id = e.branch_id;
        kind = e.kind;
        schema_version = read_meta_string e.meta (codes "schema_version");
        outcome = if outcome == codes "" then outcome_for_kind e.kind else outcome;
        role = read_meta_string e.meta (codes "role");
        fingerprint = read_meta_string e.meta (codes "fingerprint");
        contract_version = read_meta_string e.meta (codes "contract_version");
        manifest_serializer_version = read_meta_string e.meta (codes "manifest_serializer_version");
        leader_consult_event_id = read_meta_string e.meta (codes "leader_consult_event_id");
        refs = e.refs;
        missing = read_meta_strings e.meta (codes "missing");
        byte_budget = read_meta_int atoi e.meta (codes "byte_budget");
        actual_bytes = read_meta_int atoi e.meta (codes "actual_bytes");
        task_summary = read_meta_string e.meta (codes "task_summary");
        selection = read_meta_selection e.meta (codes "selection");
      }

  -- the loop, in a session
  unfoldable pub list_from : Str → List Event → Result ReplayError (List ConsultEvent)
  unfolding consult_event ◌==◌
  list_from sid [] = ok []
  list_from sid (e ∷ es) =
      let rest = list_from sid es in
      if e.session_id == sid
      then if is_consult e then (rest >>= λ out. ok (consult_event e ∷ out)) else rest
      else err mixed_session

  unfoldable pub list_consult_events : List Event → Result ReplayError (List ConsultEvent)
  unfolding list_from
  list_consult_events [] = ok []
  list_consult_events (e ∷ es) = list_from e.session_id (e ∷ es)
