-- ===== src/Replay/Consults/RoundTrip.antt =====
-- A consult that was recorded with its summary as meta is listed with that summary.
use pancakes_harness.Prelude.{
  ◌≡◌, refl, ap, ◌∙◌, true, false, Option, none, some, List, [], ◌∷◌, if◌then◌else◌, All,
  Bool-cases, inl, inr,
}
use pancakes_harness.Prelude.Result.{ok}
use pancakes_harness.Prelude.Int.{ℤ}
use pancakes_harness.Bytes.{Str, codes, ◌==◌, eq_iff}
use pancakes_harness.Eventlog.Event.{Fields, end, get_field, Event}
use pancakes_harness.Consult.{SelectionExplanation, EventSummary}
use pancakes_harness.Consult.Meta.{put_text, put_selection, put_missing, summary_meta}
use pancakes_harness.Replay.Graph.{string_of, read_meta_string}
use pancakes_harness.Replay.Consults.{
  ConsultEvent, outcome_for_kind, strings_in, read_meta_strings, with_content, selection_in,
  read_meta_selection, consult_event, is_consult, list_from, list_consult_events,
}
use pancakes_harness.Replay.Consults.Meta.{
  IsReadable, get_field-put_text, read_meta_string-put_text,
}
use pancakes_harness.Replay.Consults.Explanation.{explanation_meta_lem}

get_field-put_missing :
    (k : Str) (ms : List Str) (m : Fields)
    → (codes "missing" == k) ≡ false
    → get_field k (put_missing ms m) ≡ get_field k m
unfolding put_missing get_field
get_field-put_missing k [] m apart = refl
get_field-put_missing k (x ∷ ms) m apart = rw apart refl

get_field-put_selection :
    (k : Str) (s : Option SelectionExplanation)
    → (codes "selection" == k) ≡ false
    → get_field k (put_selection s end) ≡ none
unfolding put_selection get_field
get_field-put_selection k none apart = refl
get_field-put_selection k (some s) apart = rw apart refl

-- an explanation that says nothing is not listed
unfoldable pub listed_selection : Option SelectionExplanation → Option SelectionExplanation
unfolding with_content
listed_selection none = none
listed_selection (some s) = with_content s

unfoldable pub IsReadableSelection : Option SelectionExplanation → Type 0
unfolding IsReadable
IsReadableSelection none = Unit
IsReadableSelection (some s) = IsReadable s

-- what `ListConsultEvents` says of an event with the summary `s`
unfoldable pub listed : Event → EventSummary → ConsultEvent
unfolding outcome_for_kind listed_selection ◌==◌
listed e s = record {
  event_id = e.id;
  session_id = e.session_id;
  branch_id = e.branch_id;
  kind = e.kind;
  schema_version = s.schema_version;
  outcome = if s.outcome == codes "" then outcome_for_kind e.kind else s.outcome;
  role = s.role;
  fingerprint = s.fingerprint;
  contract_version = s.contract_version;
  manifest_serializer_version = s.manifest_serializer_version;
  leader_consult_event_id = s.leader_consult_event_id;
  refs = e.refs;
  missing = s.missing;
  byte_budget = s.byte_budget;
  actual_bytes = s.actual_bytes;
  task_summary = s.task_summary;
  selection = listed_selection s.selection;
}

strings_in-put_missing :
    (ms : List Str) (s : Option SelectionExplanation)
    → strings_in (get_field (codes "missing") (put_missing ms (put_selection s end))) ≡ ms
unfolding strings_in put_missing put_selection get_field ◌==◌
strings_in-put_missing [] none = refl
strings_in-put_missing [] (some s) = refl
strings_in-put_missing (m ∷ ms) s = refl

selection_in-put :
    (atoi : Str → Option ℤ) (s : Option SelectionExplanation)
    → IsReadableSelection s
    → selection_in atoi (get_field (codes "selection") (put_selection s end)) ≡ listed_selection s
unfolding selection_in put_selection get_field listed_selection IsReadableSelection ◌==◌
selection_in-put atoi none good = refl
selection_in-put atoi (some s) good = ap with_content (explanation_meta_lem atoi s good)

module _ (atoi : Str → Option ℤ) (s : EventSummary) where
  -- what follows the fields that are always there
  abbrev missing_part : Fields
  missing_part = put_missing s.missing (put_selection s.selection end)

  abbrev task_part : Fields
  task_part = put_text (codes "task_summary") s.task_summary missing_part

  abbrev leader_part : Fields
  leader_part = put_text (codes "leader_consult_event_id") s.leader_consult_event_id task_part

  missing_clear :
      (k : Str)
      → (codes "missing" == k) ≡ false
      → (codes "selection" == k) ≡ false
      → get_field k missing_part ≡ none
  missing_clear k m p =
      get_field-put_missing k s.missing _ m ∙ get_field-put_selection k s.selection p

  -- the optional fields before `missing`
  past_texts :
      (k : Str)
      → (codes "manifest_serializer_version" == k) ≡ false
      → (codes "leader_consult_event_id" == k) ≡ false
      → (codes "task_summary" == k) ≡ false
      → get_field k
          (put_text (codes "manifest_serializer_version") s.manifest_serializer_version leader_part)
        ≡ get_field k missing_part
  past_texts k v l t =
      get_field-put_text k _ s.manifest_serializer_version leader_part v
      ∙ get_field-put_text k _ s.leader_consult_event_id task_part l
      ∙ get_field-put_text k _ s.task_summary missing_part t

  read_version :
      read_meta_string (summary_meta s) (codes "manifest_serializer_version")
      ≡ s.manifest_serializer_version
  unfolding summary_meta read_meta_string get_field ◌==◌
  read_version =
      let k = codes "manifest_serializer_version" in
      read_meta_string-put_text k s.manifest_serializer_version leader_part (
        get_field-put_text k _ s.leader_consult_event_id task_part refl
        ∙ get_field-put_text k _ s.task_summary missing_part refl
        ∙ missing_clear k refl refl)

  read_leader :
      read_meta_string (summary_meta s) (codes "leader_consult_event_id")
      ≡ s.leader_consult_event_id
  unfolding summary_meta read_meta_string get_field ◌==◌
  read_leader =
      let k = codes "leader_consult_event_id" in
      ap string_of (get_field-put_text k _ s.manifest_serializer_version leader_part refl)
      ∙ read_meta_string-put_text k s.leader_consult_event_id task_part
          (get_field-put_text k _ s.task_summary missing_part refl ∙ missing_clear k refl refl)

  read_task : read_meta_string (summary_meta s) (codes "task_summary") ≡ s.task_summary
  unfolding summary_meta read_meta_string get_field ◌==◌
  read_task =
      let k = codes "task_summary" in
      ap string_of (
        get_field-put_text k _ s.manifest_serializer_version leader_part refl
        ∙ get_field-put_text k _ s.leader_consult_event_id task_part refl)
      ∙ read_meta_string-put_text k s.task_summary missing_part (missing_clear k refl refl)

  read_missing : read_meta_strings (summary_meta s) (codes "missing") ≡ s.missing
  unfolding summary_meta read_meta_strings ◌==◌
  read_missing =
      ap strings_in (past_texts (codes "missing") refl refl refl)
      ∙ strings_in-put_missing s.missing s.selection

  read_selection :
      IsReadableSelection s.selection
      → read_meta_selection atoi (summary_meta s) (codes "selection") ≡ listed_selection s.selection
  unfolding summary_meta read_meta_selection ◌==◌
  read_selection good =
      ap (selection_in atoi) (
        past_texts (codes "selection") refl refl refl
        ∙ get_field-put_missing (codes "selection") s.missing _ refl)
      ∙ selection_in-put atoi s.selection good

  consult_event_lem :
      (e : Event)
      → e.meta ≡ summary_meta s
      → IsReadableSelection s.selection
      → consult_event atoi e ≡ listed e s
  unfolding consult_event listed summary_meta
  consult_event_lem e kept good =
      rw (kept, read_version, read_leader, read_task, read_missing, read_selection good) refl

-- an event of the session `sid`, with its summary as meta if it is a consult
unfoldable pub IsRecorded : Str → Event × EventSummary → Type 0
unfolding IsReadableSelection
IsRecorded sid (e, s) =
    ((e.session_id == sid) ≡ true)
    × (is_consult e ≡ true → (e.meta ≡ summary_meta s) × IsReadableSelection s.selection)

abbrev pub events_of : List (Event × EventSummary) → List Event
events_of [] = []
events_of ((e, s) ∷ es) = e ∷ events_of es

abbrev pub listing : List (Event × EventSummary) → List ConsultEvent
listing [] = []
listing ((e, s) ∷ es) = let rest = listing es in if is_consult e then listed e s ∷ rest else rest

list_from-listing :
    (atoi : Str → Option ℤ) (sid : Str) (es : List (Event × EventSummary))
    → All (IsRecorded sid) es
    → list_from atoi sid (events_of es) ≡ ok (listing es)
unfolding list_from IsRecorded
list_from-listing atoi sid [] good = refl
list_from-listing atoi sid ((e, s) ∷ es) ((same, kept), goods) =
    rw (same, list_from-listing atoi sid es goods)
      (elim (Bool-cases (is_consult e)) [
        | inl h ↦ rw (h, consult_event_lem atoi s e (kept h).0 (kept h).1) refl
        | inr h ↦ rw h refl
      ])

first :
    (sid : Str) (e : Event) (s : EventSummary) (es : List (Event × EventSummary))
    → All (IsRecorded sid) ((e, s) ∷ es)
    → (e.session_id == sid) ≡ true
unfolding IsRecorded
first sid e s es ((same, kept), goods) = same

-- Events of one session, whose consults carry a summary as meta, with an explanation whose items and
-- counts are complete, if any: they are listed without an error, one consult event for each consult,
-- in order, with the event's references and every field of the summary. An explanation without
-- content is left out, and an empty outcome is that of the event's kind.
pub list_consult_events-listing :
    (atoi : Str → Option ℤ) (sid : Str) (es : List (Event × EventSummary))
    → All (IsRecorded sid) es
    → list_consult_events atoi (events_of es) ≡ ok (listing es)
unfolding list_consult_events
list_consult_events-listing atoi sid [] good = refl
list_consult_events-listing atoi sid ((e, s) ∷ es) good =
    let same = (eq_iff e.session_id sid).0 (first sid e s es good) in
    ap (λ t. list_from atoi t (e ∷ events_of es)) same
    ∙ list_from-listing atoi sid ((e, s) ∷ es) good
