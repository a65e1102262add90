-- ===== src/Examples/Histories.antt =====
-- A session with one consult, recorded with its summary.
use pancakes_harness.Prelude.{◌≡◌, refl, true, Option, none, some, [], ◌∷◌}
use pancakes_harness.Prelude.Result.{ok}
use pancakes_harness.Prelude.Int.{ℤ, pos}
use pancakes_harness.Bytes.{Str, codes, ◌==◌}
use pancakes_harness.Eventlog.Event.{Event, kind_consult_resolved}
use pancakes_harness.Consult.{EventSummary}
use pancakes_harness.Consult.Meta.{summary_meta}
use pancakes_harness.Replay.Consults.{list_consult_events, positive}
use pancakes_harness.Replay.Consults.Meta.{IsReadable, readable_item, readable_reason}
use pancakes_harness.Replay.Consults.RoundTrip.{
  IsRecorded, IsReadableSelection, events_of, listing, list_consult_events-listing,
}

abbrev summary : EventSummary
summary = record {
  schema_version = codes "consult.v1";
  fingerprint = codes "f";
  contract_version = codes "";
  manifest_serializer_version = codes "";
  outcome = codes "resolved";
  role = codes "leader";
  leader_consult_event_id = codes "";
  byte_budget = pos 10;
  actual_bytes = pos 7;
  task_summary = codes "t";
  missing = codes "scope" ∷ [];
  selection = some (record {
    included = [];
    excluded =
        record { id = codes "e"; kind = codes "k"; reason = codes "r"; class = codes "" } ∷ [];
    dominant_inclusion_reasons = [];
    dominant_exclusion_reasons = record { reason = codes "r"; count = pos 1 } ∷ [];
    budget_pressure = true;
  });
}

abbrev consult : Event
consult = record {
  id = codes "c1";
  session_id = codes "s";
  ts = 1;
  kind = kind_consult_resolved;
  branch_id = codes "m";
  parent_event_id = codes "";
  refs = codes "r1" ∷ [];
  meta = summary_meta summary;
  blob_ref = codes "";
}

abbrev no_number : Str → Option ℤ
no_number s = none

list_consult_events-listing_example :
    list_consult_events no_number (events_of ((consult, summary) ∷ []))
    ≡ ok (listing ((consult, summary) ∷ []))
unfolding IsRecorded IsReadableSelection IsReadable readable_item readable_reason positive ◌==◌
list_consult_events-listing_example =
    list_consult_events-listing no_number (codes "s") ((consult, summary) ∷ [])
      ((refl, λ h. (refl, (tt, (refl, tt), tt, (refl, tt)))), tt)
