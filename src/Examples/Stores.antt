-- ===== src/Examples/Stores.antt =====
-- Calls on a backend, saves in a review store, and pages of a short list.
use pancakes_harness.Prelude.{
  ℕ, ◌≡◌, ◌↔◌, ◌≤◌, ◌+◌, refl, none, some, List, [], ◌∷◌, map, keep, arith,
}
use pancakes_harness.Prelude.Int.{pos}
use pancakes_harness.Prelude.Result.{ok}
use pancakes_harness.Bytes.{Str, codes, ◌==◌}
use pancakes_harness.Consult.{EventSummary}
use pancakes_harness.Eventlog.Store.{Context, canceled}
use pancakes_harness.Review
use pancakes_harness.Review.{new_review_store, manifest_of, event_found}
use pancakes_harness.Review.Reads.{save_all, live, last_with, reads_after_saves}
use pancakes_harness.Eventlog.Event.{Event, end}
use pancakes_harness.Eventlog.Store.Log.{of_session, log_append_all}
use pancakes_harness.Backend.{new_memory_backend, list_events_by_branch}
use pancakes_harness.Backend.Laws.{
  Call, event_call, blob_call, clear_call, perform_all, appended_events, list_events_by_branch-log,
}
use pancakes_harness.Backend.Paging.{page, slice_panic, page_of}
use pancakes_harness.Backend.Paging.Pages.{window, page_of-window, page_of_panic_iff}

abbrev event : Event
event = record {
  id = codes "e1";
  session_id = codes "s";
  ts = 1;
  kind = codes "turn.user";
  branch_id = codes "m";
  parent_event_id = codes "";
  refs = [];
  meta = end;
  blob_ref = codes "";
}

abbrev calls : List Call
calls = event_call none event ∷ blob_call none (codes "r") (codes "y") ∷ clear_call ∷ []

list_events_by_branch-log_example :
    list_events_by_branch none (codes "s") (codes "m") (perform_all calls new_memory_backend)
    ≡ ok (
        keep
          (λ e. e.branch_id == codes "m")
          (of_session (codes "s") (log_append_all (event ∷ []) [])))
unfolding appended_events ◌==◌
list_events_by_branch-log_example = list_events_by_branch-log calls (codes "s") (codes "m") refl

abbrev numbers : List ℕ
numbers = 1 ∷ 2 ∷ 3 ∷ []

page_of-window_example : page_of (pos 1) (pos 1) numbers ≡ page (window 1 1 numbers)
page_of-window_example = page_of-window (pos 1) (pos 1) numbers (omega arith)

page_of_panic_iff_example :
    (page_of (pos 9223372036854775807) (pos 1) numbers ≡ slice_panic)
    ↔ ((1 ≤ 3) × (9223372036854775808 ≤ 1 + 9223372036854775807))
page_of_panic_iff_example =
    page_of_panic_iff (pos 9223372036854775807) (pos 1) numbers (omega arith) (omega arith)

abbrev summary : Str → EventSummary
summary fingerprint = record {
  schema_version = codes "v1";
  fingerprint = fingerprint;
  contract_version = codes "v1";
  manifest_serializer_version = codes "v1";
  outcome = codes "resolved";
  role = codes "leader";
  leader_consult_event_id = codes "";
  byte_budget = pos 14336;
  actual_bytes = pos 640;
  task_summary = codes "t";
  missing = [];
  selection = none;
}

abbrev saves : List (Context × EventSummary)
saves =
    (none, summary (codes "a"))
    ∷ (some canceled, summary (codes "b"))
    ∷ (none, summary (codes "c"))
    ∷ []

reads_after_saves_example :
    (Review.list none (pos 1) (pos 1) (save_all saves new_review_store)
      ≡ ok (page (window 1 1 (map manifest_of (live saves)))))
    × (Review.get none (codes "a") (save_all saves new_review_store)
        ≡ event_found (last_with (codes "a") (live saves) none))
unfolding live
reads_after_saves_example = reads_after_saves saves (pos 1) (pos 1) (codes "a") (omega arith)
