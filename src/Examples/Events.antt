-- ===== src/Examples/Events.antt =====
-- A session of two turns, a fork, a summary rebuild and a later turn.
use pancakes_harness.Prelude.{◌≡◌, ◌↔◌, refl, true, none, some, List, [], ◌∷◌, All}
use pancakes_harness.Prelude.Int.{pos}
use pancakes_harness.Prelude.Result.{ok}
use pancakes_harness.Bytes.{Str, codes, ◌==◌}
use pancakes_harness.Dict.{Dict, lookup, insert}
use pancakes_harness.Branchdag
use pancakes_harness.Branchdag.{Branch, new_graph}
use pancakes_harness.Branchdag.Laws.{WellFormed, WellFormed-new}
use pancakes_harness.Eventlog.Event
use pancakes_harness.Eventlog.Event.{
  Event, Fields, end, field, text, kind_branch_fork, kind_summary_rebuild,
}
use pancakes_harness.Eventlog.Store.{get_by_id, list_by_session, new_memory_store, found}
use pancakes_harness.Eventlog.Store.Log.{
  append_all, log_append_all, of_session, find_event, reads_after_appends,
}
use pancakes_harness.Replay.Session.{SessionState, rebuild_session, empty_state}
use pancakes_harness.Replay.Session.Heads.{Sums, IsOf, rebuild_session_iff}
use pancakes_harness.Replay.Graph.{
  rebuild_branch_state, replay_events, replay_event, ensure_branch, read_meta_string,
}
use pancakes_harness.Replay.Graph.Total.{Replays, replay_events-Replays, replay_succeeds_iff}
use pancakes_harness.Replay.Graph.Map.{rebuild_branch_state-lookup}
use pancakes_harness.Replay.Checkpoint.Basis.{rebuild_from_events-eq-delta}
use pancakes_harness.Replay.Checkpoint.{
  rebuild_from_events, SummaryCheckpoint, checkpoint_valid, rebuild_from_delta,
}
use pancakes_harness.Replay.Checkpoint.Agreement.{Announces, replay-eq-delta}

abbrev event : Str → Str → Str → Fields → Event
event id kind branch meta = record {
  id = id;
  session_id = codes "s";
  ts = 1;
  kind = kind;
  branch_id = branch;
  parent_event_id = codes "e1";
  refs = [];
  meta = meta;
  blob_ref = codes "";
}

abbrev first : Event
first = event (codes "e1") (codes "turn.user") (codes "m") end

abbrev forked : Event
forked =
    event (codes "e2") kind_branch_fork (codes "k")
      (field (codes "parent_branch_id") (text (codes "m")) end)

abbrev rebuilt : Event
rebuilt = event (codes "e3") kind_summary_rebuild (codes "m") (
    field (codes "summary_id") (text (codes "c"))
      (field (codes "basis_event_id") (text (codes "e1")) end))

abbrev last : Event
last = event (codes "e4") (codes "turn.agent") (codes "m") end

abbrev log : List Event
log = first ∷ forked ∷ rebuilt ∷ last ∷ []

reads_after_appends_example :
    (list_by_session none (codes "s") (append_all log new_memory_store)
      ≡ ok (of_session (codes "s") (log_append_all log [])))
    × (get_by_id none (codes "s") (codes "e2") (append_all log new_memory_store)
        ≡ found (find_event (codes "s") (codes "e2") (log_append_all log [])))
reads_after_appends_example = reads_after_appends log (codes "s") (codes "e2")

rebuild_session_iff_example :
    ((s : SessionState) × (rebuild_session log ≡ ok s) × Sums (empty_state first.session_id) log s)
    ↔ All (IsOf first.session_id) log
rebuild_session_iff_example = rebuild_session_iff first (forked ∷ rebuilt ∷ last ∷ [])

replay_succeeds_iff_example :
    ((g : Branchdag.Graph) × (replay_events log new_graph ≡ ok g) × WellFormed g)
    ↔ All (λ e. Event.is_valid e ≡ true) log
replay_succeeds_iff_example = replay_succeeds_iff log

replay_events-Replays_example : Replays log new_graph (replay_events log new_graph)
unfolding Event.is_valid ◌==◌
replay_events-Replays_example =
    replay_events-Replays log new_graph WellFormed-new (refl, (refl, (refl, (refl, tt))))

abbrev checkpoint : SummaryCheckpoint
checkpoint = record {
  summary_id = codes "c";
  branch_id = codes "m";
  basis_event_id = codes "e1";
  covered_start = codes "e1";
  covered_end = codes "e1";
  text_ref = codes "t";
  blob_ref = codes "";
  byte_estimate = pos 1;
  token_estimate = pos 1;
  freshness_version = pos 1;
}

abbrev main : Branch
main = record {
  branch_id = codes "m";
  parent_branch_id = codes "";
  fork_event_id = codes "";
  head_event_id = codes "e1";
  base_summary_id = codes "";
  dirty_ranges = record { start_event_id = codes "e1"; end_event_id = codes "e1" } ∷ [];
  score = 0;
  materialized_hint = codes "";
}

abbrev before : Branchdag.Graph
before = record { branches = (codes "m", main) ∷ [] }

announces : Announces checkpoint rebuilt
unfolding ◌==◌ read_meta_string
announces = record { branch = refl; kind = refl; summary = refl; basis = refl }

replay-eq-delta_example :
    (g' : Branchdag.Graph) × (b' : Branch) × (replay_events (first ∷ rebuilt ∷ last ∷ []) new_graph
      ≡ ok g')
    × (lookup (codes "m") g'.branches ≡ some b')
    × (rebuild_from_delta main checkpoint (last ∷ []) ≡ ok b')
unfolding Event.is_valid ◌==◌ replay_events replay_event ensure_branch Branchdag.get_branch lookup
    Branchdag.create_branch Branchdag.is_valid Branchdag.append_event insert
    Branchdag.append_to_branch checkpoint_valid
replay-eq-delta_example =
    replay-eq-delta (first ∷ []) (last ∷ []) rebuilt checkpoint before main refl refl refl announces
      refl (refl, tt) ((λ _. (refl, refl)), tt)

rebuild_from_events-eq-delta_example :
    rebuild_from_events main checkpoint (first ∷ rebuilt ∷ last ∷ [])
    ≡ rebuild_from_delta main checkpoint (rebuilt ∷ last ∷ [])
unfolding Event.is_valid ◌==◌ checkpoint_valid
rebuild_from_events-eq-delta_example =
    rebuild_from_events-eq-delta main checkpoint [] (rebuilt ∷ last ∷ []) first refl tt refl
      (refl, (refl, tt))

rebuild_branch_state-lookup_example :
    (m : Dict Branch) × (rebuild_branch_state (first ∷ []) ≡ ok m)
    × ((j : Str) → lookup j m ≡ lookup j before.branches)
unfolding Event.is_valid ◌==◌ replay_events replay_event ensure_branch Branchdag.get_branch lookup
    Branchdag.create_branch Branchdag.is_valid Branchdag.append_event insert
    Branchdag.append_to_branch
rebuild_branch_state-lookup_example = rebuild_branch_state-lookup (first ∷ []) before refl
