-- ===== src/Runtime/Assembly.antt =====
-- `assembleForBranch`.
use pancakes_harness.Prelude.{Bool, true, false, ◌||◌, some, List, [], ltb}
use pancakes_harness.Prelude.Int.{pos}
use pancakes_harness.Bytes.{Str, codes}
use pancakes_harness.Json.{of_int}
use pancakes_harness.Eventlog.Event.{
  Event, Fields, end, field, text, kind_packet_candidate, kind_packet_rejected,
}
use pancakes_harness.Egress.Classify.{Selected}
use pancakes_harness.Egress.Select.{Explanation, select_with_explanation}
use pancakes_harness.Assembler.Packet.{
  Request, Packet, ContextStatus, omitted, included, dropped_budget, WorkingItem,
}
use pancakes_harness.Assembler.Assemble.{Assembled, accepted, rejected, assemble}
use pancakes_harness.Runtime.{Env, Core, packet_budget_rejected}
use pancakes_harness.Runtime.Monad.{
  Action, pure, raise, ◌>>=◌, list_session, append, new_event, ignoring,
}
use pancakes_harness.Runtime.Selection.{candidates, working_set}

abbrev status_text : ContextStatus → Str
status_text omitted = codes "omitted"
status_text included = codes "included"
status_text dropped_budget = codes "dropped_budget"

-- the meta of the events that a packet is recorded with
unfoldable pub packet_meta : Packet → Fields
unfolding of_int
packet_meta p = field (codes "compact_stage") (text (of_int (pos p.stage))) (
    field (codes "envelope_bytes") (text (of_int (pos p.measurement.envelope_bytes))) (
      field (codes "external_context_status") (text (status_text p.external_context_status)) (
        field (codes "external_context_bytes") (text (of_int (pos p.external_context_bytes))) end)))

is_dropped : ContextStatus → Bool
is_dropped dropped_budget = true
is_dropped _ = false

pub record Assembly : Type 0 where
  pub packet : Packet
  pub selected : List Selected
  pub explanation : Explanation

module _ {R : Type 0} (env : Env R) where
  unfoldable pub packet_request : Str → Str → List WorkingItem → Request
  packet_request branch external_context working = record {
    method = codes "POST";
    path = codes "/v1/responses";
    headers = env.headers;
    body = record {
      session_id = env.id;
      branch_handle = branch;
      working_set = some working;
      external_context = external_context;
      frontier = [];
      constraints = [];
      debug = [];
      provenance = [];
      checkpoint_summary_ref = codes "";
      compact_stage = 0;
    };
  }

  -- what follows the assembly: a rejection is recorded and fails, a packet is recorded
  unfoldable pub settle : Str → List Selected → Explanation → Assembled → Action R Assembly
  unfolding new_event append ignoring packet_meta is_dropped
  settle branch selected explanation (rejected p) =
      new_event env (codes "packet.rejected") kind_packet_rejected branch
        (field (codes "reason") (text (codes "packet rejected by budget")) end)
      >>= λ e. ignoring env (append env e) >>= λ _. raise packet_budget_rejected
  settle branch selected explanation (accepted p) =
      new_event env (codes "packet.candidate") kind_packet_candidate branch (packet_meta p) >>= λ e.
      append env e >>= λ _. pure (record {
        packet = p;
        selected = selected;
        explanation = record explanation {
          budget_pressure = ltb 0 p.stage || is_dropped p.external_context_status;
        };
      })

  unfoldable pub request_for : Str → Str → List Event → Core R → Request
  unfolding candidates select_with_explanation working_set packet_request
  request_for branch external_context es c =
      packet_request branch external_context
        (working_set (select_with_explanation (candidates env.search c.indexed branch es)).0)

  -- the packet of a session's events
  unfoldable pub assemble_events : Str → Str → List Event → Action R Assembly
  unfolding request_for candidates select_with_explanation assemble settle
  assemble_events branch external_context es c =
      let (selected, explanation) =
        select_with_explanation (candidates env.search c.indexed branch es) in
      settle branch selected explanation (assemble (request_for branch external_context es c)) c

  unfoldable pub assemble_for_branch : Str → Str → Action R Assembly
  unfolding list_session assemble_events
  assemble_for_branch branch external_context =
      list_session env >>= λ es. assemble_events branch external_context es
