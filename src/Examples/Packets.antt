-- ===== src/Examples/Packets.antt =====
-- A packet for a branch with one tool result, and one that is too large.
use pancakes_harness.Prelude.{◌+◌, ◌≤◌, ◌≡◌, refl, false, some, [], ◌∷◌, length}
use pancakes_harness.Prelude.Int.{pos}
use pancakes_harness.Bytes.{codes, ◌==◌}
use pancakes_harness.Json.{object, quote, array, of_int}
use pancakes_harness.Assembler.Packet.{Request, PacketBody, WorkingItem, marshal_body}
use pancakes_harness.Assembler.Normalize.{normalize_request}
use pancakes_harness.Assembler.Assemble.{assemble, frame_of}
use pancakes_harness.Assembler.Assemble.Candidates.{first_fit, candidates_of, assemble-eq-first_fit}
use pancakes_harness.Assembler.Assemble.Candidates.Budget.{wire, accepted_within_budget}
use pancakes_harness.Assembler.Assemble.Candidates.Contents.{
  Keeps, AllTrimmed, packet, assemble-Keeps, assemble-AllTrimmed,
}

abbrev item : WorkingItem
item = record {
  id = codes "t1";
  kind = codes "tool.result";
  text = codes "ok";
  summary_ref = codes "";
  blob_ref = codes "b";
  frontier_ordinal = pos 1;
  provenance = codes "";
  provenance_required = false;
}

abbrev body : PacketBody
body = record {
  session_id = codes "s";
  branch_handle = codes "m";
  working_set = some (item ∷ []);
  external_context = codes "";
  frontier = codes "t1" ∷ [];
  constraints = [];
  debug = [];
  provenance = [];
  checkpoint_summary_ref = codes "";
  compact_stage = 0;
}

abbrev request : Request
request = record { method = codes "POST"; path = codes "/v"; headers = []; body = body }

accepted_within_budget_example :
    ((packet (assemble request)).body_json ≡ marshal_body (packet (assemble request)).body)
    × ((packet (assemble request)).measurement.envelope_bytes
        ≡ length (wire (normalize_request request) (packet (assemble request)).body_json))
    × (length (wire (normalize_request request) (packet (assemble request)).body_json) + 768
        ≤ 14336)
unfolding assemble marshal_body object quote array ◌==◌ of_int
accepted_within_budget_example = accepted_within_budget request (packet (assemble request)) refl

assemble-eq-first_fit_example :
    assemble request
    ≡ first_fit
        (frame_of (normalize_request request))
        (assemble request)
        (candidates_of (normalize_request request))
assemble-eq-first_fit_example = assemble-eq-first_fit request (assemble request)

assemble-Keeps_example : Keeps (normalize_request request).body (packet (assemble request)).body
assemble-Keeps_example = assemble-Keeps request

assemble-AllTrimmed_example : AllTrimmed (packet (assemble request)).body
assemble-AllTrimmed_example = assemble-AllTrimmed request
