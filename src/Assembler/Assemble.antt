-- ===== src/Assembler/Assemble.antt =====
-- `Assemble`: the loop over the compaction stages, with the external context dropped before the
-- first of them. A rejected packet is returned beside the error, as in the source.
pub mod Candidates
use pancakes_harness.Prelude.{
  ℕ, zero, suc, ◌+◌, ◌-◌, Bool, true, false, ◌&&◌, leb, if◌then◌else◌, length,
}
use pancakes_harness.Bytes.{Str, codes, ◌==◌}
use pancakes_harness.Assembler.Packet.{
  PacketBody, Request, Measurement, ContextStatus, omitted, included, dropped_budget, Packet,
  max_envelope_bytes, safety_margin_bytes, measure_headers, marshal_body, clone_body,
}
use pancakes_harness.Assembler.Compaction.{apply_compaction_stage}
use pancakes_harness.Assembler.Normalize.{normalize_request}

-- What the loop does not change: the bytes around the body.
pub record Frame : Type 0 where
  pub request_line_bytes : ℕ
  pub header_bytes : ℕ
  pub context_bytes : ℕ

abbrev pub body_budget : Frame → ℕ
body_budget f = max_envelope_bytes - safety_margin_bytes - f.request_line_bytes - f.header_bytes

unfoldable pub fits : Frame → PacketBody → Bool
fits f b =
    let n = length (marshal_body b) in
    leb n (body_budget f) && leb (f.request_line_bytes + f.header_bytes + n) max_envelope_bytes

unfoldable pub packet_of : Frame → ContextStatus → PacketBody → Packet
packet_of f status b = record {
  body_json = marshal_body b;
  stage = b.compact_stage;
  measurement = record {
    request_line_bytes = f.request_line_bytes;
    header_bytes = f.header_bytes;
    body_budget_bytes = body_budget f;
    body_bytes = length (marshal_body b);
    envelope_bytes = f.request_line_bytes + f.header_bytes + length (marshal_body b);
  };
  body = b;
  external_context_status = status;
  external_context_bytes = f.context_bytes;
}

-- `(Result, nil)` or `(Result, ErrPacketRejectedBudget)`
pub data Assembled : Type 0 where
  accepted : Packet → Assembled
  rejected : Packet → Assembled

abbrev pub at_stage : ℕ → PacketBody → PacketBody
at_stage n b = record b { compact_stage = n }

abbrev pub without_context : ℕ → PacketBody → PacketBody
without_context n b = record (clone_body b) { external_context = codes ""; compact_stage = n }

-- The loop: `left` stages are to come after stage `n`; the last is stage 7.
assemble_from : Frame → ℕ → ℕ → ContextStatus → PacketBody → Assembled
unfolding fits packet_of clone_body apply_compaction_stage
assemble_from f zero n status b =
    let here = at_stage n b in
    let bare = without_context n b in
    if fits f here
    then accepted (packet_of f status here)
    else if here.external_context == codes ""
    then rejected (packet_of f status here)
    else if fits f bare
    then accepted (packet_of f dropped_budget bare)
    else rejected (packet_of f dropped_budget bare)
assemble_from f (suc left) n status b =
    let here = at_stage n b in
    let bare = without_context n b in
    let next = assemble_from f left (n + 1) status (apply_compaction_stage here (n + 1)) in
    let next_bare =
      assemble_from f left (n + 1) dropped_budget (apply_compaction_stage bare (n + 1)) in
    if fits f here
    then accepted (packet_of f status here)
    else if here.external_context == codes ""
    then next
    else if fits f bare
    then accepted (packet_of f dropped_budget bare)
    else next_bare

abbrev pub first_status : Str → ContextStatus
first_status s = if s == codes "" then omitted else included

-- `METHOD path HTTP/1.1\r\n`
unfoldable pub frame_of : Request → Frame
unfolding measure_headers
frame_of r = record {
  request_line_bytes = length r.method + 1 + length r.path + length (codes " HTTP/1.1") + 2;
  header_bytes = measure_headers r.headers;
  context_bytes = length r.body.external_context;
}

unfoldable pub assemble_normalized : Request → Assembled
unfolding assemble_from frame_of
assemble_normalized r = assemble_from (frame_of r) 7 0 (first_status r.body.external_context) r.body

unfoldable pub assemble : Request → Assembled
unfolding assemble_normalized normalize_request
assemble r = assemble_normalized (normalize_request r)
