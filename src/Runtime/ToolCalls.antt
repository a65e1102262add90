-- ===== src/Runtime/ToolCalls.antt =====
-- `executeToolCalls`.
use pancakes_harness.Prelude.{none, some, List, [], ◌∷◌, ◌++◌, if◌then◌else◌}
use pancakes_harness.Prelude.Result.{ok, err}
use pancakes_harness.Prelude.Int.{pos}
use pancakes_harness.Bytes.{Str, codes, ◌==◌}
use pancakes_harness.Tools.{
  Request, Response, tool_request_event, tool_result_event, tool_failure_event,
}
use pancakes_harness.Tools.Run.{run}
use pancakes_harness.Model.{ToolCall}
use pancakes_harness.Runtime.{Env, ToolRunner, no_tool_runner}
use pancakes_harness.Runtime.Monad.{
  Action, pure, raise, ticked, ◌>>=◌, next_event_id, time, append, put_blob,
}

module _ {R : Type 0} (env : Env R) where
  -- the call's id, or a new one
  unfoldable pub call_id_of : ToolCall → Action R Str
  unfolding next_event_id ◌==◌
  call_id_of call =
      if call.call_id == codes "" then next_event_id env (codes "tool.call") else pure call.call_id

  abbrev with_result : Response → Str → Response
  with_result resp ref = record resp {
    artifacts = resp.artifacts ++ record { name = codes "result"; blob_ref = ref } ∷ [];
  }

  -- the result is kept as a blob; where that fails, the response is left as it is
  unfoldable pub keep_result : Request → Response → Action R Response
  unfolding put_blob
  keep_result req resp c =
      let ref = codes "blob://tool/" ++ env.id ++ codes "/" ++ req.call_id in
      let (c', stored) = put_blob env ref (env.to_json resp.result) c in
      (c', ok (elim stored [ ok _ ↦ with_result resp ref | err e ↦ resp ]))

  unfoldable pub record_success : Str → Request → Response → Action R Unit
  unfolding keep_result next_event_id append tool_result_event
  record_success branch req resp = keep_result req resp >>= λ kept.
      next_event_id env (codes "tool.result") >>= λ id. time env >>= λ now.
      append env (tool_result_event id env.id branch now req (env.to_json kept.result) kept)

  unfoldable pub record_failure : Str → Request → Response → Action R Unit
  unfolding next_event_id append tool_failure_event
  record_failure branch req resp = next_event_id env (codes "tool.failure") >>= λ id.
      time env >>= λ now. append env (tool_failure_event id env.id branch now req resp)

  -- the run of a tool is one tick
  unfoldable pub run_tool : ToolRunner → Request → Action R Response
  unfolding run
  run_tool tools req c =
      (ticked c, ok (run tools.decode tools.encode (tools.process c.tick) tools.runner req))

  abbrev pub request_of : ToolCall → Str → Request
  request_of call id = record {
    tool = call.tool;
    call_id = id;
    args = call.args;
    timeout_ms = pos 15000;
  }

  abbrev record_response : Str → Request → Response → Action R Unit
  record_response branch req resp =
      if resp.ok then record_success branch req resp else record_failure branch req resp

  unfoldable pub execute_call : ToolRunner → Str → ToolCall → Action R Unit
  unfolding call_id_of run_tool record_success record_failure next_event_id append
      tool_request_event
  execute_call tools branch call = call_id_of call >>= λ call_id.
      next_event_id env (codes "tool.request") >>= λ id. time env >>= λ now.
      append env
        (tool_request_event id env.id branch now (request_of call call_id) (env.to_json call.args))
      >>= λ _. run_tool tools (request_of call call_id) >>= λ resp.
          record_response branch (request_of call call_id) resp

  unfoldable pub execute_calls : ToolRunner → Str → List ToolCall → Action R Unit
  unfolding execute_call
  execute_calls tools branch [] = pure tt
  execute_calls tools branch (call ∷ calls) =
      execute_call tools branch call >>= λ _. execute_calls tools branch calls

  unfoldable pub execute_tool_calls : Str → List ToolCall → Action R Unit
  unfolding execute_calls
  execute_tool_calls branch calls = elim env.tools [
    | none ↦ raise no_tool_runner
    | some tools ↦ execute_calls tools branch calls
  ]
