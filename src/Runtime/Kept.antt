-- ===== src/Runtime/Kept.antt =====
-- Each part of a session keeps the log.
use pancakes_harness.Prelude.{refl, inl, inr, List, [], ◌∷◌, if_both, Option-cases}
use pancakes_harness.Bytes.{Str, codes, ◌==◌}
use pancakes_harness.Eventlog.Event.{Event}
use pancakes_harness.Egress.Classify.{Selected}
use pancakes_harness.Egress.Select.{Explanation, select_with_explanation}
use pancakes_harness.Assembler.Assemble.{Assembled, accepted, rejected, assemble}
use pancakes_harness.Tools
use pancakes_harness.Model.{ToolCall}
use pancakes_harness.Runtime.{Env, ToolRunner, no_tool_runner}
use pancakes_harness.Runtime.Selection.{candidates}
use pancakes_harness.Runtime.Assembly.{settle, request_for, assemble_events, assemble_for_branch}
use pancakes_harness.Runtime.ToolCalls.{
  request_of, call_id_of, keep_result, record_success, record_failure, run_tool, execute_call,
  execute_calls, execute_tool_calls,
}
use pancakes_harness.Runtime.Growth.{
  Grown, Grown-bind, Grown-same, Grown-pure, Grown-raise, append-Grown, put_blob-Grown,
  next_event_id-Grown, time-Grown, new_event-Grown, list_session-Grown, ignoring-Grown,
  record-Grown,
}

module _ {R : Type 0} (env : Env R) where
  settle-Grown :
      (branch : Str) (selected : List Selected) (explanation : Explanation) (o : Assembled)
      → Grown (settle env branch selected explanation o)
  unfolding settle
  settle-Grown branch selected explanation (rejected p) =
      Grown-bind _ _ (new_event-Grown env _ _ branch _)
        (λ e. Grown-bind _ _ (ignoring-Grown env _ (append-Grown env e)) (λ _. Grown-raise R _ _))
  settle-Grown branch selected explanation (accepted p) =
      record-Grown env _ _ branch _ _ (λ _. Grown-pure R _)

  assemble_events-Grown :
      (branch external_context : Str) (es : List Event)
      → Grown (assemble_events env branch external_context es)
  unfolding assemble_events Grown
  assemble_events-Grown branch external_context es c =
      let q = select_with_explanation (candidates env.search c.indexed branch es) in
      settle-Grown branch q.0 q.1 (assemble (request_for env branch external_context es c)) c

  pub assemble_for_branch-Grown :
      (branch external_context : Str) → Grown (assemble_for_branch env branch external_context)
  unfolding assemble_for_branch
  assemble_for_branch-Grown branch external_context =
      Grown-bind _ _ (list_session-Grown env) (assemble_events-Grown branch external_context)

  call_id_of-Grown : (call : ToolCall) → Grown (call_id_of env call)
  unfolding call_id_of
  call_id_of-Grown call =
      if_both Grown (call.call_id == codes "") (next_event_id-Grown env (codes "tool.call"))
        (Grown-pure R call.call_id)

  keep_result-Grown :
      (req : Tools.Request) (resp : Tools.Response) → Grown (keep_result env req resp)
  unfolding keep_result Grown
  keep_result-Grown req resp c = put_blob-Grown env _ _ c

  record_success-Grown :
      (branch : Str) (req : Tools.Request) (resp : Tools.Response)
      → Grown (record_success env branch req resp)
  unfolding record_success
  record_success-Grown branch req resp = Grown-bind _ _ (keep_result-Grown req resp) (λ kept.
      Grown-bind _ _ (next_event_id-Grown env _)
        (λ id. Grown-bind _ _ (time-Grown env) (λ now. append-Grown env _)))

  record_failure-Grown :
      (branch : Str) (req : Tools.Request) (resp : Tools.Response)
      → Grown (record_failure env branch req resp)
  unfolding record_failure
  record_failure-Grown branch req resp =
      Grown-bind _ _ (next_event_id-Grown env _)
        (λ id. Grown-bind _ _ (time-Grown env) (λ now. append-Grown env _))

  run_tool-Grown : (tools : ToolRunner) (req : Tools.Request) → Grown (run_tool env tools req)
  unfolding run_tool
  run_tool-Grown tools req = Grown-same _ (λ c. refl)

  execute_call-Grown :
      (tools : ToolRunner) (branch : Str) (call : ToolCall)
      → Grown (execute_call env tools branch call)
  unfolding execute_call
  execute_call-Grown tools branch call = Grown-bind _ _ (call_id_of-Grown call) (λ call_id.
      Grown-bind _ _ (next_event_id-Grown env _) (λ id. Grown-bind _ _ (time-Grown env) (λ now.
        Grown-bind _ _ (append-Grown env _) (λ _.
          Grown-bind _ _ (run_tool-Grown tools (request_of env call call_id)) (λ resp.
            if_both Grown resp.ok (record_success-Grown branch (request_of env call call_id) resp)
              (record_failure-Grown branch (request_of env call call_id) resp))))))

  execute_calls-Grown :
      (tools : ToolRunner) (branch : Str) (calls : List ToolCall)
      → Grown (execute_calls env tools branch calls)
  unfolding execute_calls
  execute_calls-Grown tools branch [] = Grown-pure R tt
  execute_calls-Grown tools branch (call ∷ calls) =
      Grown-bind _ _ (execute_call-Grown tools branch call)
        (λ _. execute_calls-Grown tools branch calls)

  pub execute_tool_calls-Grown :
      (branch : Str) (calls : List ToolCall) → Grown (execute_tool_calls env branch calls)
  unfolding execute_tool_calls
  execute_tool_calls-Grown branch calls = elim (Option-cases env.tools) [
    | inl e ↦ rw e (Grown-raise R Unit no_tool_runner)
    | inr (tools, e) ↦ rw e (execute_calls-Grown tools branch calls)
  ]
