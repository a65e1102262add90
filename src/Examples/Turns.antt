-- ===== src/Examples/Turns.antt =====
-- A session whose model asks for one tool call and then answers; and the parts that it is made of.
use pancakes_harness.Prelude.{
  ℕ, suc, ◌+◌, ◌≤◌, ◌≡◌, refl, true, false, none, some, [], ◌∷◌, length, leb, ltb, take, All,
}
use pancakes_harness.Prelude.Result.{Result, ok}
use pancakes_harness.Prelude.Int.{ℤ, pos}
use pancakes_harness.Bytes.{Str, codes, ◌==◌}
use pancakes_harness.Eventlog.Event.{end}
use pancakes_harness.Backend.{new_memory_backend}
use pancakes_harness.Audit
use pancakes_harness.Model.{Codec, ModelError}
use pancakes_harness.Model
use pancakes_harness.Tools
use pancakes_harness.Tools.Buffer.{new_capped_buffer, write_all, joined, write_all_lem}
use pancakes_harness.Tools.Decode.{Decoders}
use pancakes_harness.Tools.Run.{Runner, CommandSpec, ProcessRun, run, validate-run}
use pancakes_harness.Runtime.{Env, State}
use pancakes_harness.Runtime.Turn.{branch_or_default}
use pancakes_harness.Runtime.Session.{handle_user_turn}
use pancakes_harness.Runtime.Growth.{Grows}
use pancakes_harness.Runtime.Budget.{turn-calls_le, turn-Grows, wire_of, turn-within_budget}
use pancakes_harness.Runtime.Contents.{Leaves, turn-Leaves}

abbrev decoders : Decoders
decoders = record {
  top = λ raw. ok ((codes "ok", raw) ∷ (codes "call_id", codes "c1") ∷ (codes "error", raw) ∷ []);
  bool = λ raw. some false;
  string = λ raw. some raw;
  fields = λ raw. some end;
  artifacts = λ raw. some [];
  error = λ raw. some (record { type = codes "odd"; message = raw });
}

abbrev runner : Runner
runner = record {
  commands = (codes "ls", record { path = codes "/bin/ls"; args = [] }) ∷ [];
  max_stdout_bytes = pos 4;
  max_stderr_bytes = pos 4;
}

abbrev encode : Tools.Request → Result Str Str
encode r = ok r.tool

abbrev process : CommandSpec → Str → ℤ → ProcessRun
process spec input ms = record {
  stdout = codes "no" ∷ [];
  stderr = [];
  fails = false;
  past_deadline = false;
}

abbrev tool_request : Tools.Request
tool_request = record { tool = codes "ls"; call_id = codes "c1"; args = end; timeout_ms = pos 0 }

write_all_lem_example :
    ((write_all (codes "abc" ∷ codes "de" ∷ []) (new_capped_buffer (pos 4))).buf
      ≡ take 4 (joined (codes "abc" ∷ codes "de" ∷ [])))
    × ((write_all (codes "abc" ∷ codes "de" ∷ []) (new_capped_buffer (pos 4))).truncated
        ≡ ltb 4 (length (joined (codes "abc" ∷ codes "de" ∷ []))))
write_all_lem_example = write_all_lem 4 (codes "abc" ∷ codes "de" ∷ [])

validate-run_example :
    Tools.validate_against_request (run decoders encode process runner tool_request) tool_request
    ≡ none
unfolding ◌==◌
validate-run_example = validate-run decoders encode process runner tool_request refl

abbrev audit_config : Audit.Config
audit_config = record {
  max_tokens_per_consult = pos 100;
  auto_terminate = true;
  audit_prompt = codes "";
}

abbrev response : Str → Model.Response
response decision = record {
  decision = decision;
  answer = codes "done";
  tool_calls = record { tool = codes "ls"; call_id = codes ""; args = end } ∷ [];
  summary_delta = codes "";
  branch_ops = [];
  unresolved_refs = [];
  raw_provider_payload = end;
}

-- the answer's bytes are its decision
abbrev codec : Codec
codec = record {
  json_valid = λ packet. true;
  top = λ raw. some ((codes "decision", raw) ∷ []);
  response = λ raw. some (response raw);
}

-- the first answer is given at tick 7
abbrev adapter : ℕ → Model.Request → Result ModelError Str
adapter tick req = elim (leb 9 tick) [
  | true ↦ ok (codes "answer")
  | false ↦ ok (codes "tool_calls")
]

abbrev env : Env ℕ
env = record {
  id = codes "s";
  default_branch_id = codes "main";
  max_reasoning_turns = 4;
  headers = record { name = codes "Accept"; value = codes "json" } ∷ [];
  has_metrics = true;
  has_preprocessor = true;
  audit_config = audit_config;
  audit_prompt = codes "p";
  adapter_name = codes "mock";
  adapter = adapter;
  codec = codec;
  tools =
      some
        (record { runner = runner; decode = decoders; encode = encode; process = λ tick. process });
  to_json = λ fields. codes "{}";
  search = none;
  compactor = none;
  ratio = λ bytes. bytes;
  positive = λ r. ltb 0 r;
  at_least = λ a b. leb b a;
  now = λ tick. suc tick;
  context = λ tick. none;
}

abbrev start : State ℕ
start = record {
  core = record {
    backend = new_memory_backend;
    counter = 0;
    tick = 0;
    scheduler = none;
    indexed = [];
    jobs = [];
  };
  sent = [];
}

turn-calls_le_example :
    length (handle_user_turn env (codes "") (codes "hi") (codes "") start).0.sent ≤ 0 + 4
turn-calls_le_example = turn-calls_le env (codes "") (codes "hi") (codes "") start

turn-Grows_example :
    Grows new_memory_backend
      (handle_user_turn env (codes "") (codes "hi") (codes "") start).0.core.backend
turn-Grows_example = turn-Grows env (codes "") (codes "hi") (codes "") start

turn-within_budget_example :
    All
      (λ r. length (wire_of env (codes "") (codes "hi") (codes "") r) + 768 ≤ 14336)
      (handle_user_turn env (codes "") (codes "hi") (codes "") start).0.sent
turn-within_budget_example = turn-within_budget env (codes "") (codes "hi") (codes "") start refl

turn-Leaves_example :
    All
      (Leaves env
        (branch_or_default env (codes ""))
        (codes "notes")
        (handle_user_turn env (codes "") (codes "hi") (codes "notes") start).0.core.backend)
      (handle_user_turn env (codes "") (codes "hi") (codes "notes") start).0.sent
turn-Leaves_example = turn-Leaves env (codes "") (codes "hi") (codes "notes") start refl
