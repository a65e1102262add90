-- ===== src/Tooling/Gate/Checks.antt =====
-- `Check` and `CheckAll` of internal/tooling/gate.go. `strconv.Quote`, which a reason is printed with,
-- is given.
use pancakes_harness.Prelude.{
  Bool, true, false, none, some, List, [], ◌∷◌, ◌++◌, map, if◌then◌else◌,
}
use pancakes_harness.Bytes.{Str, codes, ◌==◌}
use pancakes_harness.Dict.{lookup}
use pancakes_harness.Eventlog.Event.{end}
use pancakes_harness.Replay.Graph.{read_meta_string}
use pancakes_harness.Tooling.Gate.{
  Verdict, accept, abstain, Call, Check, Decision, Gate, key_mismatch, ungrounded, resolve,
}
use pancakes_harness.Tooling.Gate.Support.{fits}

abbrev pub passed : Str → Check
passed rule = record { rule = rule; ok = true; detail = codes "" }

abbrev pub refused : Call → Str → List Check → Str → Str → Decision
refused call reason before rule detail = record {
  verdict = abstain;
  reason = reason;
  call = call;
  checks = before ++ record { rule = rule; ok = false; detail = detail } ∷ [];
}

abbrev pub exists : Check
exists = passed (codes "tool_exists")

abbrev pub shaped : Check
shaped = passed (codes "schema")

abbrev pub grounded : Check
grounded = passed (codes "grounding")

abbrev pub is_accept : Verdict → Bool
is_accept accept = true
is_accept abstain = false

abbrev pub no_support : Call → Decision
no_support call =
    refused call (codes "the request names nothing this tool set can act on") []
      (codes "request_supported") (codes "")

abbrev pub no_call : Call
no_call = record { name = codes ""; args = end }

unfoldable pub unsupported : List Call → List Decision
unsupported [] = no_support no_call ∷ []
unsupported (call ∷ calls) = map no_support (call ∷ calls)

module _ (quote : Str → Str) where
  -- the last rule
  unfoldable pub check_resolution : Gate → Call → Decision
  unfolding resolve ◌==◌
  check_resolution g call =
      if resolve g call == codes ""
      then record {
        verdict = accept;
        reason = codes "ok";
        call = call;
        checks = exists ∷ shaped ∷ grounded ∷ passed (codes "resolution") ∷ [];
      }
      else refused call (resolve g call) (exists ∷ shaped ∷ grounded ∷ []) (codes "resolution")
          (resolve g call)

  -- the rules on the arguments of a tool with these inputs
  unfoldable pub check_declared : Gate → Str → Call → List Str → Decision
  unfolding key_mismatch ungrounded check_resolution read_meta_string ◌==◌
  check_declared g query call declared =
      let detail = key_mismatch declared call.args in
      let values : Decision = elim (ungrounded query declared call.args) [
        | some key ↦
            refused call
              (codes "value "
                ++ quote (read_meta_string call.args key)
                ++ codes " is not in the request")
              (exists ∷ shaped ∷ []) (codes "grounding") key
        | none ↦ check_resolution g call
      ] in
      if detail == codes ""
      then values
      else refused call detail (exists ∷ []) (codes "schema") detail

  -- `Check`
  unfoldable pub check : Gate → Str → Call → Decision
  unfolding lookup check_declared
  check g query call = elim (lookup call.name g.tools) [
    | none ↦ refused call (codes "unknown tool: " ++ call.name) [] (codes "tool_exists") call.name
    | some declared ↦ check_declared g query call declared
  ]

  unfoldable pub check_each : Gate → Str → List Call → List Call × List Decision
  unfolding check
  check_each g query [] = ([], [])
  check_each g query (call ∷ calls) =
      let (kept, decisions) = check_each g query calls in
      let d = check g query call in
      (if is_accept d.verdict then call ∷ kept else kept, d ∷ decisions)

  -- `CheckAll`
  unfoldable pub check_all : Gate → Str → List Call → List Call × List Decision
  unfolding fits unsupported check_each
  check_all g query calls =
      if fits g query then check_each g query calls else ([], unsupported calls)
