-- ===== src/Tools/Run.antt =====
-- `Run` of internal/tools/runner.go. The process is given: what it writes to its outputs, piece by
-- piece, whether it fails, and whether the deadline passed, for its command, its input and its time
-- limit in nanoseconds; so is the encoder of the request.
use pancakes_harness.Prelude.{
  ◌≡◌, Bool, false, Option, none, some, List, ◌++◌, if◌then◌else◌, if_both, inl, inr,
}
use pancakes_harness.Prelude.Result.{Result, ok, err, Result-cases}
use pancakes_harness.Prelude.Int.{ℤ, pos, lebℤ}
use pancakes_harness.Prelude.Machine.{mul_int}
use pancakes_harness.Bytes.{Str, codes, ◌==◌, trim_space}
use pancakes_harness.Dict.{Dict, lookup}
use pancakes_harness.Json.{of_int}
use pancakes_harness.Tools.{
  invalid_request, type_timeout, type_exec, type_schema, Request, is_valid_request, Response,
  validate_against_request,
}
use pancakes_harness.Tools.Buffer.{CappedBuffer, new_capped_buffer, write_all}
use pancakes_harness.Tools.Decode.{
  Decoders, failure_from_error, decode_and_normalize, validate-failure, validate-decode,
}

pub record CommandSpec : Type 0 where
  pub path : Str
  pub args : List Str

pub record Runner : Type 0 where
  pub commands : Dict CommandSpec
  pub max_stdout_bytes : ℤ
  pub max_stderr_bytes : ℤ

abbrev default_max_stdout_bytes : ℤ
default_max_stdout_bytes = pos 1_048_576

abbrev default_max_stderr_bytes : ℤ
default_max_stderr_bytes = pos 262_144

-- `NewRunnerWithLimits`
unfoldable pub new_runner_with_limits : Dict CommandSpec → ℤ → ℤ → Runner
new_runner_with_limits commands max_stdout max_stderr = record {
  commands = commands;
  max_stdout_bytes = if lebℤ max_stdout (pos 0) then default_max_stdout_bytes else max_stdout;
  max_stderr_bytes = if lebℤ max_stderr (pos 0) then default_max_stderr_bytes else max_stderr;
}

pub record ProcessRun : Type 0 where
  pub stdout : List Str
  pub stderr : List Str
  pub fails : Bool
  pub past_deadline : Bool

abbrev pub Process : Type 0
Process = CommandSpec → Str → ℤ → ProcessRun

-- `time.Duration(req.TimeoutMS) * time.Millisecond`, and 15 s where that is not positive
unfoldable pub timeout_of : ℤ → ℤ
unfolding mul_int
timeout_of ms =
    let timeout = mul_int ms (pos 1_000_000) in
    if lebℤ timeout (pos 0) then pos 15_000_000_000 else timeout

-- the message of a process that failed
unfoldable pub failure_message : Runner → CappedBuffer → Str
unfolding trim_space of_int ◌==◌
failure_message r stderr =
    let trimmed = trim_space stderr.buf in
    let msg = codes "tool subprocess failed" in
    let msg = if trimmed == codes "" then msg else msg ++ codes ": " ++ trimmed in
    if stderr.truncated
    then msg ++ codes " [stderr truncated at " ++ of_int r.max_stderr_bytes ++ codes " bytes]"
    else msg

module _ (decode : Decoders) (encode : Request → Result Str Str) (process : Process) where
  unfoldable pub or_failure : Request → Result Str Response → Response
  unfolding failure_from_error
  or_failure req (ok resp) = resp
  or_failure req (err e) = failure_from_error req.call_id type_schema e

  -- after the process has run
  unfoldable pub read_output : Runner → Request → ProcessRun → Response
  unfolding new_capped_buffer write_all failure_message failure_from_error decode_and_normalize
      or_failure of_int
  read_output r req p =
      let stdout = write_all p.stdout (new_capped_buffer r.max_stdout_bytes) in
      let stderr = write_all p.stderr (new_capped_buffer r.max_stderr_bytes) in
      if p.past_deadline
      then failure_from_error req.call_id type_timeout (codes "tool execution timed out")
      else if stdout.truncated
      then failure_from_error req.call_id type_schema
          (codes "tool stdout exceeded " ++ of_int r.max_stdout_bytes ++ codes " bytes limit")
      else if p.fails
      then failure_from_error req.call_id type_exec (failure_message r stderr)
      else or_failure req (decode_and_normalize decode stdout.buf req)

  unfoldable pub run_command : Runner → Request → CommandSpec → Response
  unfolding read_output timeout_of failure_from_error
  run_command r req spec = elim (encode req) [
    | err e ↦ failure_from_error req.call_id type_schema (codes "request json encode failed: " ++ e)
    | ok input ↦ read_output r req (process spec input (timeout_of req.timeout_ms))
  ]

  -- the command of a tool, if it has a path
  unfoldable pub command_of : Runner → Str → Option CommandSpec
  unfolding lookup ◌==◌
  command_of r tool = elim (lookup tool r.commands) [
    | none ↦ none
    | some spec ↦ if spec.path == codes "" then none else some spec
  ]

  unfoldable pub run : Runner → Request → Response
  unfolding is_valid_request failure_from_error command_of run_command
  run r req =
      if is_valid_request req
      then (elim (command_of r req.tool) [
        | none ↦ failure_from_error req.call_id type_exec (codes "tool executable not configured")
        | some spec ↦ run_command r req spec
      ])
      else failure_from_error req.call_id type_schema invalid_request

  module _ (r : Runner) (req : Request) (named : (req.call_id == codes "") ≡ false) where
    Fits : Response → Type 0
    Fits resp = validate_against_request resp req ≡ none

    failed : (type message : Str) → Fits (failure_from_error req.call_id type message)
    unfolding Fits
    failed type message = validate-failure req type message named

    decoded-Fits : (out : Str) → Fits (or_failure req (decode_and_normalize decode out req))
    unfolding Fits or_failure
    decoded-Fits out = elim (Result-cases (decode_and_normalize decode out req)) [
      | inl (resp, e) ↦ rw (or_failure, e) (validate-decode decode out req resp e)
      | inr (msg, e) ↦ rw (or_failure, e) (failed type_schema msg)
    ]

    read_output-Fits : (p : ProcessRun) → Fits (read_output r req p)
    unfolding read_output
    read_output-Fits p =
        let stdout = write_all p.stdout (new_capped_buffer r.max_stdout_bytes) in
        let stderr = write_all p.stderr (new_capped_buffer r.max_stderr_bytes) in
        let too_long =
          codes "tool stdout exceeded " ++ of_int r.max_stdout_bytes ++ codes " bytes limit" in
        if_both Fits p.past_deadline (failed type_timeout (codes "tool execution timed out")) (
          if_both Fits stdout.truncated (failed type_schema too_long) (
            if_both Fits p.fails (failed type_exec (failure_message r stderr))
              (decoded-Fits stdout.buf)))

    run_command-Fits : (spec : CommandSpec) → Fits (run_command r req spec)
    unfolding run_command
    run_command-Fits spec = elim (Result-cases (encode req)) [
      | inl (input, e) ↦
          rw (run_command, e) (read_output-Fits (process spec input (timeout_of req.timeout_ms)))
      | inr (msg, e) ↦
          rw (run_command, e) (failed type_schema (codes "request json encode failed: " ++ msg))
    ]

    command-Fits :
        (o : Option CommandSpec)
        → Fits (elim o [
          | none ↦ failure_from_error req.call_id type_exec (codes "tool executable not configured")
          | some spec ↦ run_command r req spec
        ])
    command-Fits none = failed type_exec (codes "tool executable not configured")
    command-Fits (some spec) = run_command-Fits spec

    run-Fits : Fits (run r req)
    unfolding run
    run-Fits =
        if_both Fits (is_valid_request req) (command-Fits (command_of r req.tool))
          (failed type_schema invalid_request)

    -- The response of `Run` to a request with a call id always fits the request: it carries that id,
    -- a success carries no error, and a failure carries one of a known type with a message.
    pub validate-run : validate_against_request (run r req) req ≡ none
    unfolding Fits
    validate-run = run-Fits
