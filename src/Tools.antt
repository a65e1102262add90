-- ===== src/Tools.antt =====
-- internal/tools: requests to tools, their responses, and the events that record them. An error is
-- its message.
pub mod Buffer
pub mod Decode
pub mod Run
use pancakes_harness.Prelude.{
  ℕ, Bool, true, false, ◌&&◌, ◌||◌, not, Option, none, some, List, [], ◌∷◌, ◌++◌, if◌then◌else◌,
  length,
}
use pancakes_harness.Prelude.Int.{ℤ, pos, is_negative}
use pancakes_harness.Bytes.{Str, codes, ◌==◌}
use pancakes_harness.Sort.{sort_strings}
use pancakes_harness.Json.{of_int}
use pancakes_harness.Eventlog.Event.{
  Fields, end, field, text, int, Event, kind_tool_request, kind_tool_result, kind_tool_failure,
}

abbrev pub invalid_request : Str
invalid_request = codes "invalid tool request"

abbrev pub invalid_response : Str
invalid_response = codes "invalid tool response schema"

abbrev pub type_timeout : Str
type_timeout = codes "timeout"

abbrev pub type_exec : Str
type_exec = codes "exec"

abbrev pub type_schema : Str
type_schema = codes "schema"

abbrev pub type_tool : Str
type_tool = codes "tool"

pub record Request : Type 0 where
  pub tool : Str
  pub call_id : Str
  pub args : Fields
  pub timeout_ms : ℤ

-- `Request.Validate`: whether it returns nil
unfoldable pub is_valid_request : Request → Bool
unfolding ◌==◌
is_valid_request r =
    if r.tool == codes "" || r.call_id == codes "" then false else not (is_negative r.timeout_ms)

pub record Artifact : Type 0 where
  pub name : Str
  pub blob_ref : Str

pub record NormalizedError : Type 0 where
  pub type : Str
  pub message : Str

unfoldable pub is_error_type : Str → Bool
unfolding ◌==◌
is_error_type t = t == type_timeout || t == type_exec || t == type_schema || t == type_tool

-- `NormalizedError.Validate`: whether it returns nil
unfoldable pub is_valid_error : NormalizedError → Bool
unfolding is_error_type ◌==◌
is_valid_error e = is_error_type e.type && not (e.message == codes "")

pub record Response : Type 0 where
  pub ok : Bool
  pub call_id : Str
  pub result : Fields
  pub summary : Str
  pub artifacts : List Artifact
  pub error : Option NormalizedError

-- "%w: …" over the response error
abbrev pub refused : Str → Str
refused detail = invalid_response ++ codes ": " ++ detail

-- the check of the error that a failure carries
unfoldable pub check_failure : Option NormalizedError → Option Str
unfolding is_valid_error
check_failure none = some (refused (codes "failure response must include error"))
check_failure (some e) = if is_valid_error e then none else some invalid_response

unfoldable pub check_success : Option NormalizedError → Option Str
check_success none = none
check_success (some e) = some (refused (codes "success response must not include error"))

-- `Response.ValidateAgainstRequest`: the error, `none` for nil
unfoldable pub validate_against_request : Response → Request → Option Str
unfolding check_failure check_success ◌==◌
validate_against_request r req =
    if req.call_id == codes ""
    then some invalid_request
    else if not (r.call_id == req.call_id)
    then some (refused (codes "call_id mismatch"))
    else if r.ok
    then check_success r.error
    else check_failure r.error

-- the references of the artifacts that have one, in order
unfoldable pub artifact_refs : List Artifact → List Str
unfolding ◌==◌
artifact_refs [] = []
artifact_refs (a ∷ rest_of) =
    let rest = artifact_refs rest_of in if a.blob_ref == codes "" then rest else a.blob_ref ∷ rest

abbrev pub first_ref : List Str → Str
first_ref [] = codes ""
first_ref (r ∷ rs) = r

-- the error that a failure event names
abbrev pub error_of : Option NormalizedError → NormalizedError
error_of none = record { type = type_tool; message = codes "tool failure" }
error_of (some e) = e

module _ (id session_id branch_id : Str) (ts : ℕ) (req : Request) where
  -- `mustJSON` of the arguments and of the result is given.
  unfoldable pub tool_request_event : Str → Event
  tool_request_event args_json = record {
    id = id;
    session_id = session_id;
    ts = ts;
    kind = kind_tool_request;
    branch_id = branch_id;
    parent_event_id = codes "";
    refs = [];
    meta = field (codes "tool") (text req.tool) (
        field (codes "call_id") (text req.call_id) (
          field (codes "timeout_ms") (int req.timeout_ms)
            (field (codes "args_json") (text args_json) end)));
    blob_ref = codes "";
  }

  unfoldable pub tool_result_event : Str → Response → Event
  unfolding artifact_refs sort_strings of_int
  tool_result_event result_json resp = record {
    id = id;
    session_id = session_id;
    ts = ts;
    kind = kind_tool_result;
    branch_id = branch_id;
    parent_event_id = codes "";
    refs = sort_strings (artifact_refs resp.artifacts);
    meta = field (codes "tool") (text req.tool) (
        field (codes "call_id") (text req.call_id) (
          field (codes "summary") (text resp.summary) (
            field (codes "result_json") (text result_json)
              (field (codes "artifact_count") (text (of_int (pos (length resp.artifacts)))) end))));
    blob_ref = first_ref (artifact_refs resp.artifacts);
  }

  unfoldable pub tool_failure_event : Response → Event
  tool_failure_event resp = record {
    id = id;
    session_id = session_id;
    ts = ts;
    kind = kind_tool_failure;
    branch_id = branch_id;
    parent_event_id = codes "";
    refs = [];
    meta = field (codes "tool") (text req.tool) (
        field (codes "call_id") (text req.call_id) (
          field (codes "error_type") (text (error_of resp.error).type)
            (field (codes "error_message") (text (error_of resp.error).message) end)));
    blob_ref = codes "";
  }
