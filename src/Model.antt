-- ===== src/Model.antt =====
-- internal/model: requests to a model, the validation of its answers, and their record in the
-- backend. The adapter's answer is given, an answer being bytes or any of the errors; so are
-- json.Valid and the two decodings of an answer.
use pancakes_harness.Prelude.{
  ℕ, Bool, true, false, ◌&&◌, ◌||◌, not, Option, none, some, List, [], ◌∷◌, ◌++◌, if◌then◌else◌,
  length,
}
use pancakes_harness.Prelude.Result.{Result, ok, err, ◌>>=◌}
use pancakes_harness.Prelude.Int.{pos}
use pancakes_harness.Bytes.{Str, codes, ◌==◌}
use pancakes_harness.Dict.{Dict, lookup}
use pancakes_harness.Eventlog.Event.{
  Event, Fields, end, field, text, int, kind_response_received, kind_response_invalid,
}
use pancakes_harness.Eventlog.Store.{Context}
use pancakes_harness.Backend.{BackendError, MemoryBackend, append_event, append_blob}

-- A malformed answer and a failed call carry their message.
pub data ModelError : Type 0 where
  invalid_request : ModelError
  malformed : Str → ModelError
  call_failed : Str → ModelError
  persist_failed : BackendError → ModelError

pub record Request : Type 0 where
  pub session_id : Str
  pub branch_id : Str
  pub packet : Str

pub record ToolCall : Type 0 where
  pub tool : Str
  pub call_id : Str
  pub args : Fields

pub record Response : Type 0 where
  pub decision : Str
  pub answer : Str
  pub tool_calls : List ToolCall
  pub summary_delta : Str
  pub branch_ops : List Str
  pub unresolved_refs : List Str
  pub raw_provider_payload : Fields

pub record CallResult : Type 0 where
  pub response : Response
  pub raw : Str

pub record Codec : Type 0 where
  pub json_valid : Str → Bool
  pub top : Str → Option (Dict Str)
  pub response : Str → Option Response

abbrev pub malformed_response : Str
malformed_response = codes "malformed model response"

unfoldable pub has_tools : List ToolCall → Bool
unfolding ◌==◌
has_tools [] = true
has_tools (c ∷ cs) = let rest = has_tools cs in if c.tool == codes "" then false else rest

abbrev no_calls : List ToolCall → Bool
no_calls [] = true
no_calls (c ∷ cs) = false

-- `Response.Validate`: whether it returns nil
unfoldable pub is_valid_response : Response → Bool
unfolding has_tools ◌==◌
is_valid_response r =
    if r.decision == codes ""
    then false
    else if not (
        r.decision == codes "answer"
        || r.decision == codes "tool_calls"
        || r.decision == codes "continue")
    then false
    else if r.decision == codes "answer" && r.answer == codes ""
    then false
    else if r.decision == codes "tool_calls" && no_calls r.tool_calls
    then false
    else has_tools r.tool_calls

abbrev or_malformed : {A : Type 0} → Str → Option A → Result ModelError A
or_malformed detail none = err (malformed (malformed_response ++ codes ": " ++ detail))
or_malformed detail (some a) = ok a

module _ (codec : Codec) where
  -- `Request.Validate`: whether it returns nil
  unfoldable pub is_valid_request : Request → Bool
  unfolding ◌==◌
  is_valid_request r =
      if r.session_id == codes "" || r.branch_id == codes ""
      then false
      else if r.packet == codes "" || not (codec.json_valid r.packet)
      then false
      else true

  unfoldable pub parse_and_validate : Str → Result ModelError Response
  unfolding lookup is_valid_response
  parse_and_validate raw = or_malformed (codes "invalid json") (codec.top raw) >>= λ top.
      or_malformed (codes "missing decision") (lookup (codes "decision") top) >>= λ _.
      or_malformed (codes "schema decode failed") (codec.response raw) >>= λ resp.
      if is_valid_response resp then ok resp else err (malformed malformed_response)

  -- `Execute`; the adapter is called exactly for a valid request
  unfoldable pub execute : Result ModelError Str → Request → Result ModelError CallResult
  unfolding is_valid_request parse_and_validate
  execute answer req =
      let called = answer >>= λ raw.
      parse_and_validate raw >>= λ resp. ok (record { response = resp; raw = raw }) in
      if is_valid_request req then called else err invalid_request

-- `if err := …; err != nil { return …, ErrBackendPersistFailed }`
unfoldable pub persisted :
    {A : Type 0}
    → MemoryBackend × Option BackendError
    → (MemoryBackend → MemoryBackend × Result ModelError A)
    → MemoryBackend × Result ModelError A
persisted (b, some e) k = (b, err (persist_failed e))
persisted (b, none) k = k b

module _ (adapter_name : Str) (req : Request) (event_id : Str) (ts : ℕ) where
  invalid_event : Str → Event
  invalid_event message = record {
    id = event_id ++ codes ".invalid";
    session_id = req.session_id;
    ts = ts;
    kind = kind_response_invalid;
    branch_id = req.branch_id;
    parent_event_id = codes "";
    refs = [];
    meta = field (codes "adapter") (text adapter_name) (field (codes "error") (text message) end);
    blob_ref = codes "";
  }

  blob_ref_of : Str
  blob_ref_of = codes "blob://model/" ++ req.session_id ++ codes "/" ++ event_id

  received_event : CallResult → Event
  unfolding blob_ref_of
  received_event result = record {
    id = event_id ++ codes ".received";
    session_id = req.session_id;
    ts = ts;
    kind = kind_response_received;
    branch_id = req.branch_id;
    parent_event_id = codes "";
    refs = [];
    meta = field (codes "adapter") (text adapter_name) (
        field (codes "decision") (text result.response.decision) (
          field (codes "unresolved_refs") (int (pos (length result.response.unresolved_refs)))
            end));
    blob_ref = blob_ref_of;
  }

  -- what `ExecuteAndPersist` writes for an answer or an error, the two writes being made in the
  -- contexts `c1` and `c2`
  unfoldable pub persist :
      Context
      → Context
      → Result ModelError CallResult
      → MemoryBackend
      → MemoryBackend × Result ModelError CallResult
  unfolding invalid_event received_event blob_ref_of append_event append_blob
  persist c1 c2 (ok result) b =
      persisted (append_blob c1 blob_ref_of result.raw b)
        (λ b'. persisted (append_event c2 (received_event result) b') (λ b''. (b'', ok result)))
  persist c1 c2 (err (malformed message)) b =
      persisted (append_event c1 (invalid_event message) b) (λ b'. (b', err (malformed message)))
  persist c1 c2 (err e) b = (b, err e)

-- `ExecuteAndPersist`
unfoldable pub execute_and_persist :
    Codec
    → Str
    → Result ModelError Str
    → Request
    → Str
    → ℕ
    → Context
    → Context
    → MemoryBackend
    → MemoryBackend × Result ModelError CallResult
unfolding execute persist
execute_and_persist codec adapter_name answer req event_id ts c1 c2 b =
    persist adapter_name req event_id ts c1 c2 (execute codec answer req) b
