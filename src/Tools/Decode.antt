-- ===== src/Tools/Decode.antt =====
-- `DecodeAndNormalizeResponse` and `FailureFromError` of internal/tools/runner.go. The decoders of
-- encoding/json are given: each says what the target holds after the call, or fails; the first, on
-- the whole, fails with a message. A response that is accepted fits its request.
use mathlib.Core.Path.{subst}
use pancakes_harness.Prelude.{
  ◌≡◌, refl, Bool, true, false, Option, none, some, List, [], ◌++◌, if◌then◌else◌, Bool-cases, inl,
  inr,
}
use pancakes_harness.Prelude.Result.{Result, ok, err, ◌>>=◌, bind_ok, ok_injective}
use pancakes_harness.Bytes.{Str, codes, ◌==◌, eq_self}
use pancakes_harness.Dict.{Dict, lookup}
use pancakes_harness.Eventlog.Event.{Fields, end}
use pancakes_harness.Tools.{
  type_tool, Request, Artifact, NormalizedError, is_error_type, is_valid_error, Response, refused,
  check_failure, validate_against_request,
}

pub record Decoders : Type 0 where
  pub top : Str → Result Str (Dict Str)
  pub bool : Str → Option Bool
  pub string : Str → Option Str
  pub fields : Str → Option Fields
  pub artifacts : Str → Option (List Artifact)
  pub error : Str → Option NormalizedError

-- `FailureFromError`
unfoldable pub failure_from_error : Str → Str → Str → Response
unfolding is_error_type ◌==◌
failure_from_error call_id type message = record {
  ok = false;
  call_id = if call_id == codes "" then codes "unknown" else call_id;
  result = end;
  summary = codes "";
  artifacts = [];
  error = some (record {
    type = if is_error_type type then type else type_tool;
    message = if message == codes "" then codes "tool execution failed" else message;
  });
}

unfoldable pub or_refuse : {A : Type 0} → Str → Option A → Result Str A
or_refuse detail none = err (refused detail)
or_refuse detail (some a) = ok a

-- what a failure's error is made of
unfoldable pub normalize_error : NormalizedError → NormalizedError
unfolding is_valid_error ◌==◌
normalize_error e = if is_valid_error e then e else record {
  type = type_tool;
  message = if e.message == codes "" then codes "tool reported failure" else e.message;
}

module _ (decode : Decoders) where
  open decode use {top, bool, string, fields, artifacts, error}

  -- a field that is there, decoded
  unfoldable pub field_of : {A : Type 0} → (Str → Option A) → Str → Str → Dict Str → Result Str A
  unfolding lookup or_refuse
  field_of read key detail m =
      or_refuse (codes "missing " ++ key) (lookup key m) >>= λ raw. or_refuse detail (read raw)

  unfoldable pub decode_call_id : Dict Str → Result Str Str
  unfolding field_of or_refuse ◌==◌
  decode_call_id m = field_of string (codes "call_id") (codes "invalid call_id") m >>= λ id.
      if id == codes "" then err (refused (codes "invalid call_id")) else ok id

  unfoldable pub require : Str → Dict Str → Result Str Str
  unfolding lookup or_refuse
  require key m = or_refuse (codes "success response missing " ++ key) (lookup key m)

  -- the fields of a success, all of which are looked for before one is decoded
  unfoldable pub decode_success : Str → Dict Str → Result Str Response
  unfolding require or_refuse
  decode_success call_id m = require (codes "result") m >>= λ raw_result.
      require (codes "summary") m >>= λ raw_summary.
      require (codes "artifacts") m >>= λ raw_artifacts.
      or_refuse (codes "invalid result") (fields raw_result) >>= λ result.
      or_refuse (codes "invalid summary") (string raw_summary) >>= λ summary.
      or_refuse (codes "invalid artifacts") (artifacts raw_artifacts) >>= λ artifacts. ok (record {
        ok = true;
        call_id = call_id;
        result = result;
        summary = summary;
        artifacts = artifacts;
        error = none;
      })

  unfoldable pub decode_failure : Str → Dict Str → Result Str Response
  unfolding or_refuse normalize_error lookup
  decode_failure call_id m =
      or_refuse (codes "failure response missing error") (lookup (codes "error") m) >>= λ raw.
      or_refuse (codes "invalid error field") (error raw) >>= λ e. ok (record {
        ok = false;
        call_id = call_id;
        result = end;
        summary = codes "";
        artifacts = [];
        error = some (normalize_error e);
      })

  unfoldable pub top_of : Str → Result Str (Dict Str)
  top_of raw = elim (top raw) [
    | ok m ↦ ok m
    | err msg ↦ err (refused (codes "invalid json: " ++ msg))
  ]

  -- the response, before it is checked against its request
  unfoldable pub decode_response : Str → Result Str Response
  unfolding top_of field_of decode_call_id decode_success decode_failure
  decode_response raw = top_of raw >>= λ m.
      field_of bool (codes "ok") (codes "ok must be boolean") m >>= λ is_ok.
      decode_call_id m >>= λ call_id.
      if is_ok then decode_success call_id m else decode_failure call_id m

abbrev checked_by : Response → Option Str → Result Str Response
checked_by resp none = ok resp
checked_by resp (some e) = err e

unfoldable pub decode_and_normalize : Decoders → Str → Request → Result Str Response
unfolding decode_response validate_against_request
decode_and_normalize decode raw req =
    decode_response decode raw >>= λ resp. checked_by resp (validate_against_request resp req)

valid_type : (t : Str) → is_error_type (if is_error_type t then t else type_tool) ≡ true
unfolding is_error_type ◌==◌
valid_type t = elim (Bool-cases (is_error_type t)) [ inl h ↦ rw (h, h) refl | inr h ↦ rw h refl ]

or_default :
    (m d : Str) → (d == codes "") ≡ false → ((if m == codes "" then d else m) == codes "") ≡ false
or_default m d h = elim (Bool-cases (m == codes "")) [ inl e ↦ rw e h | inr e ↦ rw e e ]

-- A failure's error is valid, whatever the arguments.
failure_is_valid :
    (call_id type message : Str)
    → check_failure (failure_from_error call_id type message).error ≡ none
unfolding check_failure failure_from_error is_valid_error ◌==◌
failure_is_valid call_id type message =
    rw (valid_type type, or_default message (codes "tool execution failed") refl) refl

failure_keeps_id :
    (call_id type message : Str)
    → (call_id == codes "") ≡ false
    → (failure_from_error call_id type message).call_id ≡ call_id
unfolding failure_from_error
failure_keeps_id call_id type message h = rw h refl

pub validate-failure :
    (req : Request) (type message : Str)
    → (req.call_id == codes "") ≡ false
    → validate_against_request (failure_from_error req.call_id type message) req ≡ none
unfolding validate_against_request failure_from_error
validate-failure req type message h =
    let same = (eq_self req.call_id) in rw (h, same) (failure_is_valid req.call_id type message)

checked_lem :
    (resp out : Response) (o : Option Str) → checked_by resp o ≡ ok out → (o ≡ none) × (resp ≡ out)
checked_lem resp out none h = (refl, ok_injective h)
checked_lem resp out (some e) h = cc

-- An accepted response fits its request.
pub validate-decode :
    (decode : Decoders) (raw : Str) (req : Request) (out : Response)
    → decode_and_normalize decode raw req ≡ ok out
    → validate_against_request out req ≡ none
unfolding decode_and_normalize
validate-decode decode raw req out h =
    let (resp, _, checked) =
      bind_ok (decode_response decode raw)
        (λ resp. checked_by resp (validate_against_request resp req)) h in
    let (fits, same) = checked_lem resp out (validate_against_request resp req) checked in
    subst (λ r. validate_against_request r req ≡ none) same fits
