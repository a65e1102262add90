-- ===== src/Consultloop.antt =====
-- internal/consultloop/loop.go: a turn is tried on each model in order, again on a recoverable error.
-- A model is whatever has a name; `turn n m` is what the n-th call of the turn function, made with
-- `m`, comes to, an error being its message. The trace keeps these calls, the newest first, the events
-- handed to the callback, and the readings of the clock.
pub mod Attempts
pub mod Outcomes
use pancakes_harness.Prelude.{
  ℕ, zero, suc, ◌+◌, Bool, true, false, ◌||◌, Option, none, some, List, [], ◌∷◌, ◌++◌, ltb,
  if◌then◌else◌, length,
}
use pancakes_harness.Prelude.Result.{Result, ok, err}
use pancakes_harness.Prelude.Int.{ℤ, pos, negsuc, lebℤ}
use pancakes_harness.Bytes.{Str, codes, ◌==◌, contains}
use pancakes_harness.Json.{of_int}
use pancakes_harness.Eventlog.Event.{
  Event, Fields, end, field, text, int, kind_recovery_attempt, kind_recovery_fallback,
}

pub record RecoveryConfig (A : Type 0) : Type 0 where
  pub max_retries : ℤ
  pub fallback_models : List A
  pub recovery_prompt : Str

pub record TurnOutcome : Type 0 where
  pub answer : Str
  pub decision : Str
  pub adapter_name : Str
  pub envelope_bytes : ℤ
  pub tokens_used : ℤ

pub record RecoveryEvent : Type 0 where
  pub attempt_number : ℕ
  pub original_error : Str
  pub recovery_type : Str
  pub model_name : Str
  pub timestamp : ℕ

abbrev default_prompt : Str
default_prompt =
    codes "Continue from last stable checkpoint. Do not repeat prior output. "
    ++ codes "Focus on the user's original query and provide a concise, complete response."

-- `NewExecutor`
unfoldable pub new_executor : {A : Type 0} → RecoveryConfig A → RecoveryConfig A
unfolding ◌==◌
new_executor cfg = record {
  max_retries = if lebℤ cfg.max_retries (pos 0) then pos 1 else cfg.max_retries;
  fallback_models = cfg.fallback_models;
  recovery_prompt = if cfg.recovery_prompt == codes "" then default_prompt else cfg.recovery_prompt;
}

unfoldable pub contains_any : Str → List Str → Bool
unfolding contains
contains_any s [] = false
contains_any s (p ∷ ps) = contains s p || contains_any s ps

unfoldable pub is_recoverable_error : Str → Bool
unfolding contains_any
is_recoverable_error msg =
    contains_any msg (
      codes "token"
      ∷ codes "budget"
      ∷ codes "exhaust"
      ∷ codes "overflow"
      ∷ codes "context_length"
      ∷ [])
    || contains_any msg (
        codes "timeout"
        ∷ codes "rate_limit"
        ∷ codes "service_unavailable"
        ∷ codes "overloaded"
        ∷ [])
    || contains_any msg (codes "context" ∷ codes "too long" ∷ codes "exceeds" ∷ [])

unfoldable pub error_str : Option Str → Str
error_str none = codes ""
error_str (some msg) = msg

unfoldable pub recovery_type : ℕ → ℕ → Str
recovery_type attempt model_idx =
    if ltb 0 model_idx
    then codes "fallback"
    else if ltb 0 attempt
    then codes "retry"
    else codes "initial"

-- the event that `appendRecoveryEvent` hands to the callback
unfoldable pub recovery_event : RecoveryEvent → Event
unfolding ◌==◌
recovery_event rec = record {
  id = codes "recovery." ++ rec.model_name ++ codes "." ++ of_int (pos rec.timestamp);
  session_id = codes "recovery";
  ts = rec.timestamp;
  kind =
      if rec.recovery_type == codes "fallback"
      then kind_recovery_fallback
      else kind_recovery_attempt;
  branch_id = codes "main";
  parent_event_id = codes "";
  refs = [];
  meta = field (codes "attempt_number") (int (pos rec.attempt_number)) (
      field (codes "original_error") (text rec.original_error) (
        field (codes "recovery_type") (text rec.recovery_type) (
          field (codes "model_name") (text rec.model_name)
            (field (codes "recovery_prompt") (text (codes "injected")) end))));
  blob_ref = codes "";
}

pub record Trace (A : Type 0) : Type 0 where
  pub calls : List (A × Result Str TurnOutcome)
  pub events : List Event
  pub readings : ℕ

abbrev pub empty_trace : {A : Type 0} → Trace A
empty_trace = record { calls = []; events = []; readings = 0 }

-- all models exhausted, with the last error
pub data ExecuteError : Type 0 where
  exhausted : Option Str → ExecuteError

-- `rounds max` is how often `for attempt := 0; attempt <= max; attempt++` runs.
abbrev pub rounds : ℤ → ℕ
rounds (pos n) = suc n
rounds (negsuc n) = 0

module _ {A : Type 0} (name : A → Str) (turn : ℕ → A → Result Str TurnOutcome) (now : ℕ → ℕ)
    (recording : Bool) where
  -- `appendRecoveryEvent`, at the next reading of the clock; without a callback it does nothing.
  unfoldable pub append_recovery_event : ℕ → Option Str → Str → A → Trace A → Trace A
  unfolding recovery_event error_str
  append_recovery_event attempt last kind model t =
      let e = recovery_event (record {
        attempt_number = attempt;
        original_error = error_str last;
        recovery_type = kind;
        model_name = name model;
        timestamp = now t.readings;
      }) in
      record t { events = if recording then e ∷ t.events else t.events; readings = t.readings + 1 }

  abbrev pub called : A → Trace A → Trace A
  called model t = record t { calls = (model, turn (length t.calls) model) ∷ t.calls }

  -- `if attempt > 0 || modelIdx > 0`
  unfoldable pub note_success : ℕ → ℕ → Option Str → A → Trace A → Trace A
  unfolding append_recovery_event recovery_type
  note_success attempt model_idx last model t =
      if ltb 0 attempt || ltb 0 model_idx
      then append_recovery_event attempt last (recovery_type attempt model_idx) model t
      else t

  -- `if attempt < maxRetries`
  unfoldable pub note_retry : ℤ → ℕ → Str → A → Trace A → Trace A
  unfolding append_recovery_event
  note_retry max_retries attempt e model t =
      if lebℤ (pos (attempt + 1)) max_retries
      then append_recovery_event (attempt + 1) (some e) (codes "retry") model t
      else t

  -- the attempts on one model: an outcome if one succeeds, and the last error
  unfoldable pub attempts :
      ℤ → ℕ → A → ℕ → ℕ → Option Str → Trace A → Option TurnOutcome × Option Str × Trace A
  unfolding note_success note_retry is_recoverable_error
  attempts max_retries model_idx model zero attempt last t = (none, last, t)
  attempts max_retries model_idx model (suc left) attempt last t =
      elim (turn (length t.calls) model) [
        | ok outcome ↦ (
          some (record outcome { adapter_name = name model }),
          last,
          note_success attempt model_idx last model (called model t),
        )
        | err e ↦ elim (is_recoverable_error e) [
          | true ↦
              attempts max_retries model_idx model left (attempt + 1) (some e)
                (note_retry max_retries attempt e model (called model t))
          | false ↦ (none, some e, called model t)
        ]
      ]

  -- the fallback event, if there is a next model
  unfoldable pub note_fallback : Option Str → List A → Trace A → Trace A
  unfolding append_recovery_event
  note_fallback last [] t = t
  note_fallback last (next ∷ models) t = append_recovery_event 0 last (codes "fallback") next t

  -- the loop over the models
  unfoldable pub try_models :
      ℤ → ℕ → List A → Option Str → Trace A → Result ExecuteError TurnOutcome × Trace A
  unfolding attempts note_fallback
  try_models max_retries model_idx [] last t = (err (exhausted last), t)
  try_models max_retries model_idx (model ∷ models) last t =
      let (reached, last', t') =
        attempts max_retries model_idx model (rounds max_retries) 0 last t in
      elim reached [
        | some outcome ↦ (ok outcome, t')
        | none ↦ try_models max_retries (model_idx + 1) models last' (note_fallback last' models t')
      ]

  abbrev pub models_of : RecoveryConfig A → A → List A
  models_of cfg adapter = elim cfg.fallback_models [ [] ↦ adapter ∷ [] | m ∷ ms ↦ m ∷ ms ]

  -- `Execute`
  unfoldable pub execute : RecoveryConfig A → A → Result ExecuteError TurnOutcome × Trace A
  unfolding try_models
  execute cfg adapter = try_models cfg.max_retries 0 (models_of cfg adapter) none empty_trace
