-- ===== src/Runtime.antt =====
-- internal/runtime/session.go: a session over the in-memory backend.
--
-- The state of a session is `State`: its core (the backend, the counter of ids, the scheduler, what
-- was indexed and handed to the preprocessor) and the requests that were handed to the model adapter.
-- What the session is configured with, and what it meets, is `Env`: every reading of the clock or of
-- the context, every answer of the adapter, of a tool process and of the compactor is that of the
-- core's tick, which each of them moves on. Metrics only count, and are the flag that they are there.
pub mod Monad
pub mod Selection
pub mod Assembly
pub mod ToolCalls
pub mod Compaction
pub mod Turn
pub mod Session
pub mod Trace
pub mod Sending
pub mod Texts
pub mod Items
pub mod Growth
pub mod Kept
pub mod Log
pub mod Course
pub mod Invariant
pub mod Budget
pub mod Contents
use pancakes_harness.Prelude.{ℕ, Bool, Option, List}
use pancakes_harness.Prelude.Result.{Result}
use pancakes_harness.Prelude.Int.{ℤ}
use pancakes_harness.Bytes.{Str}
use pancakes_harness.Eventlog.Event.{Event, Fields}
use pancakes_harness.Eventlog.Store.{Context}
use pancakes_harness.Backend.{BackendError, MemoryBackend}
use pancakes_harness.Assembler.Packet.{Header}
use pancakes_harness.Compactor.Scheduler.{Scheduler, ScheduleConfig}
use pancakes_harness.Audit
use pancakes_harness.Model.{ModelError, Codec}
use pancakes_harness.Model
use pancakes_harness.Tools.Decode.{Decoders}
use pancakes_harness.Tools.Run.{Runner, Process}
use pancakes_harness.Tools

pub data RunError : Type 0 where
  invalid_config packet_budget_rejected no_tool_runner max_reasoning_turns : RunError
  malformed_decision : RunError
  backend_failed : BackendError → RunError
  model_failed : ModelError → RunError

-- what a compaction pass answers, as far as the session reads it; the percentage is printed
pub record CompactResponse : Type 0 where
  pub summary_id : Str
  pub blob_ref : Str
  pub raw_ast : Str
  pub input_events : ℤ
  pub output_bytes : ℤ
  pub chunk_count : ℤ
  pub merge_pass : Bool
  pub compression_pct : Str
  pub input_tokens : ℤ
  pub output_tokens : ℤ
  pub leaves_in_ast : ℕ

pub record Compactor : Type 0 where
  pub name : Str
  pub compact : ℕ → List Event → Result Str CompactResponse
  pub latency_ms : ℕ → ℤ

pub record ToolRunner : Type 0 where
  pub runner : Runner
  pub decode : Decoders
  pub encode : Tools.Request → Result Str Str
  pub process : ℕ → Process

-- preprocess.Job
pub record Job : Type 0 where
  pub id : Str
  pub session_id : Str
  pub branch_id : Str
  pub text : Str
  pub ts : ℕ

pub record Env (R : Type 0) : Type 0 where
  pub id : Str
  pub default_branch_id : Str
  pub max_reasoning_turns : ℕ
  pub headers : List Header
  pub has_metrics : Bool
  pub has_preprocessor : Bool
  pub audit_config : Audit.Config
  pub audit_prompt : Str
  pub adapter_name : Str
  pub adapter : ℕ → Model.Request → Result ModelError Str
  pub codec : Codec
  pub tools : Option ToolRunner
  -- `mustJSON`
  pub to_json : Fields → Str
  -- the ids that the memory manager finds among the indexed events
  pub search : Option (List Event → Str → List Str)
  pub compactor : Option Compactor
  -- `float64(bytes) / float64(MaxEnvelopeBytes)` and the scheduler's comparisons
  pub ratio : ℕ → R
  pub positive : R → Bool
  pub at_least : R → R → Bool
  pub now : ℕ → ℕ
  pub context : ℕ → Context

pub record Core (R : Type 0) : Type 0 where
  pub backend : MemoryBackend
  pub counter : ℕ
  pub tick : ℕ
  pub scheduler : Option (Scheduler R)
  pub indexed : List Event
  pub jobs : List Job

pub record State (R : Type 0) : Type 0 where
  pub core : Core R
  pub sent : List Model.Request
