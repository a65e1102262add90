-- ===== src/Runtime/Turn.antt =====
-- `handleUserTurn`: the loop of reasoning turns.
use pancakes_harness.Prelude.{
  ℕ, zero, suc, ◌+◌, Bool, false, ◌&&◌, Option, none, some, List, [], ◌∷◌, ◌++◌, if◌then◌else◌,
}
use Prim.Native.Nat.{◌/◌}
use pancakes_harness.Prelude.Result.{Result, ok, err}
use pancakes_harness.Prelude.Int.{ℤ, pos}
use pancakes_harness.Bytes.{Str, codes, ◌==◌}
use pancakes_harness.Eventlog.Event.{Event, end, field, text, kind_turn_agent, kind_packet_sent}
use pancakes_harness.Backend.{append_event}
use pancakes_harness.Assembler.Packet.{Packet}
use pancakes_harness.Egress.Classify.{Selected}
use pancakes_harness.Egress.Select.{Explanation}
use pancakes_harness.Compactor.Scheduler.{record_budget_pressure}
use pancakes_harness.Audit.{Tracker, record_turn, should_terminate, is_complete}
use pancakes_harness.Model.{
  ModelError, Request, CallResult, Response, is_valid_request, execute_and_persist,
}
use pancakes_harness.Runtime.{
  Env, Core, State, RunError, max_reasoning_turns, malformed_decision, model_failed,
}
use pancakes_harness.Runtime.Monad.{Action, pure, modify, ◌>>=◌, next_event_id, append, new_event}
use pancakes_harness.Runtime.Assembly.{Assembly, packet_meta, assemble_for_branch}
use pancakes_harness.Runtime.ToolCalls.{execute_tool_calls}
use pancakes_harness.Runtime.Compaction.{schedule, record_turn_and_maybe_compact}

pub record TurnResult : Type 0 where
  pub session_id : Str
  pub branch_id : Str
  pub answer : Str
  pub decision : Str
  pub packet_envelope_bytes : ℕ
  pub selected : List Selected
  pub explanation : Option Explanation

abbrev pub zero_result : TurnResult
zero_result = record {
  session_id = codes "";
  branch_id = codes "";
  answer = codes "";
  decision = codes "";
  packet_envelope_bytes = 0;
  selected = [];
  explanation = none;
}

-- A step of the loop goes on with a value or ends the turn with a result and an error, if any.
pub data Step (A : Type 0) : Type 0 where
  go : A → Step A
  stop : TurnResult → Option RunError → Step A

abbrev pub Round : Type 0 → Type 0 → Type 0
Round R A = State R → State R × Step A

abbrev pub step_of : {A : Type 0} → Result RunError A → Step A
step_of (ok a) = go a
step_of (err e) = stop zero_result (some e)

module _ {R : Type 0} where
  -- an action on the core, whose error ends the turn
  unfoldable pub lift : {A : Type 0} → Action R A → Round R A
  lift m s = let (c, r) = m s.core in (record s { core = c }, step_of r)

  abbrev pub next_step : {A B : Type 0} → State R × Step A → (A → Round R B) → State R × Step B
  next_step (s, go a) k = k a s
  next_step (s, stop r e) k = (s, stop r e)

infixl 5 ◌>>>◌
unfoldable pub ◌>>>◌ : {R A B : Type 0} → Round R A → (A → Round R B) → Round R B
◌>>>◌ m k s = next_step (m s) k

-- The session records no costs: all of them are 0.
abbrev pub Cents : Type 0
Cents = Unit

abbrev pub no_cost_added : Cents → Cents → Cents
no_cost_added a b = tt

abbrev pub no_cents : Cents → ℤ
no_cents a = pos 0

module _ {R : Type 0} (env : Env R) where
  -- `auditTracker.RecordTurn`; its event is appended in a context of its own. It tells whether the
  -- audit ends the turn.
  unfoldable pub audit : ℕ → Option (Tracker Cents) → Action R (Option (Tracker Cents) × Bool)
  unfolding record_turn should_terminate append_event
  audit tokens none c = (c, ok (none, false))
  audit tokens (some t) c =
      let (result, t', e) =
        record_turn no_cost_added no_cents tt env.audit_prompt (env.now c.tick) (pos tokens) tt t in
      let (b, _) = append_event none e c.backend in
      let ends =
        should_terminate no_cost_added no_cents tt env.audit_prompt t'
        && is_complete result.decision in
      (record c { backend = b; tick = c.tick + 1 }, ok (some t', ends))

  abbrev answer_result : Str → Assembly → Response → TurnResult
  answer_result branch a r = record {
    session_id = env.id;
    branch_id = branch;
    answer = r.answer;
    decision = r.decision;
    packet_envelope_bytes = a.packet.measurement.envelope_bytes;
    selected = a.selected;
    explanation = some a.explanation;
  }

  -- a result that only tells the size of the last packet
  abbrev partial_result : Str → ℕ → TurnResult
  partial_result branch bytes = record zero_result {
    session_id = env.id;
    branch_id = branch;
    packet_envelope_bytes = bytes;
  }

  -- `ExecuteAndPersist`: the adapter is handed a valid request, which is kept, and may fail
  unfoldable pub call_model : Request → Str → Round R (Result ModelError CallResult)
  unfolding is_valid_request execute_and_persist
  call_model req event_id s =
      let c = s.core in
      let (b, r) =
        execute_and_persist env.codec env.adapter_name (env.adapter c.tick req) req event_id
          (env.now c.tick) (env.context c.tick) (env.context (c.tick + 1)) c.backend in
      (
        record s {
          core = record c { backend = b; tick = c.tick + 2 };
          sent = if is_valid_request env.codec req then req ∷ s.sent else s.sent;
        },
        go r,
      )

  -- the agent's event for an answer
  unfoldable pub append_answer : Str → Response → Action R Event
  unfolding new_event append
  append_answer branch r =
      new_event env (codes "turn.agent") kind_turn_agent branch
        (field (codes "text") (text r.answer) end)
      >>= λ e. append env e >>= λ _. pure e

  unfoldable pub index : Event → Core R → Core R
  index e c = elim env.search [ none ↦ c | some _ ↦ record c { indexed = c.indexed ++ e ∷ [] } ]

  -- an answer: it is recorded, indexed, and the turn is counted for compaction
  unfoldable pub finish : Str → Assembly → Response → Round R (Option (Tracker Cents))
  unfolding append_answer record_turn_and_maybe_compact index
  finish branch a r =
      lift (
        append_answer branch r >>= λ e.
        modify (index e) >>= λ _. record_turn_and_maybe_compact env branch)
      >>> λ _. λ s. (s, stop (answer_result branch a r) none)

  -- an answer that the audit ends the turn with
  unfoldable pub finish_early : Str → Assembly → Response → Round R (Option (Tracker Cents))
  unfolding append_answer
  finish_early branch a r =
      lift (append_answer branch r) >>> λ _. λ s. (s, stop (answer_result branch a r) none)

  -- the `switch` on the decision
  unfoldable pub decide :
      Str → Assembly → Option (Tracker Cents) → Bool → Response → Round R (Option (Tracker Cents))
  unfolding finish finish_early execute_tool_calls ◌==◌
  decide branch a tracker ends r s =
      if ends && r.decision == codes "answer"
      then finish_early branch a r s
      else if r.decision == codes "answer"
      then finish branch a r s
      else if r.decision == codes "tool_calls"
      then (lift (execute_tool_calls env branch r.tool_calls) >>> λ _. λ s'. (s', go tracker)) s
      else if r.decision == codes "continue"
      then (s, go tracker)
      else (s, stop zero_result (some malformed_decision))

  -- after the call of the model
  unfoldable pub respond :
      Str
      → Assembly
      → Option (Tracker Cents)
      → Result ModelError CallResult
      → Round R (Option (Tracker Cents))
  unfolding audit decide
  respond branch a tracker (err e) = lift (audit 0 tracker) >>> λ _. λ s.
      (s, stop (partial_result branch a.packet.measurement.envelope_bytes) (some (model_failed e)))
  respond branch a tracker (ok called) =
      lift (audit (a.packet.measurement.envelope_bytes / 4) tracker) >>> λ (t, ends).
      decide branch a t ends called.response

  -- the packet of a round and the ids and the event before the call
  unfoldable pub prepare : Str → Str → Action R (Assembly × Str)
  unfolding assemble_for_branch schedule record_budget_pressure next_event_id new_event append
      packet_meta
  prepare branch external_context = assemble_for_branch env branch external_context >>= λ a.
      modify
        (schedule env (λ _. record_budget_pressure (env.ratio a.packet.measurement.envelope_bytes)))
      >>= λ _. next_event_id env (codes "response") >>= λ id.
          new_event env (codes "packet.sent") kind_packet_sent branch (packet_meta a.packet)
          >>= λ e. append env e >>= λ _. pure (a, id)

  abbrev pub call_request : Str → Packet → Request
  call_request branch p = record { session_id = env.id; branch_id = branch; packet = p.body_json }

  -- one reasoning turn: the tracker of the next and the size of the packet
  unfoldable pub round : Str → Str → Option (Tracker Cents) → Round R (Option (Tracker Cents) × ℕ)
  unfolding prepare call_model respond
  round branch external_context tracker = lift (prepare branch external_context) >>> λ (a, id).
      call_model (call_request branch a.packet) id >>> λ called.
      respond branch a tracker called >>> λ t. λ s. (s, go (t, a.packet.measurement.envelope_bytes))

  -- the loop, with the rounds left
  unfoldable pub rounds :
      Str → Str → ℕ → Option (Tracker Cents) → ℕ → State R → State R × TurnResult × Option RunError
  unfolding round
  rounds branch external_context zero tracker bytes s =
      (s, partial_result branch bytes, some max_reasoning_turns)
  rounds branch external_context (suc left) tracker bytes s =
      let (s', step) = round branch external_context tracker s in
      elim step [
        | stop r e ↦ (s', r, e)
        | go next ↦ rounds branch external_context left next.0 next.1 s'
      ]

  abbrev pub branch_or_default : Str → Str
  branch_or_default branch = if branch == codes "" then env.default_branch_id else branch
