-- ===== src/Audit.antt =====
-- internal/audit/audit.go: the tokens of a consult are counted, and after each turn it is decided
-- whether the consult is complete. Costs are floating point: their type, their addition and the whole
-- number that is read of one are parameters. Token counts are 64-bit integers, whose sums
-- wrap around. The ratio of used to allowed tokens reaches 0.75 exactly if four times the one reaches
-- three times the other, which holds of the floating-point quotient too for limits below 2^52.
pub mod Decisions
use pancakes_harness.Prelude.{
  ℕ, zero, suc, ◌+◌, ◌*◌, Bool, true, false, ◌&&◌, not, List, [], ◌∷◌, ◌++◌, ltb, leb,
  if◌then◌else◌, length,
}
use pancakes_harness.Prelude.Int.{ℤ, pos, negsuc, lebℤ}
use pancakes_harness.Prelude.Machine.{add_int}
use pancakes_harness.Bytes.{Str, codes, ◌==◌, trim_space}
use pancakes_harness.Json.{of_int}
use pancakes_harness.Eventlog.Event.{
  Event, Fields, end, field, text, int, float64, flag, kind_audit_decision,
}

pub data Decision : Type 0 where
  continue complete : Decision

abbrev pub decision_text : Decision → Str
decision_text continue = codes "continue"
decision_text complete = codes "complete"

pub record Config : Type 0 where
  pub max_tokens_per_consult : ℤ
  pub auto_terminate : Bool
  pub audit_prompt : Str

pub record AuditResult (C : Type 0) : Type 0 where
  pub decision : Decision
  pub reason : Str
  pub tokens_used : ℤ
  pub tokens_limit : ℕ
  pub cost_cents : C
  pub timestamp : ℕ
  pub turn_number : ℕ

-- The limit is that of the configuration once `NewTracker` has made it positive.
pub record Tracker (C : Type 0) : Type 0 where
  pub max_tokens : ℕ
  pub auto_terminate : Bool
  pub audit_prompt : Str
  pub consult_id : Str
  pub session_id : Str
  pub branch_id : Str
  pub tokens_used : ℤ
  pub cost_cents : C
  pub turn_count : ℕ
  pub audit_decisions : List (AuditResult C)

-- a limit that is not positive is 16000
unfoldable pub limit_of : ℤ → ℕ
limit_of (pos zero) = 16000
limit_of (pos (suc n)) = suc n
limit_of (negsuc n) = 16000

abbrev pub is_complete : Decision → Bool
is_complete continue = false
is_complete complete = true

-- `float64(used) / float64(limit) >= 0.75` for a positive limit
unfoldable pub three_quarters : ℕ → ℤ → Bool
three_quarters limit (pos used) = leb (3 * limit) (4 * used)
three_quarters limit (negsuc used) = false

-- the last of the decisions is complete
unfoldable pub last_complete : {C : Type 0} → List (AuditResult C) → Bool
last_complete [] = false
last_complete (r ∷ []) = is_complete r.decision
last_complete (r ∷ r' ∷ rs) = last_complete (r' ∷ rs)

module _ {C : Type 0} (add : C → C → C) (whole : C → ℤ) (no_cost : C) (default_prompt : Str) where
  -- `NewTracker`; the default prompt is a constant of the package
  unfoldable pub new_tracker : Config → Str → Str → Str → Tracker C
  unfolding limit_of ◌==◌
  new_tracker cfg consult_id session_id branch_id = record {
    max_tokens = limit_of cfg.max_tokens_per_consult;
    auto_terminate = cfg.auto_terminate;
    audit_prompt = if cfg.audit_prompt == codes "" then default_prompt else cfg.audit_prompt;
    consult_id = consult_id;
    session_id = session_id;
    branch_id = branch_id;
    tokens_used = pos 0;
    cost_cents = no_cost;
    turn_count = 0;
    audit_decisions = [];
  }

  -- `runSelfAudit`
  unfoldable pub run_self_audit : Tracker C → Decision
  unfolding three_quarters
  run_self_audit t =
      if three_quarters t.max_tokens t.tokens_used
      then complete
      else if leb 3 t.turn_count
      then complete
      else continue

  abbrev reason_of : Decision → Str
  reason_of complete = codes "self-audit determined enough information"
  reason_of continue = codes "self-audit indicates more turns needed"

  -- the event of `appendAuditEvent`
  unfoldable pub audit_event : Tracker C → AuditResult C → Event
  unfolding of_int trim_space ◌==◌
  audit_event t r = record {
    id =
        codes "audit."
        ++ t.session_id
        ++ codes "."
        ++ of_int (pos t.turn_count)
        ++ codes "."
        ++ of_int (pos r.timestamp);
    session_id = t.session_id;
    ts = r.timestamp;
    kind = kind_audit_decision;
    branch_id = t.branch_id;
    parent_event_id = codes "";
    refs = [];
    meta = field (codes "decision") (text (decision_text r.decision)) (
        field (codes "reason") (text r.reason) (
          field (codes "tokens_used") (int r.tokens_used) (
            field (codes "tokens_limit") (int (pos r.tokens_limit)) (
              field (codes "cost_cents") (float64 (whole r.cost_cents)) (
                field (codes "turn_number") (int (pos r.turn_number)) (
                  field (codes "audit_prompt_used")
                    (flag (not (trim_space t.audit_prompt == codes "")))
                    (field (codes "auto_terminate") (flag t.auto_terminate) end)))))));
    blob_ref = codes "";
  }

  -- the counters, with the turn in
  abbrev pub counted : ℤ → C → Tracker C → Tracker C
  counted tokens cost t = record t {
    tokens_used = add_int t.tokens_used tokens;
    cost_cents = add t.cost_cents cost;
    turn_count = t.turn_count + 1;
  }

  abbrev result_of : Tracker C → ℕ → Decision → Str → AuditResult C
  result_of t now decision reason = record {
    decision = decision;
    reason = reason;
    tokens_used = t.tokens_used;
    tokens_limit = t.max_tokens;
    cost_cents = t.cost_cents;
    timestamp = now;
    turn_number = t.turn_count;
  }

  unfoldable pub judge : ℕ → Tracker C → AuditResult C
  unfolding run_self_audit of_int
  judge now t =
      if ltb 0 t.max_tokens && lebℤ (pos t.max_tokens) t.tokens_used
      then result_of t now complete (
          codes "token budget exhausted ("
          ++ of_int t.tokens_used
          ++ codes "/"
          ++ of_int (pos t.max_tokens)
          ++ codes ")")
      else result_of t now (run_self_audit t) (reason_of (run_self_audit t))

  -- `RecordTurn` at time `now`: the result, the tracker, and the event handed to the callback, whose
  -- error is ignored
  unfoldable pub record_turn : ℕ → ℤ → C → Tracker C → AuditResult C × Tracker C × Event
  unfolding judge audit_event add_int
  record_turn now tokens cost t =
      let t' = counted tokens cost t in
      let r = judge now t' in
      (r, record t' { audit_decisions = t'.audit_decisions ++ r ∷ [] }, audit_event t' r)

  -- `ShouldTerminate`
  unfoldable pub should_terminate : Tracker C → Bool
  unfolding last_complete
  should_terminate t = t.auto_terminate && last_complete t.audit_decisions

  -- any turns, each with its time, its tokens and its cost
  unfoldable pub record_turns : List (ℕ × ℤ × C) → Tracker C → Tracker C
  unfolding record_turn
  record_turns [] t = t
  record_turns ((now, tokens, cost) ∷ turns) t =
      record_turns turns (record_turn now tokens cost t).1
