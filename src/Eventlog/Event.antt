-- ===== src/Eventlog/Event.antt =====
-- internal/eventlog/event.go and kinds.go. Values are immutable here, so the source's defensive
-- copies (`cloneEvent`) are the identity and have no definition.
use pancakes_harness.Prelude.{ℕ, Bool, true, false, Option, none, some, List, if◌then◌else◌, nat_eq}
use pancakes_harness.Prelude.Int.{ℤ}
use pancakes_harness.Bytes.{Str, codes, ◌==◌}

-- A value of Go's `any`, as far as event meta holds it. A `float64` is kept as the integer that
-- `int(v)` makes of it, the one thing that is read of it.
mutual
  pub data Value : Type 0 where
    null : Value
    text : Str → Value
    texts : List Str → Value
    int : ℤ → Value
    int64 : ℤ → Value
    float64 : ℤ → Value
    flag : Bool → Value
    object : Fields → Value
    objects : Objects → Value
    items : Items → Value

  -- `map[string]any`
  pub data Fields : Type 0 where
    end : Fields
    field : Str → Value → Fields → Fields

  -- `[]map[string]any`
  pub data Objects : Type 0 where
    no_objects : Objects
    an_object : Fields → Objects → Objects

  -- `[]any`
  pub data Items : Type 0 where
    no_items : Items
    item : Value → Items → Items

-- `v, ok := meta[key]`
unfoldable pub get_field : Str → Fields → Option Value
unfolding ◌==◌
get_field k end = none
get_field k (field j v m) = if j == k then some v else get_field k m

-- `ts` is 0 at Go's zero time.
pub record Event : Type 0 where
  pub id : Str
  pub session_id : Str
  pub ts : ℕ
  pub kind : Str
  pub branch_id : Str
  pub parent_event_id : Str
  pub refs : List Str
  pub meta : Fields
  pub blob_ref : Str

abbrev pub empty_str : Str
empty_str = codes ""

-- `Event.Validate`: whether it returns nil
unfoldable pub is_valid : Event → Bool
is_valid e =
    if e.id == codes ""
    then false
    else if e.session_id == codes ""
    then false
    else if nat_eq e.ts 0
    then false
    else if e.kind == codes ""
    then false
    else if e.branch_id == codes ""
    then false
    else true

abbrev pub kind_summary_checkpoint : Str
kind_summary_checkpoint = codes "summary.checkpoint"

abbrev pub kind_summary_rebuild : Str
kind_summary_rebuild = codes "summary.rebuild"

abbrev pub kind_branch_fork : Str
kind_branch_fork = codes "branch.fork"

abbrev pub kind_consult_resolved : Str
kind_consult_resolved = codes "consult.resolved"

abbrev pub kind_consult_unresolved : Str
kind_consult_unresolved = codes "consult.unresolved"

abbrev pub kind_recovery_attempt : Str
kind_recovery_attempt = codes "recovery.attempt"

abbrev pub kind_recovery_fallback : Str
kind_recovery_fallback = codes "recovery.fallback"

abbrev pub kind_turn_user : Str
kind_turn_user = codes "turn.user"

abbrev pub kind_turn_agent : Str
kind_turn_agent = codes "turn.agent"

abbrev pub kind_tool_request : Str
kind_tool_request = codes "tool.request"

abbrev pub kind_tool_result : Str
kind_tool_result = codes "tool.result"

abbrev pub kind_tool_failure : Str
kind_tool_failure = codes "tool.failure"

abbrev pub kind_packet_candidate : Str
kind_packet_candidate = codes "packet.candidate"

abbrev pub kind_packet_sent : Str
kind_packet_sent = codes "packet.sent"

abbrev pub kind_packet_rejected : Str
kind_packet_rejected = codes "packet.rejected_budget"

abbrev pub kind_response_received : Str
kind_response_received = codes "response.received"

abbrev pub kind_response_invalid : Str
kind_response_invalid = codes "response.invalid_schema"

abbrev pub kind_audit_decision : Str
kind_audit_decision = codes "audit.decision"

abbrev pub kind_ast_persisted : Str
kind_ast_persisted = codes "ast.persisted"

abbrev pub kind_compaction_request : Str
kind_compaction_request = codes "compaction.request"

abbrev pub kind_compaction_complete : Str
kind_compaction_complete = codes "compaction.complete"

abbrev pub kind_compaction_failure : Str
kind_compaction_failure = codes "compaction.failure"
