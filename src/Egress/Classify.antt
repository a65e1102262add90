-- ===== src/Egress/Classify.antt =====
-- The `switch` of `SelectWithExplanation`: what becomes of one candidate.
pub mod Safety
use pancakes_harness.Prelude.{ℕ, ◌+◌, Bool, true, false, ◌&&◌, not, ltb, if◌then◌else◌, length}
use pancakes_harness.Prelude.Int.{ℤ, lebℤ, add_nat}
use pancakes_harness.Bytes.{Str, codes, ◌==◌}
use pancakes_harness.Egress.Kinds.{is_debug_never_kind, is_never_egress_kind}

pub data EligibilityClass : Type 0 where
  passthrough summary_only ref_only drop_unless_asked debug_never_class : EligibilityClass

pub data ReasonCode : Type 0 where
  branch_locality recent_turn tool_result summary_checkpoint checkpoint_ref : ReasonCode
  global_relevant budget_fit debug_never non_local sensitive_local ref_unavailable : ReasonCode

pub record Candidate : Type 0 where
  pub id : Str
  pub kind : Str
  pub branch_id : Str
  pub active_branch_id : Str
  pub text : Str
  pub summary_ref : Str
  pub blob_ref : Str
  pub frontier_ordinal : ℤ
  pub is_active_branch : Bool
  pub is_global_relevant : Bool
  pub is_current_user_turn : Bool
  pub is_latest_tool_result : Bool
  pub is_checkpoint : Bool
  pub is_nearest_summary : Bool
  pub is_sensitive_local : Bool

pub record Selected : Type 0 where
  pub id : Str
  pub kind : Str
  pub class : EligibilityClass
  pub reason : ReasonCode
  pub include : Bool
  pub text : Str
  pub summary_ref : Str
  pub blob_ref : Str
  pub frontier_ordinal : ℤ

abbrev pub large_text_bytes : ℕ
large_text_bytes = 1024

abbrev pub stale_distance : ℕ
stale_distance = 8

unfoldable pub is_large_and_stale : Candidate → ℤ → Bool
is_large_and_stale c latest =
    if not (ltb large_text_bytes (length c.text))
    then false
    else if lebℤ latest (add_nat c.frontier_ordinal stale_distance)
    then false
    else true

-- The selection that the switch starts from.
abbrev pub initial : Candidate → Selected
initial c = record {
  id = c.id;
  kind = c.kind;
  class = passthrough;
  reason = branch_locality;
  include = true;
  text = c.text;
  summary_ref = c.summary_ref;
  blob_ref = c.blob_ref;
  frontier_ordinal = c.frontier_ordinal;
}

-- left out, with neither text nor summary
abbrev dropped : EligibilityClass → ReasonCode → Candidate → Selected
dropped class reason c = record (initial c) {
  class = class;
  include = false;
  reason = reason;
  text = codes "";
  summary_ref = codes "";
}

-- kept without its text
abbrev reduced : EligibilityClass → ReasonCode → Candidate → Selected
reduced class reason c = record (initial c) { class = class; reason = reason; text = codes "" }

-- an item of another branch
elsewhere : Candidate → Selected
elsewhere c =
    if c.is_global_relevant
    then if c.blob_ref == codes ""
      then record (reduced drop_unless_asked ref_unavailable c) { include = false }
      else reduced ref_only global_relevant c
    else dropped drop_unless_asked non_local c

-- an item of the active branch
local : ℤ → Candidate → Selected
local latest c =
    if is_debug_never_kind c.kind
    then dropped debug_never_class debug_never c
    else if c.is_sensitive_local
    then dropped drop_unless_asked sensitive_local c
    else if c.is_current_user_turn
    then record (initial c) { reason = recent_turn }
    else if c.is_latest_tool_result
    then reduced summary_only tool_result c
    else if c.is_nearest_summary
    then reduced summary_only summary_checkpoint c
    else if c.is_checkpoint
    then reduced ref_only checkpoint_ref c
    else if is_large_and_stale c latest
    then reduced ref_only budget_fit c
    else initial c

unfoldable pub classify : ℤ → Candidate → Selected
unfolding elsewhere local is_large_and_stale
classify latest c =
    if is_never_egress_kind c.kind
    then dropped debug_never_class debug_never c
    else if not c.is_active_branch
    then elsewhere c
    else local latest c
