-- ===== src/Consult.antt =====
-- internal/consult/types.go: manifests and event summaries, which the stores hold.
pub mod Generate
pub mod Meta
use pancakes_harness.Prelude.{Bool, false, Option, none, List, []}
use pancakes_harness.Prelude.Int.{ℤ, pos}
use pancakes_harness.Bytes.{Str, codes}
use pancakes_harness.Dict.{Dict}

pub record SelectedItem : Type 0 where
  pub id : Str
  pub kind : Str
  pub ref : Str
  pub summary_ref : Str
  pub bytes : ℤ
  pub reason : Str

pub record SelectionItem : Type 0 where
  pub id : Str
  pub kind : Str
  pub reason : Str
  pub class : Str

pub record ReasonCount : Type 0 where
  pub reason : Str
  pub count : ℤ

pub record SelectionExplanation : Type 0 where
  pub included : List SelectionItem
  pub excluded : List SelectionItem
  pub dominant_inclusion_reasons : List ReasonCount
  pub dominant_exclusion_reasons : List ReasonCount
  pub budget_pressure : Bool

pub record Manifest : Type 0 where
  pub event_id : Str
  pub session_id : Str
  pub branch_id : Str
  pub fingerprint : Str
  pub mode : Str
  pub scope : Str
  pub refs : List Str
  pub constraints : Dict Str
  pub selected_items : List SelectedItem
  pub byte_budget : ℤ
  pub actual_bytes : ℤ
  pub compacted : Bool
  pub truncated : Bool
  pub serializer_version : Str
  pub task_summary : Str
  pub selection : Option SelectionExplanation

pub record EventSummary : Type 0 where
  pub schema_version : Str
  pub fingerprint : Str
  pub contract_version : Str
  pub manifest_serializer_version : Str
  pub outcome : Str
  pub role : Str
  pub leader_consult_event_id : Str
  pub byte_budget : ℤ
  pub actual_bytes : ℤ
  pub task_summary : Str
  pub missing : List Str
  pub selection : Option SelectionExplanation

-- Go's zero value of the struct
abbrev pub zero_manifest : Manifest
zero_manifest = record {
  event_id = codes "";
  session_id = codes "";
  branch_id = codes "";
  fingerprint = codes "";
  mode = codes "";
  scope = codes "";
  refs = [];
  constraints = [];
  selected_items = [];
  byte_budget = pos 0;
  actual_bytes = pos 0;
  compacted = false;
  truncated = false;
  serializer_version = codes "";
  task_summary = codes "";
  selection = none;
}
