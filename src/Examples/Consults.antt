-- ===== src/Examples/Consults.antt =====
-- The manifest of a consult with one item, measured by an encoder that writes a fingerprint.
use pancakes_harness.Prelude.{List, ◌≡◌, ◌↔◌, refl, false, none, [], ◌∷◌, ◌++◌}
use pancakes_harness.Prelude.Int.{pos}
use pancakes_harness.Bytes.{Str, codes, ◌==◌, trim_space}
use pancakes_harness.Consult.{SelectedItem, Manifest}
use pancakes_harness.Preflight.{normalize_constraints}
use pancakes_harness.Consult.Generate.{
  Input, draft, with_size, within_budget, measured_bytes, generate,
}
use pancakes_harness.Consult.Generate.Outcomes.{
  Succeeds, IsWellFormed, IsMarked, generate_iff, generate-IsMarked,
}

abbrev item : SelectedItem
item = record {
  id = codes "e1";
  kind = codes "turn.user";
  ref = codes "";
  summary_ref = codes "";
  bytes = pos 2;
  reason = codes "recent_turn";
}

abbrev input : Input
input = record {
  session_id = codes "s";
  branch_id = codes "m";
  fingerprint = codes "f";
  mode = codes "read";
  scope = codes "";
  refs = [];
  constraints = [];
  selected_items = item ∷ [];
  byte_budget = pos 4;
  compacted = false;
  truncated = false;
  task_summary = codes "t";
  selection = none;
}

abbrev encode : Manifest → Str
encode m = codes "{}" ++ m.fingerprint

abbrev manifest : Manifest
manifest = within_budget encode (with_size encode (draft input [] (item ∷ []) none))

generate_iff_example : Succeeds (generate encode input) ↔ IsWellFormed input
generate_iff_example = generate_iff encode input

generate-IsMarked_example :
    (manifest.actual_bytes ≡ measured_bytes encode manifest) × IsMarked encode manifest
unfolding generate ◌==◌ trim_space normalize_constraints
generate-IsMarked_example = generate-IsMarked encode input manifest refl

abbrev asking : List Str → Input
asking refs = record input { refs = refs }
