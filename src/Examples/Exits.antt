-- ===== src/Examples/Exits.antt =====
-- A turn of the active branch, and a debugging event.
use pancakes_harness.Prelude.{◌≡◌, ◌↔◌, true, false, List, [], ◌∷◌}
use pancakes_harness.Prelude.Int.{pos}
use pancakes_harness.Bytes.{codes}
use pancakes_harness.Egress.Classify.{Candidate, classify}
use pancakes_harness.Egress.Classify.Safety.{MayLeave, include_iff_MayLeave}
use pancakes_harness.Egress.Select.{select_with_explanation}
use pancakes_harness.Egress.Select.Tallies.{Explains, explanation_accounts}

abbrev turn : Candidate
turn = record {
  id = codes "e1";
  kind = codes "turn.user";
  branch_id = codes "m";
  active_branch_id = codes "m";
  text = codes "hi";
  summary_ref = codes "";
  blob_ref = codes "";
  frontier_ordinal = pos 1;
  is_active_branch = true;
  is_global_relevant = false;
  is_current_user_turn = true;
  is_latest_tool_result = false;
  is_checkpoint = false;
  is_nearest_summary = false;
  is_sensitive_local = false;
}

abbrev secret : Candidate
secret = record turn { id = codes "e2"; is_sensitive_local = true }

include_iff_MayLeave_example : ((classify (pos 1) turn).include ≡ true) ↔ MayLeave turn
include_iff_MayLeave_example = include_iff_MayLeave (pos 1) turn

abbrev candidates : List Candidate
candidates = turn ∷ secret ∷ []

explanation_accounts_example :
    Explains (select_with_explanation candidates).1 (select_with_explanation candidates).0
explanation_accounts_example = explanation_accounts candidates
