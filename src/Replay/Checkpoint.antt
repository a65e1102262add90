-- ===== src/Replay/Checkpoint.antt =====
-- internal/summaries, and the rebuild of one branch from a summary checkpoint and the events after
-- its basis. The two estimates and the version are Go integers, which may be negative.
pub mod Agreement
pub mod Basis
use pancakes_harness.Prelude.{
  Bool, true, false, ◌&&◌, ◌||◌, Option, none, some, List, [], ◌∷◌, if◌then◌else◌, keep,
}
use pancakes_harness.Prelude.Int.{ℤ, is_negative}
use pancakes_harness.Prelude.Result.{Result, ok, err, ◌>>=◌}
use pancakes_harness.Bytes.{Str, codes, ◌==◌}
use pancakes_harness.Eventlog.Event.{Event}
use pancakes_harness.Eventlog.Event
use pancakes_harness.Branchdag
use pancakes_harness.Branchdag.{BranchError, Branch, append_to_branch}

pub record SummaryCheckpoint : Type 0 where
  pub summary_id : Str
  pub branch_id : Str
  pub basis_event_id : Str
  pub covered_start : Str
  pub covered_end : Str
  pub text_ref : Str
  pub blob_ref : Str
  pub byte_estimate : ℤ
  pub token_estimate : ℤ
  pub freshness_version : ℤ

-- `SummaryCheckpoint.Validate`: whether it returns nil
unfoldable pub checkpoint_valid : SummaryCheckpoint → Bool
checkpoint_valid c =
    if c.summary_id == codes "" || c.branch_id == codes "" || c.basis_event_id == codes ""
    then false
    else if c.covered_start == codes "" || c.covered_end == codes ""
    then false
    else if c.text_ref == codes "" && c.blob_ref == codes ""
    then false
    else if is_negative c.byte_estimate
        || is_negative c.token_estimate
        || is_negative c.freshness_version
    then false
    else true

pub data DeltaError : Type 0 where
  invalid_branch invalid_checkpoint branch_mismatch invalid_event basis_not_found : DeltaError
  branch_error : BranchError → DeltaError

-- an error of `AppendToBranch`, passed on
abbrev pub lifted : Result BranchError Branch → Result DeltaError Branch
lifted (ok b) = ok b
lifted (err e) = err (branch_error e)

-- the loop over the delta, for the branch with this id
unfoldable pub apply_delta : Str → Branch → List Event → Result DeltaError Branch
apply_delta id out [] = ok out
apply_delta id out (e ∷ es) =
    let skipped = apply_delta id out es in
    let appended = lifted (append_to_branch out e.id) >>= λ next. apply_delta id next es in
    if Event.is_valid e then if e.branch_id == id then appended else skipped else err invalid_event

-- the branch that the delta starts from
abbrev pub at_checkpoint : Branch → SummaryCheckpoint → Branch
at_checkpoint b c = record b {
  base_summary_id = c.summary_id;
  head_event_id = c.basis_event_id;
  dirty_ranges = [];
}

-- `RebuildBranchFromSummaryDelta`
unfoldable pub rebuild_from_delta :
    Branch → SummaryCheckpoint → List Event → Result DeltaError Branch
unfolding apply_delta checkpoint_valid
rebuild_from_delta b c events =
    if Branchdag.is_valid b
    then if checkpoint_valid c
      then if c.branch_id == b.branch_id
        then apply_delta b.branch_id (at_checkpoint b c) events
        else err branch_mismatch
      else err invalid_checkpoint
    else err invalid_branch

-- `sessionEvents[basisIdx+1:]` for the first event with the basis' id, `none` where there is none
unfoldable pub after_basis : Str → List Event → Option (List Event)
after_basis id [] = none
after_basis id (e ∷ es) = if e.id == id then some es else after_basis id es

delta_found : Option (List Event) → Branch → SummaryCheckpoint → Result DeltaError Branch
delta_found none b c = err basis_not_found
delta_found (some rest) b c = rebuild_from_delta b c (keep (λ e. e.branch_id == b.branch_id) rest)

-- `RebuildBranchFromSummaryAndEvents`
unfoldable pub rebuild_from_events :
    Branch → SummaryCheckpoint → List Event → Result DeltaError Branch
unfolding delta_found after_basis
rebuild_from_events b c events =
    if checkpoint_valid c
    then delta_found (after_basis c.basis_event_id events) b c
    else err invalid_checkpoint
