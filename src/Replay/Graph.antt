-- ===== src/Replay/Graph.antt =====
-- `RebuildBranchStateFromEvents`: the branch graph, event by event. An error stops the pass.
pub mod Steps
pub mod Effect
pub mod Total
pub mod Map
use pancakes_harness.Prelude.{Bool, true, false, Option, none, some, List, [], ◌∷◌, if◌then◌else◌}
use pancakes_harness.Prelude.Result.{Result, ok, err, ◌>>=◌}
use pancakes_harness.Bytes.{Str, codes, ◌==◌}
use pancakes_harness.Dict.{Dict, insert}
use pancakes_harness.Eventlog.Event.{
  Value, null, text, texts, int, int64, float64, flag, object, objects, items, Fields, get_field,
  Event, kind_summary_checkpoint, kind_summary_rebuild, kind_branch_fork,
}
use pancakes_harness.Eventlog.Event
use pancakes_harness.Branchdag.{
  BranchError, branch_exists, Branch, bare_branch, new_graph, Outcome, create_branch, fork_branch,
  append_event, set_base_summary, rebase_on_summary, get_branch, list_branches,
}
use pancakes_harness.Branchdag

pub data GraphError : Type 0 where
  invalid_event : GraphError
  branch_error : BranchError → GraphError

abbrev pub string_of : Option Value → Str
string_of (some (text s)) = s
string_of _ = codes ""

-- `readMetaString`
unfoldable pub read_meta_string : Fields → Str → Str
unfolding get_field
read_meta_string meta key = string_of (get_field key meta)

abbrev pub Rebuilt : Type 0
Rebuilt = Result GraphError Branchdag.Graph

-- `if _, err := …; err != nil { return nil, err }`
abbrev pub checked : Outcome → Rebuilt
checked (g, ok b) = ok g
checked (g, err e) = err (branch_error e)

-- `!errors.Is(err, ErrBranchExists)`
abbrev pub checked_fork : Outcome → Rebuilt
checked_fork (g, ok b) = ok g
checked_fork (g, err branch_exists) = ok g
checked_fork (g, err e) = err (branch_error e)

ensure_missing : Result BranchError Branch → Str → Branchdag.Graph → Outcome
ensure_missing (ok b) id g = (g, ok b)
ensure_missing (err e) id g = create_branch (bare_branch id) g

unfoldable pub ensure_branch : Str → Branchdag.Graph → Outcome
unfolding ensure_missing
ensure_branch id g = ensure_missing (get_branch id g) id g

-- the branch that the event is on, made where it is missing
unfoldable pub open_branch : Event → Branchdag.Graph → Rebuilt
open_branch e g =
    let parent = read_meta_string e.meta (codes "parent_branch_id") in
    if e.kind == kind_branch_fork
    then if parent == codes ""
      then checked (ensure_branch e.branch_id g)
      else (checked (ensure_branch parent g) >>= λ g'.
          checked_fork (fork_branch e.branch_id parent e.parent_event_id g'))
    else checked (ensure_branch e.branch_id g)

-- `SetBaseSummary` for a checkpoint that names its summary
checkpoint_event : Event → Branchdag.Graph → Rebuilt
checkpoint_event e g =
    let summary = read_meta_string e.meta (codes "summary_id") in
    if summary == codes "" then ok g else checked (set_base_summary e.branch_id summary g)

-- `RebaseOnSummary` for a rebuild that names its summary
rebuild_event : Event → Branchdag.Graph → Rebuilt
rebuild_event e g =
    let summary = read_meta_string e.meta (codes "summary_id") in
    let basis = read_meta_string e.meta (codes "basis_event_id") in
    if e.kind == kind_summary_rebuild
    then if summary == codes ""
      then ok g
      else checked (rebase_on_summary e.branch_id summary basis g)
    else ok g

-- the rest of the loop's body
unfoldable pub apply_event : Event → Branchdag.Graph → Rebuilt
unfolding checkpoint_event rebuild_event
apply_event e g =
    if e.kind == kind_summary_checkpoint
    then checkpoint_event e g
    else (checked (append_event e.branch_id e.id g) >>= rebuild_event e)

unfoldable pub replay_event : Event → Branchdag.Graph → Rebuilt
unfolding open_branch apply_event
replay_event e g =
    if Event.is_valid e then (open_branch e g >>= apply_event e) else err invalid_event

unfoldable pub replay_events : List Event → Branchdag.Graph → Rebuilt
replay_events [] g = ok g
replay_events (e ∷ es) g = replay_event e g >>= replay_events es

-- the map that the function returns, by branch id
by_id : Dict Branch → List Branch → Dict Branch
by_id out [] = out
by_id out (b ∷ bs) = by_id (insert b.branch_id b out) bs

unfoldable pub rebuild_branch_state : List Event → Result GraphError (Dict Branch)
unfolding by_id replay_events
rebuild_branch_state events =
    replay_events events new_graph >>= λ g. ok (by_id [] (list_branches g))
