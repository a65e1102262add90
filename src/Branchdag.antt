-- ===== src/Branchdag.antt =====
-- internal/branchdag: branches as pointers into the event log, and the graph that holds them.
-- `score` is a float64 that the package only copies; its bit pattern stands for it.
pub mod Laws
pub mod Ranges
use pancakes_harness.Prelude.{
  ℕ, Bool, true, false, ◌||◌, Option, none, some, List, [], ◌∷◌, map, if◌then◌else◌,
}
use pancakes_harness.Prelude.Result.{Result, ok, err}
use pancakes_harness.Bytes.{Str, codes, ◌==◌}
use pancakes_harness.Dict.{Dict, lookup, insert, keys}
use pancakes_harness.Sort.{sort_strings}

pub data BranchError : Type 0 where
  invalid_branch branch_exists branch_not_found invalid_event_id invalid_parent_ref : BranchError

pub record DirtyRange : Type 0 where
  pub start_event_id : Str
  pub end_event_id : Str

pub record Branch : Type 0 where
  pub branch_id : Str
  pub parent_branch_id : Str
  pub fork_event_id : Str
  pub head_event_id : Str
  pub base_summary_id : Str
  pub dirty_ranges : List DirtyRange
  pub score : ℕ
  pub materialized_hint : Str

-- `Branch{BranchID: id}`
abbrev pub bare_branch : Str → Branch
bare_branch id = record {
  branch_id = id;
  parent_branch_id = codes "";
  fork_event_id = codes "";
  head_event_id = codes "";
  base_summary_id = codes "";
  dirty_ranges = [];
  score = 0;
  materialized_hint = codes "";
}

-- the loop of `Branch.Validate`
ranges_valid : List DirtyRange → Bool
ranges_valid [] = true
ranges_valid (r ∷ rs) =
    if r.start_event_id == codes "" || r.end_event_id == codes "" then false else ranges_valid rs

-- `Branch.Validate`: whether it returns nil
unfoldable pub is_valid : Branch → Bool
unfolding ranges_valid
is_valid b = if b.branch_id == codes "" then false else ranges_valid b.dirty_ranges

-- `out.DirtyRanges[last].EndEventID = eventID`, or the first range
unfoldable pub extend_last : Str → List DirtyRange → List DirtyRange
extend_last e [] = record { start_event_id = e; end_event_id = e } ∷ []
extend_last e (r ∷ []) = record r { end_event_id = e } ∷ []
extend_last e (r ∷ q ∷ rs) = r ∷ extend_last e (q ∷ rs)

unfoldable pub append_to_branch : Branch → Str → Result BranchError Branch
unfolding extend_last
append_to_branch b event_id =
    if event_id == codes ""
    then err invalid_event_id
    else if is_valid b
    then ok
        (record b { dirty_ranges = extend_last event_id b.dirty_ranges; head_event_id = event_id })
    else err invalid_branch

pub record Graph : Type 0 where
  pub branches : Dict Branch

abbrev pub new_graph : Graph
new_graph = record { branches = [] }

-- A method returns the graph that it leaves behind and its result.
abbrev pub Outcome : Type 0
Outcome = Graph × Result BranchError Branch

store : Str → Branch → Graph → Outcome
store id b g = (record { branches = insert id b g.branches }, ok b)

create_absent : Option Branch → Branch → Graph → Outcome
unfolding store
create_absent (some _) b g = (g, err branch_exists)
create_absent none b g = store b.branch_id b g

unfoldable pub create_branch : Branch → Graph → Outcome
unfolding create_absent
create_branch b g =
    if is_valid b
    then create_absent (lookup b.branch_id g.branches) b g
    else (g, err invalid_branch)

fork_from : Option Branch → Str → Str → Str → Graph → Outcome
unfolding store
fork_from none child parent fork g = (g, err invalid_parent_ref)
fork_from (some p) child parent fork g =
    store child
      (record {
        branch_id = child;
        parent_branch_id = parent;
        fork_event_id = fork;
        head_event_id = p.head_event_id;
        base_summary_id = p.base_summary_id;
        dirty_ranges = p.dirty_ranges;
        score = p.score;
        materialized_hint = codes "";
      })
      g

fork_absent : Option Branch → Str → Str → Str → Graph → Outcome
unfolding fork_from
fork_absent (some _) child parent fork g = (g, err branch_exists)
fork_absent none child parent fork g = fork_from (lookup parent g.branches) child parent fork g

unfoldable pub fork_branch : Str → Str → Str → Graph → Outcome
unfolding fork_absent
fork_branch child parent fork g =
    if child == codes "" || parent == codes ""
    then (g, err invalid_branch)
    else fork_absent (lookup child g.branches) child parent fork g

append_updated : Str → Result BranchError Branch → Graph → Outcome
unfolding store
append_updated id (ok b) g = store id b g
append_updated id (err e) g = (g, err e)

append_found : Str → Str → Option Branch → Graph → Outcome
unfolding append_updated
append_found id event_id none g = (g, err branch_not_found)
append_found id event_id (some b) g = append_updated id (append_to_branch b event_id) g

unfoldable pub append_event : Str → Str → Graph → Outcome
unfolding append_found
append_event id event_id g = append_found id event_id (lookup id g.branches) g

summary_found : Str → Str → Option Branch → Graph → Outcome
unfolding store
summary_found id summary_id none g = (g, err branch_not_found)
summary_found id summary_id (some b) g = store id (record b { base_summary_id = summary_id }) g

unfoldable pub set_base_summary : Str → Str → Graph → Outcome
unfolding summary_found
set_base_summary id summary_id g = summary_found id summary_id (lookup id g.branches) g

-- the branch that `RebaseOnSummary` stores
abbrev pub rebased : Str → Str → Branch → Branch
rebased summary_id basis b = record b {
  base_summary_id = summary_id;
  head_event_id = if basis == codes "" then b.head_event_id else basis;
  dirty_ranges = [];
}

rebase_found : Str → Str → Str → Option Branch → Graph → Outcome
unfolding store
rebase_found id summary_id basis none g = (g, err branch_not_found)
rebase_found id summary_id basis (some b) g = store id (rebased summary_id basis b) g

unfoldable pub rebase_on_summary : Str → Str → Str → Graph → Outcome
unfolding rebase_found
rebase_on_summary id summary_id basis g = rebase_found id summary_id basis (lookup id g.branches) g

got : Option Branch → Result BranchError Branch
got none = err branch_not_found
got (some b) = ok b

unfoldable pub get_branch : Str → Graph → Result BranchError Branch
unfolding got
get_branch id g = got (lookup id g.branches)

-- `g.branches[k]`, the zero branch where it is missing
unfoldable pub at_key : Option Branch → Branch
at_key none = bare_branch (codes "")
at_key (some b) = b

unfoldable pub list_branches : Graph → List Branch
unfolding at_key
list_branches g = map (λ k. at_key (lookup k g.branches)) (sort_strings (keys g.branches))
