-- ===== src/Runtime/Selection.antt =====
-- The first half of `assembleForBranch`: the candidates of a session's events, and the working set of
-- those that are selected.
use pancakes_harness.Prelude.{
  ℕ, ◌+◌, Bool, true, false, ◌&&◌, ◌||◌, not, Option, none, some, List, [], ◌∷◌, ◌++◌, map, leb,
  if◌then◌else◌,
}
use pancakes_harness.Prelude.Int.{pos}
use pancakes_harness.Bytes.{Str, codes, ◌==◌, count_fields}
use pancakes_harness.Eventlog.Event.{
  Event, kind_turn_user, kind_turn_agent, kind_tool_request, kind_tool_result, kind_tool_failure,
  kind_summary_checkpoint,
}
use pancakes_harness.Replay.Graph.{read_meta_string}
use pancakes_harness.Egress.Classify.{Candidate, Selected}
use pancakes_harness.Assembler.Packet.{WorkingItem}

-- the id of the last event of a kind on the branch, from `latest` on
unfoldable pub latest_id : Str → Str → Str → List Event → Str
unfolding ◌==◌
latest_id branch kind latest [] = latest
latest_id branch kind latest (e ∷ es) =
    latest_id branch kind
      (if e.branch_id == branch && e.kind == kind && not (e.id == codes "") then e.id else latest)
      es

-- the ids that the first loop finds
pub record Latest : Type 0 where
  pub user : Str
  pub tool_result : Str
  pub checkpoint : Str

unfoldable pub latest_of : Str → List Event → Latest
unfolding latest_id
latest_of branch es = record {
  user = latest_id branch kind_turn_user (codes "") es;
  tool_result = latest_id branch kind_tool_result (codes "") es;
  checkpoint = latest_id branch kind_summary_checkpoint (codes "") es;
}

abbrev is_turn : Event → Bool
is_turn e = e.kind == kind_turn_user || e.kind == kind_turn_agent

-- the text of a candidate, by the kind of its event
unfoldable pub text_of : Event → Str
unfolding read_meta_string ◌==◌
text_of e =
    if is_turn e
    then read_meta_string e.meta (codes "text")
    else if e.kind == kind_tool_result
    then read_meta_string e.meta (codes "summary")
    else codes ""

abbrev reference : Str → Str → Str
reference prefix id = if id == codes "" then codes "" else prefix ++ id

unfoldable pub summary_ref_of : Event → Str
unfolding read_meta_string ◌==◌
summary_ref_of e =
    if e.kind == kind_tool_result
    then reference (codes "summary://tool/") (read_meta_string e.meta (codes "call_id"))
    else if e.kind == kind_summary_checkpoint
    then reference (codes "summary://checkpoint/") (read_meta_string e.meta (codes "summary_id"))
    else codes ""

unfoldable pub candidate_of : Str → Latest → ℕ → Event → Candidate
unfolding text_of summary_ref_of read_meta_string ◌==◌
candidate_of branch latest i e =
    let active = e.branch_id == branch in
    record {
      id = e.id;
      kind = e.kind;
      branch_id = e.branch_id;
      active_branch_id = branch;
      text = text_of e;
      summary_ref = summary_ref_of e;
      blob_ref = e.blob_ref;
      frontier_ordinal = pos i;
      is_active_branch = active;
      is_global_relevant = read_meta_string e.meta (codes "global_relevant") == codes "true";
      is_current_user_turn = active && e.id == latest.user;
      is_latest_tool_result = active && e.id == latest.tool_result;
      is_checkpoint = active && e.kind == kind_summary_checkpoint;
      is_nearest_summary = active && e.id == latest.checkpoint;
      is_sensitive_local = e.kind == kind_tool_request || e.kind == kind_tool_failure;
    }

unfoldable pub candidates_from : Str → Latest → ℕ → List Event → List Candidate
unfolding candidate_of
candidates_from branch latest i [] = []
candidates_from branch latest i (e ∷ es) =
    candidate_of branch latest i e ∷ candidates_from branch latest (i + 1) es

-- the text of the latest user turn
unfoldable pub latest_query : Str → Latest → Str → List Event → Str
unfolding text_of ◌==◌
latest_query branch latest query [] = query
latest_query branch latest query (e ∷ es) =
    latest_query branch latest
      (if e.kind == kind_turn_user && e.branch_id == branch && e.id == latest.user
        then text_of e
        else query)
      es

unfoldable pub is_among : Str → List Str → Bool
unfolding ◌==◌
is_among id [] = false
is_among id (j ∷ js) = j == id || is_among id js

-- a candidate that the search found is relevant to all
unfoldable pub mark_found : List Str → Candidate → Candidate
unfolding is_among
mark_found ids c = if is_among c.id ids then record c { is_global_relevant = true } else c

-- the search, for a query of two words at least
unfoldable pub enrich :
    Option (List Event → Str → List Str) → List Event → Str → List Candidate → List Candidate
unfolding mark_found count_fields
enrich none indexed query cs = cs
enrich (some search) indexed query cs =
    if leb 2 (count_fields query) then map (mark_found (search indexed query)) cs else cs

unfoldable pub candidates :
    Option (List Event → Str → List Str) → List Event → Str → List Event → List Candidate
unfolding enrich latest_query candidates_from latest_of
candidates search indexed branch es =
    let latest = latest_of branch es in
    enrich search indexed (latest_query branch latest (codes "") es)
      (candidates_from branch latest 0 es)

abbrev pub item_of : Selected → WorkingItem
item_of s = record {
  id = s.id;
  kind = s.kind;
  text = s.text;
  summary_ref = s.summary_ref;
  blob_ref = s.blob_ref;
  frontier_ordinal = s.frontier_ordinal;
  provenance = codes "";
  provenance_required = false;
}

unfoldable pub working_set : List Selected → List WorkingItem
working_set [] = []
working_set (s ∷ ss) = let rest = working_set ss in if s.include then item_of s ∷ rest else rest
