-- ===== src/Replay/Session.antt =====
-- `RebuildSession`: one pass over a session's events.
pub mod Heads
use pancakes_harness.Prelude.{
  ℕ, ◌+◌, ◌≡◌, Bool, true, false, Option, none, some, List, [], ◌∷◌, if◌then◌else◌,
}
use pancakes_harness.Prelude.Result.{Result, ok, err}
use pancakes_harness.Bytes.{Str, codes, ◌==◌}
use pancakes_harness.Dict.{Dict, lookup, insert}
use pancakes_harness.Eventlog.Event.{Event, is_valid}

pub data ReplayError : Type 0 where
  mixed_session invalid_event : ReplayError

pub record SessionState : Type 0 where
  pub session_id : Str
  pub branch_heads : Dict Str
  pub last_event_id : Str
  pub event_count : ℕ

abbrev pub empty_state : Str → SessionState
empty_state sid = record {
  session_id = sid;
  branch_heads = [];
  last_event_id = codes "";
  event_count = 0;
}

-- the body of the loop, past its two checks
abbrev pub seen : Event → SessionState → SessionState
seen e s = record s {
  branch_heads = insert e.branch_id e.id s.branch_heads;
  last_event_id = e.id;
  event_count = s.event_count + 1;
}

unfoldable pub rebuild_from : SessionState → List Event → Result ReplayError SessionState
rebuild_from s [] = ok s
rebuild_from s (e ∷ es) =
    let rest = rebuild_from (seen e s) es in
    if e.session_id == s.session_id
    then if is_valid e then rest else err invalid_event
    else err mixed_session

unfoldable pub rebuild_session : List Event → Result ReplayError SessionState
unfolding rebuild_from
rebuild_session [] = ok (empty_state (codes ""))
rebuild_session (e ∷ es) = rebuild_from (empty_state e.session_id) (e ∷ es)
