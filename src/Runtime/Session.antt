-- ===== src/Runtime/Session.antt =====
-- The session's own operations: `StartSession`, `HandleUserTurn`, `ForkBranch`, `ReplaySession`.
use pancakes_harness.Prelude.{
  ℕ, zero, suc, Bool, ◌||◌, not, Option, none, some, List, [], ◌∷◌, if◌then◌else◌, length,
}
use pancakes_harness.Prelude.Result.{Result, ok, err}
use pancakes_harness.Prelude.Result
use pancakes_harness.Prelude.Int.{ℤ, pos, negsuc}
use pancakes_harness.Bytes.{Str, codes, ◌==◌}
use pancakes_harness.Dict.{Dict}
use pancakes_harness.Eventlog.Event.{Event, end, field, text, kind_turn_user, kind_branch_fork}
use pancakes_harness.Backend.{MemoryBackend, list_events_by_session}
use pancakes_harness.Branchdag.{Branch}
use pancakes_harness.Compactor.Scheduler.{Scheduler, ScheduleConfig, new_scheduler}
use pancakes_harness.Audit.{Tracker, new_tracker}
use pancakes_harness.Replay.Session.{SessionState, ReplayError, rebuild_session}
use pancakes_harness.Replay.Graph.{GraphError, rebuild_branch_state}
use pancakes_harness.Runtime.{Env, Core, State, Job, RunError, invalid_config}
use pancakes_harness.Runtime.Monad.{
  Action, modify, ◌>>=◌, next_event_id, time, append, list_session, list_branch, read_out,
}
use pancakes_harness.Runtime.Turn.{
  TurnResult, go, stop, lift, Cents, no_cost_added, no_cents, index, rounds, branch_or_default,
}

-- a number of rounds that is not positive is 4
unfoldable pub turns_of : ℤ → ℕ
turns_of (pos zero) = 4
turns_of (pos (suc n)) = suc n
turns_of (negsuc n) = 4

module _ {R : Type 0} where
  -- the configuration of a session, with its defaults
  unfoldable pub session_env : ℤ → Env R → Env R
  unfolding turns_of ◌==◌
  session_env max_turns cfg = record cfg {
    default_branch_id =
        if cfg.default_branch_id == codes "" then codes "main" else cfg.default_branch_id;
    max_reasoning_turns = turns_of max_turns;
  }

  first_scheduler : Env R → R → ScheduleConfig R → Option (Scheduler R)
  unfolding new_scheduler
  first_scheduler env zero_ratio schedule = elim env.compactor [
    | none ↦ none
    | some _ ↦ some (new_scheduler zero_ratio schedule)
  ]

  unfoldable pub first_state : Env R → R → ScheduleConfig R → MemoryBackend → List Event → State R
  unfolding first_scheduler
  first_state env zero_ratio schedule b es = record {
    core = record {
      backend = b;
      counter = length es;
      tick = 0;
      scheduler = first_scheduler env zero_ratio schedule;
      indexed = elim env.search [ none ↦ [] | some _ ↦ es ];
      jobs = [];
    };
    sent = [];
  }

  -- `StartSession`; `wired` tells that there are a backend and an adapter
  unfoldable pub start_session :
      Bool → ℤ → R → ScheduleConfig R → Env R → MemoryBackend → Result RunError (Env R × State R)
  unfolding session_env first_state list_events_by_session ◌==◌
  start_session wired max_turns zero_ratio schedule cfg b =
      let env = session_env max_turns cfg in
      let started =
        Result.◌>>=◌ (read_out (list_events_by_session none cfg.id b))
          (λ es. ok (env, first_state env zero_ratio schedule b es)) in
      if cfg.id == codes "" || not wired then err invalid_config else started

module _ {R : Type 0} (env : Env R) where
  -- `preprocessor.Submit`, if there is one
  unfoldable pub submit : Job → Core R → Core R
  submit job c = if env.has_preprocessor then record c { jobs = job ∷ c.jobs } else c

  -- the user's event, recorded, indexed and handed to the preprocessor; the id of the consult
  unfoldable pub open_turn : Str → Str → Action R Str
  unfolding next_event_id append index submit
  open_turn branch text_of_turn = next_event_id env (codes "turn.user") >>= λ id.
      time env >>= λ now.
      let e : Event = record {
        id = id;
        session_id = env.id;
        ts = now;
        kind = kind_turn_user;
        branch_id = branch;
        parent_event_id = codes "";
        refs = [];
        meta = field (codes "text") (text text_of_turn) end;
        blob_ref = codes "";
      } in
      append env e >>= λ _. modify (index env e) >>= λ _.
      modify (
        submit (record {
          id = id;
          session_id = env.id;
          branch_id = branch;
          text = text_of_turn;
          ts = now;
        }))
      >>= λ _. next_event_id env (codes "consult")

  -- there is a tracker where there are metrics
  unfoldable pub first_tracker : Str → Str → Option (Tracker Cents)
  unfolding new_tracker
  first_tracker branch consult_id =
      if env.has_metrics
      then some (
          new_tracker no_cost_added no_cents tt env.audit_prompt env.audit_config consult_id env.id
            branch)
      else none

  -- `handleUserTurn`
  unfoldable pub handle_user_turn :
      Str → Str → Str → State R → State R × TurnResult × Option RunError
  unfolding open_turn first_tracker rounds ◌==◌
  handle_user_turn branch text_of_turn external_context s =
      let b = branch_or_default env branch in
      let (s', opened) = lift (open_turn b text_of_turn) s in
      elim opened [
        | stop r e ↦ (s', r, e)
        | go consult_id ↦
            rounds env b external_context env.max_reasoning_turns (first_tracker b consult_id) 0 s'
      ]

  -- the id of the last event
  unfoldable pub head_of : List Event → Str
  head_of [] = codes ""
  head_of (e ∷ []) = e.id
  head_of (e ∷ e' ∷ es) = head_of (e' ∷ es)

  -- `ForkBranch`
  unfoldable pub fork_branch : Str → Str → Action R Unit
  unfolding list_branch head_of next_event_id append ◌==◌
  fork_branch parent child c =
      let forked =
        (list_branch env parent >>= λ es. next_event_id env (codes "branch.fork") >>= λ id.
        time env >>= λ now. append env (record {
          id = id;
          session_id = env.id;
          ts = now;
          kind = kind_branch_fork;
          branch_id = child;
          parent_event_id = head_of es;
          refs = [];
          meta = field (codes "parent_branch_id") (text parent) end;
          blob_ref = codes "";
        }))
          c in
      if parent == codes "" || child == codes "" then (c, err invalid_config) else forked

  pub data ReplayFailure : Type 0 where
    not_listed : RunError → ReplayFailure
    not_rebuilt : ReplayError → ReplayFailure
    no_graph : GraphError → ReplayFailure

  heads_of : Dict Branch → Dict Str
  heads_of [] = []
  heads_of ((id, b) ∷ bs) = (id, b.head_event_id) ∷ heads_of bs

  with_branches :
      SessionState
      → Result GraphError (Dict Branch)
      → Result ReplayFailure (SessionState × Dict Str)
  unfolding heads_of
  with_branches state (ok bs) = ok (state, heads_of bs)
  with_branches state (err e) = err (no_graph e)

  with_state :
      List Event → Result ReplayError SessionState → Result ReplayFailure (SessionState × Dict Str)
  unfolding with_branches rebuild_branch_state
  with_state es (ok state) = with_branches state (rebuild_branch_state es)
  with_state es (err e) = err (not_rebuilt e)

  with_events : Result RunError (List Event) → Result ReplayFailure (SessionState × Dict Str)
  unfolding with_state rebuild_session
  with_events (ok es) = with_state es (rebuild_session es)
  with_events (err e) = err (not_listed e)

  -- `ReplaySession`
  unfoldable pub replay_session : Core R → Core R × Result ReplayFailure (SessionState × Dict Str)
  unfolding list_session with_events
  replay_session c = let (c', es) = list_session env c in (c', with_events es)
