-- ===== src/Replay/Session/Heads.antt =====
-- What `RebuildSession` computes, and when it succeeds.
use pancakes_harness.Prelude.{
  ◌↔◌, ◌+◌, ◌≡◌, refl, ◌∙◌, true, Option, some, List, [], ◌∷◌, arith, if◌then◌else◌, length, All,
}
use pancakes_harness.Prelude.Result.{ok}
use pancakes_harness.Bytes.{Str, ◌==◌}
use pancakes_harness.Dict.{lookup, lookup-insert}
use pancakes_harness.Eventlog.Event.{Event, is_valid}
use pancakes_harness.Replay.Session.{SessionState, empty_state, seen, rebuild_from, rebuild_session}

-- The id of the last event on a branch, or else what was there before.
unfoldable pub head_after : Str → Option Str → List Event → Option Str
head_after b before [] = before
head_after b before (e ∷ es) = head_after b (if e.branch_id == b then some e.id else before) es

unfoldable pub last_id : Str → List Event → Str
last_id before [] = before
last_id before (e ∷ es) = last_id e.id es

-- The events that a session accepts.
abbrev pub IsOf : Str → Event → Type 0
IsOf sid e = ((e.session_id == sid) ≡ true) × (is_valid e ≡ true)

-- A state that sums the events up, from another state on.
pub record Sums (s : SessionState) (es : List Event) (s' : SessionState) : Type 0 where
  pub session : s'.session_id ≡ s.session_id
  pub heads : (b : Str) → lookup b s'.branch_heads ≡ head_after b (lookup b s.branch_heads) es
  pub last : s'.last_event_id ≡ last_id s.last_event_id es
  pub count : s'.event_count ≡ s.event_count + length es

Sums-seen :
    (s s' : SessionState) (e : Event) (es : List Event) → Sums (seen e s) es s' → Sums s (e ∷ es) s'
unfolding head_after last_id
Sums-seen s s' e es h = record {
  session = h.session;
  heads = λ b. rw (h.heads b, lookup-insert e.branch_id b e.id s.branch_heads);
  last = h.last;
  count = omega (arith, h.count);
}

Sums-refl : (s : SessionState) → Sums s [] s
unfolding head_after last_id
Sums-refl s = record { session = refl; heads = λ b. refl; last = refl; count = omega arith }

rebuild_from_step :
    (s : SessionState) (e : Event) (es : List Event)
    → IsOf s.session_id e
    → rebuild_from s (e ∷ es) ≡ rebuild_from (seen e s) es
unfolding rebuild_from
rebuild_from_step s e es (own, v) = rw (own, v)

rebuild_from_accepts :
    (s : SessionState) (es : List Event)
    → All (IsOf s.session_id) es
    → (s' : SessionState) × (rebuild_from s es ≡ ok s') × Sums s es s'
rebuild_from_accepts s [] h = (s, unfold rebuild_from in refl, Sums-refl s)
rebuild_from_accepts s (e ∷ es) (fits, h) =
    let (s', run, sums) = rebuild_from_accepts (seen e s) es h in
    (s', rebuild_from_step s e es fits ∙ run, Sums-seen s s' e es sums)

rebuild_from_inv :
    (s s' : SessionState) (es : List Event) → rebuild_from s es ≡ ok s' → All (IsOf s.session_id) es
unfolding rebuild_from
rebuild_from_inv s s' [] h = tt
rebuild_from_inv s s' (e ∷ es) h = (ground arith, rebuild_from_inv (seen e s) s' es (ground arith))

-- Events of one session, all valid, are rebuilt into a state that has their number, the id of the
-- last, and for each branch the id of the last event on it; and no other events are rebuilt.
pub rebuild_session_iff :
    (e : Event) (es : List Event)
    → ((s : SessionState) × (rebuild_session (e ∷ es) ≡ ok s)
        × Sums (empty_state e.session_id) (e ∷ es) s)
      ↔ All (IsOf e.session_id) (e ∷ es)
unfolding rebuild_session
rebuild_session_iff e es = (
  λ (s, h, sums). rebuild_from_inv (empty_state e.session_id) s (e ∷ es) h,
  rebuild_from_accepts (empty_state e.session_id) (e ∷ es),
)
