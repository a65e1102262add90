-- ===== src/Replay/Graph/Total.antt =====
-- The pass as a whole: when it succeeds, and what it does to each branch.
use mathlib.Core.Path.{subst}
use pancakes_harness.Prelude.{
  ◌≡◌, ◌↔◌, refl, sym, ◌∙◌, ap, Bool, true, false, some, List, [], ◌∷◌, ◌++◌, arith, if◌then◌else◌,
  Bool-cases, inl, inr, All,
}
use pancakes_harness.Prelude.Result.{ok, err, ◌>>=◌, bind_ok, ok_injective}
use pancakes_harness.Bytes.{Str, codes, ◌==◌, eq_iff}
use pancakes_harness.Dict.{lookup}
use pancakes_harness.Eventlog.Event
use pancakes_harness.Eventlog.Event.{Event}
use pancakes_harness.Branchdag
use pancakes_harness.Branchdag.{Branch, new_graph}
use pancakes_harness.Branchdag.Laws.{WellFormed, WellFormed-new}
use pancakes_harness.Replay.Graph.{
  Rebuilt, invalid_event, open_branch, apply_event, replay_event, replay_events,
}
use pancakes_harness.Replay.Graph.Steps.{open_branch-Opens}
use pancakes_harness.Replay.Graph.Effect.{effect, apply_event-Writes}

pub valid_ids :
    (e : Event)
    → Event.is_valid e ≡ true
    → ((e.id == codes "") ≡ false) × ((e.branch_id == codes "") ≡ false)
unfolding Event.is_valid
valid_ids e v = ground arith

-- What events do to the branch with an id.
unfoldable pub effects : Str → List Event → Branch → Branch
effects id [] b = b
effects id (e ∷ es) b = effects id es (if e.branch_id == id then effect e b else b)

-- A result that is a well-formed graph in which the events have had their effect on each branch
-- that was there before.
abbrev pub Replays : List Event → Branchdag.Graph → Rebuilt → Type 0
Replays es g r =
    (g' : Branchdag.Graph) × (r ≡ ok g')
    × WellFormed g'
    × ((j : Str) (b : Branch)
        → lookup j g.branches ≡ some b
        → lookup j g'.branches ≡ some (effects j es b))

Replays-event :
    (e : Event) (g : Branchdag.Graph)
    → WellFormed g
    → Event.is_valid e ≡ true
    → Replays (e ∷ []) g (replay_event e g)
unfolding replay_event effects
Replays-event e g w v =
    let (ne, own) = valid_ids e v in
    let (g1, opened, w1, kept, (b1, has)) = open_branch-Opens e g w own in
    let (g2, applied, (w2, here, others)) = apply_event-Writes e g1 b1 w1 has ne in
    rw (v, opened)
      (
        g2,
        applied,
        w2,
        λ j b h. elim (Bool-cases (e.branch_id == j)) [
          | inr ne' ↦ rw ne' (others j ne' ∙ kept j b h)
          | inl same ↦ rw same (at_own g1 g2 b1 j b same (kept j b h) has here)
        ],
      )
  where
    at_own :
        (g1 g2 : Branchdag.Graph) (b1 : Branch) (j : Str) (b : Branch)
        → (e.branch_id == j) ≡ true
        → lookup j g1.branches ≡ some b
        → lookup e.branch_id g1.branches ≡ some b1
        → lookup e.branch_id g2.branches ≡ some (effect e b1)
        → lookup j g2.branches ≡ some (effect e b)
    at_own g1 g2 b1 j b same h k m = let p : e.branch_id ≡ j = (eq_iff e.branch_id j).0 same in cc

-- Valid events are replayed on any well-formed graph, without an error.
pub replay_events-Replays :
    (es : List Event) (g : Branchdag.Graph)
    → WellFormed g
    → All (λ e. Event.is_valid e ≡ true) es
    → Replays es g (replay_events es g)
unfolding replay_events effects
replay_events-Replays [] g w h = (g, refl, w, λ j b k. k)
replay_events-Replays (e ∷ es) g w (v, h) =
    let (g1, run1, w1, eff1) = Replays-event e g w v in
    let (g2, run2, w2, eff2) = replay_events-Replays es g1 w1 h in
    rw run1
      (g2, run2, w2, λ j b k. eff2 j (if e.branch_id == j then effect e b else b) (eff1 j b k))

replay_event_valid :
    (e : Event) (es : List Event) (g g' : Branchdag.Graph)
    → (replay_event e g >>= replay_events es) ≡ ok g'
    → (Event.is_valid e ≡ true) × ((g1 : Branchdag.Graph) × (replay_events es g1 ≡ ok g'))
unfolding replay_event
replay_event_valid e es g g' h =
    let (g1, first, rest) = bind_ok (replay_event e g) (replay_events es) h in
    (ok_valid (Event.is_valid e) first, (g1, rest))
  where
    ok_valid :
        {g1 : Branchdag.Graph} (v : Bool)
        → (if v then (open_branch e g >>= apply_event e) else err invalid_event) ≡ ok g1
        → v ≡ true
    ok_valid true k = refl
    ok_valid false k = cc

replay_events_valid :
    (es : List Event) (g g' : Branchdag.Graph)
    → replay_events es g ≡ ok g'
    → All (λ e. Event.is_valid e ≡ true) es
unfolding replay_events
replay_events_valid [] g g' h = tt
replay_events_valid (e ∷ es) g g' h =
    let (v, (g1, rest)) = replay_event_valid e es g g' h in (v, replay_events_valid es g1 g' rest)

pub replay-append :
    (xs ys : List Event) (g g' : Branchdag.Graph)
    → replay_events xs g ≡ ok g'
    → replay_events (xs ++ ys) g ≡ replay_events ys g'
unfolding replay_events
replay-append [] ys g g' h = ap (replay_events ys) (ok_injective h)
replay-append (x ∷ xs) ys g g' h =
    let (g1, first, rest) = bind_ok (replay_event x g) (replay_events xs) h in
    rw first (replay-append xs ys g1 g' rest)

-- From the empty graph the pass succeeds exactly when every event is valid.
pub replay_succeeds_iff :
    (es : List Event)
    → ((g : Branchdag.Graph) × (replay_events es new_graph ≡ ok g) × WellFormed g)
      ↔ All (λ e. Event.is_valid e ≡ true) es
replay_succeeds_iff es = (
  λ r. replay_events_valid es new_graph r.0 r.1,
  λ v. let (g, run, w, eff) = replay_events-Replays es new_graph WellFormed-new v in (g, run, w),
)

pub replay-WellFormed :
    (es : List Event) (g : Branchdag.Graph) → replay_events es new_graph ≡ ok g → WellFormed g
replay-WellFormed es g h =
    let (g', run, w) = (replay_succeeds_iff es).1 (replay_events_valid es new_graph g h) in
    subst WellFormed (ok_injective (sym run ∙ h)) w
