-- ===== src/Replay/Graph/Effect.antt =====
-- The effect of one event on the branch it is on, and on no other.
use pancakes_harness.Prelude.{
  ◌≡◌, refl, ◌∙◌, ap, true, false, some, if◌then◌else◌, Bool-cases, inl, inr,
}
use pancakes_harness.Prelude.Result.{ok}
use pancakes_harness.Bytes.{Str, codes, ◌==◌}
use pancakes_harness.Dict.{lookup, lookup-insert, lookup-insert_self}
use pancakes_harness.Eventlog.Event.{Event, kind_summary_checkpoint, kind_summary_rebuild}
use pancakes_harness.Branchdag
use pancakes_harness.Branchdag.{
  BranchError, Branch, extend_last, append_to_branch, append_event, set_base_summary, rebased,
  rebase_on_summary,
}
use pancakes_harness.Branchdag.Laws.{Op, append, set_base, rebase, WellFormed, run, run-WellFormed}
use pancakes_harness.Replay.Graph.{
  Rebuilt, read_meta_string, checked, apply_event, checkpoint_event, rebuild_event,
}
use pancakes_harness.Replay.Graph.Steps.{put}

-- the branch after an appended event
abbrev pub appended : Str → Branch → Branch
appended e b = record b { dirty_ranges = extend_last e b.dirty_ranges; head_event_id = e }

pub append_to_branch_valid :
    (b : Branch) (e : Str)
    → Branchdag.is_valid b ≡ true
    → (e == codes "") ≡ false
    → append_to_branch b e ≡ ok (appended e b)
unfolding append_to_branch
append_to_branch_valid b e v h = rw (h, v)

-- What an event does to its own branch, once that is there.
unfoldable pub effect : Event → Branch → Branch
effect e b =
    let summary = read_meta_string e.meta (codes "summary_id") in
    let basis = read_meta_string e.meta (codes "basis_event_id") in
    if e.kind == kind_summary_checkpoint
    then if summary == codes "" then b else record b { base_summary_id = summary }
    else if e.kind == kind_summary_rebuild
    then if summary == codes "" then appended e.id b else rebased summary basis (appended e.id b)
    else appended e.id b

-- A well-formed graph with `b` at `id`, and every other branch as in `g`.
abbrev pub After : Str → Branch → Branchdag.Graph → Branchdag.Graph → Type 0
After id b g g' =
    WellFormed g'
    × (lookup id g'.branches ≡ some b)
    × ((j : Str) → (id == j) ≡ false → lookup j g'.branches ≡ lookup j g.branches)

abbrev pub Writes : Str → Branch → Branchdag.Graph → Rebuilt → Type 0
Writes id b g r = (g' : Branchdag.Graph) × (r ≡ ok g') × After id b g g'

After-put :
    (op : Op) (id : Str) (b : Branch) (g : Branchdag.Graph) {o : Branchdag.Outcome}
    → WellFormed g
    → o ≡ (put id b g, ok b)
    → run op g ≡ o.0
    → After id b g (put id b g)
After-put op id b g w e r = (
  rw (← (r ∙ ap (λ (o : Branchdag.Outcome). o.0) e)) (run-WellFormed op g w),
  lookup-insert_self id b g.branches,
  λ j ne. rw (lookup-insert id j b g.branches, ne),
)

append-Writes :
    (e : Event) (g : Branchdag.Graph) (b : Branch)
    → WellFormed g
    → lookup e.branch_id g.branches ≡ some b
    → (e.id == codes "") ≡ false
    → append_event e.branch_id e.id g ≡ (put e.branch_id (appended e.id b) g, ok (appended e.id b))
unfolding append_event
append-Writes e g b w h ne = rw (h, append_to_branch_valid b e.id (w.valid e.branch_id b h) ne)

set_base_found :
    (id s : Str) (g : Branchdag.Graph) (b : Branch)
    → lookup id g.branches ≡ some b
    → set_base_summary id s g
      ≡ (put id (record b { base_summary_id = s }) g, ok (record b { base_summary_id = s }))
unfolding set_base_summary
set_base_found id s g b h = rw h

rebase_found :
    (id s basis : Str) (g : Branchdag.Graph) (b : Branch)
    → lookup id g.branches ≡ some b
    → rebase_on_summary id s basis g ≡ (put id (rebased s basis b) g, ok (rebased s basis b))
unfolding rebase_on_summary
rebase_found id s basis g b h = rw h

After-append :
    (e : Event) (g : Branchdag.Graph) (b : Branch)
    → WellFormed g
    → lookup e.branch_id g.branches ≡ some b
    → (e.id == codes "") ≡ false
    → After e.branch_id (appended e.id b) g (put e.branch_id (appended e.id b) g)
unfolding run
After-append e g b w h ne =
    After-put (append e.branch_id e.id) e.branch_id (appended e.id b) g w
      (append-Writes e g b w h ne) refl

Writes-set_base :
    (id s : Str) (g : Branchdag.Graph) (b : Branch)
    → WellFormed g
    → lookup id g.branches ≡ some b
    → Writes id (record b { base_summary_id = s }) g (checked (set_base_summary id s g))
unfolding run
Writes-set_base id s g b w h =
    let made = set_base_found id s g b h in
    let after = After-put (set_base id s) id (record b { base_summary_id = s }) g w made refl in
    rw made (put id (record b { base_summary_id = s }) g, refl, after)

-- a rebase, after another write to the same branch
Writes-rebase :
    (id s basis : Str) (g g1 : Branchdag.Graph) (b : Branch)
    → After id b g g1
    → Writes id (rebased s basis b) g (checked (rebase_on_summary id s basis g1))
unfolding run
Writes-rebase id s basis g g1 b (w1, h1, same1) =
    let made = rebase_found id s basis g1 b h1 in
    let (w2, h2, same2) = After-put (rebase id s basis) id (rebased s basis b) g1 w1 made refl in
    rw made (put id (rebased s basis b) g1, refl, (w2, h2, (λ j ne. same2 j ne ∙ same1 j ne)))

Writes-checkpoint_event :
    (e : Event) (g : Branchdag.Graph) (b : Branch)
    → WellFormed g
    → lookup e.branch_id g.branches ≡ some b
    → (e.kind == kind_summary_checkpoint) ≡ true
    → Writes e.branch_id (effect e b) g (checkpoint_event e g)
unfolding apply_event effect
Writes-checkpoint_event e g b w h k =
    let summary = read_meta_string e.meta (codes "summary_id") in
    elim (Bool-cases (summary == codes "")) [
      | inl unnamed ↦ rw (k, unnamed) (g, refl, (w, h, (λ j d. refl)))
      | inr named ↦ rw (k, named) (Writes-set_base e.branch_id summary g b w h)
    ]

Writes-rebuild_event :
    (e : Event) (g g1 : Branchdag.Graph) (b : Branch)
    → After e.branch_id (appended e.id b) g g1
    → (e.kind == kind_summary_checkpoint) ≡ false
    → Writes e.branch_id (effect e b) g (rebuild_event e g1)
unfolding apply_event effect
Writes-rebuild_event e g g1 b after k =
    let summary = read_meta_string e.meta (codes "summary_id") in
    let basis = read_meta_string e.meta (codes "basis_event_id") in
    elim (Bool-cases (e.kind == kind_summary_rebuild)) [
      | inr plain ↦ rw (k, plain) (g1, refl, after)
      | inl rebuild ↦ elim (Bool-cases (summary == codes "")) [
        | inl unnamed ↦ rw (k, rebuild, unnamed) (g1, refl, after)
        | inr named ↦
            rw (k, rebuild, named)
              (Writes-rebase e.branch_id summary basis g g1 (appended e.id b) after)
      ]
    ]

-- An event on a branch that is there succeeds and has its effect on that branch alone.
pub apply_event-Writes :
    (e : Event) (g : Branchdag.Graph) (b : Branch)
    → WellFormed g
    → lookup e.branch_id g.branches ≡ some b
    → (e.id == codes "") ≡ false
    → Writes e.branch_id (effect e b) g (apply_event e g)
unfolding apply_event
apply_event-Writes e g b w h ne = elim (Bool-cases (e.kind == kind_summary_checkpoint)) [
  | inl k ↦ rw k (Writes-checkpoint_event e g b w h k)
  | inr k ↦
      rw (k, append-Writes e g b w h ne)
        (Writes-rebuild_event e g (put e.branch_id (appended e.id b) g) b
          (After-append e g b w h ne) k)
]
