-- ===== src/Replay/Graph/Steps.antt =====
-- Each step of the pass over a well-formed graph: it succeeds on a valid event, and what it keeps.
use pancakes_harness.Prelude.{
  ◌≡◌, refl, ap, false, none, some, arith, Bool-cases, Option-cases, inl, inr,
}
use pancakes_harness.Prelude.Result.{ok, ◌>>=◌}
use pancakes_harness.Bytes.{Str, codes, ◌==◌, eq_iff}
use pancakes_harness.Dict.{lookup, insert, lookup-insert, lookup-insert_self}
use pancakes_harness.Eventlog.Event.{Event, kind_branch_fork}
use pancakes_harness.Branchdag
use pancakes_harness.Branchdag.{
  BranchError, Branch, bare_branch, append_to_branch, create_branch, fork_branch, append_event,
  set_base_summary, rebased, rebase_on_summary, get_branch, is_valid,
}
use pancakes_harness.Branchdag.Laws.{WellFormed, Op, create, fork, run, run-WellFormed}
use pancakes_harness.Replay.Graph.{
  Rebuilt, read_meta_string, open_branch, checked, checked_fork, ensure_branch,
}

-- The graph after a branch is written.
abbrev pub put : Str → Branch → Branchdag.Graph → Branchdag.Graph
put id b g = record { branches = insert id b g.branches }

abbrev pub Has : Str → Branchdag.Graph → Type 0
Has id g = (b : Branch) × (lookup id g.branches ≡ some b)

-- every branch is there still, unchanged
abbrev pub Extends : Branchdag.Graph → Branchdag.Graph → Type 0
Extends g g' = (j : Str) (b : Branch) → lookup j g.branches ≡ some b → lookup j g'.branches ≡ some b

Extends-put :
    (id : Str) (b : Branch) (g : Branchdag.Graph)
    → lookup id g.branches ≡ none
    → Extends g (put id b g)
Extends-put id b g missing j c h = ground (arith, lookup-insert id j b g.branches, eq_iff id j)

-- A result that is a well-formed graph with this branch, in which every other is unchanged.
abbrev pub Opens : Str → Branchdag.Graph → Rebuilt → Type 0
Opens id g r = (g' : Branchdag.Graph) × (r ≡ ok g') × WellFormed g' × Extends g g' × Has id g'

create_missing :
    (id : Str) (g : Branchdag.Graph)
    → (id == codes "") ≡ false
    → lookup id g.branches ≡ none
    → create_branch (bare_branch id) g ≡ (put id (bare_branch id) g, ok (bare_branch id))
unfolding create_branch is_valid
create_missing id g ne missing = rw (ne, missing)

put-WellFormed :
    (op : Op) (id : Str) (b : Branch) (g : Branchdag.Graph)
    → WellFormed g
    → run op g ≡ put id b g
    → WellFormed (put id b g)
put-WellFormed op id b g w e = rw (← e) (run-WellFormed op g w)

pub ensure_branch-Opens :
    (id : Str) (g : Branchdag.Graph)
    → WellFormed g
    → (id == codes "") ≡ false
    → Opens id g (checked (ensure_branch id g))
unfolding ensure_branch get_branch
ensure_branch-Opens id g w ne = elim (Option-cases (lookup id g.branches)) [
  | inl missing ↦
      rw (missing, create_missing id g ne missing)
        (
          put id (bare_branch id) g,
          refl,
          put-WellFormed (create (bare_branch id)) id (bare_branch id) g w
              (unfold run in ap (λ (o : Branchdag.Outcome). o.0) (create_missing id g ne missing)),
          Extends-put id (bare_branch id) g missing,
          (bare_branch id, lookup-insert_self id (bare_branch id) g.branches),
        )
  | inr (b, there) ↦ rw there (g, refl, w, (λ j c h. h), (b, there))
]

-- the branch that `ForkBranch` makes
abbrev child_of : Branch → Str → Str → Str → Branch
child_of p child parent at = record p {
  branch_id = child;
  parent_branch_id = parent;
  fork_event_id = at;
  materialized_hint = codes "";
}

fork_branch_missing :
    (child parent at : Str) (g : Branchdag.Graph) (p : Branch)
    → (child == codes "") ≡ false
    → (parent == codes "") ≡ false
    → lookup child g.branches ≡ none
    → lookup parent g.branches ≡ some p
    → fork_branch child parent at g
      ≡ (put child (child_of p child parent at) g, ok (child_of p child parent at))
unfolding fork_branch
fork_branch_missing child parent at g p c e missing there = rw (c, e, missing, there)

fork_branch_there :
    (child parent at : Str) (g : Branchdag.Graph) (b : Branch)
    → (child == codes "") ≡ false
    → (parent == codes "") ≡ false
    → lookup child g.branches ≡ some b
    → checked_fork (fork_branch child parent at g) ≡ ok g
unfolding fork_branch
fork_branch_there child parent at g b c e there = rw (c, e, there)

fork_branch-Opens :
    (child parent at : Str) (g : Branchdag.Graph)
    → WellFormed g
    → (child == codes "") ≡ false
    → (parent == codes "") ≡ false
    → Has parent g
    → Opens child g (checked_fork (fork_branch child parent at g))
fork_branch-Opens child parent at g w c e (p, has) = elim (Option-cases (lookup child g.branches)) [
  | inl missing ↦
      let made = fork_branch_missing child parent at g p c e missing has in
      let b = child_of p child parent at in
      rw made (
        put child b g,
        refl,
        put-WellFormed (fork child parent at) child b g w
            (unfold run in ap (λ (o : Branchdag.Outcome). o.0) made),
        Extends-put child b g missing,
        (b, lookup-insert_self child b g.branches),
      )
  | inr (b, there) ↦
      (g, fork_branch_there child parent at g b c e there, w, (λ j d h. h), (b, there))
]

-- The branch of an event with an id is opened, whatever the kind and the meta.
pub open_branch-Opens :
    (e : Event) (g : Branchdag.Graph)
    → WellFormed g
    → (e.branch_id == codes "") ≡ false
    → Opens e.branch_id g (open_branch e g)
unfolding open_branch
open_branch-Opens e g w ne = elim (Bool-cases (e.kind == kind_branch_fork)) [
  | inr other ↦ rw other (ensure_branch-Opens e.branch_id g w ne)
  | inl forks ↦ elim (Bool-cases (read_meta_string e.meta (codes "parent_branch_id") == codes "")) [
    | inl root ↦ rw (forks, root) (ensure_branch-Opens e.branch_id g w ne)
    | inr named ↦ rw (forks, named) (through named)
  ]
]
  where
    parent : Str
    parent = read_meta_string e.meta (codes "parent_branch_id")

    through :
        (parent == codes "") ≡ false
        → Opens e.branch_id g (
            checked (ensure_branch parent g) >>= λ g'.
            checked_fork (fork_branch e.branch_id parent e.parent_event_id g'))
    through named =
        let (g1, made, w1, ext1, has1) = ensure_branch-Opens parent g w named in
        let (g2, forked, w2, ext2, has2) =
          fork_branch-Opens e.branch_id parent e.parent_event_id g1 w1 ne named has1 in
        rw made (g2, forked, w2, (λ j b h. ext2 j b (ext1 j b h)), has2)

pub append_event_found :
    (id e : Str) (g : Branchdag.Graph) (b b' : Branch)
    → lookup id g.branches ≡ some b
    → append_to_branch b e ≡ ok b'
    → append_event id e g ≡ (put id b' g, ok b')
unfolding append_event
append_event_found id e g b b' h k = rw (h, k)
