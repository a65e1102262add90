-- ===== src/Branchdag/Laws.antt =====
-- What every operation on the graph keeps: each branch is stored under its own id and is valid, and
-- an operation on one branch leaves the others as they are.
use pancakes_harness.Prelude.{
  ◌≡◌, ◌≢◌, refl, ◌∙◌, ◌⊎◌, ◌||◌, true, false, Option, none, some, List, [], ◌∷◌, arith, Bool-cases,
  inl, inr,
}
use pancakes_harness.Prelude.Result.{Result, ok, err}
use pancakes_harness.Bytes.{Str, codes, ◌==◌, eq_iff}
use pancakes_harness.Dict.{lookup, lookup-insert}
use pancakes_harness.Branchdag.{
  BranchError, DirtyRange, Branch, Graph, new_graph, ranges_valid, is_valid, extend_last,
  append_to_branch, store, create_absent, create_branch, fork_from, fork_absent, fork_branch,
  append_updated, append_found, append_event, summary_found, set_base_summary, rebased,
  rebase_found, rebase_on_summary,
}

pub record WellFormed (g : Graph) : Type 0 where
  pub keyed : (k : Str) (b : Branch) → lookup k g.branches ≡ some b → b.branch_id ≡ k
  pub valid : (k : Str) (b : Branch) → lookup k g.branches ≡ some b → is_valid b ≡ true

store-WellFormed :
    (id : Str) (b : Branch) (g : Graph)
    → b.branch_id ≡ id
    → is_valid b ≡ true
    → WellFormed g
    → WellFormed (store id b g).0
unfolding store
store-WellFormed id b g own v w = record {
  keyed = λ k c h. ground (arith, lookup-insert id k b g.branches, eq_iff id k, w.keyed k c);
  valid = λ k c h. ground (arith, lookup-insert id k b g.branches, eq_iff id k, w.valid k c);
}

-- An outcome that leaves the graph, or stores one valid branch under its own id.
abbrev Touches : Str → Graph → Graph → Type 0
Touches id g g' =
    (g' ≡ g) ⊎ ((b : Branch) × (b.branch_id ≡ id) × (is_valid b ≡ true) × (g' ≡ (store id b g).0))

Touches-WellFormed : (id : Str) (g g' : Graph) → Touches id g g' → WellFormed g → WellFormed g'
Touches-WellFormed id g g' (inl same) w = rw same w
Touches-WellFormed id g g' (inr (b, own, v, e)) w = rw e (store-WellFormed id b g own v w)

Touches-lookup_ne :
    (id j : Str) (g g' : Graph)
    → Touches id g g'
    → (id == j) ≡ false
    → lookup j g'.branches ≡ lookup j g.branches
unfolding store
Touches-lookup_ne id j g g' (inl same) ne = rw same
Touches-lookup_ne id j g g' (inr (b, own, v, e)) ne = rw (e, lookup-insert id j b g.branches, ne)

extend_last-valid :
    (e : Str) (rs : List DirtyRange)
    → (e == codes "") ≡ false
    → ranges_valid rs ≡ true
    → ranges_valid (extend_last e rs) ≡ true
unfolding extend_last ranges_valid
extend_last-valid e [] ne v = ground arith
extend_last-valid e (r ∷ []) ne v = ground arith
extend_last-valid e (r ∷ q ∷ rs) ne v = ground (arith, extend_last-valid e (q ∷ rs) ne)

-- A successful append keeps the id and validity of the branch.
pub append_to_branch_ok :
    (b b' : Branch) (e : Str)
    → append_to_branch b e ≡ ok b'
    → (b'.branch_id ≡ b.branch_id) × (is_valid b' ≡ true)
unfolding append_to_branch is_valid
append_to_branch_ok b b' e h = ground (arith, extend_last-valid e b.dirty_ranges)

create_branch-Touches : (b : Branch) (g : Graph) → Touches b.branch_id g (create_branch b g).0
unfolding create_branch
create_branch-Touches b g = elim (Bool-cases (is_valid b)) [
  | inl v ↦ rw v (absent v (lookup b.branch_id g.branches))
  | inr v ↦ rw v (inl refl)
]
  where
    absent : is_valid b ≡ true → (o : Option Branch) → Touches b.branch_id g (create_absent o b g).0
    absent v none = inr (b, refl, v, refl)
    absent v (some c) = inl refl

fork_branch-Touches :
    (child parent fork : Str) (g : Graph)
    → WellFormed g
    → Touches child g (fork_branch child parent fork g).0
unfolding fork_branch fork_absent fork_from is_valid
fork_branch-Touches child parent fork g w =
    elim (Bool-cases (child == codes "" || parent == codes "")) [
      | inl e ↦ rw e (inl refl)
      | inr e ↦ rw e (absent (or_false e) (lookup child g.branches))
    ]
  where
    or_false : (child == codes "" || parent == codes "") ≡ false → (child == codes "") ≡ false
    or_false e = ground arith

    forked :
        (child == codes "") ≡ false
        → (o : Option Branch) → lookup parent g.branches ≡ o
        → Touches child g (fork_from o child parent fork g).0
    forked ne none h = inl refl
    forked ne (some p) h = inr (_, refl, ground (arith, w.valid parent p), refl)

    absent :
        (child == codes "") ≡ false
        → (o : Option Branch) → Touches child g (fork_absent o child parent fork g).0
    absent ne (some b) = inl refl
    absent ne none = forked ne (lookup parent g.branches) refl

append_event-Touches :
    (id event_id : Str) (g : Graph) → WellFormed g → Touches id g (append_event id event_id g).0
unfolding append_event
append_event-Touches id event_id g w = absent (lookup id g.branches) refl
  where
    updated :
        (b : Branch) (r : Result BranchError Branch)
        → b.branch_id ≡ id
        → append_to_branch b event_id ≡ r
        → Touches id g (append_updated id r g).0
    updated b (ok c) own h =
        let (same, v) = append_to_branch_ok b c event_id h in inr (c, same ∙ own, v, refl)
    updated b (err e) own h = inl refl

    absent :
        (o : Option Branch)
        → lookup id g.branches ≡ o
        → Touches id g (append_found id event_id o g).0
    absent none h = inl refl
    absent (some b) h = updated b (append_to_branch b event_id) (w.keyed id b h) refl

set_base_summary-Touches :
    (id summary_id : Str) (g : Graph)
    → WellFormed g
    → Touches id g (set_base_summary id summary_id g).0
unfolding set_base_summary is_valid
set_base_summary-Touches id summary_id g w = stored (lookup id g.branches) refl
  where
    stored :
        (o : Option Branch)
        → lookup id g.branches ≡ o
        → Touches id g (summary_found id summary_id o g).0
    stored none h = inl refl
    stored (some b) h =
        inr (record b { base_summary_id = summary_id }, w.keyed id b h, w.valid id b h, refl)

rebase_on_summary-Touches :
    (id summary_id basis : Str) (g : Graph)
    → WellFormed g
    → Touches id g (rebase_on_summary id summary_id basis g).0
unfolding rebase_on_summary is_valid
rebase_on_summary-Touches id summary_id basis g w = stored (lookup id g.branches) refl
  where
    stored :
        (o : Option Branch)
        → lookup id g.branches ≡ o
        → Touches id g (rebase_found id summary_id basis o g).0
    stored none h = inl refl
    stored (some b) h = inr (
      rebased summary_id basis b,
      w.keyed id b h,
      ground (arith, w.keyed id b h, w.valid id b h),
      refl,
    )

-- The operations of the graph that change it.
pub data Op : Type 0 where
  create : Branch → Op
  fork : Str → Str → Str → Op
  append : Str → Str → Op
  set_base : Str → Str → Op
  rebase : Str → Str → Str → Op

unfoldable pub run : Op → Graph → Graph
run (create b) g = (create_branch b g).0
run (fork child parent at) g = (fork_branch child parent at g).0
run (append id e) g = (append_event id e g).0
run (set_base id s) g = (set_base_summary id s g).0
run (rebase id s e) g = (rebase_on_summary id s e g).0

-- the branch that an operation is about
abbrev pub target : Op → Str
target (create b) = b.branch_id
target (fork child parent at) = child
target (append id e) = id
target (set_base id s) = id
target (rebase id s e) = id

run-Touches : (op : Op) (g : Graph) → WellFormed g → Touches (target op) g (run op g)
unfolding run
run-Touches (create b) g w = create_branch-Touches b g
run-Touches (fork child parent at) g w = fork_branch-Touches child parent at g w
run-Touches (append id e) g w = append_event-Touches id e g w
run-Touches (set_base id s) g w = set_base_summary-Touches id s g w
run-Touches (rebase id s e) g w = rebase_on_summary-Touches id s e g w

-- Every operation, failing or not, keeps a graph in which each branch is valid and stored under its
-- own id.
pub run-WellFormed : (op : Op) (g : Graph) → WellFormed g → WellFormed (run op g)
run-WellFormed op g w = Touches-WellFormed (target op) g (run op g) (run-Touches op g w) w

-- No operation changes a branch that it is not about: a child that is forked and appended to leaves
-- its parent as it was.
run-lookup_ne :
    (op : Op) (g : Graph) (j : Str)
    → WellFormed g
    → target op ≢ j
    → lookup j (run op g).branches ≡ lookup j g.branches
run-lookup_ne op g j w ne =
    Touches-lookup_ne (target op) j g (run op g) (run-Touches op g w)
      (ground (arith, eq_iff (target op) j))

pub WellFormed-new : WellFormed new_graph
unfolding lookup
WellFormed-new = record { keyed = λ k b h. cc; valid = λ k b h. cc }
