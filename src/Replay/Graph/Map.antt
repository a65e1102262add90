-- ===== src/Replay/Graph/Map.antt =====
-- The map that `RebuildBranchStateFromEvents` returns is the graph's, read by key.
use mathlib.Core.List.{map}
use pancakes_harness.Prelude.{
  ◌≡◌, refl, sym, ◌∙◌, ap, Bool, true, false, ◌||◌, none, some, List, [], ◌∷◌, arith, if◌then◌else◌,
  Bool-cases, inl, inr,
}
use pancakes_harness.Prelude.Result.{ok}
use pancakes_harness.Bytes.{Str, ◌==◌, eq_iff, eq_self, lt_str}
use pancakes_harness.Dict.{Dict, lookup, insert, keys, lookup-insert}
use pancakes_harness.Sort.{insert_sorted, sort_by, sort_strings}
use pancakes_harness.Eventlog.Event.{Event}
use pancakes_harness.Branchdag.{Branch, Graph, new_graph, at_key, list_branches}
use pancakes_harness.Branchdag.Laws.{WellFormed}
use pancakes_harness.Replay.Graph.{replay_events, by_id, rebuild_branch_state}
use pancakes_harness.Replay.Graph.Total.{replay-WellFormed}

unfoldable has : Str → List Str → Bool
has k [] = false
has k (j ∷ js) = (j == k) || has k js

has-insert_sorted :
    (k x : Str) (xs : List Str) → has k (insert_sorted lt_str x xs) ≡ ((x == k) || has k xs)
unfolding has insert_sorted
has-insert_sorted k x [] = refl
has-insert_sorted k x (y ∷ ys) = ground (arith, has-insert_sorted k x ys)

has-sort_strings : (k : Str) (xs : List Str) → has k (sort_strings xs) ≡ has k xs
unfolding sort_strings has sort_by
has-sort_strings k [] = refl
has-sort_strings k (x ∷ xs) =
    has-insert_sorted k x (sort_by lt_str xs) ∙ ap (λ b. (x == k) || b) (has-sort_strings k xs)

later_or_here :
    (f : Str → Branch) (k : Str) (ks : List Str) (out : Dict Branch) (j : Str)
    → (if has j ks then some (f j) else lookup j (insert k (f k) out))
      ≡ (if (k == j) || has j ks then some (f j) else lookup j out)
later_or_here f k ks out j = ground (arith, lookup-insert k j (f k) out, eq_iff k j)

lookup-by_id :
    (f : Str → Branch) (ks : List Str) (out : Dict Branch) (j : Str)
    → ((k : Str) → has k ks ≡ true → (f k).branch_id ≡ k)
    → lookup j (by_id out (map f ks)) ≡ (if has j ks then some (f j) else lookup j out)
unfolding by_id has
lookup-by_id f [] out j own = refl
lookup-by_id f (k ∷ ks) out j own =
    let here : (f k).branch_id ≡ k = own k (rw (eq_self k)) in
    lookup-by_id f ks (insert (f k).branch_id (f k) out) j (λ i h. own i (ground arith))
    ∙ ap (λ i. if has j ks then some (f j) else lookup j (insert i (f k) out)) here
    ∙ later_or_here f k ks out j

lookup-has : {V : Type 0} (j : Str) (m : Dict V) → has j (keys m) ≡ false → lookup j m ≡ none
unfolding has keys lookup
lookup-has j [] h = refl
lookup-has j ((k, v) ∷ m) h = ground (arith, lookup-has j m)

has-lookup :
    {V : Type 0} (j : Str) (m : Dict V) → has j (keys m) ≡ true → (v : V) × (lookup j m ≡ some v)
unfolding has keys lookup
has-lookup j [] h = absurd (ground arith)
has-lookup j ((k, v) ∷ m) h = elim (Bool-cases (k == j)) [
  | inl same ↦ (v, rw same)
  | inr other ↦ let (w, e) = has-lookup j m (ground arith) in (w, rw other e)
]

-- what `ListBranches` puts under a key
abbrev entry : Graph → Str → Branch
entry g k = at_key (lookup k g.branches)

entry-keyed :
    (g : Graph) (k : Str)
    → WellFormed g
    → has k (sort_strings (keys g.branches)) ≡ true
    → (entry g k).branch_id ≡ k
unfolding at_key
entry-keyed g k w h =
    let (b, e) = has-lookup k g.branches (sym (has-sort_strings k (keys g.branches)) ∙ h) in
    rw e (w.keyed k b e)

entry-lookup :
    (g : Graph) (j : Str)
    → (if has j (sort_strings (keys g.branches)) then some (entry g j) else none)
      ≡ lookup j g.branches
unfolding at_key
entry-lookup g j =
    rw (has-sort_strings j (keys g.branches)) (elim (Bool-cases (has j (keys g.branches))) [
      | inl there ↦ let (b, e) = has-lookup j g.branches there in rw (there, e)
      | inr absent ↦ rw (absent, lookup-has j g.branches absent)
    ])

-- When the pass over the events succeeds with a graph, `RebuildBranchStateFromEvents` returns a map
-- that has the same branch as the graph under every id, and none where the graph has none.
pub rebuild_branch_state-lookup :
    (es : List Event) (g : Graph)
    → replay_events es new_graph ≡ ok g
    → (m : Dict Branch) × (rebuild_branch_state es ≡ ok m)
      × ((j : Str) → lookup j m ≡ lookup j g.branches)
unfolding rebuild_branch_state list_branches lookup
rebuild_branch_state-lookup es g run =
    let w = replay-WellFormed es g run in
    (
      by_id [] (map (entry g) (sort_strings (keys g.branches))),
      rw run,
      λ j.
          lookup-by_id (entry g) (sort_strings (keys g.branches)) [] j (λ k. entry-keyed g k w)
          ∙ entry-lookup g j,
    )
