-- ===== src/Examples/Branches.antt =====
-- A branch, its fork, and events appended to them.
use pancakes_harness.Prelude.{◌≢◌, refl}
use pancakes_harness.Bytes.{codes, ◌==◌, eq_apart}
use pancakes_harness.Branchdag.{Branch, Graph, bare_branch, new_graph}
use pancakes_harness.Branchdag.Laws.{create, run, WellFormed, WellFormed-new, run-WellFormed}

abbrev main : Branch
main = bare_branch (codes "m")

abbrev graph : Graph
graph = run (create main) new_graph

run-WellFormed_example : WellFormed (run (create main) new_graph)
run-WellFormed_example = run-WellFormed (create main) new_graph WellFormed-new

graph-WellFormed : WellFormed graph
graph-WellFormed = run-WellFormed (create main) new_graph WellFormed-new

differ : codes "k" ≢ codes "m"
unfolding ◌==◌
differ = eq_apart (codes "k") (codes "m") refl
