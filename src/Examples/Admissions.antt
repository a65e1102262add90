-- ===== src/Examples/Admissions.antt =====
-- A gate with one tool over a small tree.
use pancakes_harness.Prelude.{◌≡◌, refl, map, ◌↔◌, List, true, some, [], ◌∷◌, All}
use pancakes_harness.Bytes.{Str, codes}
use pancakes_harness.Eventlog.Event.{end, field, text}
use pancakes_harness.Tooling.Paths.{FsPathIndex, path_index}
use pancakes_harness.Tooling.Gate.{accept, abstain, Call, Gate}
use pancakes_harness.Tooling.Gate.Checks.{check, check_all}
use pancakes_harness.Tooling.Gate.Support.{fits}
use pancakes_harness.Tooling.Gate.Admission.{IsAdmissible, check_iff}
use pancakes_harness.Tooling.Gate.Trail.{HasTrail, Keeps, check_all_lem}
use pancakes_harness.Tooling.Gate.Requests.{IsSupported}

abbrev tree : FsPathIndex
tree = record { files = codes "docs/guide.md" ∷ []; dirs = codes "" ∷ codes "docs" ∷ [] }

abbrev gate : Gate
gate = record { tools = (codes "read", codes "ref" ∷ []) ∷ []; index = some (path_index tree) }

abbrev reading : Str → Call
reading ref = record { name = codes "read"; args = field (codes "ref") (text ref) end }

abbrev query : Str
query = codes "open docs/guide.md, please"

accepts : (check (λ s. s) gate query (reading (codes "docs/guide.md"))).verdict ≡ accept
unfolding check path_index
accepts = refl

abstains : (check (λ s. s) gate query (reading (codes "docs/other.md"))).verdict ≡ abstain
unfolding check path_index
abstains = refl

supported : fits gate query ≡ true
unfolding fits path_index
supported = refl

abbrev calls : List Call
calls = reading (codes "docs/guide.md") ∷ reading (codes "x") ∷ []

keeps :
    (check_all (λ s. s) gate query (reading (codes "docs/guide.md") ∷ reading (codes "x") ∷ [])).0
    ≡ reading (codes "docs/guide.md") ∷ []
unfolding check_all path_index
keeps = refl

check_iff_example :
    ((check (λ s. s) gate query (reading (codes "docs/guide.md"))).verdict ≡ accept)
    ↔ IsAdmissible gate query (reading (codes "docs/guide.md"))
check_iff_example = check_iff (λ s. s) gate query (reading (codes "docs/guide.md"))

check_all_lem_example :
    (IsSupported gate query
      → Keeps gate query calls (check_all (λ s. s) gate query calls).0
        × (map (λ d. d.call) (check_all (λ s. s) gate query calls).1 ≡ calls))
    × ((IsSupported gate query → ⊥)
        → ((check_all (λ s. s) gate query calls).0 ≡ [])
          × All (λ d. d.verdict ≡ abstain) (check_all (λ s. s) gate query calls).1)
    × All HasTrail (check_all (λ s. s) gate query calls).1
check_all_lem_example = check_all_lem (λ s. s) gate query calls
