-- ===== src/Preflight.antt =====
-- internal/preflight: boundary input into a typed result. A range over a Go map takes its entries in
-- any order: here in the order of the association list, so that a statement for every list is one
-- for every order.
pub mod Outcomes
use pancakes_harness.Prelude.{
  Bool, true, false, ◌&&◌, Option, none, some, List, [], ◌∷◌, if◌then◌else◌,
}
use pancakes_harness.Bytes.{Str, codes, ◌==◌, trim_space}
use pancakes_harness.Dict.{Dict, insert}
use pancakes_harness.Sort.{sort_strings}

pub record Input : Type 0 where
  pub mode : Str
  pub scope : Str
  pub allow_execution : Bool
  pub allow_tools : Bool
  pub refs : List Str
  pub constraints : Dict Str
  pub reason : Str

pub record Result : Type 0 where
  pub mode : Str
  pub resolved : Bool
  pub missing : List Str
  pub scope : Str
  pub allow_execution : Bool
  pub allow_tools : Bool
  pub refs : List Str
  pub constraints : Dict Str
  pub reason : Str

-- The result comes with `ErrMalformedInput` or without.
pub data Validated : Type 0 where
  valid : Result → Validated
  malformed : Result → Validated

-- the loop of `normalizeRefs`: `none` where a reference is blank
unfoldable pub trim_all : List Str → Option (List Str)
trim_all [] = some []
trim_all (r ∷ rs) =
    let rest = trim_all rs in
    if trim_space r == codes ""
    then none
    else elim rest [ none ↦ none | some out ↦ some (trim_space r ∷ out) ]

unfoldable pub normalize_refs : List Str → Option (List Str)
unfolding trim_all sort_strings
normalize_refs refs = elim (trim_all refs) [ none ↦ none | some out ↦ some (sort_strings out) ]

-- the loop of `normalizeConstraints` over the map that it fills
unfoldable pub trim_constraints : Dict Str → Dict Str → Option (Dict Str)
trim_constraints out [] = some out
trim_constraints out ((k, v) ∷ m) =
    let rest = trim_constraints (insert (trim_space k) (trim_space v) out) m in
    if trim_space k == codes "" then none else rest

unfoldable pub normalize_constraints : Dict Str → Option (Dict Str)
unfolding trim_constraints
normalize_constraints = trim_constraints []

-- the result that `Validate` starts from
abbrev pub trimmed : Input → Result
trimmed i = record {
  mode = trim_space i.mode;
  resolved = false;
  missing = [];
  scope = trim_space i.scope;
  allow_execution = i.allow_execution;
  allow_tools = i.allow_tools;
  refs = [];
  constraints = [];
  reason = trim_space i.reason;
}

abbrev pub or_reason : Str → Str → Str
or_reason reason d = if reason == codes "" then d else reason

-- past the checks: the scope decides
unfoldable pub decide_scope : Result → Result
decide_scope r =
    if r.scope == codes ""
    then record r {
      missing = codes "scope" ∷ [];
      resolved = false;
      reason = or_reason r.reason (codes "unresolved intent");
    }
    else record r { missing = []; resolved = true; reason = or_reason r.reason (codes "resolved") }

with_constraints : Option (Dict Str) → Result → Validated
with_constraints none r = malformed (record r { reason = codes "invalid constraints" })
with_constraints (some m) r = valid (decide_scope (record r { constraints = m }))

with_refs : Option (List Str) → Option (Dict Str) → Result → Validated
unfolding with_constraints
with_refs none m r = malformed (record r { reason = codes "invalid refs" })
with_refs (some refs) m r = with_constraints m (record r { refs = refs })

unfoldable pub validate : Input → Validated
unfolding with_refs
validate i =
    let r = trimmed i in
    if r.mode == codes ""
    then malformed (record r {
      missing = codes "mode" ∷ [];
      reason = or_reason r.reason (codes "malformed boundary input");
    })
    else with_refs (normalize_refs i.refs) (normalize_constraints i.constraints) r
