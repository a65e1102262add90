-- ===== src/Preflight/Outcomes.antt =====
-- Which inputs are malformed, unresolved and resolved; and where the result depends on the order in
-- which a map is ranged over.
use mathlib.Core.Path.{subst}
use pancakes_harness.Prelude.{
  ◌≡◌, ◌≢◌, ◌↔◌, inl, inr, refl, sym, ap, true, false, Option, none, some, List, [], ◌∷◌, arith,
  if◌then◌else◌, Bool-cases, Option-cases, All,
}
use pancakes_harness.Bytes.{Str, codes, ◌==◌, eq_self, trim_space}
use pancakes_harness.Dict.{Dict, insert}
use pancakes_harness.Sort.{sort_strings}
use pancakes_harness.Preflight.{
  or_reason, Input, Result, valid, trim_all, normalize_refs, trim_constraints,
  normalize_constraints, trimmed, decide_scope, with_refs, validate,
}

-- a text that is more than space
abbrev pub IsFilled : Str → Type 0
IsFilled s = (trim_space s == codes "") ≡ false

trim_all-some : (rs : List Str) → All IsFilled rs → (out : List Str) × (trim_all rs ≡ some out)
unfolding trim_all
trim_all-some [] h = ([], refl)
trim_all-some (r ∷ rs) (f, h) = let (out, e) = trim_all-some rs h in (trim_space r ∷ out, rw (f, e))

trim_all_cons :
    (r : Str) (rs out : List Str) → trim_all (r ∷ rs) ≡ some out → IsFilled r × (trim_all rs ≢ none)
unfolding trim_all
trim_all_cons r rs out h = (ground arith, λ e. ground arith)

trim_all-IsFilled : (rs out : List Str) → trim_all rs ≡ some out → All IsFilled rs
trim_all-IsFilled [] out h = tt
trim_all-IsFilled (r ∷ rs) out h =
    let (filled, there) = trim_all_cons r rs out h in
    elim (Option-cases (trim_all rs)) [
      | inl e ↦ absurd (there e)
      | inr (out', e) ↦ (filled, trim_all-IsFilled rs out' e)
    ]

-- the keys of the constraints
abbrev pub KeyFilled : Str × Str → Type 0
KeyFilled (k, v) = IsFilled k

pub trim_constraints-some :
    (out m : Dict Str) → All KeyFilled m → (out' : Dict Str) × (trim_constraints out m ≡ some out')
unfolding trim_constraints
trim_constraints-some out [] h = (out, refl)
trim_constraints-some out ((k, v) ∷ m) (f, h) =
    rw f (trim_constraints-some (insert (trim_space k) (trim_space v) out) m h)

pub trim_constraints-KeyFilled :
    (out m out' : Dict Str) → trim_constraints out m ≡ some out' → All KeyFilled m
unfolding trim_constraints
trim_constraints-KeyFilled out [] out' h = tt
trim_constraints-KeyFilled out ((k, v) ∷ m) out' h = (
  ground arith,
  trim_constraints-KeyFilled (insert (trim_space k) (trim_space v) out) m out' (ground arith),
)

normalize_refs-some :
    (rs : List Str) → All IsFilled rs → (out : List Str) × (normalize_refs rs ≡ some out)
unfolding normalize_refs
normalize_refs-some rs h =
    let (out, e) = trim_all-some rs h in
    (sort_strings out, ap (λ o. elim o [ none ↦ none | some out ↦ some (sort_strings out) ]) e)

normalize_refs-IsFilled : (rs out : List Str) → normalize_refs rs ≡ some out → All IsFilled rs
unfolding normalize_refs
normalize_refs-IsFilled rs out h = elim (Option-cases (trim_all rs)) [
  | inl e ↦ absurd (ground arith)
  | inr (out', e) ↦ trim_all-IsFilled rs out' e
]

-- An input with a mode, references and constraint keys that are all more than space.
abbrev pub IsWellFormed : Input → Type 0
IsWellFormed i = IsFilled i.mode × All IsFilled i.refs × All KeyFilled i.constraints

-- What an accepted input has been checked for, and the result that it gives.
abbrev Accepted : Input → Result → Type 0
Accepted i r =
    IsFilled i.mode
    × ((refs : List Str) × (m : Dict Str) × (normalize_refs i.refs ≡ some refs)
        × (normalize_constraints i.constraints ≡ some m)
        × (r ≡ decide_scope (record (trimmed i) { refs = refs; constraints = m })))

validate_parts : (i : Input) (r : Result) → validate i ≡ valid r → Accepted i r
unfolding validate
validate_parts i r h = elim (Bool-cases (trim_space i.mode == codes "")) [
  | inl blank ↦ absurd (ground arith)
  | inr filled ↦ (
    filled,
    refs (normalize_refs i.refs) (normalize_constraints i.constraints) refl refl (rw filled at h),
  )
]
  where
    refs :
        (o : Option (List Str)) (c : Option (Dict Str))
        → normalize_refs i.refs ≡ o
        → normalize_constraints i.constraints ≡ c
        → with_refs o c (trimmed i) ≡ valid r
        → (refs : List Str) × (m : Dict Str) × (normalize_refs i.refs ≡ some refs)
          × (normalize_constraints i.constraints ≡ some m)
          × (r ≡ decide_scope (record (trimmed i) { refs = refs; constraints = m }))
    refs none c e f h = cc
    refs (some out) none e f h = cc
    refs (some out) (some m) e f h = (out, m, e, f, cc)

validate_accepts :
    (i : Input) (refs : List Str) (m : Dict Str)
    → IsFilled i.mode
    → normalize_refs i.refs ≡ some refs
    → normalize_constraints i.constraints ≡ some m
    → validate i ≡ valid (decide_scope (record (trimmed i) { refs = refs; constraints = m }))
unfolding validate
validate_accepts i refs m f e c = rw (f, e, c)

-- `Validate` accepts exactly the inputs whose mode, references and constraint keys are all more than
-- space.
pub validate_iff : (i : Input) → ((r : Result) × (validate i ≡ valid r)) ↔ IsWellFormed i
unfolding normalize_constraints
validate_iff i = (
  λ (r, h).
      let (f, (refs, m, e, c, _)) = validate_parts i r h in
      (f, normalize_refs-IsFilled i.refs refs e, trim_constraints-KeyFilled [] i.constraints m c),
  λ (f, fs, ks).
      let (refs, e) = normalize_refs-some i.refs fs in
      let (m, c) = trim_constraints-some [] i.constraints ks in
      (_, validate_accepts i refs m f e c),
)

-- What an accepted result says.
pub record Decided (i : Input) (r : Result) : Type 0 where
  pub scope : r.scope ≡ trim_space i.scope
  pub resolved : (r.resolved ≡ true) ↔ IsFilled i.scope
  pub missing : r.missing ≡ (if r.resolved then [] else codes "scope" ∷ [])
  pub reason : (r.reason == codes "") ≡ false
  pub tools : (r.allow_tools ≡ i.allow_tools) × (r.allow_execution ≡ i.allow_execution)

or_reason_filled : (s d : Str) → (d == codes "") ≡ false → (or_reason s d == codes "") ≡ false
or_reason_filled s d h = elim (Bool-cases (s == codes "")) [
  | inl blank ↦ rw blank h
  | inr filled ↦ rw filled filled
]

decide-Decided :
    (i : Input) (refs : List Str) (m : Dict Str)
    → Decided i (decide_scope (record (trimmed i) { refs = refs; constraints = m }))
unfolding decide_scope ◌==◌
decide-Decided i refs m = elim (Bool-cases (trim_space i.scope == codes "")) [
  | inl blank ↦ record {
    scope = rw blank;
    resolved = rw blank (sym, sym);
    missing = rw blank;
    reason = rw blank (or_reason_filled (trim_space i.reason) (codes "unresolved intent") refl);
    tools = rw blank (refl, refl);
  }
  | inr filled ↦ record {
    scope = rw filled;
    resolved = rw filled (λ _. refl, λ _. refl);
    missing = rw filled;
    reason = rw filled (or_reason_filled (trim_space i.reason) (codes "resolved") refl);
    tools = rw filled (refl, refl);
  }
]

-- An accepted input is resolved exactly if its scope is more than space; otherwise the scope is named
-- as missing. Its scope is the input's trimmed, its permissions are the input's, and it has a reason.
validate-Decided : (i : Input) (r : Result) → validate i ≡ valid r → Decided i r
validate-Decided i r h =
    let (f, (refs, m, e, c, same)) = validate_parts i r h in
    subst (Decided i) (sym same) (decide-Decided i refs m)

later_wins :
    (k k' v v' : Str)
    → IsFilled k
    → IsFilled k'
    → trim_space k ≡ trim_space k'
    → normalize_constraints ((k, v) ∷ (k', v') ∷ []) ≡ some ((trim_space k', trim_space v') ∷ [])
unfolding normalize_constraints trim_constraints insert
later_wins k k' v v' f f' same = rw (f, f', same, eq_self (trim_space k'))

-- Two keys that trimming makes one, with values that stay different: the constraint that `Validate`
-- keeps under the key depends on the order in which the map is ranged over.
constraints_depend_on_order :
    (k k' v v' : Str)
    → IsFilled k
    → trim_space k ≡ trim_space k'
    → trim_space v ≢ trim_space v'
    → normalize_constraints ((k, v) ∷ (k', v') ∷ [])
      ≢ normalize_constraints ((k', v') ∷ (k, v) ∷ [])
constraints_depend_on_order k k' v v' f same differ e =
    let f' = rw same at f in
    let first = later_wins k k' v v' f f' same in
    let second = later_wins k' k v' v f' f (sym same) in differ (cc)
