-- ===== src/Tooling/Gate/Trail.antt =====
-- What the gate records of its decisions, and which calls of a list it keeps.
use pancakes_harness.Prelude.{
  ap, ◌∙◌, Bool-cases, Option-cases, inl, inr, ◌≡◌, refl, ◌↔◌, true, false, Option, none, some,
  List, [], ◌∷◌, ◌++◌, map, arith, if◌then◌else◌, if_both, All,
}
use pancakes_harness.Bytes.{Str, codes, ◌==◌}
use pancakes_harness.Dict.{lookup}
use pancakes_harness.Replay.Graph.{read_meta_string}
use pancakes_harness.Tooling.Gate.{
  Verdict, accept, abstain, Call, Check, Decision, Gate, key_mismatch, ungrounded, resolve,
}
use pancakes_harness.Tooling.Gate.Support.{fits}
use pancakes_harness.Tooling.Gate.Checks.{
  passed, refused, exists, shaped, grounded, check_resolution, check_declared, check, unsupported,
  no_support, no_call, check_each, check_all, is_accept,
}
use pancakes_harness.Tooling.Gate.Requests.{IsSupported, fits_iff}
use pancakes_harness.Tooling.Gate.Admission.{IsAdmissible, check_iff}

-- The second list has the admissible calls of the first, in their order.
pub data Keeps (g : Gate) (query : Str) : List Call → List Call → Type 0 where
  none_left : Keeps g query [] []
  keep :
      {call : Call} {calls kept : List Call}
      → IsAdmissible g query call
      → Keeps g query calls kept
      → Keeps g query (call ∷ calls) (call ∷ kept)
  skip :
      {call : Call} {calls kept : List Call}
      → (IsAdmissible g query call → ⊥)
      → Keeps g query calls kept
      → Keeps g query (call ∷ calls) kept

-- The rules that were checked before the last one held, and the last held exactly if the call is
-- accepted.
abbrev pub HasTrail : Decision → Type 0
HasTrail d =
    (before : List Check) × (last : Check) × (d.checks ≡ before ++ last ∷ [])
    × All (λ c. c.ok ≡ true) before
    × ((last.ok ≡ true) ↔ (d.verdict ≡ accept))

refused-HasTrail :
    (call : Call) (reason : Str) (before : List Check) (rule detail : Str)
    → All (λ c. c.ok ≡ true) before
    → HasTrail (refused call reason before rule detail)
refused-HasTrail call reason before rule detail held = (
  before,
  record { rule = rule; ok = false; detail = detail },
  refl,
  held,
  (λ h. absurd (ground arith), λ h. absurd (ground arith)),
)

module _ (quote : Str → Str) (g : Gate) (query : Str) where
  resolution-HasTrail : (call : Call) → HasTrail (check_resolution quote g call)
  unfolding check_resolution
  resolution-HasTrail call =
      if_both HasTrail (resolve g call == codes "")
        (
          exists ∷ shaped ∷ grounded ∷ [],
          passed (codes "resolution"),
          refl,
          (refl, (refl, (refl, tt))),
          (λ _. refl, λ _. refl),
        )
        (refused-HasTrail call (resolve g call) (exists ∷ shaped ∷ grounded ∷ [])
          (codes "resolution") (resolve g call) (refl, (refl, (refl, tt))))

  values-HasTrail :
      (call : Call) (o : Option Str)
      → HasTrail (elim o [
        | some key ↦
            refused call
              (codes "value "
                ++ quote (read_meta_string call.args key)
                ++ codes " is not in the request")
              (exists ∷ shaped ∷ [])
              (codes "grounding")
              key
        | none ↦ check_resolution quote g call
      ])
  values-HasTrail call none = resolution-HasTrail call
  values-HasTrail call (some key) =
      refused-HasTrail call
        (codes "value " ++ quote (read_meta_string call.args key) ++ codes " is not in the request")
        (exists ∷ shaped ∷ []) (codes "grounding") key (refl, (refl, tt))

  declared-HasTrail :
      (call : Call) (declared : List Str) → HasTrail (check_declared quote g query call declared)
  unfolding check_declared
  declared-HasTrail call declared =
      if_both HasTrail (key_mismatch declared call.args == codes "")
        (values-HasTrail call (ungrounded query declared call.args))
        (refused-HasTrail call (key_mismatch declared call.args) (exists ∷ []) (codes "schema")
          (key_mismatch declared call.args) (refl, tt))

  found-HasTrail :
      (call : Call) (o : Option (List Str))
      → HasTrail (elim o [
        | none ↦
            refused call (codes "unknown tool: " ++ call.name) [] (codes "tool_exists") call.name
        | some declared ↦ check_declared quote g query call declared
      ])
  found-HasTrail call none =
      refused-HasTrail call (codes "unknown tool: " ++ call.name) [] (codes "tool_exists") call.name
        tt
  found-HasTrail call (some declared) = declared-HasTrail call declared

  check-HasTrail : (call : Call) → HasTrail (check quote g query call)
  unfolding check
  check-HasTrail call = found-HasTrail call (lookup call.name g.tools)

  no_support-HasTrail : (call : Call) → HasTrail (no_support call)
  no_support-HasTrail call =
      refused-HasTrail call (codes "the request names nothing this tool set can act on") []
        (codes "request_supported") (codes "") tt

  abbrev AllRefused : List Decision → Type 0
  AllRefused ds = All HasTrail ds × All (λ d. d.verdict ≡ abstain) ds

  All-Refused : (calls : List Call) → AllRefused (map no_support calls)
  All-Refused [] = (tt, tt)
  All-Refused (call ∷ calls) =
      let (trails, refusals) = All-Refused calls in
      ((no_support-HasTrail call, trails), (refl, refusals))

  unsupported-Refused : (calls : List Call) → AllRefused (unsupported calls)
  unfolding unsupported
  unsupported-Refused [] = ((no_support-HasTrail no_call, tt), (refl, tt))
  unsupported-Refused (call ∷ calls) = All-Refused (call ∷ calls)

  -- one more call, by its verdict
  keep_or_skip :
      (call : Call) (v : Verdict) (calls kept : List Call)
      → (check quote g query call).verdict ≡ v
      → Keeps g query calls kept
      → Keeps g query (call ∷ calls) (if is_accept v then call ∷ kept else kept)
  keep_or_skip call accept calls kept e h = keep ((check_iff quote g query call).0 e) h
  keep_or_skip call abstain calls kept e h =
      skip (λ a. let e' = (check_iff quote g query call).1 a in absurd (ground arith)) h

  check_each-Keeps : (calls : List Call) → Keeps g query calls (check_each quote g query calls).0
  unfolding check_each
  check_each-Keeps [] = none_left
  check_each-Keeps (call ∷ calls) =
      keep_or_skip call (check quote g query call).verdict calls _ refl (check_each-Keeps calls)

  -- a decision is about its call
  abbrev IsAbout : Call → Decision → Type 0
  IsAbout call d = d.call ≡ call

  resolution-IsAbout : (call : Call) → IsAbout call (check_resolution quote g call)
  unfolding check_resolution
  resolution-IsAbout call = if_both (IsAbout call) (resolve g call == codes "") refl refl

  values-IsAbout :
      (call : Call) (o : Option Str)
      → IsAbout call (elim o [
        | some key ↦
            refused call
              (codes "value "
                ++ quote (read_meta_string call.args key)
                ++ codes " is not in the request")
              (exists ∷ shaped ∷ [])
              (codes "grounding")
              key
        | none ↦ check_resolution quote g call
      ])
  values-IsAbout call none = resolution-IsAbout call
  values-IsAbout call (some key) = refl

  declared-IsAbout :
      (call : Call) (declared : List Str)
      → IsAbout call (check_declared quote g query call declared)
  unfolding check_declared
  declared-IsAbout call declared =
      if_both (IsAbout call) (key_mismatch declared call.args == codes "")
        (values-IsAbout call (ungrounded query declared call.args)) refl

  check-IsAbout : (call : Call) → IsAbout call (check quote g query call)
  unfolding check
  check-IsAbout call = elim (Option-cases (lookup call.name g.tools)) [
    | inl unknown ↦ rw (check, unknown) refl
    | inr (declared, e) ↦ rw (check, e) (declared-IsAbout call declared)
  ]

  check_each-Decides :
      (calls : List Call)
      → (map (λ d. d.call) (check_each quote g query calls).1 ≡ calls)
        × All HasTrail (check_each quote g query calls).1
  unfolding check_each
  check_each-Decides [] = (refl, tt)
  check_each-Decides (call ∷ calls) =
      let (same, trails) = check_each-Decides calls in
      (
        ap (λ c. c ∷ map (λ d. d.call) (check_each quote g query calls).1) (check-IsAbout call)
            ∙ ap (λ cs. call ∷ cs) same,
        (check-HasTrail call, trails),
      )

  -- For a request that the tools can act on, `CheckAll` keeps exactly the admissible calls, in their
  -- order, and returns one decision for each call, in the same order. For any other request it keeps
  -- none, and every decision abstains. Every decision has a trail: the rules before the last one held,
  -- and the last held exactly if the call is accepted.
  pub check_all_lem :
      (calls : List Call)
      → (IsSupported g query
          → Keeps g query calls (check_all quote g query calls).0
            × (map (λ d. d.call) (check_all quote g query calls).1 ≡ calls))
        × ((IsSupported g query → ⊥)
            → ((check_all quote g query calls).0 ≡ [])
              × All (λ d. d.verdict ≡ abstain) (check_all quote g query calls).1)
        × All HasTrail (check_all quote g query calls).1
  unfolding check_all
  check_all_lem calls = elim (Bool-cases (fits g query)) [
    | inl fine ↦
        rw (check_all, fine)
          (
            λ _. (check_each-Keeps calls, (check_each-Decides calls).0),
            λ none_fits. absurd (none_fits ((fits_iff g query).0 fine)),
            (check_each-Decides calls).1,
          )
    | inr unfit ↦
        rw (check_all, unfit)
          (
            λ s. absurd (let e = (fits_iff g query).1 s in ground arith),
            λ _. (refl, (unsupported-Refused calls).1),
            (unsupported-Refused calls).0,
          )
  ]
