-- ===== src/Examples/Calls.antt =====
-- Requests in flight under one key, the fingerprint of a request, and boundary inputs.
use mathlib.Core.List.Perm
use pancakes_harness.Prelude.{ℕ, ◌≡◌, ◌↔◌, refl, true, false, some, List, [], ◌∷◌, get_elem?}
use pancakes_harness.Bytes.{Str, codes}
use pancakes_harness.Dict.{lookup}
use pancakes_harness.Ingress.Inflight.{Inflight, Call, active, new_inflight, enter, complete, read}
use pancakes_harness.Ingress.Inflight.Steps.{here, next, enters, one_call_per_key}
use pancakes_harness.Ingress.Inflight.Results.{coalesces}
use pancakes_harness.Ingress.Request.{Request, fingerprint_request}
use pancakes_harness.Ingress.Request.Order.{Same, fingerprint_request-Same}
use pancakes_harness.Preflight.{Input, Result, valid, validate}
use pancakes_harness.Preflight.Outcomes.{IsWellFormed, validate_iff}

abbrev key : Str
key = codes "k"

abbrev led : Inflight ℕ
led = (enter key new_inflight).0

abbrev running : Call ℕ
running = record { key = key; phase = active }

one_call_per_key_example : ◌≡◌ {A = ℕ} 0 0
unfolding enter get_elem? lookup
one_call_per_key_example =
    one_call_per_key led 0 0 running running (next here (enters key new_inflight)) refl refl refl
      refl refl

coalesces_example :
    ((enter key (new_inflight {V = ℕ})).1.leader ≡ true)
    × ((enter key led).1
        ≡ record { leader = false; call = (enter key (new_inflight {V = ℕ})).1.call })
    × (read
          (enter key (new_inflight {V = ℕ})).1.call
          (complete (enter key (new_inflight {V = ℕ})).1 7 led)
        ≡ some 7)
    × ((enter key (complete (enter key (new_inflight {V = ℕ})).1 7 led)).1.leader ≡ true)
unfolding lookup
coalesces_example = coalesces key 7 new_inflight refl

abbrev asked : List Str → Request
asked refs = record {
  session_id = codes "s";
  branch_id = codes "m";
  task = codes "t";
  refs = refs;
  constraints = (codes "c", codes "v") ∷ [];
  allow_tools = true;
  external_context = codes "";
}

same : Same (asked (codes "a" ∷ codes "b" ∷ [])) (asked (codes "b" ∷ codes "a" ∷ []))
same = record {
  session_id = refl;
  branch_id = refl;
  task = refl;
  refs = Perm.swap (codes "b") (codes "a") [];
  constraints = Perm.refl ((codes "c", codes "v") ∷ []);
  allow_tools = refl;
  external_context = refl;
}

fingerprint_request-Same_example :
    fingerprint_request (λ s. s) (asked (codes "a" ∷ codes "b" ∷ []))
    ≡ fingerprint_request (λ s. s) (asked (codes "b" ∷ codes "a" ∷ []))
fingerprint_request-Same_example =
    fingerprint_request-Same (λ s. s) (asked (codes "a" ∷ codes "b" ∷ []))
      (asked (codes "b" ∷ codes "a" ∷ [])) same

abbrev input : Input
input = record {
  mode = codes "read";
  scope = codes " x ";
  allow_execution = false;
  allow_tools = true;
  refs = codes "a" ∷ [];
  constraints = (codes "c", codes "v") ∷ [];
  reason = codes "";
}

validate_iff_example : ((r : Result) × (validate input ≡ valid r)) ↔ IsWellFormed input
validate_iff_example = validate_iff input
