-- ===== src/Ingress/Request/Order.antt =====
-- The fingerprint sees a request up to the order of its references and of its map.
use mathlib.Core.List.{Perm}
use pancakes_harness.Prelude.{◌≡◌, ap, true, false, arith}
use pancakes_harness.Bytes.{Str, eq_iff, trim_space}
use pancakes_harness.Sort.Unique.{IsOrder, sort_by_unique, sort_strings_unique, strings}
use pancakes_harness.Ingress.Request.{
  Request, marshal_canonical, normalize_external_context, fingerprint_input, constraint_less,
  canonical, fingerprint, fingerprint_request,
}

less-asym : (x y : Str × Str) → constraint_less x y ≡ true → constraint_less y x ≡ false
unfolding constraint_less
less-asym (k, v) (j, w) h =
    ground (arith, eq_iff k j, eq_iff j k, strings.asym v w, strings.asym k j)

less-connected :
    (x y : Str × Str) → constraint_less x y ≡ false → constraint_less y x ≡ false → x ≡ y
unfolding constraint_less
less-connected (k, v) (j, w) h g =
    ground (arith, eq_iff k j, eq_iff j k, strings.connected v w, strings.connected k j)

less-compared :
    (x y z : Str × Str)
    → constraint_less x z ≡ true
    → constraint_less x y ≡ false
    → constraint_less y z ≡ true
unfolding constraint_less
less-compared (k, v) (j, w) (i, u) h g = ground (
  arith,
  eq_iff k j,
  eq_iff k i,
  eq_iff j i,
  strings.compared v w u,
  strings.compared k j i,
  strings.connected k j,
  strings.asym j i,
)

constraint_less-IsOrder : IsOrder constraint_less
constraint_less-IsOrder = record {
  asym = less-asym;
  connected = less-connected;
  compared = less-compared;
}

-- Two requests that differ in the order of their references and constraints and in the space around
-- the external context at most.
pub record Same (a b : Request) : Type 0 where
  pub session_id : a.session_id ≡ b.session_id
  pub branch_id : a.branch_id ≡ b.branch_id
  pub task : a.task ≡ b.task
  pub refs : Perm a.refs b.refs
  pub constraints : Perm a.constraints b.constraints
  pub allow_tools : a.allow_tools ≡ b.allow_tools
  pub external_context : trim_space a.external_context ≡ trim_space b.external_context

canonical-Same :
    (a b : Request) → Same a b → canonical (fingerprint_input a) ≡ canonical (fingerprint_input b)
unfolding fingerprint_input canonical normalize_external_context
canonical-Same a b s = rw (
  s.session_id,
  s.branch_id,
  s.task,
  s.allow_tools,
  s.external_context,
  sort_strings_unique a.refs b.refs s.refs,
  sort_by_unique constraint_less constraint_less-IsOrder (hlevel) a.constraints b.constraints
      s.constraints,
)

-- Requests that differ in the order of their references, in the order of their constraints and in
-- the space around the external context at most have the same fingerprint.
pub fingerprint_request-Same :
    (digest : Str → Str) (a b : Request)
    → Same a b
    → fingerprint_request digest a ≡ fingerprint_request digest b
unfolding fingerprint_request fingerprint
fingerprint_request-Same digest a b s =
    ap (λ c. digest (marshal_canonical c)) (canonical-Same a b s)
