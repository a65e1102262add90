-- ===== src/Ingress/Request.antt =====
-- internal/ingress request.go and fingerprint.go: the canonical form of a request and its digest.
-- `digest` stands for the hexadecimal SHA-256 of the standard library. Encoding a canonical request
-- never fails: it holds strings and a Boolean only.
pub mod Order
use pancakes_harness.Prelude.{Bool, true, false, List, [], ◌∷◌, ◌++◌, map, if◌then◌else◌}
use pancakes_harness.Bytes.{Str, codes, ◌==◌, lt_str, trim_space}
use pancakes_harness.Dict.{Dict}
use pancakes_harness.Sort.{sort_by, sort_strings}
use pancakes_harness.Json.{quote, array, object, member}

pub record Request : Type 0 where
  pub session_id : Str
  pub branch_id : Str
  pub task : Str
  pub refs : List Str
  pub constraints : Dict Str
  pub allow_tools : Bool
  pub external_context : Str

pub record FingerprintInput : Type 0 where
  pub session_id : Str
  pub branch_id : Str
  pub task : Str
  pub refs : List Str
  pub constraints : Dict Str
  pub allow_tools : Bool
  pub external_context : Str

unfoldable pub normalize_external_context : Str → Str
normalize_external_context s =
    let trimmed = trim_space s in if trimmed == codes "" then codes "" else trimmed

unfoldable pub fingerprint_input : Request → FingerprintInput
unfolding normalize_external_context
fingerprint_input r = record {
  session_id = r.session_id;
  branch_id = r.branch_id;
  task = r.task;
  refs = r.refs;
  constraints = r.constraints;
  allow_tools = r.allow_tools;
  external_context = normalize_external_context r.external_context;
}

-- by key, then by value
unfoldable pub constraint_less : Str × Str → Str × Str → Bool
unfolding lt_str
constraint_less (k, v) (j, w) = if k == j then lt_str v w else lt_str k j

pub record Canonical : Type 0 where
  pub session_id : Str
  pub branch_id : Str
  pub task : Str
  pub refs : List Str
  pub constraints : List (Str × Str)
  pub allow_tools : Bool
  pub external_context : Str

unfoldable pub canonical : FingerprintInput → Canonical
unfolding sort_by sort_strings constraint_less normalize_external_context
canonical r = record {
  session_id = r.session_id;
  branch_id = r.branch_id;
  task = r.task;
  refs = sort_strings r.refs;
  constraints = sort_by constraint_less r.constraints;
  allow_tools = r.allow_tools;
  external_context = normalize_external_context r.external_context;
}

marshal_constraint : Str × Str → Str
unfolding quote object
marshal_constraint (k, v) =
    object (member (codes "key") (quote k) ∷ member (codes "value") (quote v) ∷ [])

-- an array field that is left out when empty
array_field : Str → List Str → List Str
unfolding array
array_field name [] = []
array_field name (x ∷ xs) = member name (array (x ∷ xs)) ∷ []

unfoldable pub marshal_canonical : Canonical → Str
unfolding quote object array_field marshal_constraint
marshal_canonical c = object (
    member (codes "session_id") (quote c.session_id)
    ∷ member (codes "branch_id") (quote c.branch_id)
    ∷ member (codes "task") (quote c.task)
    ∷ (array_field (codes "refs") (map quote c.refs)
        ++ (array_field (codes "constraints") (map marshal_constraint c.constraints)
            ++ (member (codes "allow_tools") (if c.allow_tools then codes "true" else codes "false")
                ∷ (if c.external_context == codes ""
                    then []
                    else member (codes "external_context") (quote c.external_context) ∷ [])))))

module _ (digest : Str → Str) where
  unfoldable pub fingerprint : FingerprintInput → Str
  unfolding canonical marshal_canonical
  fingerprint r = digest (marshal_canonical (canonical r))

  unfoldable pub fingerprint_request : Request → Str
  unfolding fingerprint fingerprint_input
  fingerprint_request r = fingerprint (fingerprint_input r)
