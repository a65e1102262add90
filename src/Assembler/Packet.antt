-- ===== src/Assembler/Packet.antt =====
-- The packet body and its JSON.
use pancakes_harness.Prelude.{ℕ, ◌+◌, Bool, Option, none, some, List, [], ◌∷◌, ◌++◌, map, length}
use pancakes_harness.Prelude.Int.{ℤ, pos, negsuc}
use pancakes_harness.Bytes.{Str, codes}
use pancakes_harness.Json.{quote, of_int, array, object, member}

abbrev pub max_envelope_bytes : ℕ
max_envelope_bytes = 14336

abbrev pub safety_margin_bytes : ℕ
safety_margin_bytes = 768

abbrev pub large_text_inline_threshold_bytes : ℕ
large_text_inline_threshold_bytes = 1024

abbrev pub tool_result_excerpt_bytes : ℕ
tool_result_excerpt_bytes = 256

pub record Header : Type 0 where
  pub name : Str
  pub value : Str

pub record Constraint : Type 0 where
  pub name : Str
  pub value : Str

pub record WorkingItem : Type 0 where
  pub id : Str
  pub kind : Str
  pub text : Str
  pub summary_ref : Str
  pub blob_ref : Str
  pub frontier_ordinal : ℤ
  pub provenance : Str
  pub provenance_required : Bool

pub record PacketBody : Type 0 where
  pub session_id : Str
  pub branch_handle : Str
  pub working_set : Option (List WorkingItem)
  pub external_context : Str
  pub frontier : List Str
  pub constraints : List Constraint
  pub debug : List Str
  pub provenance : List Str
  pub checkpoint_summary_ref : Str
  pub compact_stage : ℕ

-- `append([]T(nil), s...)`: an empty slice becomes nil
abbrev pub non_empty {ℓ} : {A : Type ℓ} → List A → Option (List A)
non_empty [] = none
non_empty (x ∷ xs) = some (x ∷ xs)

-- the elements of a slice
abbrev pub elements {ℓ} : {A : Type ℓ} → Option (List A) → List A
elements none = []
elements (some xs) = xs

-- `cloneBody`
unfoldable pub clone_body : PacketBody → PacketBody
clone_body b = record b { working_set = non_empty (elements b.working_set) }

-- a field that is left out when empty
text_field : Str → Str → List Str
text_field name [] = []
text_field name (c ∷ s) = member name (quote (c ∷ s)) ∷ []

number_field : Str → ℤ → List Str
number_field name (pos ℕ.zero) = []
number_field name (pos (ℕ.suc n)) = member name (of_int (pos (ℕ.suc n))) ∷ []
number_field name (negsuc n) = member name (of_int (negsuc n)) ∷ []

list_field : Str → List Str → List Str
list_field name [] = []
list_field name (x ∷ xs) = member name (array (x ∷ xs)) ∷ []

unfoldable pub marshal_item : WorkingItem → Str
unfolding text_field number_field
marshal_item i = object (
    member (codes "id") (quote i.id)
    ∷ member (codes "kind") (quote i.kind)
    ∷ (text_field (codes "text") i.text
        ++ (text_field (codes "summary_ref") i.summary_ref
            ++ (text_field (codes "blob_ref") i.blob_ref
                ++ (number_field (codes "frontier_ordinal") i.frontier_ordinal
                    ++ text_field (codes "provenance") i.provenance)))))

marshal_constraint : Constraint → Str
marshal_constraint c =
    object (member (codes "name") (quote c.name) ∷ member (codes "value") (quote c.value) ∷ [])

marshal_working_set : Option (List WorkingItem) → Str
unfolding marshal_item
marshal_working_set none = codes "null"
marshal_working_set (some items) = array (map marshal_item items)

-- `marshalDeterministicBody`
unfoldable pub marshal_body : PacketBody → Str
unfolding marshal_working_set marshal_constraint text_field list_field
marshal_body b = object (
    member (codes "session_id") (quote b.session_id)
    ∷ member (codes "branch_handle") (quote b.branch_handle)
    ∷ member (codes "working_set") (marshal_working_set b.working_set)
    ∷ (text_field (codes "external_context") b.external_context
        ++ (list_field (codes "frontier") (map quote b.frontier)
            ++ (list_field (codes "constraints") (map marshal_constraint b.constraints)
                ++ (list_field (codes "debug") (map quote b.debug)
                    ++ (list_field (codes "provenance") (map quote b.provenance)
                        ++ (text_field (codes "checkpoint_summary_ref") b.checkpoint_summary_ref
                            ++ member (codes "compact_stage") (of_int (pos b.compact_stage))
                              ∷ [])))))))

pub record Request : Type 0 where
  pub method : Str
  pub path : Str
  pub headers : List Header
  pub body : PacketBody

pub record Measurement : Type 0 where
  pub request_line_bytes : ℕ
  pub header_bytes : ℕ
  pub body_budget_bytes : ℕ
  pub body_bytes : ℕ
  pub envelope_bytes : ℕ

pub data ContextStatus : Type 0 where
  omitted included dropped_budget : ContextStatus

pub record Packet : Type 0 where
  pub body_json : Str
  pub stage : ℕ
  pub measurement : Measurement
  pub body : PacketBody
  pub external_context_status : ContextStatus
  pub external_context_bytes : ℕ

-- `measureHeaders`: `Name: Value\r\n` for each, and the blank line
unfoldable pub measure_headers : List Header → ℕ
measure_headers [] = 2
measure_headers (h ∷ hs) = length h.name + 2 + length h.value + 2 + measure_headers hs
