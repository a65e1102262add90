-- ===== src/Assembler/Normalize.antt =====
-- `normalizeRequest`. `strings.ToUpper` is modelled on ASCII, of which request methods are.
pub mod Items
use pancakes_harness.Prelude.{
  ℕ, ◌-◌, Bool, true, false, ◌&&◌, ◌||◌, not, Option, none, some, List, [], ◌∷◌, map, ltb, leb,
  if◌then◌else◌, length, take,
}
use pancakes_harness.Prelude.Int.{ℤ, lebℤ}
use pancakes_harness.Bytes.{Str, codes, ◌==◌, lt_str, trim_space}
use pancakes_harness.Sort.{sort_by, sort_strings}
use pancakes_harness.Assembler.Packet.{
  Header, Constraint, WorkingItem, PacketBody, Request, elements, non_empty, clone_body,
  large_text_inline_threshold_bytes, tool_result_excerpt_bytes,
}

to_upper : Str → Str
to_upper = map (λ a. if leb b'a' a && leb a b'z' then a - 32 else a)

pair_less : Str → Str → Str → Str → Bool
pair_less n v n' v' = if n == n' then lt_str v v' else lt_str n n'

header_less : Header → Header → Bool
unfolding pair_less
header_less a b = pair_less a.name a.value b.name b.value

constraint_less : Constraint → Constraint → Bool
unfolding pair_less
constraint_less a b = pair_less a.name a.value b.name b.value

unfoldable pub item_less : WorkingItem → WorkingItem → Bool
item_less a b =
    if lebℤ a.frontier_ordinal b.frontier_ordinal && lebℤ b.frontier_ordinal a.frontier_ordinal
    then lt_str a.id b.id
    else not (lebℤ b.frontier_ordinal a.frontier_ordinal)

unfoldable pub normalize_tool_result_item : WorkingItem → WorkingItem
unfolding take
normalize_tool_result_item i =
    if i.summary_ref == codes ""
    then if ltb tool_result_excerpt_bytes (length i.text)
      then record i { text = take tool_result_excerpt_bytes i.text }
      else i
    else record i { text = codes "" }

unfoldable pub drop_large : WorkingItem → WorkingItem
drop_large i =
    if not (i.blob_ref == codes "") && ltb large_text_inline_threshold_bytes (length i.text)
    then record i { text = codes "" }
    else i

-- the body of the loop over the working set
unfoldable pub normalize_item : WorkingItem → WorkingItem
unfolding normalize_tool_result_item drop_large
normalize_item i =
    drop_large (if i.kind == codes "tool.result" then normalize_tool_result_item i else i)

unfoldable pub normalize_body : PacketBody → PacketBody
unfolding clone_body normalize_item constraint_less item_less trim_space sort_by sort_strings
normalize_body body =
    let b = clone_body body in
    record b {
      external_context = trim_space b.external_context;
      working_set = non_empty (map normalize_item (sort_by item_less (elements b.working_set)));
      frontier = sort_strings b.frontier;
      debug = sort_strings b.debug;
      provenance = sort_strings b.provenance;
      constraints = sort_by constraint_less b.constraints;
    }

abbrev or_default : Str → Str → Str
or_default s d = if s == codes "" then d else s

unfoldable pub normalize_request : Request → Request
unfolding to_upper header_less normalize_body trim_space sort_by
normalize_request r = record {
  method = or_default (to_upper (trim_space r.method)) (codes "POST");
  path = or_default (trim_space r.path) (codes "/v1/responses");
  headers = sort_by header_less r.headers;
  body = normalize_body r.body;
}
