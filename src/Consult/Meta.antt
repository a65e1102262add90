-- ===== src/Consult/Meta.antt =====
-- internal/consult/types.go: `EventSummary.Meta`, the event meta that a consult's summary is kept in.
-- Each key is written once, so that the order of the fields is that of the source and no more.
use pancakes_harness.Prelude.{Bool, true, Option, none, some, List, [], ◌∷◌, if◌then◌else◌}
use pancakes_harness.Bytes.{Str, codes, ◌==◌}
use pancakes_harness.Eventlog.Event.{
  text, texts, int, flag, object, objects, Fields, end, field, Objects, no_objects, an_object,
}
use pancakes_harness.Consult.{SelectionItem, ReasonCount, SelectionExplanation, EventSummary}

-- `if s != "" { meta[key] = s }`
unfoldable pub put_text : Str → Str → Fields → Fields
unfolding ◌==◌
put_text key s meta = if s == codes "" then meta else field key (text s) meta

-- an entry of `items`
unfoldable pub item_meta : SelectionItem → Fields
unfolding put_text
item_meta i = field (codes "id") (text i.id) (
    field (codes "kind") (text i.kind)
      (field (codes "reason") (text i.reason) (put_text (codes "class") i.class end)))

unfoldable pub items_meta : List SelectionItem → Objects
unfolding item_meta
items_meta [] = no_objects
items_meta (i ∷ is) = an_object (item_meta i) (items_meta is)

-- `if len(items) > 0 { meta[key] = items }`
unfoldable pub put_items : Str → List SelectionItem → Fields → Fields
unfolding items_meta
put_items key [] meta = meta
put_items key (i ∷ is) meta = field key (objects (items_meta (i ∷ is))) meta

unfoldable pub reason_meta : ReasonCount → Fields
reason_meta r = field (codes "reason") (text r.reason) (field (codes "count") (int r.count) end)

unfoldable pub selection_reason_meta : List ReasonCount → Objects
unfolding reason_meta
selection_reason_meta [] = no_objects
selection_reason_meta (r ∷ rs) = an_object (reason_meta r) (selection_reason_meta rs)

unfoldable pub put_reasons : Str → List ReasonCount → Fields → Fields
unfolding selection_reason_meta
put_reasons key [] meta = meta
put_reasons key (r ∷ rs) meta = field key (objects (selection_reason_meta (r ∷ rs))) meta

unfoldable pub put_pressure : Bool → Fields → Fields
put_pressure pressure meta =
    if pressure then field (codes "budget_pressure") (flag true) meta else meta

unfoldable pub selection_meta : SelectionExplanation → Fields
unfolding put_items put_reasons put_pressure
selection_meta s = put_items (codes "included") s.included (
    put_items (codes "excluded") s.excluded (
      put_reasons (codes "dominant_inclusion_reasons") s.dominant_inclusion_reasons (
        put_reasons (codes "dominant_exclusion_reasons") s.dominant_exclusion_reasons
          (put_pressure s.budget_pressure end))))

unfoldable pub put_selection : Option SelectionExplanation → Fields → Fields
unfolding selection_meta
put_selection none meta = meta
put_selection (some s) meta = field (codes "selection") (object (selection_meta s)) meta

unfoldable pub put_missing : List Str → Fields → Fields
put_missing [] meta = meta
put_missing (m ∷ ms) meta = field (codes "missing") (texts (m ∷ ms)) meta

unfoldable pub summary_meta : EventSummary → Fields
unfolding put_text put_missing put_selection
summary_meta e = field (codes "schema_version") (text e.schema_version) (
    field (codes "fingerprint") (text e.fingerprint) (
      field (codes "contract_version") (text e.contract_version) (
        field (codes "outcome") (text e.outcome) (
          field (codes "role") (text e.role) (
            field (codes "byte_budget") (int e.byte_budget) (
              field (codes "actual_bytes") (int e.actual_bytes) (
                put_text (codes "manifest_serializer_version") e.manifest_serializer_version (
                  put_text (codes "leader_consult_event_id") e.leader_consult_event_id (
                    put_text (codes "task_summary") e.task_summary
                      (put_missing e.missing (put_selection e.selection end)))))))))))
