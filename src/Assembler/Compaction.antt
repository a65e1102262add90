-- ===== src/Assembler/Compaction.antt =====
-- `applyCompactionStage`: what each stage takes out of a body.
pub mod Items
use pancakes_harness.Prelude.{
  ℕ, zero, suc, Bool, true, false, ◌&&◌, not, Option, none, some, List, [], ◌∷◌, map, ltb,
  if◌then◌else◌, length,
}
use pancakes_harness.Prelude.Int.{ℤ, pos, lebℤ}
use pancakes_harness.Bytes.{Str, codes, ◌==◌}
use pancakes_harness.Assembler.Packet.{WorkingItem, PacketBody, elements, clone_body}

drop_provenance : WorkingItem → WorkingItem
drop_provenance i = if i.provenance_required then i else record i { provenance = codes "" }

drop_summarized : WorkingItem → WorkingItem
drop_summarized i = if i.summary_ref == codes "" then i else record i { text = codes "" }

drop_blobbed : WorkingItem → WorkingItem
drop_blobbed i = if i.blob_ref == codes "" then i else record i { text = codes "" }

-- `for i := range out.WorkingSet { … }`, in place
each : (WorkingItem → WorkingItem) → Option (List WorkingItem) → Option (List WorkingItem)
each f none = none
each f (some items) = some (map f items)

abbrev pub checkpoint_item : Str → WorkingItem
checkpoint_item ref = record {
  id = codes "checkpoint";
  kind = codes "summary.checkpoint";
  text = codes "";
  summary_ref = ref;
  blob_ref = codes "";
  frontier_ordinal = pos 0;
  provenance = codes "";
  provenance_required = false;
}

-- the first of the items with the greatest ordinal
newest_of : WorkingItem → List WorkingItem → WorkingItem
newest_of best [] = best
newest_of best (i ∷ items) =
    newest_of (if lebℤ i.frontier_ordinal best.frontier_ordinal then best else i) items

newest : Option (List WorkingItem) → Option (List WorkingItem)
unfolding newest_of
newest (some (i ∷ j ∷ items)) = some (newest_of i (j ∷ items) ∷ [])
newest ws = ws

collapse : Str → Option (List WorkingItem) → Option (List WorkingItem)
collapse ref ws =
    if not (ref == codes "") && ltb 1 (length (elements ws))
    then some (checkpoint_item ref ∷ [])
    else ws

unfoldable pub compact : ℕ → PacketBody → PacketBody
unfolding drop_provenance drop_summarized drop_blobbed each newest collapse
compact (suc zero) b = record b { debug = [] }
compact (suc (suc zero)) b = record b {
  working_set = some (map drop_provenance (elements b.working_set));
  provenance = [];
}
compact (suc (suc (suc zero))) b = record b { working_set = each drop_summarized b.working_set }
compact (suc (suc (suc (suc zero)))) b = record b {
  working_set = collapse b.checkpoint_summary_ref b.working_set;
}
compact (suc (suc (suc (suc (suc zero))))) b = record b { working_set = newest b.working_set }
compact (suc (suc (suc (suc (suc (suc zero)))))) b = record b {
  working_set = each drop_blobbed b.working_set;
}
compact _ b = b

-- `applyCompactionStage`: the body is copied first
unfoldable pub apply_compaction_stage : PacketBody → ℕ → PacketBody
unfolding compact clone_body
apply_compaction_stage b stage = compact stage (clone_body b)
