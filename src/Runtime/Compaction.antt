-- ===== src/Runtime/Compaction.antt =====
-- `recordTurnAndMaybeCompact` and `runCompaction`: best effort, without an error of their own.
use pancakes_harness.Prelude.{ℕ, Option, none, some, List, [], length}
use pancakes_harness.Prelude.Result.{ok, err}
use pancakes_harness.Prelude.Int.{ℤ, pos}
use pancakes_harness.Bytes.{Str, codes}
use pancakes_harness.Eventlog.Event.{
  Event, Fields, end, field, text, int, int64, flag, kind_compaction_request,
  kind_compaction_complete, kind_compaction_failure, kind_ast_persisted,
}
use pancakes_harness.Compactor.Scheduler.{
  Scheduler, Trigger, turn_count, budget_pressure, record_turn, set_event_count, should_compact,
  mark_compacted, mark_compaction_failed,
}
use pancakes_harness.Runtime.{Env, Core, CompactResponse, Compactor}
use pancakes_harness.Runtime.Monad.{
  Action, modify, ticked, ◌>>=◌, new_event, append, put_blob, list_branch, ignoring,
}

abbrev pub trigger_text : Trigger → Str
trigger_text turn_count = codes "turn_count"
trigger_text budget_pressure = codes "budget_pressure"

-- the meta of the ast.persisted event
unfoldable pub ast_meta : CompactResponse → Fields
ast_meta r = field (codes "blob_ref") (text r.blob_ref) (
    field (codes "summary_id") (text r.summary_id) (
      field (codes "input_events") (int r.input_events) (
        field (codes "output_bytes") (int r.output_bytes) (
          field (codes "chunk_count") (int r.chunk_count) (
            field (codes "merge_pass") (flag r.merge_pass)
              (field (codes "compression_pct") (text r.compression_pct) end))))))

-- the meta of the compaction.complete event
unfoldable pub complete_meta : Str → ℤ → CompactResponse → Fields
complete_meta reason latency r = field (codes "trigger_reason") (text reason) (
    field (codes "summary_id") (text r.summary_id) (
      field (codes "blob_ref") (text r.blob_ref) (
        field (codes "input_events") (int r.input_events) (
          field (codes "output_bytes") (int r.output_bytes) (
            field (codes "compression_pct") (text r.compression_pct) (
              field (codes "input_tokens") (int r.input_tokens) (
                field (codes "output_tokens") (int r.output_tokens) (
                  field (codes "total_latency_ms") (int64 latency) (
                    field (codes "chunk_count") (int r.chunk_count) (
                      field (codes "merge_pass") (flag r.merge_pass)
                        (field (codes "leaves_in_ast") (int (pos r.leaves_in_ast)) end)))))))))))

module _ {R : Type 0} (env : Env R) where
  -- `if s.scheduler != nil { … }`, the time being that of the tick
  unfoldable pub schedule : (ℕ → Scheduler R → Scheduler R) → Core R → Core R
  schedule f c = record c {
    scheduler = elim c.scheduler [ none ↦ none | some s ↦ some (f (env.now c.tick) s) ];
  }

  -- a pass that failed
  unfoldable pub compaction_failed : Str → Str → Str → Action R Unit
  unfolding new_event append ignoring schedule mark_compaction_failed
  compaction_failed branch reason message =
      new_event env (codes "compaction.failure") kind_compaction_failure branch
        (field (codes "trigger_reason") (text reason) (field (codes "error") (text message) end))
      >>= λ e.
          ignoring env (append env e) >>= λ _. modify (schedule (λ _ s. mark_compaction_failed s))

  -- a pass that succeeded: the tree is kept as a blob, if that succeeds, and the events are written
  unfoldable pub compaction_done : Str → Str → ℤ → CompactResponse → Action R Unit
  unfolding new_event append put_blob ignoring schedule mark_compacted ast_meta complete_meta
  compaction_done branch reason latency r =
      ignoring env (put_blob env r.blob_ref r.raw_ast) >>= λ _.
      new_event env (codes "ast.persisted") kind_ast_persisted branch (ast_meta r) >>= λ e.
      ignoring env (append env e) >>= λ _.
      new_event env (codes "compaction.complete") kind_compaction_complete branch
        (complete_meta reason latency r)
      >>= λ e'.
          ignoring env (append env e') >>= λ _. modify (schedule (λ now s. mark_compacted now s))

  -- the call of the compactor, which is one tick
  unfoldable pub call_compactor : Compactor → Str → Str → List Event → Action R Unit
  unfolding compaction_failed compaction_done
  call_compactor compactor branch reason es c = elim (compactor.compact c.tick es) [
    | err message ↦ compaction_failed branch reason message (ticked c)
    | ok r ↦ compaction_done branch reason (compactor.latency_ms c.tick) r (ticked c)
  ]

  -- the events of the branch, none where they cannot be read
  abbrev pub events_of : Str → Action R (Option (List Event))
  events_of branch c =
      let (c', read) = list_branch env branch c in
      (c', ok (elim read [ ok es ↦ some es | err e ↦ none ]))

  -- `runCompaction`; a request that cannot be recorded ends the pass
  unfoldable pub run_compaction : Compactor → Str → List Event → Str → Action R Unit
  unfolding new_event append call_compactor ignoring
  run_compaction compactor branch es reason = ignoring env (
      new_event env (codes "compaction.request") kind_compaction_request branch (
        field (codes "trigger_reason") (text reason) (
          field (codes "event_count") (int (pos (length es)))
            (field (codes "compactor") (text compactor.name) end)))
      >>= λ e. append env e >>= λ _. call_compactor compactor branch reason es)

  abbrev pub counted : Option (List Event) → Scheduler R → Scheduler R
  counted none s = s
  counted (some es) s = set_event_count (pos (length es)) s

  abbrev pub listed : Option (List Event) → List Event
  listed none = []
  listed (some es) = es

  -- the scheduler is asked, with the events that it has been told of
  unfoldable pub compact_if_due :
      Compactor → Str → Option (List Event) → Scheduler R → Action R Unit
  unfolding run_compaction should_compact set_event_count
  compact_if_due compactor branch es s c =
      let (s', due) = should_compact env.positive env.at_least (counted es s) in
      let c' = record c { scheduler = some s' } in
      elim due [
        | none ↦ (c', ok tt)
        | some reason ↦ run_compaction compactor branch (listed es) (trigger_text reason) c'
      ]

  unfoldable pub record_turn_and_maybe_compact : Str → Action R Unit
  unfolding compact_if_due list_branch record_turn
  record_turn_and_maybe_compact branch c = elim c.scheduler [
    | none ↦ (c, ok tt)
    | some s ↦ elim env.compactor [
      | none ↦ (c, ok tt)
      | some compactor ↦
          (events_of branch >>= λ es. compact_if_due compactor branch es (record_turn s)) c
    ]
  ]
