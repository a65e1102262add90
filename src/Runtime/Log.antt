-- ===== src/Runtime/Log.antt =====
-- A turn only adds to the log: its compaction passes, its audits and its rounds keep every event.
use pancakes_harness.Prelude.{
  ℕ, ◌≡◌, refl, inl, inr, Option, none, some, List, ◌∷◌, if_both, Option-cases,
}
use pancakes_harness.Prelude.Result.{Result-cases}
use pancakes_harness.Prelude.Int.{ℤ}
use pancakes_harness.Bytes.{Str}
use pancakes_harness.Eventlog.Event.{Event}
use pancakes_harness.Audit.{Tracker}
use pancakes_harness.Compactor.Scheduler.{
  Scheduler, record_turn, should_compact, mark_compacted, mark_compaction_failed,
}
use pancakes_harness.Model.{Response}
use pancakes_harness.Runtime.{Env, Core, Job, Compactor, CompactResponse}
use pancakes_harness.Runtime.Monad.{modify}
use pancakes_harness.Runtime.Compaction.{
  schedule, compaction_failed, compaction_done, call_compactor, run_compaction, compact_if_due,
  events_of, counted, listed, trigger_text, record_turn_and_maybe_compact,
}
use pancakes_harness.Runtime.Turn.{Cents, audit, append_answer, index}
use pancakes_harness.Runtime.Session.{submit}
use pancakes_harness.Runtime.Growth.{
  Grows-refl, Grown, Grown-bind, Grown-modify, Grown-pure, append_event-Grows, append-Grown,
  put_blob-Grown, new_event-Grown, list_branch-Grown, ignoring-Grown, record-Grown,
}

module _ {R : Type 0} (env : Env R) where
  pub schedule-Grown : (f : ℕ → Scheduler R → Scheduler R) → Grown (modify (schedule env f))
  unfolding schedule
  schedule-Grown f = Grown-modify _ (λ c. refl)

  compaction_failed-Grown :
      (branch reason message : Str) → Grown (compaction_failed env branch reason message)
  unfolding compaction_failed
  compaction_failed-Grown branch reason message =
      Grown-bind _ _ (new_event-Grown env _ _ branch _) (λ e.
        Grown-bind _ _ (ignoring-Grown env _ (append-Grown env e))
          (λ _. schedule-Grown (λ _ s. mark_compaction_failed s)))

  compaction_done-Grown :
      (branch reason : Str) (latency : ℤ) (r : CompactResponse)
      → Grown (compaction_done env branch reason latency r)
  unfolding compaction_done
  compaction_done-Grown branch reason latency r =
      Grown-bind _ _ (ignoring-Grown env _ (put_blob-Grown env _ _)) (λ _.
        Grown-bind _ _ (new_event-Grown env _ _ branch _) (λ e.
          Grown-bind _ _ (ignoring-Grown env _ (append-Grown env e)) (λ _.
            Grown-bind _ _ (new_event-Grown env _ _ branch _) (λ e'.
              Grown-bind _ _ (ignoring-Grown env _ (append-Grown env e'))
                (λ _. schedule-Grown (λ now s. mark_compacted now s))))))

  call_compactor-Grown :
      (compactor : Compactor) (branch reason : Str) (es : List Event)
      → Grown (call_compactor env compactor branch reason es)
  unfolding call_compactor Grown
  call_compactor-Grown compactor branch reason es c =
      elim (Result-cases (compactor.compact c.tick es)) [
        | inl (r, e) ↦ rw (call_compactor, e) (compaction_done-Grown branch reason _ r _)
        | inr (message, e) ↦
            rw (call_compactor, e) (compaction_failed-Grown branch reason message _)
      ]

  run_compaction-Grown :
      (compactor : Compactor) (branch : Str) (es : List Event) (reason : Str)
      → Grown (run_compaction env compactor branch es reason)
  unfolding run_compaction
  run_compaction-Grown compactor branch es reason =
      ignoring-Grown env _
        (record-Grown env _ _ branch _ _ (λ _. call_compactor-Grown compactor branch reason es))

  compact_if_due-Grown :
      (compactor : Compactor) (branch : Str) (es : Option (List Event)) (s : Scheduler R)
      → Grown (compact_if_due env compactor branch es s)
  unfolding compact_if_due Grown
  compact_if_due-Grown compactor branch es s c =
      let q = should_compact env.positive env.at_least (counted env es s) in
      elim (Option-cases q.1) [
        | inl e ↦ rw (compact_if_due, e) (Grows-refl c.backend)
        | inr (reason, e) ↦
            rw (compact_if_due, e)
              (run_compaction-Grown compactor branch (listed env es) (trigger_text reason)
                (record c { scheduler = some q.0 }))
      ]

  events_of-Grown : (branch : Str) → Grown (events_of env branch)
  unfolding Grown
  events_of-Grown branch c = list_branch-Grown env branch c

  pub compact-Grown : (branch : Str) → Grown (record_turn_and_maybe_compact env branch)
  unfolding record_turn_and_maybe_compact Grown
  compact-Grown branch c = elim (Option-cases c.scheduler) [
    | inl e ↦ rw (record_turn_and_maybe_compact, e) (Grows-refl c.backend)
    | inr (s, e) ↦ elim (Option-cases env.compactor) [
      | inl e' ↦ rw (record_turn_and_maybe_compact, e, e') (Grows-refl c.backend)
      | inr (compactor, e') ↦
          rw (record_turn_and_maybe_compact, e, e')
            (Grown-bind _ _ (events_of-Grown branch)
              (λ es. compact_if_due-Grown compactor branch es (record_turn s)) c)
    ]
  ]

  pub audit-Grown : (tokens : ℕ) (t : Option (Tracker Cents)) → Grown (audit env tokens t)
  unfolding audit Grown
  audit-Grown tokens none c = Grows-refl c.backend
  audit-Grown tokens (some t) c = append_event-Grows none _ c.backend

  pub append_answer-Grown : (branch : Str) (r : Response) → Grown (append_answer env branch r)
  unfolding append_answer
  append_answer-Grown branch r =
      Grown-bind _ _ (new_event-Grown env _ _ branch _)
        (λ e. Grown-bind _ _ (append-Grown env e) (λ _. Grown-pure R e))

  pub index-Grown : (e : Event) → Grown (modify (index env e))
  unfolding index
  index-Grown e = Grown-modify (index env e) (λ c. elim (Option-cases env.search) [
    | inl h ↦ rw (index, h) refl
    | inr (search, h) ↦ rw (index, h) refl
  ])

  pub submit-Grown : (job : Job) → Grown (modify (submit env job))
  unfolding submit
  submit-Grown job = Grown-modify (submit env job) (λ c.
      if_both (λ (x : Core R). x.backend ≡ c.backend) env.has_preprocessor
        {x = record c { jobs = job ∷ c.jobs }} {y = c} refl refl)
