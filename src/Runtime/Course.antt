-- ===== src/Runtime/Course.antt =====
-- A round and a whole turn only add to the log.
use pancakes_harness.Prelude.{ℕ, Bool, ◌&&◌, Option, none, some, if_both}
use pancakes_harness.Prelude.Result.{Result, ok, err}
use pancakes_harness.Bytes.{Str, codes, ◌==◌}
use pancakes_harness.Eventlog.Store.{Context}
use pancakes_harness.Backend.{MemoryBackend, BackendError}
use pancakes_harness.Assembler.Packet.{Packet}
use pancakes_harness.Compactor.Scheduler.{Scheduler, record_budget_pressure}
use pancakes_harness.Audit.{Tracker}
use pancakes_harness.Model.{
  ModelError, malformed, invalid_request, call_failed, persist_failed, Request, Response,
  CallResult, persisted, persist, execute_and_persist,
}
use pancakes_harness.Runtime.{Env, State, RunError}
use pancakes_harness.Runtime.Monad.{Action}
use pancakes_harness.Runtime.Assembly.{Assembly}
use pancakes_harness.Runtime.ToolCalls.{execute_tool_calls}
use pancakes_harness.Runtime.Turn.{
  TurnResult, Step, go, stop, Round, next_step, lift, ◌>>>◌, Cents, call_model, finish,
  finish_early, decide, respond, prepare, call_request, round,
}
use pancakes_harness.Runtime.Session.{open_turn}
use pancakes_harness.Runtime.Growth.{
  Grows, Grows-refl, Grows-trans, Grown, Grown-bind, Grown-pure, append_event-Grows,
  append_blob-Grows, append-Grown, next_event_id-Grown, time-Grown, record-Grown,
}
use pancakes_harness.Runtime.Kept.{assemble_for_branch-Grown, execute_tool_calls-Grown}
use pancakes_harness.Runtime.Log.{
  schedule-Grown, compact-Grown, audit-Grown, append_answer-Grown, index-Grown, submit-Grown,
}

persisted-Grows :
    {A : Type 0} (b : MemoryBackend) (r : MemoryBackend × Option BackendError)
    (k : MemoryBackend → MemoryBackend × Result ModelError A)
    → Grows b r.0
    → ((b' : MemoryBackend) → Grows b' (k b').0)
    → Grows b (persisted r k).0
unfolding persisted
persisted-Grows b (b', none) k first rest = Grows-trans b b' _ first (rest b')
persisted-Grows b (b', some e) k first rest = first

persist-Grows :
    (adapter_name : Str) (req : Request) (event_id : Str) (ts : ℕ) (c1 c2 : Context)
    (r : Result ModelError CallResult) (b : MemoryBackend)
    → Grows b (persist adapter_name req event_id ts c1 c2 r b).0
unfolding persist
persist-Grows adapter_name req event_id ts c1 c2 (ok result) b =
    persisted-Grows b _ _ (append_blob-Grows c1 _ _ b)
      (λ b'. persisted-Grows b' _ _ (append_event-Grows c2 _ b') (λ b''. Grows-refl b''))
persist-Grows adapter_name req event_id ts c1 c2 (err (malformed message)) b =
    persisted-Grows b _ _ (append_event-Grows c1 _ b) (λ b'. Grows-refl b')
persist-Grows adapter_name req event_id ts c1 c2 (err invalid_request) b = Grows-refl b
persist-Grows adapter_name req event_id ts c1 c2 (err (call_failed m)) b = Grows-refl b
persist-Grows adapter_name req event_id ts c1 c2 (err (persist_failed e)) b = Grows-refl b

module _ {R : Type 0} where
  -- a round keeps the log
  unfoldable pub Adds : {A : Type 0} → Round R A → Type 0
  Adds m = (s : State R) → Grows s.core.backend (m s).0.core.backend

  Adds-lift : {A : Type 0} (m : Action R A) → Grown m → Adds (lift m)
  unfolding Adds Grown lift
  Adds-lift m grown s = grown s.core

  Adds-bind :
      {A B : Type 0} (m : Round R A) (k : A → Round R B)
      → Adds m
      → ((a : A) → Adds (k a))
      → Adds (m >>> k)
  unfolding Adds ◌>>>◌
  Adds-bind m k first rest s = go_on (m s) (first s)
    where
      go_on :
          (r : State R × Step _)
          → Grows s.core.backend r.0.core.backend
          → Grows s.core.backend (next_step r k).0.core.backend
      go_on (s', go a) g = Grows-trans s.core.backend s'.core.backend _ g (rest a s')
      go_on (s', stop r e) g = g

Adds-stop :
    (R A : Type 0) (r : TurnResult) (e : Option RunError)
    → Adds {R = R} {A = A} (λ s. (s, stop r e))
unfolding Adds
Adds-stop R A r e s = Grows-refl s.core.backend

Adds-go : (R : Type 0) {A : Type 0} (a : A) → Adds {R = R} (λ s. (s, go a))
unfolding Adds
Adds-go R a s = Grows-refl s.core.backend

module _ {R : Type 0} (env : Env R) where
  call_model-Adds : (req : Request) (id : Str) → Adds (call_model env req id)
  unfolding call_model execute_and_persist Adds
  call_model-Adds req id s = persist-Grows env.adapter_name req id _ _ _ _ s.core.backend

  finish-Adds : (branch : Str) (a : Assembly) (r : Response) → Adds (finish env branch a r)
  unfolding finish
  finish-Adds branch a r =
      Adds-bind _ _
        (Adds-lift _ (
          Grown-bind _ _ (append_answer-Grown env branch r)
            (λ e. Grown-bind _ _ (index-Grown env e) (λ _. compact-Grown env branch))))
        (λ _. Adds-stop R _ _ _)

  finish_early-Adds :
      (branch : Str) (a : Assembly) (r : Response) → Adds (finish_early env branch a r)
  unfolding finish_early
  finish_early-Adds branch a r =
      Adds-bind _ _ (Adds-lift _ (append_answer-Grown env branch r)) (λ _. Adds-stop R _ _ _)

  decide-Adds :
      (branch : Str) (a : Assembly) (t : Option (Tracker Cents)) (ends : Bool) (r : Response)
      → Adds (decide env branch a t ends r)
  unfolding decide Adds
  decide-Adds branch a t ends r s =
      if_both Kept (ends && r.decision == codes "answer") (finish_early-Adds branch a r s) (
        if_both Kept (r.decision == codes "answer") (finish-Adds branch a r s) (
          if_both Kept (r.decision == codes "tool_calls") (call_tools s) (
            if_both Kept (r.decision == codes "continue") (Grows-refl s.core.backend)
              (Grows-refl s.core.backend))))
    where
      Kept : State R × Step (Option (Tracker Cents)) → Type 0
      Kept x = Grows s.core.backend x.0.core.backend

      call_tools :
          Adds (lift (execute_tool_calls env branch r.tool_calls) >>> λ _. λ s'. (s', go t))
      call_tools =
          Adds-bind _ _ (Adds-lift _ (execute_tool_calls-Grown env branch r.tool_calls))
            (λ _. Adds-go R t)

  respond-Adds :
      (branch : Str) (a : Assembly) (t : Option (Tracker Cents))
      (called : Result ModelError CallResult)
      → Adds (respond env branch a t called)
  unfolding respond
  respond-Adds branch a t (err e) =
      Adds-bind _ _ (Adds-lift _ (audit-Grown env 0 t)) (λ _. Adds-stop R _ _ _)
  respond-Adds branch a t (ok called) =
      Adds-bind _ _ (Adds-lift _ (audit-Grown env _ t))
        (λ (t', ends). decide-Adds branch a t' ends called.response)

  pressed : Packet → ℕ → Scheduler R → Scheduler R
  pressed p _ = record_budget_pressure (env.ratio p.measurement.envelope_bytes)

  prepare-Grown : (branch external_context : Str) → Grown (prepare env branch external_context)
  unfolding prepare pressed
  prepare-Grown branch external_context =
      Grown-bind _ _ (assemble_for_branch-Grown env branch external_context) (λ a.
        Grown-bind _ _ (schedule-Grown env (pressed a.packet)) (λ _.
          Grown-bind _ _ (next_event_id-Grown env _)
            (λ id. record-Grown env _ _ branch _ _ (λ _. Grown-pure R _))))

  pub round-Adds :
      (branch external_context : Str) (t : Option (Tracker Cents))
      → Adds (round env branch external_context t)
  unfolding round
  round-Adds branch external_context t =
      Adds-bind _ _ (Adds-lift _ (prepare-Grown branch external_context)) (λ (a, id).
        Adds-bind _ _ (call_model-Adds (call_request env branch a.packet) id)
          (λ called. Adds-bind _ _ (respond-Adds branch a t called) (λ t'. Adds-go R _)))

  pub open_turn-Adds : (branch user_text : Str) → Adds (lift (open_turn env branch user_text))
  unfolding open_turn
  open_turn-Adds branch user_text = Adds-lift _ (
      Grown-bind _ _ (next_event_id-Grown env _) (λ id. Grown-bind _ _ (time-Grown env) (λ now.
        Grown-bind _ _ (append-Grown env _) (λ _.
          Grown-bind _ _ (index-Grown env _)
            (λ _. Grown-bind _ _ (submit-Grown env _) (λ _. next_event_id-Grown env _))))))
