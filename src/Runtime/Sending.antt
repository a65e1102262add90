-- ===== src/Runtime/Sending.antt =====
-- A reasoning turn sends nothing, or the packet that it assembled.
use pancakes_harness.Prelude.{
  ◌≡◌, refl, ap, ◌⊎◌, inl, inr, Bool, ◌&&◌, Option, List, ◌∷◌, Bool-cases, if_both,
}
use pancakes_harness.Prelude.Result.{Result, ok, err}
use pancakes_harness.Bytes.{Str, codes, ◌==◌}
use pancakes_harness.Eventlog.Event.{Event}
use pancakes_harness.Egress.Classify.{Selected}
use pancakes_harness.Egress.Select.{Explanation, select_with_explanation}
use pancakes_harness.Assembler.Packet.{Packet}
use pancakes_harness.Assembler.Assemble.{Assembled, accepted, rejected, assemble}
use pancakes_harness.Audit.{Tracker}
use pancakes_harness.Model.{ModelError, Request, Response, CallResult, is_valid_request}
use pancakes_harness.Runtime.{Env, Core, State}
use pancakes_harness.Runtime.Monad.{list_session}
use pancakes_harness.Runtime.Selection.{candidates}
use pancakes_harness.Runtime.Assembly.{
  Assembly, settle, request_for, assemble_events, assemble_for_branch,
}
use pancakes_harness.Runtime.ToolCalls.{execute_tool_calls}
use pancakes_harness.Runtime.Turn.{
  Step, go, lift, ◌>>>◌, Cents, call_model, finish, finish_early, decide, respond, prepare,
  call_request, round,
}
use pancakes_harness.Runtime.Trace.{
  Anything, Goes, Gives, Gives-self, Gives-bind, SendsAt, SendsAt-bind, SendsAt-lift, Returns,
  Returns-pure, Returns-raise, Returns-after, Sends, Sends-bind, Sends-after, Sends-stop, Sends-go,
}

module _ {R : Type 0} (env : Env R) (branch external_context : Str) where
  -- The packet was assembled for the branch from the session's events as they are read at `start`.
  pub record IsAssembled (start : Core R) (p : Packet) : Type 0 where
    pub events : List Event
    pub core : Core R
    pub listed : (list_session env start).1 ≡ ok events
    pub taken : assemble (request_for env branch external_context events core) ≡ accepted p

  Assembles : Core R → Assembly → Type 0
  Assembles start a = IsAssembled start a.packet

  IsPrepared : Core R → Assembly × Str → Type 0
  IsPrepared start p = IsAssembled start p.0.packet

  settle-Returns :
      (start : Core R) (es : List Event) (c : Core R) (selected : List Selected)
      (explanation : Explanation) (o : Assembled)
      → (list_session env start).1 ≡ ok es
      → assemble (request_for env branch external_context es c) ≡ o
      → Returns (Assembles start) (settle env branch selected explanation o)
  unfolding settle Assembles
  settle-Returns start es c selected explanation (rejected p) l e =
      Returns-after _ _ _ (λ ev. Returns-after _ _ _ (λ _. Returns-raise R (Assembles start) _))
  settle-Returns start es c selected explanation (accepted p) l e =
      let made : IsAssembled start p = record { events = es; core = c; listed = l; taken = e } in
      Returns-after _ _ _ (λ ev. Returns-after _ _ _ (λ _. Returns-pure R (Assembles start) _ made))

  assemble_events-Returns :
      (start : Core R) (es : List Event)
      → (list_session env start).1 ≡ ok es
      → Returns (Assembles start) (assemble_events env branch external_context es)
  unfolding assemble_events Returns
  assemble_events-Returns start es l c =
      let q = select_with_explanation (candidates env.search c.indexed branch es) in
      settle-Returns start es c q.0 q.1 _ l refl c

  assemble_for_branch-Gives :
      (start : Core R)
      → Gives (Assembles start) (assemble_for_branch env branch external_context start).1
  unfolding assemble_for_branch
  assemble_for_branch-Gives start =
      Gives-bind (λ es. (list_session env start).1 ≡ ok es) (Assembles start) _ _ start
        (Gives-self (list_session env start).1) (assemble_events-Returns start)

  prepare-Gives :
      (start : Core R) → Gives (IsPrepared start) (prepare env branch external_context start).1
  unfolding prepare IsPrepared Assembles
  prepare-Gives start =
      let P = IsPrepared start in
      Gives-bind (Assembles start) P _ _ start (assemble_for_branch-Gives start) (λ a q.
        Returns-after P _ _ (λ _.
          Returns-after P _ _
            (λ id. Returns-after P _ _ (λ e. Returns-after P _ _ (λ _. Returns-pure R P _ q)))))

  -- the requests after a round that began at `s`
  unfoldable pub Sent : State R → List Request → Type 0
  Sent s rs =
      (rs ≡ s.sent)
      ⊎ ((p : Packet) × IsAssembled s.core p × (rs ≡ call_request env branch p ∷ s.sent))

  Same : State R → List Request → Type 0
  Same s rs = rs ≡ s.sent

  call_model-Sends :
      (before : State R) (p : Packet) (id : Str)
      → IsAssembled before.core p
      → Sends (Same before) (Sent before) Anything (call_model env (call_request env branch p) id)
  unfolding call_model Same Sent Sends
  call_model-Sends before p id q s same =
      elim (Bool-cases (is_valid_request env.codec (call_request env branch p))) [
        | inl valid ↦ (inr (p, q, rw valid (ap (λ rs. call_request env branch p ∷ rs) same)), tt)
        | inr refused ↦ (inl (rw refused same), tt)
      ]

  module _ (I : List Request → Type 0) (a : Assembly) where
    finish-Sends : (r : Response) → Sends I I Anything (finish env branch a r)
    unfolding finish
    finish-Sends r = Sends-after I Anything _ _ (λ _. Sends-stop R I Anything _ _)

    finish_early-Sends : (r : Response) → Sends I I Anything (finish_early env branch a r)
    unfolding finish_early
    finish_early-Sends r = Sends-after I Anything _ _ (λ _. Sends-stop R I Anything _ _)

    decide-Sends :
        (t : Option (Tracker Cents)) (ends : Bool) (r : Response)
        → Sends I I Anything (decide env branch a t ends r)
    unfolding decide Sends
    decide-Sends t ends r s i =
        if_both Kept (ends && r.decision == codes "answer") (finish_early-Sends r s i) (
          if_both Kept (r.decision == codes "answer") (finish-Sends r s i) (
            if_both Kept (r.decision == codes "tool_calls") (call_tools r s i)
              (if_both Kept (r.decision == codes "continue") (i, tt) (i, tt))))
      where
        Kept : State R × Step (Option (Tracker Cents)) → Type 0
        Kept x = I x.0.sent × Goes Anything x.1

        call_tools :
            (r : Response)
            → Sends I I Anything
                (lift (execute_tool_calls env branch r.tool_calls) >>> λ _. λ s'. (s', go t))
        call_tools r = Sends-after I Anything _ _ (λ _. Sends-go R I Anything t tt)

    respond-Sends :
        (t : Option (Tracker Cents)) (called : Result ModelError CallResult)
        → Sends I I Anything (respond env branch a t called)
    unfolding respond
    respond-Sends t (err e) = Sends-after I Anything _ _ (λ _. Sends-stop R I Anything _ _)
    respond-Sends t (ok called) =
        Sends-after I Anything _ _ (λ (t', ends). decide-Sends t' ends called.response)

  -- A round that began at `s` ends with the same requests, or with one more, which carries a packet
  -- that was assembled for the branch.
  pub round-SendsAt :
      (s : State R) (tracker : Option (Tracker Cents))
      → SendsAt s (Sent s) Anything (round env branch external_context tracker)
  unfolding round IsPrepared Sent Same
  round-SendsAt s tracker =
      SendsAt-bind s (Same s) (Sent s) (IsPrepared s.core) Anything _ _ (λ rs same. inl same)
        (SendsAt-lift s (IsPrepared s.core) _ (prepare-Gives s.core))
        (λ (a, id) q.
          Sends-bind (Same s) (Sent s) (Sent s) Anything Anything _ _ (λ rs sent. sent)
            (call_model-Sends s a.packet id q)
            (λ called _.
              Sends-bind (Sent s) (Sent s) (Sent s) Anything Anything _ _ (λ rs sent. sent)
                (respond-Sends (Sent s) a tracker called)
                (λ t _. Sends-go R (Sent s) Anything _ tt)))
