-- ===== src/Runtime/Contents.antt =====
-- What leaves with a user's turn: the body of every packet.
use mathlib.Core.Path.{subst}
use pancakes_harness.Prelude.{
  ℕ, zero, suc, ◌≡◌, refl, sym, ◌⊎◌, inl, inr, Bool, none, some, List, [], All, false, arith,
}
use pancakes_harness.Bytes.{Str, codes, ◌==◌, eq_iff, trim_space}
use pancakes_harness.Sort.{sort_by, sort_strings}
use pancakes_harness.Eventlog.Event.{Event}
use pancakes_harness.Egress.Select.{select_with_explanation}
use pancakes_harness.Assembler.Packet.{PacketBody, Packet, elements, marshal_body, clone_body}
use pancakes_harness.Assembler.Compaction.{compact}
use pancakes_harness.Assembler.Compaction.Items.{compact_keeps, clone_keeps}
use pancakes_harness.Assembler.Normalize.{normalize_body, normalize_request, item_less}
use pancakes_harness.Assembler.Assemble.Candidates.Budget.{accepted_within_budget}
use pancakes_harness.Assembler.Assemble.Candidates.Contents.{
  Stable, Keeps, assemble-Stable, assemble-Keeps, packet,
}
use pancakes_harness.Model.{Request}
use pancakes_harness.Runtime.{Env, Core, State}
use pancakes_harness.Runtime.Selection.{candidates, working_set}
use pancakes_harness.Runtime.Assembly.{packet_request, request_for}
use pancakes_harness.Runtime.Turn.{branch_or_default, call_request}
use pancakes_harness.Runtime.Session.{handle_user_turn}
use pancakes_harness.Runtime.Sending.{IsAssembled}
use pancakes_harness.Runtime.Budget.{turn-All}
use pancakes_harness.Runtime.Texts.{is_there, selected-Shown}
use pancakes_harness.Runtime.Items.{
  ShowsWhole, ShowsCut, All-sort_by, All-non_empty, All-normalize, ShowsCut-Closed,
  All-ShowsCut_mono,
}
use pancakes_harness.Runtime.Growth.{Grows, logged}
use pancakes_harness.Runtime.Monad.{list_session, read_out}
use pancakes_harness.Backend.{MemoryBackend, list_events_by_session}
use pancakes_harness.Eventlog.Store.{Context, list_by_session}
use pancakes_harness.Prelude.Result.{ok, ok_injective}

-- what a body carries besides its items, its session and its branch
abbrev IsPlain : Str → PacketBody → Type 0
IsPlain external_context b =
    ((b.external_context ≡ []) ⊎ (b.external_context ≡ trim_space external_context))
    × (b.debug ≡ [])
    × (b.provenance ≡ [])
    × (b.checkpoint_summary_ref ≡ [])

compact-IsPlain :
    (external_context : Str) (n : ℕ) (b : PacketBody)
    → IsPlain external_context b
    → IsPlain external_context (compact n b)
unfolding compact
compact-IsPlain x (suc zero) b (context, debug, provenance, none_ref) =
    (context, refl, provenance, none_ref)
compact-IsPlain x (suc (suc zero)) b (context, debug, provenance, none_ref) =
    (context, debug, refl, none_ref)
compact-IsPlain x (suc (suc (suc zero))) b h = h
compact-IsPlain x (suc (suc (suc (suc zero)))) b h = h
compact-IsPlain x (suc (suc (suc (suc (suc zero))))) b h = h
compact-IsPlain x (suc (suc (suc (suc (suc (suc zero)))))) b h = h
compact-IsPlain x _ b h = h

-- no reference, no checkpoint item
no_ref : {A : Type 0} (ref : Str) → ref ≡ [] → (ref == codes "") ≡ false → A
no_ref ref e h = let k = (eq_iff ref (codes "")).1 e in absurd (ground arith)

module _ (branch : Str) (searching : Bool) (external_context : Str) (es : List Event) where
  abbrev IsCovered : PacketBody → Type 0
  IsCovered b =
      All (ShowsCut branch searching es) (elements b.working_set) × IsPlain external_context b

  IsCovered-Stable : Stable IsCovered
  unfolding clone_body
  IsCovered-Stable = record {
    compacted = λ n b (shown, (context, debug, provenance, none_ref)). (
      compact_keeps (ShowsCut branch searching es) (ShowsCut-Closed branch searching es) n b
          (no_ref b.checkpoint_summary_ref none_ref) shown,
      compact-IsPlain external_context n b (context, debug, provenance, none_ref),
    );
    cloned = λ b (shown, plain). (
      clone_keeps (ShowsCut branch searching es) (ShowsCut-Closed branch searching es) b shown,
      plain,
    );
    staged = λ n b h. h;
    bared = λ b (shown, (_, debug, provenance, none_ref)).
        (shown, (inl refl, debug, provenance, none_ref));
  }

module _ {R : Type 0} (env : Env R) (branch external_context : Str) where
  normalized-IsCovered :
      (es : List Event) (c : Core R)
      → IsCovered branch
          (is_there env.search)
          external_context
          es
          (normalize_request (request_for env branch external_context es c)).body
  unfolding normalize_request normalize_body request_for packet_request clone_body sort_strings
      sort_by
  normalized-IsCovered es c =
      let there = is_there env.search in
      let w = working_set (select_with_explanation (candidates env.search c.indexed branch es)).0 in
      (
        All-non_empty (ShowsCut branch there es) _ (
            All-normalize branch there es _ (
              All-sort_by (ShowsWhole branch there es) item_less _ (
                All-non_empty (ShowsWhole branch there es) w
                  (selected-Shown branch there es env.search c.indexed refl)))),
        (inr refl, refl, refl, refl),
      )

  -- what a session lists is its part of the log
  listed-logged :
      (ctx : Context) (b : MemoryBackend) (es : List Event)
      → read_out (list_events_by_session ctx env.id b) ≡ ok es
      → logged env.id b ≡ es
  unfolding list_events_by_session list_by_session
  listed-logged none b es h = ok_injective h
  listed-logged (some e) b es h = cc

  -- The packet is the JSON of a body of the session and the branch, each item of which shows an event
  -- in the log that may leave; its external context is that of the turn, trimmed, or left out; and
  -- nothing else is in it.
  pub record Leaves (b : MemoryBackend) (r : Request) : Type 0 where
    pub body : PacketBody
    pub encoded : r.packet ≡ marshal_body body
    pub session : body.session_id ≡ env.id
    pub on_branch : body.branch_handle ≡ branch
    pub items :
        All (ShowsCut branch (is_there env.search) (logged env.id b)) (elements body.working_set)
    pub context :
        (body.external_context ≡ []) ⊎ (body.external_context ≡ trim_space external_context)
    pub no_frontier : body.frontier ≡ []
    pub no_constraints : body.constraints ≡ []
    pub no_debug : body.debug ≡ []
    pub no_provenance : body.provenance ≡ []
    pub no_checkpoint : body.checkpoint_summary_ref ≡ []

  normalized-Keeps :
      (es : List Event) (c : Core R) (b : PacketBody)
      → Keeps (normalize_request (request_for env branch external_context es c)).body b
      → (b.session_id ≡ env.id)
        × (b.branch_handle ≡ branch)
        × (b.frontier ≡ [])
        × (b.constraints ≡ [])
  unfolding normalize_request normalize_body request_for packet_request clone_body sort_strings
      sort_by
  normalized-Keeps es c b k = (k.session, k.branch, k.frontier, k.constraints)

  assembled-Leaves :
      (c : Core R) (p : Packet)
      → IsAssembled env branch external_context c p
      → Leaves c.backend (call_request env branch p)
  unfolding list_session
  assembled-Leaves c p a =
      let there = is_there env.search in
      let r = request_for env branch external_context a.events a.core in
      let covered =
        assemble-Stable (IsCovered branch there external_context a.events) r
          (IsCovered-Stable branch there external_context a.events)
          (normalized-IsCovered a.events a.core) in
      let (shown, (context, debug, provenance, none_ref)) =
        subst (λ q. IsCovered branch there external_context a.events (packet q).body) a.taken
          covered in
      let kept =
        subst (λ q. Keeps (normalize_request r).body (packet q).body) a.taken (assemble-Keeps r) in
      let (session, handle, frontier, constraints) = normalized-Keeps a.events a.core p.body kept in
      let log = listed-logged (env.context c.tick) c.backend a.events a.listed in
      record {
        body = p.body;
        encoded = (accepted_within_budget r p a.taken).0;
        session = session;
        on_branch = handle;
        items =
            subst (λ es. All (ShowsCut branch there es) (elements p.body.working_set)) (sym log)
              shown;
        context = context;
        no_frontier = frontier;
        no_constraints = constraints;
        no_debug = debug;
        no_provenance = provenance;
        no_checkpoint = none_ref;
      }

  Leaves-mono : (b b' : MemoryBackend) (r : Request) → Grows b b' → Leaves b r → Leaves b' r
  unfolding Grows
  Leaves-mono b b' r g l = record {
    body = l.body;
    encoded = l.encoded;
    session = l.session;
    on_branch = l.on_branch;
    items =
        All-ShowsCut_mono branch (is_there env.search) _ _ (g env.id) (elements l.body.working_set)
          l.items;
    context = l.context;
    no_frontier = l.no_frontier;
    no_constraints = l.no_constraints;
    no_debug = l.no_debug;
    no_provenance = l.no_provenance;
    no_checkpoint = l.no_checkpoint;
  }

-- Every packet that a turn hands to the adapter is the JSON of a body of the session and the turn's
-- branch. Each item of the body has the id, the kind, the blob and the summary reference of an event in
-- the session's log, of no kind that never leaves; the event is on the turn's branch, not debugging and
-- neither a tool request nor a tool failure, or else on another branch, with a blob, and marked as
-- relevant to all in its meta, unless the session searches its events. The item's text is empty or, for
-- an event of the turn's branch, that event's text, whole or cut to 256 bytes. The body's external
-- context is empty or the turn's, trimmed, and its frontier, constraints, debug, provenance and
-- checkpoint reference are empty.
pub turn-Leaves :
    {R : Type 0} (env : Env R) (user_branch user_text external_context : Str) (s : State R)
    → s.sent ≡ []
    → All
        (Leaves env
          (branch_or_default env user_branch)
          external_context
          (handle_user_turn env user_branch user_text external_context s).0.core.backend)
        (handle_user_turn env user_branch user_text external_context s).0.sent
turn-Leaves env user_branch user_text external_context s none_yet =
    let P = Leaves env (branch_or_default env user_branch) external_context in
    turn-All env user_branch user_text external_context P
      (Leaves-mono env (branch_or_default env user_branch) external_context)
      (assembled-Leaves env (branch_or_default env user_branch) external_context) s
      (subst (All (P s.core.backend)) (sym none_yet) tt)
