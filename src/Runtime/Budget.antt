-- ===== src/Runtime/Budget.antt =====
-- What a user's turn hands to the model adapter, how often, and within what budget.
use mathlib.Core.Path.{subst}
use pancakes_harness.Prelude.{
  ℕ, suc, ◌+◌, ◌≤◌, ◌≡◌, sym, ap, ◌⊎◌, inl, inr, List, [], ◌∷◌, arith, length, All,
}
use pancakes_harness.Bytes.{Str, codes}
use pancakes_harness.Backend.{MemoryBackend}
use pancakes_harness.Assembler.Packet.{Packet}
use pancakes_harness.Assembler.Normalize.{normalize_request}
use pancakes_harness.Assembler.Assemble.Candidates.Budget.{wire, accepted_within_budget}
use pancakes_harness.Model.{Request}
use pancakes_harness.Runtime.{Env, Core, State}
use pancakes_harness.Runtime.Assembly.{packet_request, request_for}
use pancakes_harness.Runtime.Turn.{call_request, branch_or_default}
use pancakes_harness.Runtime.Session.{handle_user_turn}
use pancakes_harness.Runtime.Sending.{IsAssembled, Sent}
use pancakes_harness.Runtime.Growth.{Grows, Grows-refl, Grows-trans}
use pancakes_harness.Runtime.Invariant.{Invariant, handle-kept}

module _ {R : Type 0} (env : Env R) (user_branch user_text external_context : Str) where
  abbrev branch : Str
  branch = branch_or_default env user_branch

  calls-Invariant :
      (bound : ℕ) → Invariant env branch external_context (λ left s. length s.sent + left ≤ bound)
  unfolding Sent
  calls-Invariant bound = record {
    opening = λ left s s' same _ h. omega (arith, ap length same);
    kept = λ left s s' sent _ h. calls_kept left s s' sent h;
    done = λ left s h. omega arith;
  }
    where
      calls_kept :
          (left : ℕ) (s s' : State R)
          → (s'.sent ≡ s.sent)
            ⊎ ((p : Packet) × IsAssembled env branch external_context s.core p
                × (s'.sent ≡ call_request env branch p ∷ s.sent))
          → length s.sent + suc left ≤ bound
          → length s'.sent + left ≤ bound
      calls_kept left s s' (inl same) h = omega (arith, ap length same)
      calls_kept left s s' (inr (p, _, more)) h = omega (arith, ap length more)

  -- In a turn the adapter is called at most as often as the session allows rounds.
  pub turn-calls_le :
      (s : State R)
      → length (handle_user_turn env user_branch user_text external_context s).0.sent
        ≤ length s.sent + env.max_reasoning_turns
  turn-calls_le s =
      let bound = length s.sent + env.max_reasoning_turns in
      let h =
        handle-kept env user_branch user_text external_context _ (calls-Invariant bound) s
          (omega arith) in
      omega (arith, h)

  -- Every event that the log has of any session is there after a turn of this one.
  pub turn-Grows :
      (s : State R)
      → Grows s.core.backend
          (handle_user_turn env user_branch user_text external_context s).0.core.backend
  turn-Grows s =
      handle-kept env user_branch user_text external_context
        (λ left s'. Grows s.core.backend s'.core.backend) kept_log s (Grows-refl s.core.backend)
    where
      kept_log :
          Invariant env branch external_context (λ left s'. Grows s.core.backend s'.core.backend)
      kept_log = record {
        opening = λ left a b _ g h. Grows-trans s.core.backend a.core.backend b.core.backend h g;
        kept = λ left a b _ g h. Grows-trans s.core.backend a.core.backend b.core.backend h g;
        done = λ left a h. h;
      }

  module _ (P : MemoryBackend → Request → Type 0)
      (mono : (b b' : MemoryBackend) (r : Request) → Grows b b' → P b r → P b' r)
      (holds : (c : Core R) (p : Packet)
        → IsAssembled env branch external_context c p
        → P c.backend (call_request env branch p)) where
    All-mono :
        (b b' : MemoryBackend) → Grows b b' → (rs : List Request) → All (P b) rs → All (P b') rs
    All-mono b b' g [] h = tt
    All-mono b b' g (r ∷ rs) (p, ps) = (mono b b' r g p, All-mono b b' g rs ps)

    AllSent : State R → Type 0
    AllSent s = All (P s.core.backend) s.sent

    AllSent-Invariant : Invariant env branch external_context (λ left s. AllSent s)
    unfolding AllSent Sent
    AllSent-Invariant = record {
      opening = λ left s s' same g h. stays s s' same g h;
      kept = λ left s s' sent g h. sends s s' sent g h;
      done = λ left s h. h;
    }
      where
        stays :
            (s s' : State R)
            → s'.sent ≡ s.sent
            → Grows s.core.backend s'.core.backend
            → All (P s.core.backend) s.sent
            → All (P s'.core.backend) s'.sent
        stays s s' same g h =
            subst (All (P s'.core.backend)) (sym same)
              (All-mono s.core.backend s'.core.backend g s.sent h)

        sends :
            (s s' : State R)
            → (s'.sent ≡ s.sent)
              ⊎ ((p : Packet) × IsAssembled env branch external_context s.core p
                  × (s'.sent ≡ call_request env branch p ∷ s.sent))
            → Grows s.core.backend s'.core.backend
            → All (P s.core.backend) s.sent
            → All (P s'.core.backend) s'.sent
        sends s s' (inl same) g h = stays s s' same g h
        sends s s' (inr (p, q, more)) g h = subst (All (P s'.core.backend)) (sym more) (
          mono s.core.backend s'.core.backend _ g (holds s.core p q),
          All-mono s.core.backend s'.core.backend g s.sent h,
        )

    -- What holds of every packet that is assembled for the branch, and stays true as the log grows,
    -- holds of all requests that the turn hands to the adapter.
    pub turn-All :
        (s : State R)
        → All (P s.core.backend) s.sent
        → All
            (P (handle_user_turn env user_branch user_text external_context s).0.core.backend)
            (handle_user_turn env user_branch user_text external_context s).0.sent
    unfolding AllSent
    turn-All s h =
        handle-kept env user_branch user_text external_context (λ left s'. AllSent s')
          AllSent-Invariant s h

  -- the bytes that go over the wire with a request: the request line, the session's headers and the
  -- packet
  abbrev pub wire_of : Request → Str
  wire_of r =
      let blank = packet_request env (codes "") (codes "") [] in
      let line_and_headers = record blank {
        method = codes "POST";
        path = codes "/v1/responses";
        headers = env.headers;
      } in
      wire (normalize_request line_and_headers) r.packet

  abbrev InBudget : MemoryBackend → Request → Type 0
  InBudget b r = length (wire_of r) + 768 ≤ 14336

  assembled-InBudget :
      (c : Core R) (p : Packet)
      → IsAssembled env branch external_context c p
      → InBudget c.backend (call_request env branch p)
  unfolding wire normalize_request packet_request request_for
  assembled-InBudget c p a =
      (accepted_within_budget (request_for env branch external_context a.events a.core) p a.taken).2

  -- Every request that a turn hands to the adapter carries a packet that, with its request line and
  -- the headers of the session, leaves the safety margin of the 14336 bytes free.
  pub turn-within_budget :
      (s : State R)
      → s.sent ≡ []
      → All
          (λ r. length (wire_of r) + 768 ≤ 14336)
          (handle_user_turn env user_branch user_text external_context s).0.sent
  turn-within_budget s none_yet =
      turn-All InBudget (λ b b' r _ h. h) assembled-InBudget s
        (subst (All (InBudget s.core.backend)) (sym none_yet) tt)
