-- ===== src/Assembler/Assemble/Candidates/Contents.antt =====
-- What every packet keeps of the request, whatever stage it was compacted to.
use pancakes_harness.Prelude.{ℕ, zero, suc, ◌+◌, ◌≡◌, refl, ◌∙◌, arith, All, Bool-cases, inl, inr}
use pancakes_harness.Bytes.{Str, codes, ◌==◌}
use pancakes_harness.Assembler.Packet.{
  PacketBody, Request, Packet, ContextStatus, elements, clone_body,
}
use pancakes_harness.Assembler.Compaction.{compact, apply_compaction_stage, checkpoint_item}
use pancakes_harness.Assembler.Compaction.Items.{Closed, compact_keeps, clone_keeps}
use pancakes_harness.Assembler.Normalize.{normalize_request}
use pancakes_harness.Assembler.Normalize.Items.{IsTrimmed, normalize_request-IsTrimmed}
use pancakes_harness.Assembler.Assemble.{
  Frame, packet_of, Assembled, accepted, rejected, at_stage, without_context, frame_of, assemble,
  first_status,
}
use pancakes_harness.Assembler.Assemble.Candidates.{stages, candidates, Chosen, assemble-Chosen}

-- A property of bodies that compaction and the loss of the external context keep.
pub record Stable (P : PacketBody → Type 0) : Type 0 where
  pub compacted : (n : ℕ) (b : PacketBody) → P b → P (compact n b)
  pub cloned : (b : PacketBody) → P b → P (clone_body b)
  pub staged : (n : ℕ) (b : PacketBody) → P b → P (at_stage n b)
  pub bared : (b : PacketBody) → P b → P (record b { external_context = codes "" })

module _ (P : PacketBody → Type 0) (stable : Stable P) where
  stages-All :
      (left n : ℕ) (status : ContextStatus) (b : PacketBody)
      → P b
      → All (λ c. P c.1) (stages left n status b)
  unfolding stages apply_compaction_stage
  stages-All zero n status b p = (stable.staged n b p, tt)
  stages-All (suc left) n status b p =
      let here = stable.staged n b p in
      let next =
        stable.compacted (n + 1) (clone_body (at_stage n b)) (stable.cloned (at_stage n b) here) in
      (here, stages-All left (n + 1) status (apply_compaction_stage (at_stage n b) (n + 1)) next)

  candidates-All :
      (left n : ℕ) (status : ContextStatus) (b : PacketBody)
      → P b
      → All (λ c. P c.1) (candidates left n status b)
  unfolding candidates
  candidates-All left n status b p = elim (Bool-cases (b.external_context == codes "")) [
    | inl empty ↦ rw empty (stages-All left n status b p)
    | inr there ↦ rw there (
      stable.staged n b p,
      stages-All left n _ (without_context n b)
          (stable.staged n _ (stable.bared (clone_body b) (stable.cloned b p))),
    )
  ]

-- The packet of either outcome.
abbrev pub packet : Assembled → Packet
packet (accepted p) = p
packet (rejected p) = p

chosen-packet :
    (f : Frame) (P : PacketBody → Type 0) (a : Assembled) → Chosen f P a → P (packet a).body
unfolding packet_of
chosen-packet f P (accepted p) (status, b, e, h, _) = rw e h
chosen-packet f P (rejected p) (status, b, e, h, _) = rw e h

pub assemble-Stable :
    (P : PacketBody → Type 0) (r : Request)
    → Stable P
    → P (normalize_request r).body
    → P (packet (assemble r)).body
assemble-Stable P r stable p =
    let n = normalize_request r in
    chosen-packet (frame_of n) P (assemble r) (
      assemble-Chosen P r
        (candidates-All P stable 7 0 (first_status n.body.external_context) n.body p))

-- What compaction never takes out.
pub record Keeps (b b' : PacketBody) : Type 0 where
  pub session : b'.session_id ≡ b.session_id
  pub branch : b'.branch_handle ≡ b.branch_handle
  pub frontier : b'.frontier ≡ b.frontier
  pub constraints : b'.constraints ≡ b.constraints
  pub checkpoint : b'.checkpoint_summary_ref ≡ b.checkpoint_summary_ref

abbrev same : {b c d : PacketBody} → Keeps b c → Keeps c d → Keeps b d
same k l = record {
  session = l.session ∙ k.session;
  branch = l.branch ∙ k.branch;
  frontier = l.frontier ∙ k.frontier;
  constraints = l.constraints ∙ k.constraints;
  checkpoint = l.checkpoint ∙ k.checkpoint;
}

-- a body with the five fields of another
Keeps-fields :
    {b b' : PacketBody}
    → b'.session_id ≡ b.session_id
    → b'.branch_handle ≡ b.branch_handle
    → b'.frontier ≡ b.frontier
    → b'.constraints ≡ b.constraints
    → b'.checkpoint_summary_ref ≡ b.checkpoint_summary_ref
    → Keeps b b'
Keeps-fields s h f c k = record {
  session = s;
  branch = h;
  frontier = f;
  constraints = c;
  checkpoint = k;
}

Keeps-compact : (n : ℕ) (b : PacketBody) → Keeps b (compact n b)
unfolding compact
Keeps-compact (suc zero) b = Keeps-fields refl refl refl refl refl
Keeps-compact (suc (suc zero)) b = Keeps-fields refl refl refl refl refl
Keeps-compact (suc (suc (suc zero))) b = Keeps-fields refl refl refl refl refl
Keeps-compact (suc (suc (suc (suc zero)))) b = Keeps-fields refl refl refl refl refl
Keeps-compact (suc (suc (suc (suc (suc zero))))) b = Keeps-fields refl refl refl refl refl
Keeps-compact (suc (suc (suc (suc (suc (suc zero)))))) b = Keeps-fields refl refl refl refl refl
Keeps-compact _ b = Keeps-fields refl refl refl refl refl

Keeps-Stable : (b : PacketBody) → Stable (Keeps b)
unfolding clone_body
Keeps-Stable b = record {
  compacted = λ n x k. same k (Keeps-compact n x);
  cloned = λ x k. same k (Keeps-fields refl refl refl refl refl);
  staged = λ n x k. same k (Keeps-fields refl refl refl refl refl);
  bared = λ x k. same k (Keeps-fields refl refl refl refl refl);
}

-- Accepted or rejected, the packet's body has the session, the branch, the frontier, the constraints
-- and the checkpoint reference of the normalized request: compaction drops none of these.
pub assemble-Keeps : (r : Request) → Keeps (normalize_request r).body (packet (assemble r)).body
assemble-Keeps r =
    let b = (normalize_request r).body in
    assemble-Stable (Keeps b) r (Keeps-Stable b) (Keeps-fields refl refl refl refl refl)

abbrev pub AllTrimmed : PacketBody → Type 0
AllTrimmed b = All IsTrimmed (elements b.working_set)

IsTrimmed-Closed : Closed IsTrimmed
unfolding ◌==◌
IsTrimmed-Closed = record {
  no_text = λ i t. record {
    blobbed = λ h. omega arith;
    excerpt = λ h. omega arith;
    summarized = λ h k. refl;
  };
  no_provenance =
      λ i t. record { blobbed = t.blobbed; excerpt = t.excerpt; summarized = t.summarized };
}

checkpoint-IsTrimmed : (ref : Str) → IsTrimmed (checkpoint_item ref)
unfolding ◌==◌
checkpoint-IsTrimmed ref = record {
  blobbed = λ h. omega arith;
  excerpt = λ h. omega arith;
  summarized = λ h k. refl;
}

AllTrimmed-Stable : Stable AllTrimmed
AllTrimmed-Stable = record {
  compacted = λ n b.
      compact_keeps IsTrimmed IsTrimmed-Closed n b
        (λ _. checkpoint-IsTrimmed b.checkpoint_summary_ref);
  cloned = clone_keeps IsTrimmed IsTrimmed-Closed;
  staged = λ n b h. h;
  bared = λ b h. h;
}

-- Accepted or rejected, no item that has a blob carries more than 1024 bytes of text, no tool
-- result carries more than 256, and a tool result with a summary carries none.
pub assemble-AllTrimmed : (r : Request) → AllTrimmed (packet (assemble r)).body
assemble-AllTrimmed r =
    assemble-Stable AllTrimmed r AllTrimmed-Stable (normalize_request-IsTrimmed r)
