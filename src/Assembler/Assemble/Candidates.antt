-- ===== src/Assembler/Assemble/Candidates.antt =====
-- The loop of `Assemble` as a choice: the first of the candidate bodies that fits, in the order of
-- the stages.
pub mod Budget
pub mod Contents
use mathlib.Core.Path.{subst}
use pancakes_harness.Prelude.{
  ℕ, zero, suc, ◌+◌, ◌-◌, ◌≤◌, ◌≡◌, refl, sym, ap, ◌∙◌, ◌⊎◌, inl, inr, Bool, true, false, ◌&&◌,
  List, [], ◌∷◌, ◌++◌, arith, leb, if◌then◌else◌, Bool-cases, length, length-append, All,
}
use pancakes_harness.Bytes.{Str, codes, ◌==◌, eq_iff, eq_self}
use pancakes_harness.Json.{object}
use pancakes_harness.Assembler.Packet.{
  Header, PacketBody, Request, Measurement, ContextStatus, omitted, included, dropped_budget,
  Packet, max_envelope_bytes, safety_margin_bytes, measure_headers, marshal_body, clone_body,
}
use pancakes_harness.Assembler.Compaction.{apply_compaction_stage, compact}
use pancakes_harness.Assembler.Normalize.{normalize_request}
use pancakes_harness.Assembler.Assemble.{
  Frame, body_budget, fits, packet_of, Assembled, accepted, rejected, at_stage, without_context,
  assemble_from, first_status, frame_of, assemble_normalized, assemble,
}

abbrev pub Candidate : Type 0
Candidate = ContextStatus × PacketBody

-- The bodies of stage `n` and the `left` stages after it.
unfoldable pub stages : ℕ → ℕ → ContextStatus → PacketBody → List Candidate
stages zero n status b = (status, at_stage n b) ∷ []
stages (suc left) n status b =
    (status, at_stage n b)
    ∷ stages left (n + 1) status (apply_compaction_stage (at_stage n b) (n + 1))

-- A body with external context is tried as it is, and then at every stage without it.
unfoldable pub candidates : ℕ → ℕ → ContextStatus → PacketBody → List Candidate
unfolding stages
candidates left n status b =
    if b.external_context == codes ""
    then stages left n status b
    else (status, at_stage n b) ∷ stages left n dropped_budget (without_context n b)

-- The first that fits, or else the last one tried, rejected.
unfoldable pub first_fit : Frame → Assembled → List Candidate → Assembled
first_fit f tried [] = tried
first_fit f tried ((status, b) ∷ cs) =
    let rest = first_fit f (rejected (packet_of f status b)) cs in
    if fits f b then accepted (packet_of f status b) else rest

context-compact : (n : ℕ) (b : PacketBody) → (compact n b).external_context ≡ b.external_context
unfolding compact
context-compact (suc zero) b = refl
context-compact (suc (suc zero)) b = refl
context-compact (suc (suc (suc zero))) b = refl
context-compact (suc (suc (suc (suc zero)))) b = refl
context-compact (suc (suc (suc (suc (suc zero))))) b = refl
context-compact (suc (suc (suc (suc (suc (suc zero)))))) b = refl
context-compact _ b = refl

context-apply :
    (b : PacketBody) (n : ℕ) → (apply_compaction_stage b n).external_context ≡ b.external_context
unfolding apply_compaction_stage clone_body
context-apply b n = context-compact n (clone_body b)

-- Without external context the loop is the choice among the stages.
assemble_from-stages :
    (f : Frame) (tried : Assembled) (left n : ℕ) (status : ContextStatus) (b : PacketBody)
    → (b.external_context == codes "") ≡ true
    → assemble_from f left n status b ≡ first_fit f tried (stages left n status b)
unfolding assemble_from stages first_fit
assemble_from-stages f tried zero n status b empty = rw empty
assemble_from-stages f tried (suc left) n status b empty =
    let next = apply_compaction_stage (at_stage n b) (n + 1) in
    rw (
      empty,
      assemble_from-stages f (rejected (packet_of f status (at_stage n b))) left (n + 1) status next
          (ap (λ s. s == codes "") (context-apply (at_stage n b) (n + 1)) ∙ empty),
    )

assemble_from-with_context :
    (f : Frame) (tried : Assembled) (left n : ℕ) (status : ContextStatus) (b : PacketBody)
    → (b.external_context == codes "") ≡ false
    → assemble_from f left n status b
      ≡ first_fit f tried
          ((status, at_stage n b) ∷ stages left n dropped_budget (without_context n b))
unfolding assemble_from stages first_fit
assemble_from-with_context f tried zero n status b there = rw there
assemble_from-with_context f tried (suc left) n status b there =
    let bare = without_context n b in
    let next = apply_compaction_stage bare (n + 1) in
    rw (
      there,
      assemble_from-stages f (rejected (packet_of f dropped_budget bare)) left (n + 1)
          dropped_budget next
          (ap (λ s. s == codes "") (context-apply bare (n + 1)) ∙ eq_self (codes "")),
    )

-- The loop from any stage is the choice of the first candidate that fits.
assemble_from-candidates :
    (f : Frame) (tried : Assembled) (left n : ℕ) (status : ContextStatus) (b : PacketBody)
    → assemble_from f left n status b ≡ first_fit f tried (candidates left n status b)
unfolding candidates
assemble_from-candidates f tried left n status b =
    elim (Bool-cases (b.external_context == codes "")) [
      | inl empty ↦ rw empty (assemble_from-stages f tried left n status b empty)
      | inr there ↦ rw there (assemble_from-with_context f tried left n status b there)
    ]

-- The candidates for a request: stages 0 to 7 of its normalized body, or stage 0 with the external
-- context and then stages 0 to 7 without it.
abbrev pub candidates_of : Request → List Candidate
candidates_of r = candidates 7 0 (first_status r.body.external_context) r.body

-- `Assemble` accepts the first candidate that fits the budget, in the order of the stages, and
-- rejects with the last if none does.
pub assemble-eq-first_fit :
    (r : Request) (tried : Assembled)
    → assemble r
      ≡ first_fit (frame_of (normalize_request r)) tried (candidates_of (normalize_request r))
unfolding assemble assemble_normalized
assemble-eq-first_fit r tried =
    let n = normalize_request r in
    assemble_from-candidates (frame_of n) tried 7 0 (first_status n.body.external_context) n.body

-- What holds of each candidate holds of the body that is accepted, which fits; and of the body that
-- is rejected, which does not.
abbrev pub Chosen : Frame → (PacketBody → Type 0) → Assembled → Type 0
Chosen f P (accepted p) =
    (status : ContextStatus) × (b : PacketBody) × (p ≡ packet_of f status b)
    × P b
    × (fits f b ≡ true)
Chosen f P (rejected p) =
    (status : ContextStatus) × (b : PacketBody) × (p ≡ packet_of f status b)
    × P b
    × (fits f b ≡ false)

pub first_fit-Chosen :
    (f : Frame) (P : PacketBody → Type 0) (tried : Assembled) (cs : List Candidate)
    → Chosen f P tried
    → All (λ c. P c.1) cs
    → Chosen f P (first_fit f tried cs)
unfolding first_fit
first_fit-Chosen f P tried [] t h = t
first_fit-Chosen f P tried ((status, b) ∷ cs) t (p, h) = elim (Bool-cases (fits f b)) [
  | inl fit ↦ rw fit (status, b, refl, p, fit)
  | inr too_large ↦
      rw too_large (
        first_fit-Chosen f P (rejected (packet_of f status b)) cs (status, b, refl, p, too_large) h)
]

stages-cons :
    (left n : ℕ) (status : ContextStatus) (b : PacketBody)
    → (c : Candidate) × (cs : List Candidate) × (stages left n status b ≡ c ∷ cs)
unfolding stages
stages-cons zero n status b = (_, _, refl)
stages-cons (suc left) n status b = (_, _, refl)

candidates-cons :
    (left n : ℕ) (status : ContextStatus) (b : PacketBody)
    → (c : Candidate) × (cs : List Candidate) × (candidates left n status b ≡ c ∷ cs)
unfolding candidates
candidates-cons left n status b = elim (Bool-cases (b.external_context == codes "")) [
  | inl empty ↦ rw empty (stages-cons left n status b)
  | inr there ↦ rw there (_, _, refl)
]

pub assemble-Chosen :
    (P : PacketBody → Type 0) (r : Request)
    → All (λ c. P c.1) (candidates_of (normalize_request r))
    → Chosen (frame_of (normalize_request r)) P (assemble r)
assemble-Chosen P r h =
    let n = normalize_request r in
    let f = frame_of n in
    let tried = rejected (packet_of f omitted n.body) in
    let (c, cs, e) = candidates-cons 7 0 (first_status n.body.external_context) n.body in
    rw (assemble-eq-first_fit r tried, e) (step f tried c cs (subst (All (λ c. P c.1)) e h))
  where
    step :
        (f : Frame) (tried : Assembled) (c : Candidate) (cs : List Candidate)
        → All (λ c. P c.1) (c ∷ cs)
        → Chosen f P (first_fit f tried (c ∷ cs))
    step f tried (status, b) cs (p, h) = elim (Bool-cases (fits f b)) [
      | inl fit ↦ unfold first_fit in rw fit (status, b, refl, p, fit)
      | inr too_large ↦
          unfold first_fit in
          rw too_large (
            first_fit-Chosen f P (rejected (packet_of f status b)) cs
              (status, b, refl, p, too_large) h)
    ]
