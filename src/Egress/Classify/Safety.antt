-- ===== src/Egress/Classify/Safety.antt =====
-- What may leave: the guarantees of one classification.
use pancakes_harness.Prelude.{◌↔◌, ◌≡◌, ◌⊎◌, true, false, [], arith}
use pancakes_harness.Prelude.Int.{ℤ}
use pancakes_harness.Bytes.{codes, ◌==◌}
use pancakes_harness.Egress.Kinds.{is_debug_never_kind, is_never_egress_kind}
use pancakes_harness.Egress.Classify.{Candidate, passthrough, classify}

-- A candidate of the active branch that is neither debugging nor sensitive, or one of another
-- branch that is marked relevant to all and has a blob to refer to.
abbrev pub MayLeave : Candidate → Type 0
MayLeave c =
    (is_never_egress_kind c.kind ≡ false)
    × (((c.is_active_branch ≡ true)
          × (is_debug_never_kind c.kind ≡ false)
          × (c.is_sensitive_local ≡ false))
        ⊎ ((c.is_active_branch ≡ false)
            × (c.is_global_relevant ≡ true)
            × ((c.blob_ref == codes "") ≡ false)))

-- An item is included exactly if its candidate may leave.
pub include_iff_MayLeave :
    (latest : ℤ) (c : Candidate) → ((classify latest c).include ≡ true) ↔ MayLeave c
unfolding classify
include_iff_MayLeave latest c = (ground arith, ground arith)

-- Text leaves only with a passed-through item of the active branch, and unchanged: otherwise the
-- selection's text is empty. The ids, the kind, the blob reference and the ordinal are always the
-- candidate's.
pub classify-text :
    (latest : ℤ) (c : Candidate)
    → ((((classify latest c).text ≡ c.text)
          × ((classify latest c).class ≡ passthrough)
          × (c.is_active_branch ≡ true)
          × ((classify latest c).include ≡ true))
        ⊎ ((classify latest c).text ≡ []))
      × ((classify latest c).id ≡ c.id)
      × ((classify latest c).kind ≡ c.kind)
      × ((classify latest c).blob_ref ≡ c.blob_ref)
      × ((classify latest c).frontier_ordinal ≡ c.frontier_ordinal)
unfolding classify
classify-text latest c = ground arith

-- An included item keeps the candidate's summary.
pub classify-summary :
    (latest : ℤ) (c : Candidate)
    → (classify latest c).include ≡ true
    → (classify latest c).summary_ref ≡ c.summary_ref
unfolding classify
classify-summary latest c h = ground arith
