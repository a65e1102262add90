-- ===== src/Replay/Checkpoint/Basis.antt =====
-- `RebuildBranchFromSummaryAndEvents` against the rebuild from the events after the basis: it keeps
-- the events of the branch only before it passes them on, and the rebuild skips the others anyway.
use pancakes_harness.Prelude.{
  ◌≡◌, refl, ap, true, false, some, List, [], ◌∷◌, ◌++◌, keep, All, Bool-cases, inl, inr,
}
use pancakes_harness.Prelude.Result.{◌>>=◌}
use pancakes_harness.Bytes.{Str, ◌==◌, eq_iff}
use pancakes_harness.Eventlog.Event.{Event}
use pancakes_harness.Branchdag.{Branch, append_to_branch}
use pancakes_harness.Replay.Checkpoint.{
  SummaryCheckpoint, checkpoint_valid, lifted, apply_delta, at_checkpoint, rebuild_from_delta,
  after_basis, rebuild_from_events,
}
use pancakes_harness.Replay.Checkpoint.Agreement.{IsValid}

apply_delta-keep :
    (id : Str) (out : Branch) (es : List Event)
    → All IsValid es
    → apply_delta id out (keep (λ e. e.branch_id == id) es) ≡ apply_delta id out es
unfolding apply_delta keep
apply_delta-keep id out [] v = refl
apply_delta-keep id out (e ∷ es) (v, vs) = elim (Bool-cases (e.branch_id == id)) [
  | inr other ↦ rw (other, v) (apply_delta-keep id out es vs)
  | inl own ↦
      rw (own, v, own)
        (ap (λ k. lifted (append_to_branch out e.id) >>= k)
          (λ i next. apply_delta-keep id next es vs i))
]

rebuild_from_delta-keep :
    (b : Branch) (c : SummaryCheckpoint) (es : List Event)
    → All IsValid es
    → rebuild_from_delta b c (keep (λ e. e.branch_id == b.branch_id) es) ≡ rebuild_from_delta b c es
unfolding rebuild_from_delta
rebuild_from_delta-keep b c es v = rw (apply_delta-keep b.branch_id (at_checkpoint b c) es v)

-- an event that is not the basis
abbrev pub IsNot : Str → Event → Type 0
IsNot id e = (e.id == id) ≡ false

after_basis-append :
    (id : Str) (before later : List Event) (basis : Event)
    → All (IsNot id) before
    → basis.id ≡ id
    → after_basis id (before ++ basis ∷ later) ≡ some later
unfolding after_basis
after_basis-append id [] later basis n e = rw ((eq_iff basis.id id).1 e)
after_basis-append id (x ∷ before) later basis (n, ns) e =
    rw n (after_basis-append id before later basis ns e)

-- For a valid checkpoint, and valid events after its basis, the rebuild from all events of a session
-- is the rebuild from the events after the first one with the basis' id.
pub rebuild_from_events-eq-delta :
    (b : Branch) (c : SummaryCheckpoint) (before later : List Event) (basis : Event)
    → checkpoint_valid c ≡ true
    → All (IsNot c.basis_event_id) before
    → basis.id ≡ c.basis_event_id
    → All IsValid later
    → rebuild_from_events b c (before ++ basis ∷ later) ≡ rebuild_from_delta b c later
unfolding rebuild_from_events
rebuild_from_events-eq-delta b c before later basis v n e vs =
    rw (v, after_basis-append c.basis_event_id before later basis n e)
      (rebuild_from_delta-keep b c later vs)
