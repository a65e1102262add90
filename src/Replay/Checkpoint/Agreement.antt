-- ===== src/Replay/Checkpoint/Agreement.antt =====
-- Rebuilding one branch from a checkpoint agrees with replaying the whole session.
use pancakes_harness.Prelude.{
  ◌≡◌, refl, sym, ◌∙◌, ap, true, false, some, List, [], ◌∷◌, ◌++◌, arith, Bool-cases, inl, inr, All,
}
use pancakes_harness.Prelude.Result.{ok}
use pancakes_harness.Bytes.{Str, codes, ◌==◌, eq_iff, eq_self}
use pancakes_harness.Dict.{lookup}
use pancakes_harness.Eventlog.Event
use pancakes_harness.Eventlog.Event.{Event, kind_summary_checkpoint, kind_summary_rebuild}
use pancakes_harness.Branchdag
use pancakes_harness.Branchdag.{Branch, new_graph, append_to_branch, rebased}
use pancakes_harness.Branchdag.Laws.{append_to_branch_ok}
use pancakes_harness.Replay.Graph.{replay_events, read_meta_string}
use pancakes_harness.Replay.Graph.Effect.{effect, appended, append_to_branch_valid}
use pancakes_harness.Replay.Graph.Total.{
  effects, replay_events-Replays, replay-append, replay-WellFormed, valid_ids,
}
use pancakes_harness.Replay.Checkpoint.{
  SummaryCheckpoint, checkpoint_valid, apply_delta, at_checkpoint, rebuild_from_delta,
}

-- An event that neither sets nor moves the base summary of the branch with this id.
abbrev pub IsPlain : Str → Event → Type 0
IsPlain id e =
    (e.branch_id == id) ≡ true
    → ((e.kind == kind_summary_checkpoint) ≡ false) × ((e.kind == kind_summary_rebuild) ≡ false)

abbrev pub IsValid : Event → Type 0
IsValid e = Event.is_valid e ≡ true

effect_plain :
    (e : Event) (b : Branch)
    → (e.kind == kind_summary_checkpoint) ≡ false
    → (e.kind == kind_summary_rebuild) ≡ false
    → effect e b ≡ appended e.id b
unfolding effect
effect_plain e b c r = rw (c, r)

-- The delta has the effects of the same events in the graph.
apply_delta-effects :
    (id : Str) (b : Branch) (es : List Event)
    → Branchdag.is_valid b ≡ true
    → All IsValid es
    → All (IsPlain id) es
    → apply_delta id b es ≡ ok (effects id es b)
unfolding apply_delta effects
apply_delta-effects id b [] v h p = refl
apply_delta-effects id b (e ∷ es) v (ve, h) (pe, p) = elim (Bool-cases (e.branch_id == id)) [
  | inr other ↦ rw (ve, other) (apply_delta-effects id b es v h p)
  | inl same ↦
      let (c, r) = pe same in
      let run = append_to_branch_valid b e.id v (valid_ids e ve).0 in
      rw (ve, same, run, effect_plain e b c r)
        (apply_delta-effects id (appended e.id b) es
          (append_to_branch_ok b (appended e.id b) e.id run).1 h p)
]

checkpoint_ids :
    (c : SummaryCheckpoint)
    → checkpoint_valid c ≡ true
    → ((c.summary_id == codes "") ≡ false) × ((c.basis_event_id == codes "") ≡ false)
unfolding checkpoint_valid
checkpoint_ids c v = ground arith

kinds_differ : (kind_summary_rebuild == kind_summary_checkpoint) ≡ false
unfolding ◌==◌
kinds_differ = refl

-- A rebuild event that announces a checkpoint.
pub record Announces (c : SummaryCheckpoint) (r : Event) : Type 0 where
  pub branch : r.branch_id ≡ c.branch_id
  pub kind : r.kind ≡ kind_summary_rebuild
  pub summary : read_meta_string r.meta (codes "summary_id") ≡ c.summary_id
  pub basis : read_meta_string r.meta (codes "basis_event_id") ≡ c.basis_event_id

-- It leaves its branch as the checkpoint describes it.
effect-at_checkpoint :
    (r : Event) (c : SummaryCheckpoint) (b : Branch)
    → Announces c r
    → checkpoint_valid c ≡ true
    → effect r b ≡ at_checkpoint b c
unfolding effect
effect-at_checkpoint r c b a v =
    let (sn, bn) = checkpoint_ids c v in
    simp (a.kind, kinds_differ, eq_self, a.summary, a.basis, sn, bn)

at_checkpoint-valid :
    (b : Branch) (c : SummaryCheckpoint)
    → Branchdag.is_valid b ≡ true
    → Branchdag.is_valid (at_checkpoint b c) ≡ true
unfolding Branchdag.is_valid
at_checkpoint-valid b c v = ground arith

delta-effects :
    (b : Branch) (c : SummaryCheckpoint) (es : List Event)
    → Branchdag.is_valid b ≡ true
    → checkpoint_valid c ≡ true
    → c.branch_id ≡ b.branch_id
    → All IsValid es
    → All (IsPlain c.branch_id) es
    → rebuild_from_delta b c es ≡ ok (effects c.branch_id es (at_checkpoint b c))
unfolding rebuild_from_delta
delta-effects b c es v vc own h p =
    rw (v, vc, own, eq_self b.branch_id)
      (apply_delta-effects b.branch_id (at_checkpoint b c) es (at_checkpoint-valid b c v) h
        (rw (← own) p))

effects-announced :
    (r : Event) (c : SummaryCheckpoint) (b : Branch) (later : List Event)
    → Announces c r
    → checkpoint_valid c ≡ true
    → effects c.branch_id (r ∷ later) b ≡ effects c.branch_id later (at_checkpoint b c)
unfolding effects
effects-announced r c b later a vc =
    rw ((eq_iff r.branch_id c.branch_id).1 a.branch, effect-at_checkpoint r c b a vc)

-- A session that has an announced checkpoint on a branch, and after it no further checkpoint or
-- rebuild on that branch: replaying all of it, and rebuilding the branch from the state before, the
-- checkpoint and the later events alone, both succeed and give the same branch.
pub replay-eq-delta :
    (before later : List Event) (r : Event) (c : SummaryCheckpoint) (g : Branchdag.Graph)
    (b : Branch)
    → replay_events before new_graph ≡ ok g
    → lookup c.branch_id g.branches ≡ some b
    → checkpoint_valid c ≡ true
    → Announces c r
    → IsValid r
    → All IsValid later
    → All (IsPlain c.branch_id) later
    → (g' : Branchdag.Graph) × (b' : Branch) × (replay_events (before ++ r ∷ later) new_graph
        ≡ ok g')
      × (lookup c.branch_id g'.branches ≡ some b')
      × (rebuild_from_delta b c later ≡ ok b')
replay-eq-delta before later r c g b run has vc a vr vl plain =
    let w = replay-WellFormed before g run in
    let (g', rest, w', eff) = replay_events-Replays (r ∷ later) g w (vr, vl) in
    let own : c.branch_id ≡ b.branch_id = sym (w.keyed c.branch_id b has) in
    (
      g',
      effects c.branch_id later (at_checkpoint b c),
      replay-append before (r ∷ later) new_graph g run ∙ rest,
      eff c.branch_id b has ∙ ap some (effects-announced r c b later a vc),
      delta-effects b c later (w.valid c.branch_id b has) vc own vl plain,
    )
