-- ===== src/Runtime/Invariant.antt =====
-- The rule for a whole turn: what the opening and each round keep, the turn keeps.
use pancakes_harness.Prelude.{ℕ, zero, suc, ◌≡◌, refl, Option}
use pancakes_harness.Bytes.{Str}
use pancakes_harness.Audit.{Tracker}
use pancakes_harness.Runtime.{Env, State, RunError}
use pancakes_harness.Runtime.Turn.{
  TurnResult, Step, go, stop, lift, Cents, round, rounds, branch_or_default,
}
use pancakes_harness.Runtime.Session.{open_turn, first_tracker, handle_user_turn}
use pancakes_harness.Runtime.Trace.{SendsAt}
use pancakes_harness.Runtime.Sending.{Sent, round-SendsAt}
use pancakes_harness.Runtime.Growth.{Grows}
use pancakes_harness.Runtime.Course.{Adds, round-Adds, open_turn-Adds}

-- An invariant, with the number of rounds left.
pub record Invariant {R : Type 0} (env : Env R) (branch external_context : Str)
    (I : ℕ → State R → Type 0) : Type 0 where
  pub opening :
      (left : ℕ) (s s' : State R)
      → s'.sent ≡ s.sent
      → Grows s.core.backend s'.core.backend
      → I left s
      → I left s'
  pub kept :
      (left : ℕ) (s s' : State R)
      → Sent env branch external_context s s'.sent
      → Grows s.core.backend s'.core.backend
      → I (suc left) s
      → I left s'
  pub done : (left : ℕ) (s : State R) → I left s → I 0 s

module _ {R : Type 0} (env : Env R) where
  abbrev after_round :
      Str
      → Str
      → ℕ
      → State R × Step (Option (Tracker Cents) × ℕ)
      → State R × TurnResult × Option RunError
  after_round branch external_context left (s, stop r e) = (s, r, e)
  after_round branch external_context left (s, go next) =
      rounds env branch external_context left next.0 next.1 s

  rounds-suc :
      (branch external_context : Str) (left : ℕ) (t : Option (Tracker Cents)) (bytes : ℕ)
      (s : State R)
      → rounds env branch external_context (suc left) t bytes s
        ≡ after_round branch external_context left (round env branch external_context t s)
  unfolding rounds
  rounds-suc branch external_context left t bytes s =
      by_step (round env branch external_context t s)
    where
      by_step :
          (x : State R × Step (Option (Tracker Cents) × ℕ))
          → elim x.1 [
            | stop r e ↦ (x.0, r, e)
            | go next ↦ rounds env branch external_context left next.0 next.1 x.0
          ]
            ≡ after_round branch external_context left x
      by_step (s', go next) = refl
      by_step (s', stop r e) = refl

  module _ (branch external_context : Str) (I : ℕ → State R → Type 0)
      (inv : Invariant env branch external_context I) where
    after_round-kept :
        (left : ℕ)
        → ((t : Option (Tracker Cents)) (bytes : ℕ) (s : State R)
            → I left s
            → I 0 (rounds env branch external_context left t bytes s).0)
        → (x : State R × Step (Option (Tracker Cents) × ℕ)) → I left x.0
        → I 0 (after_round branch external_context left x).0
    after_round-kept left rest (s, stop r e) i = inv.done left s i
    after_round-kept left rest (s, go next) i = rest next.0 next.1 s i

    one_round :
        (left : ℕ) (t : Option (Tracker Cents)) (s : State R)
        → I (suc left) s
        → I left (round env branch external_context t s).0
    unfolding SendsAt Adds
    one_round left t s i =
        inv.kept left s (round env branch external_context t s).0
          (round-SendsAt env branch external_context s t).0
          (round-Adds env branch external_context t s) i

    rounds-kept :
        (left : ℕ) (t : Option (Tracker Cents)) (bytes : ℕ) (s : State R)
        → I left s
        → I 0 (rounds env branch external_context left t bytes s).0
    unfolding rounds
    rounds-kept zero t bytes s i = i
    rounds-kept (suc left) t bytes s i = rw (rounds-suc branch external_context left t bytes s) (
        after_round-kept left (λ t' bytes' s' i'. rounds-kept left t' bytes' s' i')
          (round env branch external_context t s) (one_round left t s i))

  module _ (user_branch user_text external_context : Str) where
    abbrev branch : Str
    branch = branch_or_default env user_branch

    abbrev after_open : State R × Step Str → State R × TurnResult × Option RunError
    after_open (s, stop r e) = (s, r, e)
    after_open (s, go id) =
        rounds env branch external_context env.max_reasoning_turns (first_tracker env branch id) 0 s

    handle-after_open :
        (s : State R)
        → handle_user_turn env user_branch user_text external_context s
          ≡ after_open (lift (open_turn env branch user_text) s)
    unfolding handle_user_turn
    handle-after_open s = by_step (lift (open_turn env branch user_text) s)
      where
        by_step :
            (x : State R × Step Str)
            → elim x.1 [
              | stop r e ↦ (x.0, r, e)
              | go id ↦
                  rounds env branch external_context env.max_reasoning_turns
                    (first_tracker env branch id)
                    0
                    x.0
            ]
              ≡ after_open x
        by_step (s', go id) = refl
        by_step (s', stop r e) = refl

    module _ (I : ℕ → State R → Type 0) (inv : Invariant env branch external_context I) where
      after_open-kept :
          (x : State R × Step Str) → I env.max_reasoning_turns x.0 → I 0 (after_open x).0
      after_open-kept (s, stop r e) i = inv.done env.max_reasoning_turns s i
      after_open-kept (s, go id) i =
          rounds-kept branch external_context I inv env.max_reasoning_turns _ 0 s i

      pub handle-kept :
          (s : State R)
          → I env.max_reasoning_turns s
          → I 0 (handle_user_turn env user_branch user_text external_context s).0
      unfolding lift Adds
      handle-kept s i =
          let opened = lift (open_turn env branch user_text) s in
          rw (handle-after_open s) (
            after_open-kept opened (
              inv.opening env.max_reasoning_turns s opened.0 refl
                (open_turn-Adds env branch user_text s) i))
