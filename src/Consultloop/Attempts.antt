-- ===== src/Consultloop/Attempts.antt =====
-- The calls that the loop makes: notes make none, and each round makes one.
use mathlib.Core.List.{append_assoc}
use pancakes_harness.Prelude.{
  ℕ, zero, suc, ◌+◌, ◌≤◌, ◌<◌, ◌≡◌, refl, sym, ap, ◌∙◌, ◌++◌, length-append, Bool, true, false,
  ◌||◌, Option, none, some, List, [], ◌∷◌, arith, ltb, length, All, Bool-cases, inl, inr,
}
use pancakes_harness.Prelude.Result.{Result, ok, err, IsErr, Result-cases}
use pancakes_harness.Prelude.Int.{ℤ, pos, lebℤ}
use pancakes_harness.Bytes.{Str}
use pancakes_harness.Consultloop.{
  TurnOutcome, Trace, is_recoverable_error, append_recovery_event, called, note_success, note_retry,
  attempts, note_fallback,
}

abbrev pub Calls : Type 0 → Type 0
Calls A = List (A × Result Str TurnOutcome)

-- The calls, the last first, are runs of at most `n` calls, and of one at least if `n` is positive, with each
-- of the first of the models, one run after the other in the order of the models.
pub data Runs {A : Type 0} (n : ℕ) : List A → Calls A → Type 0 where
  ended : (models : List A) → Runs n models []
  run :
      {models : List A} {later : Calls A} (model : A) (now : Calls A)
      → All (λ c. c.0 ≡ model) now
      → length now ≤ n
      → (0 < n → 0 < length now)
      → Runs n models later
      → Runs n (model ∷ models) (later ++ now)

All-append : {A : Type 0} (P : A → Type 0) (xs ys : List A) → All P xs → All P ys → All P (xs ++ ys)
All-append P [] ys hx hy = hy
All-append P (x ∷ xs) ys (h, hs) hy = (h, All-append P xs ys hs hy)

unfoldable pub AllFailed : {A : Type 0} → Calls A → Type 0
AllFailed cs = All (λ c. IsErr c.1) cs

module _ {A : Type 0} (name : A → Str) (turn : ℕ → A → Result Str TurnOutcome) (now : ℕ → ℕ)
    (recording : Bool) where
  pub note_success-calls :
      (attempt i : ℕ) (last : Option Str) (model : A) (t : Trace A)
      → (note_success name turn now recording attempt i last model t).calls ≡ t.calls
  unfolding note_success append_recovery_event
  note_success-calls attempt i last model t = elim (Bool-cases (ltb 0 attempt || ltb 0 i)) [
    | inl h ↦ rw h refl
    | inr h ↦ rw h refl
  ]

  pub note_retry-calls :
      (max : ℤ) (attempt : ℕ) (e : Str) (model : A) (t : Trace A)
      → (note_retry name turn now recording max attempt e model t).calls ≡ t.calls
  unfolding note_retry append_recovery_event
  note_retry-calls max attempt e model t = elim (Bool-cases (lebℤ (pos (attempt + 1)) max)) [
    | inl h ↦ rw h refl
    | inr h ↦ rw h refl
  ]

  pub note_fallback-calls :
      (last : Option Str) (models : List A) (t : Trace A)
      → (note_fallback name turn now recording last models t).calls ≡ t.calls
  unfolding note_fallback append_recovery_event
  note_fallback-calls last [] t = refl
  note_fallback-calls last (next ∷ models) t = refl

  -- Either the last call succeeded and its outcome is reported under its model's name, the calls
  -- before having failed, or all calls failed.
  unfoldable pub Ends : Option TurnOutcome → Calls A → Type 0
  unfolding AllFailed
  Ends none cs = AllFailed cs
  Ends (some o) ((model, ok o') ∷ cs) = (o ≡ record o' { adapter_name = name model }) × AllFailed cs
  Ends (some o) _ = ⊥

  pub attempts-Ends :
      (max : ℤ) (i : ℕ) (model : A) (left attempt : ℕ) (last : Option Str) (t : Trace A)
      → AllFailed t.calls
      → Ends
          (attempts name turn now recording max i model left attempt last t).0
          (attempts name turn now recording max i model left attempt last t).2.calls
  unfolding attempts Ends AllFailed
  attempts-Ends max i model zero attempt last t failed = failed
  attempts-Ends max i model (suc left) attempt last t failed =
      elim (Result-cases (turn (length t.calls) model)) [
        | inl (o, e) ↦
            rw
              (
                attempts,
                e,
                note_success-calls attempt i last model (called name turn now recording model t),
                e,
              )
              (refl, failed)
        | inr (msg, e) ↦ elim (Bool-cases (is_recoverable_error msg)) [
          | inl again ↦
              rw (attempts, e, again)
                (attempts-Ends max i model left (attempt + 1) (some msg) _ (
                  rw
                    (
                      note_retry-calls max attempt msg model
                          (called name turn now recording model t),
                      e,
                    )
                    (tt, failed)))
          | inr final ↦ rw (attempts, e, final, e) (tt, failed)
        ]
      ]

  module _ (max : ℤ) (i : ℕ) (model : A) (left attempt : ℕ) (last : Option Str) (t : Trace A) where
    next : Trace A
    next = called name turn now recording model t

    -- a round, once its call has returned
    after_call : Result Str TurnOutcome → Option TurnOutcome × Option Str × Trace A
    unfolding next
    after_call (ok o) = (
      some (record o { adapter_name = name model }),
      last,
      note_success name turn now recording attempt i last model next,
    )
    after_call (err e) = elim (is_recoverable_error e) [
      | true ↦
          attempts name turn now recording max i model left (attempt + 1) (some e)
            (note_retry name turn now recording max attempt e model next)
      | false ↦ (none, some e, next)
    ]

    attempts_step :
        attempts name turn now recording max i model (suc left) attempt last t
        ≡ after_call (turn (length t.calls) model)
    unfolding attempts after_call
    attempts_step = refl

    after_ok : (o : TurnOutcome) → (after_call (ok o)).2.calls ≡ next.calls
    unfolding after_call
    after_ok o = note_success-calls attempt i last model next

    after_final :
        (e : Str) → is_recoverable_error e ≡ false → (after_call (err e)).2.calls ≡ next.calls
    unfolding after_call
    after_final e final = rw (after_call, final) refl

    after_again :
        (e : Str)
        → is_recoverable_error e ≡ true
        → after_call (err e)
          ≡ attempts name turn now recording max i model left
              (attempt + 1)
              (some e)
              (note_retry name turn now recording max attempt e model next)
    unfolding after_call
    after_again e again = rw (after_call, again) refl

    -- the calls after a round that ends the attempts
    attempts-once :
        (r : Result Str TurnOutcome)
        → turn (length t.calls) model ≡ r
        → (after_call r).2.calls ≡ next.calls
        → (attempts name turn now recording max i model (suc left) attempt last t).2.calls
          ≡ (model, turn (length t.calls) model) ∷ t.calls
    unfolding next
    attempts-once r e ends = ap (λ q. q.2.calls) (attempts_step ∙ ap after_call e) ∙ ends

  -- The attempts with a model make calls with it, at most as many as are left, and one at least if any
  -- is left.
  pub attempts-calls :
      (max : ℤ) (i : ℕ) (model : A) (left attempt : ℕ) (last : Option Str) (t : Trace A)
      → (new : Calls A) × All (λ c. c.0 ≡ model) new
        × (length new ≤ left)
        × (0 < left → 0 < length new)
        × ((attempts name turn now recording max i model left attempt last t).2.calls
            ≡ new ++ t.calls)
  unfolding attempts next
  attempts-calls max i model zero attempt last t = ([], tt, omega arith, λ h. h, refl)
  attempts-calls max i model (suc left) attempt last t =
      let call : A × Result Str TurnOutcome = (model, turn (length t.calls) model) in
      let once = attempts-once max i model left attempt last t in
      elim (Result-cases (turn (length t.calls) model)) [
        | inl (o, e) ↦ (
          call ∷ [],
          (refl, tt),
          omega arith,
          λ h. omega arith,
          once (ok o) e (after_ok max i model left attempt last t o),
        )
        | inr (msg, e) ↦ elim (Bool-cases (is_recoverable_error msg)) [
          | inl again ↦
              let t' = next max i model left attempt last t in
              let noted = note_retry name turn now recording max attempt msg model t' in
              let (new, same, few, _, all) =
                attempts-calls max i model left (attempt + 1) (some msg) noted in
              let size = length-append new (call ∷ []) in
              (
                new ++ call ∷ [],
                All-append (λ c. c.0 ≡ model) new (call ∷ []) same (refl, tt),
                omega (arith, few, size),
                λ h. omega (arith, size),
                ap (λ q. q.2.calls)
                      (attempts_step max i model left attempt last t
                        ∙ ap (after_call max i model left attempt last t) e
                        ∙ after_again max i model left attempt last t msg again)
                    ∙ all
                    ∙ ap (λ cs. new ++ cs) (note_retry-calls max attempt msg model t')
                    ∙ sym (append_assoc new (call ∷ []) t.calls),
              )
          | inr final ↦ (
            call ∷ [],
            (refl, tt),
            omega arith,
            λ h. omega arith,
            once (err msg) e (after_final max i model left attempt last t msg final),
          )
        ]
      ]
