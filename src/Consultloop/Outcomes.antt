-- ===== src/Consultloop/Outcomes.antt =====
-- What `Execute` comes to: by its calls, within its bound, and when a model answers.
use mathlib.Core.List.{append_assoc, append-nil}
use mathlib.Core.Path.{subst}
use pancakes_harness.Prelude.{
  ℕ, zero, suc, ◌+◌, ◌≤◌, ◌<◌, ◌≡◌, refl, sym, ◌∙◌, ap, Bool, true, Option, none, some, List, [],
  ◌∷◌, ◌++◌, arith, length, inl, inr, Option-cases, if◌then◌else◌,
}
use pancakes_harness.Prelude.Result.{Result, ok, err}
use pancakes_harness.Prelude.Int.{ℤ, pos, negsuc, lebℤ}
use pancakes_harness.Bytes.{Str}
use pancakes_harness.Consultloop.{
  RecoveryConfig, TurnOutcome, Trace, ExecuteError, rounds, is_recoverable_error, called,
  note_retry, attempts, note_fallback, try_models, models_of, execute, empty_trace, new_executor,
}
use pancakes_harness.Consultloop.Attempts.{
  AllFailed, Ends, note_retry-calls, note_fallback-calls, attempts-Ends, attempts-calls, Calls,
  Runs, ended, run, note_success-calls,
}

abbrev pub reached : Result ExecuteError TurnOutcome → Option TurnOutcome
reached (ok o) = some o
reached (err e) = none

positive_retries : (z : ℤ) → (n : ℕ) × ((if lebℤ z (pos 0) then pos 1 else z) ≡ pos n)
positive_retries (pos zero) = (1, refl)
positive_retries (pos (suc n)) = (suc n, ground arith)
positive_retries (negsuc n) = (1, refl)

module _ {A : Type 0} (name : A → Str) (turn : ℕ → A → Result Str TurnOutcome) (now : ℕ → ℕ)
    (recording : Bool) where
  try_models-Ends :
      (max : ℤ) (i : ℕ) (models : List A) (last : Option Str) (t : Trace A)
      → AllFailed t.calls
      → Ends name turn now recording
          (reached (try_models name turn now recording max i models last t).0)
          (try_models name turn now recording max i models last t).1.calls
  unfolding try_models Ends
  try_models-Ends max i [] last t failed = failed
  try_models-Ends max i (m ∷ ms) last t failed =
      let ends = attempts-Ends name turn now recording max i m (rounds max) 0 last t failed in
      let q = attempts name turn now recording max i m (rounds max) 0 last t in
      elim (Option-cases q.0) [
        | inl e ↦
            let all = subst (λ r. Ends name turn now recording r q.2.calls) e ends in
            rw (try_models, e)
              (try_models-Ends max (i + 1) ms q.1 (note_fallback name turn now recording q.1 ms q.2)
                (rw (note_fallback-calls name turn now recording q.1 ms q.2) all))
        | inr (o, e) ↦
            rw (try_models, e) (subst (λ r. Ends name turn now recording r q.2.calls) e ends)
      ]

  try_models-Runs :
      (max : ℤ) (i : ℕ) (models : List A) (last : Option Str) (t : Trace A)
      → (new : Calls A) × Runs (rounds max) models new
        × ((try_models name turn now recording max i models last t).1.calls ≡ new ++ t.calls)
  unfolding try_models
  try_models-Runs max i [] last t = ([], ended [], refl)
  try_models-Runs max i (m ∷ ms) last t =
      let (new, same, few, some_call, all) =
        attempts-calls name turn now recording max i m (rounds max) 0 last t in
      let q = attempts name turn now recording max i m (rounds max) 0 last t in
      elim (Option-cases q.0) [
        | inl e ↦
            let noted = note_fallback name turn now recording q.1 ms q.2 in
            let (later, runs, rest) = try_models-Runs max (i + 1) ms q.1 noted in
            (
              later ++ new,
              run m new same few some_call runs,
              rw (try_models, e)
                  (rest
                    ∙ ap (λ cs. later ++ cs)
                        (note_fallback-calls name turn now recording q.1 ms q.2 ∙ all)
                    ∙ sym (append_assoc later new t.calls)),
            )
        | inr (o, e) ↦ (new, run m new same few some_call (ended ms), rw (try_models, e) all)
      ]

  -- The outcome that `Execute` returns is that of its last call, under that call's model's name, all
  -- earlier calls having failed; it returns an error exactly if every call has failed.
  pub execute-Ends :
      (cfg : RecoveryConfig A) (adapter : A)
      → Ends name turn now recording
          (reached (execute name turn now recording cfg adapter).0)
          (execute name turn now recording cfg adapter).1.calls
  unfolding execute AllFailed
  execute-Ends cfg adapter =
      try_models-Ends cfg.max_retries 0 (models_of name turn now recording cfg adapter) none _ tt

  -- The calls of `Execute` are runs of at most `max_retries + 1` calls with one model each, one after
  -- the other for the models in their order, as far as they are tried; none of these is left out if
  -- there is any call to make.
  pub execute-Runs :
      (cfg : RecoveryConfig A) (adapter : A)
      → Runs
          (rounds cfg.max_retries)
          (models_of name turn now recording cfg adapter)
          (execute name turn now recording cfg adapter).1.calls
  unfolding execute
  execute-Runs cfg adapter =
      let models = models_of name turn now recording cfg adapter in
      let (new, runs, all) = try_models-Runs cfg.max_retries 0 models none empty_trace in
      subst (Runs (rounds cfg.max_retries) models) (sym (append-nil new) ∙ sym all) runs

  abbrev pub Answers : A → Type 0
  Answers m = (n : ℕ) → (o : TurnOutcome) × (turn n m ≡ ok o)

  attempts_answer :
      (max : ℤ) (i : ℕ) (m : A) (left : ℕ) (last : Option Str) (t : Trace A)
      → Answers m
      → (o : TurnOutcome) × ((attempts name turn now recording max i m (suc left) 0 last t).0
          ≡ some o)
  unfolding attempts
  attempts_answer max i m left last t answers =
      let (o, e) = answers (length t.calls) in
      (record o { adapter_name = name m }, rw (attempts, e) refl)

  try_models_answer :
      (max : ℕ) (i : ℕ) (before : List A) (m : A) (after : List A) (last : Option Str) (t : Trace A)
      → Answers m
      → (o : TurnOutcome) × ((try_models name turn now recording
            (pos max)
            i
            (before ++ m ∷ after)
            last
            t).0
          ≡ ok o)
  unfolding try_models
  try_models_answer max i [] m after last t answers =
      let (o, e) = attempts_answer (pos max) i m max last t answers in (o, rw (try_models, e) refl)
  try_models_answer max i (b ∷ bs) m after last t answers =
      let q = attempts name turn now recording (pos max) i b (suc max) 0 last t in
      elim (Option-cases q.0) [
        | inl e ↦
            let (o, h) =
              try_models_answer max (i + 1) bs m after q.1
                (note_fallback name turn now recording q.1 (bs ++ m ∷ after) q.2) answers in
            (o, rw (try_models, e) h)
        | inr (o, e) ↦ (o, rw (try_models, e) refl)
      ]

  new_executor_lem : (cfg : RecoveryConfig A) → (n : ℕ) × ((new_executor cfg).max_retries ≡ pos n)
  unfolding new_executor
  new_executor_lem cfg = positive_retries cfg.max_retries

  new_executor_models :
      (cfg : RecoveryConfig A) → (new_executor cfg).fallback_models ≡ cfg.fallback_models
  unfolding new_executor
  new_executor_models cfg = refl

  models_of_lem :
      (before : List A) (m : A) (after : List A) (cfg : RecoveryConfig A) (adapter : A)
      → cfg.fallback_models ≡ before ++ m ∷ after
      → models_of name turn now recording cfg adapter ≡ before ++ m ∷ after
  models_of_lem [] m after cfg adapter h = rw h refl
  models_of_lem (b ∷ bs) m after cfg adapter h = rw h refl

  -- An executor that has, somewhere in its list, a model with which every call succeeds returns an
  -- outcome, whatever the other models do.
  pub execute-Answers :
      (cfg : RecoveryConfig A) (adapter : A) (before : List A) (m : A) (after : List A)
      → cfg.fallback_models ≡ before ++ m ∷ after
      → Answers m
      → (o : TurnOutcome) × ((execute name turn now recording (new_executor cfg) adapter).0 ≡ ok o)
  unfolding execute
  execute-Answers cfg adapter before m after listed answers =
      let (n, e) = new_executor_lem cfg in
      let (o, h) = try_models_answer n 0 before m after none empty_trace answers in
      let models =
        models_of_lem before m after (new_executor cfg) adapter
          (new_executor_models cfg ∙ listed) in
      (o, rw (e, models) h)

  attempts_heal :
      (max : ℤ) (i : ℕ) (m : A) (k left attempt : ℕ) (last : Option Str) (t : Trace A)
      (o : TurnOutcome)
      → k < left
      → ((n : ℕ)
          → n < k
          → (msg : Str) × (turn (n + length t.calls) m ≡ err msg)
            × (is_recoverable_error msg ≡ true))
      → turn (k + length t.calls) m ≡ ok o
      → ((attempts name turn now recording max i m left attempt last t).0
          ≡ some (record o { adapter_name = name m }))
        × (length (attempts name turn now recording max i m left attempt last t).2.calls
            ≡ suc k + length t.calls)
  unfolding attempts
  attempts_heal max i m k zero attempt last t o within fails works = absurd (omega arith)
  attempts_heal max i m zero (suc left) attempt last t o within fails works =
      let same = ap length (
        note_success-calls name turn now recording attempt i last m
          (called name turn now recording m t)) in
      let at_once : turn (length t.calls) m ≡ ok o = ap (λ j. turn j m) (omega arith) ∙ works in
      (rw (attempts, at_once) refl, rw (attempts, at_once) (omega (arith, same)))
  attempts_heal max i m (suc k) (suc left) attempt last t o within fails works =
      let (msg, failed, again) = fails 0 (omega arith) in
      let e : turn (length t.calls) m ≡ err msg = ap (λ j. turn j m) (omega arith) ∙ failed in
      let noted =
        note_retry name turn now recording max attempt msg m (called name turn now recording m t) in
      let same : length noted.calls ≡ suc (length t.calls) = ap length (
        note_retry-calls name turn now recording max attempt msg m
          (called name turn now recording m t)) in
      let later : (n : ℕ) → turn (n + length noted.calls) m ≡ turn (suc n + length t.calls) m =
        λ n. ap (λ j. turn j m) (omega (arith, same)) in
      let (reports, counts) =
        attempts_heal max i m k left (attempt + 1) (some msg) noted o (omega arith)
          (λ n h.
            let (msg', e', again') = fails (suc n) (omega arith) in (msg', later n ∙ e', again'))
          (later k ∙ works) in
      (rw (attempts, e, again) reports, rw (attempts, e, again) (counts ∙ omega (arith, same)))

  -- When the first `k` calls with the first model fail in a way that is tried again, `k` being at most
  -- the retries, and the next succeeds, `Execute` returns that call's outcome under the model's name,
  -- after `k + 1` calls.
  pub execute_heals :
      (cfg : RecoveryConfig A) (adapter m : A) (after : List A) (max k : ℕ) (o : TurnOutcome)
      → cfg.max_retries ≡ pos max
      → cfg.fallback_models ≡ m ∷ after
      → k ≤ max
      → ((n : ℕ) → n < k → (msg : Str) × (turn n m ≡ err msg) × (is_recoverable_error msg ≡ true))
      → turn k m ≡ ok o
      → ((execute name turn now recording cfg adapter).0 ≡ ok (record o { adapter_name = name m }))
        × (length (execute name turn now recording cfg adapter).1.calls ≡ k + 1)
  unfolding execute try_models
  execute_heals cfg adapter m after max k o limit listed within fails works =
      let models = models_of_lem [] m after cfg adapter listed in
      let h =
        attempts_heal (pos max) 0 m k (suc max) 0 none empty_trace o (omega arith)
          (λ n l.
            let (msg, e, again) = fails n l in (msg, ap (λ j. turn j m) (omega arith) ∙ e, again))
          (ap (λ j. turn j m) (omega arith) ∙ works) in
      let runs : execute name turn now recording cfg adapter
          ≡ try_models name turn now recording (pos max) 0 (m ∷ after) none empty_trace =
        ap
          (λ z.
            try_models name turn now recording z 0 (models_of name turn now recording cfg adapter)
              none empty_trace)
          limit
        ∙ ap (λ ms. try_models name turn now recording (pos max) 0 ms none empty_trace) models in
      (
        ap (λ r. r.0) runs ∙ rw (try_models, h.0) refl,
        ap (λ r. length r.1.calls) runs ∙ rw (try_models, h.0) (h.1 ∙ omega arith),
      )
