-- ===== src/Examples/Recoveries.antt =====
-- Two models: the first fails once for its budget and then answers; the second always answers.
use pancakes_harness.Prelude.{
  ℕ, zero, suc, ◌≡◌, ◌<◌, refl, Bool, true, false, [], ◌∷◌, arith, length,
}
use pancakes_harness.Prelude.Result.{Result, ok, err}
use pancakes_harness.Prelude.Int.{pos}
use pancakes_harness.Bytes.{Str, codes, contains, has_prefix}
use pancakes_harness.Consultloop.{
  RecoveryConfig, TurnOutcome, new_executor, rounds, models_of, execute, is_recoverable_error,
  contains_any,
}
use pancakes_harness.Consultloop.Attempts.{Ends, Runs}
use pancakes_harness.Consultloop.Outcomes.{
  reached, execute-Ends, execute-Runs, execute-Answers, execute_heals,
}

abbrev outcome : TurnOutcome
outcome = record {
  answer = codes "a";
  decision = codes "answer";
  adapter_name = codes "";
  envelope_bytes = pos 9;
  tokens_used = pos 3;
}

abbrev model_name : Bool → Str
model_name true = codes "large"
model_name false = codes "small"

abbrev run : ℕ → Bool → Result Str TurnOutcome
run zero true = err (codes "token budget")
run _ _ = ok outcome

abbrev now : ℕ → ℕ
now n = suc n

abbrev config : RecoveryConfig Bool
config = record {
  max_retries = pos 1;
  fallback_models = true ∷ false ∷ [];
  recovery_prompt = codes "";
}

execute-Ends_example :
    Ends model_name run now true
      (reached (execute model_name run now true config true).0)
      (execute model_name run now true config true).1.calls
execute-Ends_example = execute-Ends model_name run now true config true

execute-Runs_example :
    Runs
      (rounds config.max_retries)
      (models_of model_name run now true config true)
      (execute model_name run now true config true).1.calls
execute-Runs_example = execute-Runs model_name run now true config true

execute-Answers_example :
    (o : TurnOutcome) × ((execute model_name run now true (new_executor config) true).0 ≡ ok o)
execute-Answers_example =
    execute-Answers model_name run now true config true (true ∷ []) false [] refl answers
  where
    answers : (n : ℕ) → (o : TurnOutcome) × (run n false ≡ ok o)
    answers zero = (outcome, refl)
    answers (suc n) = (outcome, refl)

execute_heals_example :
    ((execute model_name run now true config true).0
      ≡ ok (record outcome { adapter_name = codes "large" }))
    × (length (execute model_name run now true config true).1.calls ≡ 2)
unfolding is_recoverable_error contains_any contains has_prefix
execute_heals_example =
    execute_heals model_name run now true config true true (false ∷ []) 1 1 outcome refl refl
      (omega arith) fails refl
  where
    fails :
        (n : ℕ) → n < 1 → (msg : Str) × (run n true ≡ err msg) × (is_recoverable_error msg ≡ true)
    fails zero h = (codes "token budget", refl, refl)
    fails (suc n) h = absurd (omega arith)
