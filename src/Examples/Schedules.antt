-- ===== src/Examples/Schedules.antt =====
-- A schedule that asks for a pass every second turn, with natural numbers as ratios.
use pancakes_harness.Prelude.{ℕ, ◌+◌, ◌*◌, ◌≤◌, refl, Bool, List, [], ◌∷◌, leb, ltb}
use pancakes_harness.Prelude.Int.{pos}
use pancakes_harness.Compactor.Scheduler.{ScheduleConfig, Scheduler, new_scheduler}
use pancakes_harness.Compactor.Scheduler.Decisions
use pancakes_harness.Compactor.Scheduler.Decisions.{Call, turn, events, attempt, passes_paced}

abbrev positive : ℕ → Bool
positive n = ltb 0 n

abbrev at_least : ℕ → ℕ → Bool
at_least a b = leb b a

abbrev config : ScheduleConfig ℕ
config = record {
  trigger_turns = pos 2;
  budget_pressure_ratio = 1;
  min_events = pos 1;
  cooldown_turns = pos 2;
}

abbrev calls : List (Call positive at_least)
calls = events (pos 5) ∷ turn ∷ turn ∷ attempt 1 ∷ turn ∷ attempt 2 ∷ []

passes_paced_example :
    (Decisions.run positive at_least calls (new_scheduler 0 config)).total_firings * 2
    ≤ (Decisions.run positive at_least calls (new_scheduler 0 config)).total_turns + 2
passes_paced_example = passes_paced positive at_least 2 0 config calls refl

abbrev scheduler : Scheduler ℕ
scheduler = new_scheduler 0 config
