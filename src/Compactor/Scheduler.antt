-- ===== src/Compactor/Scheduler.antt =====
-- internal/compactor/scheduler.go. The budget ratio is a float64 that is only compared: its type
-- and the two comparisons are parameters. Counters are far below the range of `int`; what the
-- configuration or a caller sets may be negative.
pub mod Decisions
use pancakes_harness.Prelude.{
  ℕ, ◌+◌, Bool, true, false, ◌&&◌, not, Option, none, some, ltb, if◌then◌else◌,
}
use pancakes_harness.Prelude.Int.{ℤ, pos, add_nat, lebℤ}

pub data Trigger : Type 0 where
  turn_count budget_pressure : Trigger

pub record ScheduleConfig (R : Type 0) : Type 0 where
  pub trigger_turns : ℤ
  pub budget_pressure_ratio : R
  pub min_events : ℤ
  pub cooldown_turns : ℤ

-- `last_compaction_time` is 0 at Go's zero time.
pub record Scheduler (R : Type 0) : Type 0 where
  pub cfg : ScheduleConfig R
  pub total_turns : ℕ
  pub turns_since_compact : ℕ
  pub turns_since_last_fire : ℤ
  pub event_count : ℤ
  pub last_budget_ratio : R
  pub last_compaction_time : ℕ
  pub total_firings : ℕ
  pub total_suppressed : ℕ

-- `a < b` and `a > 0` on `int`
abbrev pub ltbℤ : ℤ → ℤ → Bool
ltbℤ a b = not (lebℤ b a)

abbrev pub is_pos : ℤ → Bool
is_pos a = ltbℤ (pos 0) a

module _ {R : Type 0} where
  -- `NewScheduler`, with the zero ratio
  unfoldable pub new_scheduler : R → ScheduleConfig R → Scheduler R
  new_scheduler zero_ratio cfg = record {
    cfg = if lebℤ cfg.min_events (pos 0) then record cfg { min_events = pos 20 } else cfg;
    total_turns = 0;
    turns_since_compact = 0;
    turns_since_last_fire = pos 0;
    event_count = pos 0;
    last_budget_ratio = zero_ratio;
    last_compaction_time = 0;
    total_firings = 0;
    total_suppressed = 0;
  }

  unfoldable pub record_turn : Scheduler R → Scheduler R
  record_turn s = record s {
    total_turns = s.total_turns + 1;
    turns_since_compact = s.turns_since_compact + 1;
    turns_since_last_fire = add_nat s.turns_since_last_fire 1;
  }

  unfoldable pub record_budget_pressure : R → Scheduler R → Scheduler R
  record_budget_pressure ratio s = record s { last_budget_ratio = ratio }

  unfoldable pub set_event_count : ℤ → Scheduler R → Scheduler R
  set_event_count n s = record s { event_count = n }

  unfoldable pub mark_compacted : ℕ → Scheduler R → Scheduler R
  mark_compacted now s = record s {
    turns_since_compact = 0;
    turns_since_last_fire = pos 0;
    last_compaction_time = now;
    total_firings = s.total_firings + 1;
  }

  unfoldable pub mark_compaction_failed : Scheduler R → Scheduler R
  mark_compaction_failed s = record s { turns_since_last_fire = s.cfg.cooldown_turns }

  -- the cooldown test of `ShouldCompact`
  abbrev pub is_cooling : Scheduler R → Bool
  is_cooling s =
      ltb 0 s.total_firings
      && is_pos s.cfg.cooldown_turns
      && ltbℤ s.turns_since_last_fire s.cfg.cooldown_turns

  -- the test of the turn count
  abbrev pub is_due : Scheduler R → Bool
  is_due s = is_pos s.cfg.trigger_turns && lebℤ s.cfg.trigger_turns (pos s.turns_since_compact)

  module _ (positive : R → Bool) (at_least : R → R → Bool) where
    -- the test of the budget pressure
    abbrev pub is_pressed : Scheduler R → Bool
    is_pressed s =
        positive s.cfg.budget_pressure_ratio
        && at_least s.last_budget_ratio s.cfg.budget_pressure_ratio

    -- `ShouldCompact`: the suppressed calls are counted
    unfoldable pub should_compact : Scheduler R → Scheduler R × Option Trigger
    should_compact s =
        if ltbℤ s.event_count s.cfg.min_events
        then (s, none)
        else if is_cooling s
        then (record s { total_suppressed = s.total_suppressed + 1 }, none)
        else if is_due s
        then (s, some turn_count)
        else if is_pressed s
        then (s, some budget_pressure)
        else (s, none)
