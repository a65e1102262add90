-- ===== src/Compactor/Scheduler/Decisions.antt =====
-- When a compaction pass fires, and how often passes can fire.
use pancakes_harness.Prelude.{
  ◌↔◌, ℕ, ◌+◌, ◌*◌, ◌≤◌, ◌≡◌, ◌⊎◌, inl, inr, refl, ap, Bool, true, false, ◌||◌, Option, none, some,
  List, [], ◌∷◌, arith, if◌then◌else◌,
}
use pancakes_harness.Prelude.Int.{ℤ, pos, add_nat}
use pancakes_harness.Compactor.Scheduler.{
  Trigger, turn_count, budget_pressure, ScheduleConfig, Scheduler, ltbℤ, new_scheduler, record_turn,
  record_budget_pressure, set_event_count, mark_compacted, is_cooling, is_due, is_pressed,
  should_compact,
}

module _ {R : Type 0} (positive : R → Bool) (at_least : R → R → Bool) where
  -- the ladder of `ShouldCompact` over the outcomes of its tests
  abbrev ladder :
      Bool → Bool → Bool → Bool → Scheduler R → Scheduler R → Scheduler R × Option Trigger
  ladder few cooling due pressed s s' =
      if few
      then (s, none)
      else if cooling
      then (s', none)
      else if due
      then (s, some turn_count)
      else if pressed
      then (s, some budget_pressure)
      else (s, none)

  ladder_asks :
      (few cooling due pressed : Bool) (s s' : Scheduler R) (t : Trigger)
      → (ladder few cooling due pressed s s').1 ≡ some t
      → (few ≡ false) × (cooling ≡ false) × ((due || pressed) ≡ true)
  ladder_asks few cooling due pressed s s' t h = ground arith

  ladder_answers :
      (few cooling due pressed : Bool) (s s' : Scheduler R)
      → (few ≡ false) × (cooling ≡ false) × ((due || pressed) ≡ true)
      → (t : Trigger) × ((ladder few cooling due pressed s s').1 ≡ some t)
  ladder_answers false false true pressed s s' h = (turn_count, refl)
  ladder_answers false false false true s s' h = (budget_pressure, refl)
  ladder_answers false false false false s s' h = cc (h.2)
  ladder_answers false true due pressed s s' h = cc (h.1)
  ladder_answers true cooling due pressed s s' h = cc (h.0)

  -- A pass is asked for exactly if there are enough events, the cooldown is over, and the turns or
  -- the pressure demand one.
  should_compact_iff :
      (s : Scheduler R)
      → ((t : Trigger) × ((should_compact positive at_least s).1 ≡ some t)) ↔ (
          (ltbℤ s.event_count s.cfg.min_events ≡ false)
          × (is_cooling s ≡ false)
          × ((is_due s || is_pressed positive at_least s) ≡ true))
  unfolding should_compact
  should_compact_iff s = (
    λ (t, h).
        ladder_asks (ltbℤ s.event_count s.cfg.min_events) (is_cooling s) (is_due s)
          (is_pressed positive at_least s) s
          (record s { total_suppressed = s.total_suppressed + 1 }) t h,
    λ h.
        ladder_answers (ltbℤ s.event_count s.cfg.min_events) (is_cooling s) (is_due s)
          (is_pressed positive at_least s) s
          (record s { total_suppressed = s.total_suppressed + 1 }) h,
  )

  -- The calls of a client that marks a pass only when it was asked for one and it succeeded.
  pub data Call : Type 0 where
    turn : Call
    pressure : R → Call
    events : ℤ → Call
    attempt : ℕ → Call

  abbrev pub fire : ℕ → Scheduler R × Option Trigger → Scheduler R
  fire now (s, none) = s
  fire now (s, some t) = mark_compacted now s

  unfoldable pub call : Call → Scheduler R → Scheduler R
  unfolding should_compact mark_compacted record_turn record_budget_pressure set_event_count
  call turn s = record_turn s
  call (pressure ratio) s = record_budget_pressure ratio s
  call (events n) s = set_event_count n s
  call (attempt now) s = fire now (should_compact positive at_least s)

  unfoldable pub run : List Call → Scheduler R → Scheduler R
  unfolding call
  run [] s = s
  run (c ∷ cs) s = run cs (call c s)

  -- `f` turns after the last pass, and passes paced by a cooldown of `c` turns.
  abbrev Paced : ℕ → ℕ → Scheduler R → Type 0
  Paced c f s =
      (s.cfg.cooldown_turns ≡ pos c)
      × (s.turns_since_last_fire ≡ pos f)
      × ((s.total_firings ≡ 0) ⊎ (s.total_firings * c + f ≤ s.total_turns + c))

  Paced-attempt :
      (c f now : ℕ) (s : Scheduler R)
      → Paced c f s
      → (f' : ℕ) × Paced c f' (fire now (should_compact positive at_least s))
  unfolding should_compact mark_compacted
  Paced-attempt c f now s (cooldown, since, pace) =
      paced_ladder (ltbℤ s.event_count s.cfg.min_events) (is_cooling s) (is_due s)
        (is_pressed positive at_least s) (over since cooldown)
    where
      over :
          s.turns_since_last_fire ≡ pos f
          → s.cfg.cooldown_turns ≡ pos c
          → is_cooling s ≡ false
          → (s.total_firings ≡ 0) ⊎ (c ≤ f)
      over since cooldown rested = ground arith

      after_pass :
          (s.total_firings ≡ 0) ⊎ (c ≤ f)
          → (s.total_firings + 1 ≡ 0) ⊎ ((s.total_firings + 1) * c + 0 ≤ s.total_turns + c)
      after_pass h = grind arith

      paced_ladder :
          (few cooling due pressed : Bool)
          → (cooling ≡ false → (s.total_firings ≡ 0) ⊎ (c ≤ f))
          → (f' : ℕ) × Paced c f' (
              fire now (
                ladder few cooling due pressed s
                  (record s { total_suppressed = s.total_suppressed + 1 })))
      paced_ladder true cooling due pressed h = (f, (cooldown, since, pace))
      paced_ladder false true due pressed h = (f, (cooldown, since, pace))
      paced_ladder false false true pressed h = (0, (cooldown, refl, after_pass (h refl)))
      paced_ladder false false false true h = (0, (cooldown, refl, after_pass (h refl)))
      paced_ladder false false false false h = (f, (cooldown, since, pace))

  Paced-call :
      (c f : ℕ) (s : Scheduler R) (x : Call) → Paced c f s → (f' : ℕ) × Paced c f' (call x s)
  unfolding call
  Paced-call c f s turn (cooldown, since, pace) =
      (f + 1, (cooldown, ap (λ n. add_nat n 1) since, ground arith))
  Paced-call c f s (pressure ratio) h = (f, h)
  Paced-call c f s (events n) h = (f, h)
  Paced-call c f s (attempt now) h = Paced-attempt c f now s h

  Paced-run :
      (c f : ℕ) (cs : List Call) (s : Scheduler R) → Paced c f s → (f' : ℕ) × Paced c f' (run cs s)
  unfolding run
  Paced-run c f [] s h = (f, h)
  Paced-run c f (x ∷ xs) s h =
      let (f', h') = Paced-call c f s x h in Paced-run c f' xs (call x s) h'

  -- Under a cooldown of `c` turns, with every pass asked for and successful, `n` passes take at
  -- least `(n - 1) * c` turns, whatever the ratios, the event counts and the other settings.
  pub passes_paced :
      (c : ℕ) (zero_ratio : R) (cfg : ScheduleConfig R) (cs : List Call)
      → cfg.cooldown_turns ≡ pos c
      → (run cs (new_scheduler zero_ratio cfg)).total_firings * c
        ≤ (run cs (new_scheduler zero_ratio cfg)).total_turns + c
  passes_paced c zero_ratio cfg cs cooldown =
      let s = new_scheduler zero_ratio cfg in
      let (f, (_, since, pace)) = Paced-run c 0 cs s (start cfg cooldown) in bound _ f _ pace
    where
      start :
          (cfg : ScheduleConfig R)
          → cfg.cooldown_turns ≡ pos c
          → Paced c 0 (new_scheduler zero_ratio cfg)
      start cfg h = unfold new_scheduler in (ground arith, refl, inl refl)

      bound : (n f t : ℕ) → (n ≡ 0) ⊎ (n * c + f ≤ t + c) → n * c ≤ t + c
      bound n f t (inl none_yet) = rw none_yet (omega arith)
      bound n f t (inr h) = omega arith
