-- ===== src/Egress/Select.antt =====
-- The loop of `SelectWithExplanation` and its explanation. `BudgetPressure` is not set here.
pub mod Tallies
use pancakes_harness.Prelude.{
  ℕ, zero, suc, ◌+◌, Bool, true, false, not, Option, none, some, List, [], ◌∷◌, ◌++◌, ltb, nat_eq,
  if◌then◌else◌, length, keep,
}
use pancakes_harness.Prelude.Int.{ℤ, pos}
use pancakes_harness.Bytes.{Str, codes, lt_str}
use pancakes_harness.Sort.{sort_by}
use pancakes_harness.Egress.Classify.{
  EligibilityClass, ReasonCode, branch_locality, recent_turn, tool_result, summary_checkpoint,
  checkpoint_ref, global_relevant, budget_fit, debug_never, non_local, sensitive_local,
  ref_unavailable, Candidate, Selected, classify,
}

abbrev pub reason_text : ReasonCode → Str
reason_text branch_locality = codes "branch_locality"
reason_text recent_turn = codes "recent_turn"
reason_text tool_result = codes "tool_result"
reason_text summary_checkpoint = codes "summary_checkpoint"
reason_text checkpoint_ref = codes "checkpoint_ref"
reason_text global_relevant = codes "global_relevant"
reason_text budget_fit = codes "budget_fit"
reason_text debug_never = codes "debug_never"
reason_text non_local = codes "non_local"
reason_text sensitive_local = codes "sensitive_local"
reason_text ref_unavailable = codes "ref_unavailable"

pub ReasonCode-discrete : Discrete ReasonCode
ReasonCode-discrete = hlevel

pub record ItemReason : Type 0 where
  pub id : Str
  pub kind : Str
  pub reason : ReasonCode
  pub class : EligibilityClass
  pub frontier_ordinal : ℤ

pub record ReasonCount : Type 0 where
  pub reason : ReasonCode
  pub count : ℕ

-- the explanation under way, with the two maps of counts
pub record Tally : Type 0 where
  pub included : List ItemReason
  pub excluded : List ItemReason
  pub included_counts : List ReasonCount
  pub excluded_counts : List ReasonCount

abbrev pub no_tally : Tally
no_tally = record { included = []; excluded = []; included_counts = []; excluded_counts = [] }

abbrev pub max_excluded : ℕ
max_excluded = 8

same_reason : ReasonCode → ReasonCode → Bool
same_reason a b = elim (ReasonCode-discrete a b) [ yes _ ↦ true | no _ ↦ false ]

-- `counts[reason]++`
unfoldable pub increment : ReasonCode → List ReasonCount → List ReasonCount
unfolding same_reason
increment r [] = record { reason = r; count = 1 } ∷ []
increment r (c ∷ cs) =
    let rest = increment r cs in
    if same_reason c.reason r then record c { count = c.count + 1 } ∷ cs else c ∷ rest

abbrev pub item_reason : Selected → ItemReason
item_reason s = record {
  id = s.id;
  kind = s.kind;
  reason = s.reason;
  class = s.class;
  frontier_ordinal = s.frontier_ordinal;
}

count_in : Selected → Tally → Tally
unfolding increment
count_in s t = record t {
  included = t.included ++ item_reason s ∷ [];
  included_counts = increment s.reason t.included_counts;
}

count_out : Selected → Tally → Tally
unfolding increment
count_out s t = record t {
  excluded =
      if ltb (length t.excluded) max_excluded then t.excluded ++ item_reason s ∷ [] else t.excluded;
  excluded_counts = increment s.reason t.excluded_counts;
}

-- the end of the loop's body
unfoldable pub tally : Selected → Tally → Tally
unfolding count_in count_out
tally s t = if s.include then count_in s t else count_out s t

unfoldable pub walk : ℤ → List Selected → Tally → List Candidate → List Selected × Tally
unfolding classify tally
walk latest out t [] = (out, t)
walk latest out t (c ∷ cs) = let s = classify latest c in walk latest (out ++ s ∷ []) (tally s t) cs

count_less : ReasonCount → ReasonCount → Bool
unfolding lt_str
count_less a b =
    if nat_eq a.count b.count
    then lt_str (reason_text a.reason) (reason_text b.reason)
    else ltb b.count a.count

unfoldable pub dominant_reasons : List ReasonCount → List ReasonCount
unfolding sort_by count_less keep
dominant_reasons counts = sort_by count_less (keep (λ c. ltb 0 c.count) counts)

pub record Explanation : Type 0 where
  pub included : List ItemReason
  pub excluded : List ItemReason
  pub dominant_inclusion_reasons : List ReasonCount
  pub dominant_exclusion_reasons : List ReasonCount
  pub budget_pressure : Bool

-- `candidates[len(candidates)-1].FrontierOrdinal`
unfoldable pub latest_ordinal : List Candidate → ℤ
latest_ordinal [] = pos 0
latest_ordinal (c ∷ []) = c.frontier_ordinal
latest_ordinal (c ∷ d ∷ cs) = latest_ordinal (d ∷ cs)

abbrev pub explain : Tally → Explanation
explain t = record {
  included = t.included;
  excluded = t.excluded;
  dominant_inclusion_reasons = dominant_reasons t.included_counts;
  dominant_exclusion_reasons = dominant_reasons t.excluded_counts;
  budget_pressure = false;
}

unfoldable pub select_with_explanation : List Candidate → List Selected × Explanation
unfolding walk dominant_reasons latest_ordinal
select_with_explanation [] = ([], explain no_tally)
select_with_explanation (c ∷ cs) =
    let (out, t) = walk (latest_ordinal (c ∷ cs)) [] no_tally (c ∷ cs) in (out, explain t)

-- `Select`
unfoldable pub select : List Candidate → List Selected
unfolding select_with_explanation
select cs = (select_with_explanation cs).0
