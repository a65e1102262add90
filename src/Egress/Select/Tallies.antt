-- ===== src/Egress/Select/Tallies.antt =====
-- The explanation accounts for the selection.
use mathlib.Core.List.{append-nil, append_assoc, map-append}
use pancakes_harness.Prelude.{
  ℕ, zero, suc, ◌+◌, ◌≡◌, refl, sym, ◌∙◌, ap, Bool, true, false, not, List, [], ◌∷◌, ◌++◌, map,
  arith, ltb, if◌then◌else◌, length, length-append, keep, take, Bool-cases, inl, inr,
}
use pancakes_harness.Prelude.Int.{ℤ}
use pancakes_harness.Sort.{insert_sorted, sort_by}
use pancakes_harness.Egress.Classify.{Candidate, Selected, ReasonCode, classify}
use pancakes_harness.Egress.Select.{
  ItemReason, ReasonCount, Tally, no_tally, increment, item_reason, count_in, count_out, tally,
  walk, dominant_reasons, count_less, Explanation, latest_ordinal, explain, select_with_explanation,
}

abbrev pub total : List ReasonCount → ℕ
total [] = 0
total (c ∷ cs) = c.count + total cs

total-increment : (r : ReasonCode) (cs : List ReasonCount) → total (increment r cs) ≡ total cs + 1
unfolding increment
total-increment r [] = omega arith
total-increment r (c ∷ cs) = ground (arith, total-increment r cs)

-- the selections that are left out
abbrev pub left_out : List Selected → List Selected
left_out = keep (λ s. not s.include)

abbrev pub taken_in : List Selected → List Selected
taken_in = keep (λ s. s.include)

-- What a tally says of the selections so far.
pub record Accounts (out : List Selected) (t : Tally) : Type 0 where
  pub included : t.included ≡ map item_reason (taken_in out)
  pub excluded : t.excluded ≡ take 8 (map item_reason (left_out out))
  pub inclusions : total t.included_counts ≡ length (taken_in out)
  pub exclusions : total t.excluded_counts ≡ length (left_out out)

keep-append :
    (p : Selected → Bool) (xs : List Selected) (s : Selected)
    → keep p (xs ++ s ∷ []) ≡ keep p xs ++ (if p s then s ∷ [] else [])
unfolding keep
keep-append p [] s = refl
keep-append p (x ∷ xs) s = ground (arith, keep-append p xs s)

take-nil : {A : Type 0} (n : ℕ) → take n (◌++◌ {A = A} [] []) ≡ []
unfolding take
take-nil zero = refl
take-nil (suc n) = refl

ltb-suc : (a b : ℕ) → ltb (suc a) (suc b) ≡ ltb a b
ltb-suc a b = ground arith

if-cons :
    {A : Type 0} (b : Bool) (y : A) (xs ys : List A)
    → y ∷ (if b then xs else ys) ≡ (if b then y ∷ xs else y ∷ ys)
if-cons true y xs ys = refl
if-cons false y xs ys = refl

take-append_one :
    {A : Type 0} (n : ℕ) (xs : List A) (x : A)
    → take n (xs ++ x ∷ [])
      ≡ (if ltb (length (take n xs)) n then take n xs ++ x ∷ [] else take n xs)
unfolding take
take-append_one zero [] x = refl
take-append_one zero (y ∷ xs) x = refl
take-append_one (suc n) [] x = ap (λ r. x ∷ r) (take-nil n) ∙ if_positive n
  where
    if_positive : (n : ℕ) → x ∷ [] ≡ (if ltb 0 (suc n) then x ∷ [] else [])
    if_positive n = let p : ltb 0 (suc n) ≡ true = ground arith in rw p
take-append_one (suc n) (y ∷ xs) x =
    rw (take-append_one n xs x, ltb-suc (length (take n xs)) n)
      (if-cons (ltb (length (take n xs)) n) y (take n xs ++ x ∷ []) (take n xs))

length-map : (f : Selected → ItemReason) (xs : List Selected) → length (map f xs) ≡ length xs
length-map f [] = refl
length-map f (x ∷ xs) = ap suc (length-map f xs)

module _ (p : Selected → Bool) (xs : List Selected) (s : Selected) where
  keep-append_true : p s ≡ true → keep p (xs ++ s ∷ []) ≡ keep p xs ++ s ∷ []
  keep-append_true h = rw (keep-append p xs s, h)

  keep-append_false : p s ≡ false → keep p (xs ++ s ∷ []) ≡ keep p xs
  keep-append_false h = rw (keep-append p xs s, h, append-nil)

Accounts-count_in :
    (out : List Selected) (t : Tally) (s : Selected)
    → s.include ≡ true
    → Accounts out t
    → Accounts (out ++ s ∷ []) (count_in s t)
unfolding count_in
Accounts-count_in out t s h a =
    let taken = keep-append_true (λ s. s.include) out s h in
    let others = keep-append_false (λ s. not s.include) out s (ap not h) in
    record {
      included =
          rw (taken, map-append item_reason (taken_in out) (s ∷ []))
            (ap (λ l. l ++ item_reason s ∷ []) a.included);
      excluded = rw others a.excluded;
      inclusions = omega (
        arith,
        total-increment s.reason t.included_counts,
        a.inclusions,
        ap length taken,
        length-append (taken_in out) (s ∷ []),
      );
      exclusions = rw others a.exclusions;
    }

Accounts-count_out :
    (out : List Selected) (t : Tally) (s : Selected)
    → s.include ≡ false
    → Accounts out t
    → Accounts (out ++ s ∷ []) (count_out s t)
unfolding count_out
Accounts-count_out out t s h a =
    let taken = keep-append_false (λ s. s.include) out s h in
    let others = keep-append_true (λ s. not s.include) out s (ap not h) in
    record {
      included = rw taken a.included;
      excluded = rw (
        others,
        map-append item_reason (left_out out) (s ∷ []),
        a.excluded,
        take-append_one 8 (map item_reason (left_out out)) (item_reason s),
      );
      inclusions = rw taken a.inclusions;
      exclusions = omega (
        arith,
        total-increment s.reason t.excluded_counts,
        a.exclusions,
        ap length others,
        length-append (left_out out) (s ∷ []),
      );
    }

Accounts-tally :
    (out : List Selected) (t : Tally) (s : Selected)
    → Accounts out t
    → Accounts (out ++ s ∷ []) (tally s t)
unfolding tally
Accounts-tally out t s a = elim (Bool-cases s.include) [
  | inl included ↦ simp included (Accounts-count_in out t s included a)
  | inr excluded ↦ simp excluded (Accounts-count_out out t s excluded a)
]

Accounts-walk :
    (latest : ℤ) (out : List Selected) (t : Tally) (cs : List Candidate)
    → Accounts out t
    → Accounts (walk latest out t cs).0 (walk latest out t cs).1
unfolding walk
Accounts-walk latest out t [] a = a
Accounts-walk latest out t (c ∷ cs) a =
    Accounts-walk latest (out ++ classify latest c ∷ []) (tally (classify latest c) t) cs
      (Accounts-tally out t (classify latest c) a)

walk-map :
    (latest : ℤ) (out : List Selected) (t : Tally) (cs : List Candidate)
    → (walk latest out t cs).0 ≡ out ++ map (classify latest) cs
unfolding walk
walk-map latest out t [] = sym (append-nil out)
walk-map latest out t (c ∷ cs) =
    walk-map latest (out ++ classify latest c ∷ []) (tally (classify latest c) t) cs
    ∙ append_assoc out (classify latest c ∷ []) (map (classify latest) cs)

-- Every candidate is selected on, in order, by the ordinal of the last.
pub select-map :
    (cs : List Candidate) → (select_with_explanation cs).0 ≡ map (classify (latest_ordinal cs)) cs
unfolding select_with_explanation
select-map [] = refl
select-map (c ∷ cs) = walk-map (latest_ordinal (c ∷ cs)) [] no_tally (c ∷ cs)

-- Sorting the counts keeps their sum.
total-insert_sorted :
    (x : ReasonCount) (cs : List ReasonCount)
    → total (insert_sorted count_less x cs) ≡ x.count + total cs
unfolding sort_by
total-insert_sorted x [] = refl
total-insert_sorted x (c ∷ cs) = ground (arith, total-insert_sorted x cs)

total-sort_by : (cs : List ReasonCount) → total (sort_by count_less cs) ≡ total cs
unfolding sort_by
total-sort_by [] = refl
total-sort_by (c ∷ cs) =
    omega (arith, total-insert_sorted c (sort_by count_less cs), total-sort_by cs)

total-keep : (cs : List ReasonCount) → total (keep (λ c. ltb 0 c.count) cs) ≡ total cs
unfolding keep
total-keep [] = refl
total-keep (c ∷ cs) = ground (arith, total-keep cs)

total-dominant_reasons : (cs : List ReasonCount) → total (dominant_reasons cs) ≡ total cs
unfolding dominant_reasons
total-dominant_reasons cs = total-sort_by (keep (λ c. ltb 0 c.count) cs) ∙ total-keep cs

-- What an explanation says of a selection.
pub record Explains (e : Explanation) (out : List Selected) : Type 0 where
  pub included : e.included ≡ map item_reason (taken_in out)
  pub excluded : e.excluded ≡ take 8 (map item_reason (left_out out))
  pub inclusions : total e.dominant_inclusion_reasons ≡ length (taken_in out)
  pub exclusions : total e.dominant_exclusion_reasons ≡ length (left_out out)

Explains-explain : (out : List Selected) (t : Tally) → Accounts out t → Explains (explain t) out
Explains-explain out t a = record {
  included = a.included;
  excluded = a.excluded;
  inclusions = total-dominant_reasons t.included_counts ∙ a.inclusions;
  exclusions = total-dominant_reasons t.excluded_counts ∙ a.exclusions;
}

Accounts-none : Accounts [] no_tally
unfolding take keep
Accounts-none = record { included = refl; excluded = refl; inclusions = refl; exclusions = refl }

-- The explanation of a selection lists every included item in order and the first eight of those
-- left out, and the counts by reason add up to the numbers of both, the ones not listed included.
pub explanation_accounts :
    (cs : List Candidate) → Explains (select_with_explanation cs).1 (select_with_explanation cs).0
unfolding select_with_explanation
explanation_accounts [] = Explains-explain [] no_tally Accounts-none
explanation_accounts (c ∷ cs) =
    Explains-explain _ _
      (Accounts-walk (latest_ordinal (c ∷ cs)) [] no_tally (c ∷ cs) Accounts-none)
