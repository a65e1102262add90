-- ===== src/Consult/Generate/Outcomes.antt =====
-- Which inputs give a manifest, and what a manifest says of its size.
use mathlib.Core.Path.{subst}
use pancakes_harness.Prelude.{
  ◌≡◌, ◌≢◌, ◌↔◌, ◌⊎◌, refl, ◌∙◌, ap, Bool, true, false, ◌&&◌, ◌||◌, Option, none, some, List, [],
  ◌∷◌, arith, Bool-cases, Option-cases, inl, inr, All,
}
use pancakes_harness.Prelude.Int.{pos, is_negative}
use pancakes_harness.Prelude.Result.{Result, ok, err, ◌>>=◌, bind_ok, ok_injective}
use pancakes_harness.Bytes.{Str}
use pancakes_harness.Sort.{sort_by}
use pancakes_harness.Consult.{SelectionExplanation, Manifest}
use pancakes_harness.Preflight.{normalize_constraints}
use pancakes_harness.Preflight.Outcomes.{
  KeyFilled, trim_constraints-some, trim_constraints-KeyFilled,
}
use pancakes_harness.Consult.Generate.{
  draft, sorted, trim_selection_item, selection_item_less, trim_count, count_less, trim_item,
  item_less, Input, ConsultError, is_blank, each, bad_item, bad_selection_item, bad_count,
  normalize_selected_items, normalize_selection_items, normalize_reason_counts, or_malformed,
  normalize_selection, less_int, measured_bytes, with_size, within_budget, generate,
}

-- An entry that the loop does not give up at.
abbrev pub IsGood : {A : Type 0} → (A → Bool) → A → Type 0
IsGood bad x = bad x ≡ false

each-some :
    {A : Type 0} (bad : A → Bool) (trim : A → A) (xs : List A)
    → All (IsGood bad) xs
    → (out : List A) × (each bad trim xs ≡ some out)
unfolding each
each-some bad trim [] h = ([], refl)
each-some bad trim (x ∷ xs) (g, h) =
    let (out, e) = each-some bad trim xs h in (trim x ∷ out, rw (g, e))

each_cons :
    {A : Type 0} (bad : A → Bool) (trim : A → A) (x : A) (xs out : List A)
    → each bad trim (x ∷ xs) ≡ some out
    → IsGood bad x × (each bad trim xs ≢ none)
unfolding each
each_cons bad trim x xs out h = (ground arith, λ e. ground arith)

each-IsGood :
    {A : Type 0} (bad : A → Bool) (trim : A → A) (xs out : List A)
    → each bad trim xs ≡ some out
    → All (IsGood bad) xs
each-IsGood bad trim [] out h = tt
each-IsGood bad trim (x ∷ xs) out h =
    let (good, there) = each_cons bad trim x xs out h in
    elim (Option-cases (each bad trim xs)) [
      | inl e ↦ absurd (there e)
      | inr (out', e) ↦ (good, each-IsGood bad trim xs out' e)
    ]

-- An explanation whose items and counts are all good, or none.
abbrev pub IsGoodSelection : Option SelectionExplanation → Type 0
IsGoodSelection none = Unit
IsGoodSelection (some s) =
    All (IsGood bad_selection_item) s.included
    × All (IsGood bad_selection_item) s.excluded
    × All (IsGood bad_count) s.dominant_inclusion_reasons
    × All (IsGood bad_count) s.dominant_exclusion_reasons

-- What `Generate` asks of its input.
abbrev pub IsWellFormed : Input → Type 0
IsWellFormed i =
    ((is_blank i.session_id || is_blank i.branch_id || is_blank i.fingerprint || is_blank i.mode)
      ≡ false)
    × (is_negative i.byte_budget ≡ false)
    × All KeyFilled i.constraints
    × All (IsGood bad_item) i.selected_items
    × IsGoodSelection i.selection

abbrev pub Succeeds : {A : Type 0} → Result ConsultError A → Type 0
Succeeds {A = A} r = (a : A) × (r ≡ ok a)

bind_some :
    {A B : Type 0} (o : Option A) (f : A → Result ConsultError B) {x : A}
    → o ≡ some x
    → Succeeds (f x)
    → Succeeds (or_malformed o >>= f)
bind_some o f e (b, h) = (b, ap (λ o. or_malformed o >>= f) e ∙ h)

bind-Succeeds :
    {A B : Type 0} (r : Result ConsultError A) (f : A → Result ConsultError B) {x : A}
    → r ≡ ok x
    → Succeeds (f x)
    → Succeeds (r >>= f)
bind-Succeeds r f e (b, h) = (b, ap (λ r. r >>= f) e ∙ h)

or_malformed-ok : {A : Type 0} (o : Option A) {x : A} → or_malformed o ≡ ok x → o ≡ some x
or_malformed-ok none h = cc
or_malformed-ok (some y) h = ap some (ok_injective h)

sorted-some :
    {A : Type 0} (less : A → A → Bool) (o : Option (List A)) {out : List A}
    → sorted less o ≡ some out
    → (xs : List A) × (o ≡ some xs)
sorted-some less none h = cc
sorted-some less (some xs) h = (xs, refl)

-- A loop that is sorted afterwards succeeds on good entries, and on no others.
normalized-some :
    {A : Type 0} (bad : A → Bool) (trim : A → A) (less : A → A → Bool) (xs : List A)
    → All (IsGood bad) xs
    → (out : List A) × (sorted less (each bad trim xs) ≡ some out)
normalized-some bad trim less xs h =
    let (out, e) = each-some bad trim xs h in (sort_by less out, ap (sorted less) e)

normalized-IsGood :
    {A : Type 0} (bad : A → Bool) (trim : A → A) (less : A → A → Bool) (xs : List A) {out : List A}
    → or_malformed (sorted less (each bad trim xs)) ≡ ok out
    → All (IsGood bad) xs
normalized-IsGood bad trim less xs h =
    let (ys, e) = sorted-some less (each bad trim xs) (or_malformed-ok _ h) in
    each-IsGood bad trim xs ys e

normalize_selection-ok :
    (s : Option SelectionExplanation) → IsGoodSelection s → Succeeds (normalize_selection s)
unfolding normalize_selection normalize_selection_items normalize_reason_counts
normalize_selection-ok none h = (none, refl)
normalize_selection-ok (some s) (a, b, c, d) =
    let items = normalized-some bad_selection_item trim_selection_item selection_item_less in
    let counts = normalized-some bad_count trim_count count_less in
    bind_some _ _ (items s.included a).1 (
      bind_some _ _ (items s.excluded b).1 (
        bind_some _ _ (counts s.dominant_inclusion_reasons c).1
          (bind_some _ _ (counts s.dominant_exclusion_reasons d).1 (_, refl))))

normalize_selection-IsGood :
    (s out : Option SelectionExplanation) → normalize_selection s ≡ ok out → IsGoodSelection s
unfolding normalize_selection normalize_selection_items normalize_reason_counts
normalize_selection-IsGood none out h = tt
normalize_selection-IsGood (some s) out h =
    let (_, a, h1) = bind_ok _ _ h in
    let (_, b, h2) = bind_ok _ _ h1 in
    let (_, c, h3) = bind_ok _ _ h2 in
    let (_, d, h4) = bind_ok _ _ h3 in
    (
      normalized-IsGood bad_selection_item trim_selection_item selection_item_less s.included a,
      normalized-IsGood bad_selection_item trim_selection_item selection_item_less s.excluded b,
      normalized-IsGood bad_count trim_count count_less s.dominant_inclusion_reasons c,
      normalized-IsGood bad_count trim_count count_less s.dominant_exclusion_reasons d,
    )

module _ (encode : Manifest → Str) where
  -- A manifest at most as long as its budget, if it has one, or marked as compacted.
  abbrev pub IsMarked : Manifest → Type 0
  IsMarked m =
      ((less_int (pos 0) m.byte_budget && less_int m.byte_budget m.actual_bytes) ≡ false)
      ⊎ (m.compacted ≡ true)

  within_budget-IsMarked : (m : Manifest) → IsMarked (within_budget encode m)
  unfolding within_budget
  within_budget-IsMarked m =
      elim (Bool-cases (less_int (pos 0) m.byte_budget && less_int m.byte_budget m.actual_bytes)) [
        | inl over ↦ rw over (inr refl)
        | inr within ↦ rw within (inl within)
      ]

  within_budget-sized :
      (m : Manifest)
      → (within_budget encode (with_size encode m)).actual_bytes
        ≡ measured_bytes encode (within_budget encode (with_size encode m))
  unfolding within_budget measured_bytes
  within_budget-sized m =
      elim (Bool-cases
        (less_int (pos 0) m.byte_budget && less_int m.byte_budget (measured_bytes encode m))) [
          | inl over ↦ rw over refl
          | inr within ↦ rw within refl
        ]

  -- What a manifest has been made from.
  generate-parts :
      (i : Input) (m : Manifest)
      → generate encode i ≡ ok m
      → IsWellFormed i × ((x : Manifest) × (within_budget encode (with_size encode x) ≡ m))
  unfolding generate normalize_selected_items normalize_constraints
  generate-parts i m h =
      elim (Bool-cases (
        is_blank i.session_id
        || is_blank i.branch_id
        || is_blank i.fingerprint
        || is_blank i.mode)) [
          | inl blank ↦ absurd (fails (rw blank at h))
          | inr filled ↦ elim (Bool-cases (is_negative i.byte_budget)) [
            | inl negative ↦ absurd (fails (rw (filled, negative) at h))
            | inr budget ↦
                let (c, ec, h1) = bind_ok _ _ (rw (filled, budget) at h) in
                let (items, ei, h2) = bind_ok _ _ h1 in
                let (selection, es, h3) = bind_ok _ _ h2 in
                (
                  (
                    filled,
                    budget,
                    trim_constraints-KeyFilled [] i.constraints c (or_malformed-ok _ ec),
                    normalized-IsGood bad_item trim_item item_less i.selected_items ei,
                    normalize_selection-IsGood i.selection selection es,
                  ),
                  (draft i c items selection, ok_injective h3),
                )
          ]
        ]
    where
      fails : {e : ConsultError} → ◌≡◌ {A = Result ConsultError Manifest} (err e) (ok m) → ⊥
      fails h = cc

  -- `Generate` gives a manifest exactly for the inputs whose session, branch, fingerprint and mode
  -- are more than space, whose budget is not negative, whose constraint keys are more than space,
  -- whose items have an id, a kind and a size that is not negative, and whose explanation, if any,
  -- has items with an id, a kind and a reason, and positive counts with a reason.
  pub generate_iff : (i : Input) → Succeeds (generate encode i) ↔ IsWellFormed i
  unfolding generate normalize_selected_items normalize_constraints
  generate_iff i = (λ (m, h). (generate-parts i m h).0, gives)
    where
      gives : IsWellFormed i → Succeeds (generate encode i)
      gives (filled, budget, keys, items, selection) =
          rw (filled, budget)
            (bind_some _ _ (trim_constraints-some [] i.constraints keys).1 (
              bind_some _ _ (normalized-some bad_item trim_item item_less i.selected_items items).1
                (bind-Succeeds _ _ (normalize_selection-ok i.selection selection).1 (_, refl))))

  -- A generated manifest states the size that measuring it gives, and is within its budget, if it has
  -- one, or marked as compacted.
  pub generate-IsMarked :
      (i : Input) (m : Manifest)
      → generate encode i ≡ ok m
      → (m.actual_bytes ≡ measured_bytes encode m) × IsMarked m
  generate-IsMarked i m h =
      let (x, e) = (generate-parts i m h).1 in
      subst (λ m. (m.actual_bytes ≡ measured_bytes encode m) × IsMarked m) e
        (within_budget-sized x, within_budget-IsMarked (with_size encode x))
