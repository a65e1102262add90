-- ===== src/Tooling/Gate/Arguments.antt =====
-- The rules of the gate on the arguments of a call: the keys are the inputs, the texts stand in the
-- request.
use pancakes_harness.Prelude.{
  ◌≡◌, refl, ap, ◌∙◌, sym, ◌↔◌, true, false, none, some, List, [], ◌∷◌, arith, All, Bool-cases, inl,
  inr,
}
use pancakes_harness.Bytes.{Str, codes, ◌==◌, contains, eq_iff, eq_self}
use pancakes_harness.Eventlog.Event.{Value, Fields, end, field, get_field}
use pancakes_harness.Replay.Graph.{read_meta_string}
use pancakes_harness.Tooling.Paths.{is_in}
use pancakes_harness.Tooling.Gate.{undeclared, missing, key_mismatch, ungrounded}

-- every argument is a declared input
abbrev pub Declares : List Str → Fields → Type 0
Declares declared args = (k : Str) (v : Value) → get_field k args ≡ some v → is_in declared k ≡ true

undeclared-Declares :
    (declared : List Str) (args : Fields)
    → (undeclared declared args ≡ codes "") ↔ Declares declared args
unfolding undeclared get_field ◌==◌
undeclared-Declares declared end = (λ h k v e. absurd (ground arith), λ h. refl)
undeclared-Declares declared (field j v m) = elim (Bool-cases (is_in declared j)) [
  | inl known ↦ (
    λ h k w e. elim (Bool-cases (j == k)) [
      | inl same ↦ ap (is_in declared) (sym ((eq_iff j k).0 same)) ∙ known
      | inr other ↦ (undeclared-Declares declared m).0 (rw known at h) k w (rw other at e)
    ],
    λ h. rw known (
        (undeclared-Declares declared m).1 (λ k w e. elim (Bool-cases (j == k)) [
          | inl same ↦ ap (is_in declared) (sym ((eq_iff j k).0 same)) ∙ known
          | inr other ↦ h k w (rw other e)
        ])),
  )
  | inr unknown ↦ (
    λ h. absurd (ground arith),
    λ h. absurd (let e = h j v (rw (eq_self j) refl) in ground arith),
  )
]

-- the text of an argument is not empty
abbrev pub IsGiven : Fields → Str → Type 0
IsGiven args k = (read_meta_string args k == codes "") ≡ false

missing-IsGiven :
    (declared : List Str) (args : Fields)
    → (missing declared args ≡ codes "") ↔ All (IsGiven args) declared
unfolding missing
missing-IsGiven [] args = (λ h. tt, λ h. refl)
missing-IsGiven (k ∷ ks) args = elim (Bool-cases (read_meta_string args k == codes "")) [
  | inl blank ↦ (λ h. absurd (ground arith), λ (h, _). absurd (ground arith))
  | inr given ↦ (
    λ h. (given, (missing-IsGiven ks args).0 (rw given at h)),
    λ (_, h). rw given ((missing-IsGiven ks args).1 h),
  )
]

-- the text of an argument stands in the request
abbrev pub IsGrounded : Str → Fields → Str → Type 0
IsGrounded query args k = contains query (read_meta_string args k) ≡ true

pub ungrounded-IsGrounded :
    (query : Str) (declared : List Str) (args : Fields)
    → (ungrounded query declared args ≡ none) ↔ All (IsGrounded query args) declared
unfolding ungrounded
ungrounded-IsGrounded query [] args = (λ h. tt, λ h. refl)
ungrounded-IsGrounded query (k ∷ ks) args =
    elim (Bool-cases (contains query (read_meta_string args k))) [
      | inl there ↦ (
        λ h. (there, (ungrounded-IsGrounded query ks args).0 (rw there at h)),
        λ (_, h). rw there ((ungrounded-IsGrounded query ks args).1 h),
      )
      | inr not_there ↦ (λ h. absurd (ground arith), λ (h, _). absurd (ground arith))
    ]

pub key_mismatch_iff :
    (declared : List Str) (args : Fields)
    → (key_mismatch declared args ≡ codes "")
      ↔ (Declares declared args × All (IsGiven args) declared)
unfolding key_mismatch ◌==◌
key_mismatch_iff declared args = elim (Bool-cases (undeclared declared args == codes "")) [
  | inl none_undeclared ↦
      let e = (eq_iff (undeclared declared args) (codes "")).0 none_undeclared in
      (
        λ h. (
          (undeclared-Declares declared args).0 e,
          (missing-IsGiven declared args).0 (rw none_undeclared at h),
        ),
        λ (_, h). rw none_undeclared ((missing-IsGiven declared args).1 h),
      )
  | inr some_undeclared ↦ (
    λ h. absurd (
        let e : undeclared declared args ≡ codes "" = (rw some_undeclared at h) in
        let f = (eq_iff (undeclared declared args) (codes "")).1 e in ground arith),
    λ (h, _). absurd (
        let f =
          (eq_iff (undeclared declared args) (codes "")).1
            ((undeclared-Declares declared args).1 h) in
        ground arith),
  )
]
