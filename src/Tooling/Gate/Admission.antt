-- ===== src/Tooling/Gate/Admission.antt =====
-- Which calls the gate admits, and what it records of a decision.
use pancakes_harness.Prelude.{
  ℕ, ◌≡◌, refl, ap, ◌∙◌, sym, ◌↔◌, Bool, true, false, ◌||◌, some, List, ◌∷◌, arith, if◌then◌else◌,
  All, Bool-cases, Option-cases, inl, inr,
}
use pancakes_harness.Bytes.{Str, codes, ◌==◌, eq_iff}
use pancakes_harness.Dict.{lookup}
use pancakes_harness.Replay.Graph.{read_meta_string}
use pancakes_harness.Tooling.Paths.{PathIndex}
use pancakes_harness.Tooling.Gate.{
  accept, Call, Gate, path_arg, key_mismatch, ungrounded, parent_of, resolve_in, resolve,
}
use pancakes_harness.Tooling.Gate.Checks.{check_resolution, check_declared, check}
use pancakes_harness.Tooling.Gate.Arguments.{
  Declares, IsGiven, IsGrounded, ungrounded-IsGrounded, key_mismatch_iff,
}

-- What a path argument names: a file to read, a directory to write into, a directory or a file to
-- search.
abbrev pub Names : PathIndex → Str → Str → Type 0
Names i name value =
    (name ≡ codes "read" → i.has_path value ≡ true)
    × (name ≡ codes "write" → i.has_dir (parent_of value) ≡ true)
    × (name ≡ codes "glob" → (i.has_dir (parent_of value) || i.has_path value) ≡ true)

only : (name s t : Str) → (name == s) ≡ true → name ≡ t → (t == s) ≡ true
only name s t h e = ap (λ n. n == s) (sym e) ∙ h

is_not : (name s : Str) → (name == s) ≡ false → name ≡ s → ⊥
is_not name s h e = let k = (eq_iff name s).1 e in ground arith

empty_if : (b : Bool) (a : ℕ) (d : Str) → ((if b then codes "" else a ∷ d) ≡ codes "") ↔ (b ≡ true)
empty_if true a d = (λ h. refl, λ h. refl)
empty_if false a d = (λ h. absurd (ground arith), λ h. absurd (ground arith))

resolve_in-Names :
    (i : PathIndex) (name value : Str) → (resolve_in i name value ≡ codes "") ↔ Names i name value
unfolding resolve_in ◌==◌
resolve_in-Names i name value =
    let at_dir = i.has_dir (parent_of value) in
    elim (Bool-cases (name == codes "read")) [
      | inl r ↦
          let rule = empty_if (i.has_path value) b'n' _ in
          let e = (eq_iff name (codes "read")).0 r in
          (
            λ h. (
              λ _. rule.0 (rw r at h),
              λ w. absurd (let k = only name (codes "read") (codes "write") r w in ground arith),
              λ w. absurd (let k = only name (codes "read") (codes "glob") r w in ground arith),
            ),
            λ (h, _, _). rw r (rule.1 (h e)),
          )
      | inr r ↦ elim (Bool-cases (name == codes "write")) [
        | inl w ↦
            let rule = empty_if at_dir b'n' _ in
            let e = (eq_iff name (codes "write")).0 w in
            (
              λ h. (
                λ q. absurd (is_not name _ r q),
                λ _. rule.0 (rw (r, w) at h),
                λ q. absurd (let k = only name (codes "write") (codes "glob") w q in ground arith),
              ),
              λ (_, h, _). rw (r, w) (rule.1 (h e)),
            )
        | inr w ↦ elim (Bool-cases (name == codes "glob")) [
          | inl g ↦
              let rule = empty_if (at_dir || i.has_path value) b'n' _ in
              let e = (eq_iff name (codes "glob")).0 g in
              (
                λ h. (
                  λ q. absurd (is_not name _ r q),
                  λ q. absurd (is_not name _ w q),
                  λ _. rule.0 (rw (r, w, g) at h),
                ),
                λ (_, _, h). rw (r, w, g) (rule.1 (h e)),
              )
          | inr g ↦ (
            λ h. (
              λ q. absurd (is_not name _ r q),
              λ q. absurd (is_not name _ w q),
              λ q. absurd (is_not name _ g q),
            ),
            λ h. rw (r, w, g) refl,
          )
        ]
      ]
    ]

-- With an index, the path argument of the call names what the tool needs.
abbrev pub Resolves : Gate → Call → Type 0
Resolves g call =
    (i : PathIndex) (key : Str)
    → g.index ≡ some i
    → path_arg call.name ≡ some key
    → Names i call.name (read_meta_string call.args key)

resolve-Resolves : (g : Gate) (call : Call) → (resolve g call ≡ codes "") ↔ Resolves g call
unfolding resolve
resolve-Resolves g call =
    let rule = λ (i : PathIndex).
      λ (key : Str). resolve_in-Names i call.name (read_meta_string call.args key) in
    (
      λ h i key e k. (rule i key).0 (rw (resolve, k, e) at h),
      λ h. elim (Option-cases (path_arg call.name)) [
        | inl p ↦ rw (resolve, p) refl
        | inr (key, p) ↦ elim (Option-cases g.index) [
          | inl n ↦ rw (resolve, p, n) refl
          | inr (i, n) ↦ rw (resolve, p, n) ((rule i key).1 (h i key n p))
        ]
      ],
    )

-- The tool is known, the arguments are its inputs, each with a text from the request, and the path
-- argument, if the tool has one, names what the tool needs.
abbrev pub IsAdmissible : Gate → Str → Call → Type 0
IsAdmissible g query call =
    (declared : List Str) × (lookup call.name g.tools ≡ some declared)
    × Declares declared call.args
    × All (IsGiven call.args) declared
    × All (IsGrounded query call.args) declared
    × Resolves g call

module _ (quote : Str → Str) (g : Gate) (query : Str) (call : Call) where
  -- the verdict of the rules on the arguments
  resolution_iff : ((check_resolution quote g call).verdict ≡ accept) ↔ Resolves g call
  unfolding check_resolution
  resolution_iff = elim (Bool-cases (resolve g call == codes "")) [
    | inl fine ↦ (
      λ h. (resolve-Resolves g call).0 ((eq_iff (resolve g call) (codes "")).0 fine),
      λ h. rw fine refl,
    )
    | inr wrong ↦ (
      λ h. absurd (ground arith),
      λ h. absurd (is_not (resolve g call) _ wrong ((resolve-Resolves g call).1 h)),
    )
  ]

  declared_iff :
      (declared : List Str)
      → ((check_declared quote g query call declared).verdict ≡ accept) ↔ (
          Declares declared call.args
          × All (IsGiven call.args) declared
          × All (IsGrounded query call.args) declared
          × Resolves g call)
  unfolding check_declared ◌==◌
  declared_iff declared =
      let keys = key_mismatch_iff declared call.args in
      let values = ungrounded-IsGrounded query declared call.args in
      elim (Bool-cases (key_mismatch declared call.args == codes "")) [
        | inl fine ↦ elim (Option-cases (ungrounded query declared call.args)) [
          | inl n ↦ (
            λ h.
                let (names, texts) = keys.0 ((eq_iff _ (codes "")).0 fine) in
                (names, texts, values.0 n, resolution_iff.0 (rw (check_declared, fine, n) at h)),
            λ (_, _, _, named). rw (check_declared, fine, n) (resolution_iff.1 named),
          )
          | inr (k, n) ↦ (
            λ h. absurd (let e = (rw (check_declared, fine, n) at h) in ground arith),
            λ (_, _, copied, _). absurd (let e = values.1 copied in ground arith),
          )
        ]
        | inr wrong ↦ (
          λ h. absurd (let e = (rw (check_declared, wrong) at h) in ground arith),
          λ (names, texts, _, _). absurd (is_not _ _ wrong (keys.1 (names, texts))),
        )
      ]

  -- `Check` accepts exactly the calls of a known tool whose arguments are the tool's inputs, each with a
  -- text that stands in the request, and whose path argument, if the tool has one and the gate an index,
  -- names a file to read, a directory to write into, or a directory or a file to search.
  pub check_iff : ((check quote g query call).verdict ≡ accept) ↔ IsAdmissible g query call
  unfolding check
  check_iff = elim (Option-cases (lookup call.name g.tools)) [
    | inl unknown ↦ (
      λ h. absurd (let k = (rw (check, unknown) at h) in ground arith),
      λ (d, e, _, _, _, _). absurd (ground arith),
    )
    | inr (declared, e) ↦ (
      λ h.
          let (names, texts, copied, named) = (declared_iff declared).0 (rw (check, e) at h) in
          (declared, e, names, texts, copied, named),
      λ (d, e', names, texts, copied, named).
          rw (check, e') ((declared_iff d).1 (names, texts, copied, named)),
    )
  ]
