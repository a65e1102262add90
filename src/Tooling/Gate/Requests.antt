-- ===== src/Tooling/Gate/Requests.antt =====
-- Which requests the gate's tools can act on.
use pancakes_harness.Prelude.{
  ◌≡◌, ◌≢◌, refl, ◌↔◌, ◌⊎◌, ◌≤◌, true, false, none, some, List, [], ◌∷◌, arith, Bool-cases,
  Option-cases, inl, inr, length, leb,
}
use pancakes_harness.Bytes.{Str, codes, ◌==◌, eq_iff, eq_apart, trim_space, fields}
use pancakes_harness.Tooling.Paths.{PathIndex, dir}
use pancakes_harness.Tooling.Gate.{Gate}
use pancakes_harness.Tooling.Gate.Support.{
  quoted_spans, any_span, names_path, any_path, trim_marks, fits,
}

-- one of the elements has the property
abbrev pub Any : {A : Type 0} → (A → Type 0) → List A → Type 0
Any P [] = ⊥
Any P (x ∷ xs) = P x ⊎ Any P xs

-- a quoted text of two bytes at least, without the space around it
abbrev pub IsQuote : Str → Type 0
IsQuote span = 2 ≤ length (trim_space span)

-- a word that is a file or a directory, or stands in a directory that is named with it
abbrev pub IsPath : PathIndex → Str → Type 0
IsPath i token =
    (token ≢ codes "")
    × ((i.has_path token ≡ true)
        ⊎ (i.has_dir token ≡ true)
        ⊎ ((dir token ≢ codes ".") × (i.has_dir (dir token) ≡ true)))

-- The request quotes a text, the gate has no index, or a word of the request, without the marks around
-- it, is a path of the index.
abbrev pub IsSupported : Gate → Str → Type 0
IsSupported g query =
    Any IsQuote (quoted_spans query)
    ⊎ (g.index ≡ none)
    ⊎ ((i : PathIndex) × (g.index ≡ some i) × Any (λ t. IsPath i (trim_marks t)) (fields query))

any_span_iff : (spans : List Str) → (any_span spans ≡ true) ↔ Any IsQuote spans
unfolding any_span
any_span_iff [] = (λ h. absurd (ground arith), λ h. absurd h)
any_span_iff (s ∷ ss) =
    let rest = any_span_iff ss in
    elim (Bool-cases (leb 2 (length (trim_space s)))) [
      | inl long ↦ (λ h. inl (ground arith), λ h. rw long refl)
      | inr short ↦ (
        λ h. inr (rest.0 (rw short at h)),
        λ h. elim h [ inl l ↦ absurd (ground arith) | inr r ↦ rw short (rest.1 r) ],
      )
    ]

is_other : (s t : Str) → s ≢ t → (s == t) ≡ false
is_other s t differ = elim (Bool-cases (s == t)) [
  | inl same ↦ absurd (differ ((eq_iff s t).0 same))
  | inr other ↦ other
]

names_path_iff : (i : PathIndex) (token : Str) → (names_path i token ≡ true) ↔ IsPath i token
unfolding names_path
names_path_iff i token = (
  λ h. elim (Bool-cases (token == codes "")) [
    | inl empty ↦ absurd (ground arith)
    | inr there ↦ (
      eq_apart token (codes "") there,
      elim (Bool-cases (i.has_path token)) [
        | inl path ↦ inl path
        | inr no_path ↦ elim (Bool-cases (i.has_dir token)) [
          | inl is_dir ↦ inr (inl is_dir)
          | inr no_dir ↦ inr (inr (eq_apart (dir token) (codes ".") (ground arith), ground arith))
        ]
      ],
    )
  ],
  λ (there, names).
      let e = is_other token (codes "") there in
      elim names [
        | inl path ↦ ground arith
        | inr (inl is_dir) ↦ ground arith
        | inr (inr (differ, inside)) ↦
            let f = is_other (dir token) (codes ".") differ in ground arith
      ],
)

any_path_iff :
    (i : PathIndex) (tokens : List Str)
    → (any_path i tokens ≡ true) ↔ Any (λ t. IsPath i (trim_marks t)) tokens
unfolding any_path
any_path_iff i [] = (λ h. absurd (ground arith), λ h. absurd h)
any_path_iff i (t ∷ ts) =
    let rest = any_path_iff i ts in
    let here = names_path_iff i (trim_marks t) in
    elim (Bool-cases (names_path i (trim_marks t))) [
      | inl yes_here ↦ (λ h. inl (here.0 yes_here), λ h. rw yes_here refl)
      | inr not_here ↦ (
        λ h. inr (rest.0 (rw not_here at h)),
        λ h. elim h [
          | inl p ↦ absurd (let e = here.1 p in ground arith)
          | inr r ↦ rw not_here (rest.1 r)
        ],
      )
    ]

pub fits_iff : (g : Gate) (query : Str) → (fits g query ≡ true) ↔ IsSupported g query
unfolding fits
fits_iff g query =
    let quotes = any_span_iff (quoted_spans query) in
    elim (Bool-cases (any_span (quoted_spans query))) [
      | inl q ↦ (λ h. inl (quotes.0 q), λ h. rw (fits, q) refl)
      | inr no_quote ↦ elim (Option-cases g.index) [
        | inl n ↦ (λ h. inr (inl n), λ h. rw (fits, no_quote, n) refl)
        | inr (i, n) ↦
            let paths = any_path_iff i (fields query) in
            (
              λ h. inr (inr (i, n, paths.0 (rw (fits, no_quote, n) at h))),
              λ h. elim h [
                | inl q ↦ absurd (let e = quotes.1 q in ground arith)
                | inr (inl n') ↦ absurd (ground arith)
                | inr (inr (j, n', p)) ↦
                    let e = (any_path_iff j (fields query)).1 p in rw (fits, no_quote, n') e
              ],
            )
      ]
    ]
