-- ===== src/Tooling/Gate/Support.antt =====
-- `Fits` of internal/tooling/gate.go: whether a request names anything that a tool can act on.
use mathlib.Core.List.{reverse}
use pancakes_harness.Prelude.{
  ℕ, Bool, true, false, ◌&&◌, ◌||◌, not, Option, none, some, List, [], ◌∷◌, nat_eq, leb,
  if◌then◌else◌, length,
}
use pancakes_harness.Bytes.{Str, codes, ◌==◌, trim_space, fields}
use pancakes_harness.Tooling.Paths.{dir, PathIndex}
use pancakes_harness.Tooling.Gate.{Gate}

-- `quotedSpans`: outside a span, or inside one whose text is kept in reverse
spans_from : Option Str → Str → List Str
spans_from opened [] = []
spans_from none (a ∷ s) =
    let inside = spans_from (some []) s in
    let outside = spans_from none s in if nat_eq a b'"' then inside else outside
spans_from (some span) (a ∷ s) =
    let closed = spans_from none s in
    let longer = spans_from (some (a ∷ span)) s in
    if nat_eq a b'"' then reverse span ∷ closed else longer

unfoldable pub quoted_spans : Str → List Str
unfolding spans_from
quoted_spans query = spans_from none query

unfoldable pub any_span : List Str → Bool
unfolding trim_space
any_span [] = false
any_span (span ∷ spans) = leb 2 (length (trim_space span)) || any_span spans

abbrev cutset : Str
cutset = b'"' ∷ codes "'`,;:()[]{}.?!"

is_cut : Str → ℕ → Bool
is_cut [] a = false
is_cut (b ∷ bs) a = nat_eq a b || is_cut bs a

trim_front : Str → Str
unfolding is_cut
trim_front [] = []
trim_front (a ∷ s) = let rest = trim_front s in if is_cut cutset a then rest else a ∷ s

-- strings.Trim of the marks around a word
unfoldable pub trim_marks : Str → Str
unfolding trim_front
trim_marks s = reverse (trim_front (reverse (trim_front s)))

-- a word that names a file, a directory, or something in a directory
unfoldable pub names_path : PathIndex → Str → Bool
unfolding dir ◌==◌
names_path i token =
    not (token == codes "")
    && (i.has_path token
        || i.has_dir token
        || (not (dir token == codes ".") && i.has_dir (dir token)))

unfoldable pub any_path : PathIndex → List Str → Bool
unfolding names_path trim_marks
any_path i [] = false
any_path i (token ∷ tokens) = names_path i (trim_marks token) || any_path i tokens

-- `Fits`
unfoldable pub fits : Gate → Str → Bool
unfolding quoted_spans any_span any_path fields
fits g query =
    any_span (quoted_spans query)
    || (elim g.index [ none ↦ true | some i ↦ any_path i (fields query) ])
