-- ===== src/Tooling/Paths.antt =====
-- internal/tooling/index.go: the index of a directory tree, and what the gate uses of Go's package
-- path. Separators are slashes. The walk over the file system is not modelled: the index is given.
use mathlib.Core.List.{reverse}
use pancakes_harness.Prelude.{
  ◌≡◌, refl, Bool, true, false, ◌||◌, not, List, [], ◌∷◌, ◌++◌, nat_eq, drop, if◌then◌else◌,
}
use pancakes_harness.Bytes.{Str, codes, ◌==◌, has_prefix, trim_space}

-- `contains`
unfoldable pub is_in : List Str → Str → Bool
unfolding ◌==◌
is_in [] needle = false
is_in (value ∷ values) needle = value == needle || is_in values needle

-- the parts between the slashes, the part that is being read in reverse
parts : Str → Str → List Str
parts part [] = reverse part ∷ []
parts part (a ∷ s) =
    let next = parts [] s in
    let longer = parts (a ∷ part) s in if nat_eq a b'/' then reverse part ∷ next else longer

-- `..` takes back the part before it, unless that is `..` itself; above a root there is nothing
take_back : Bool → List Str → List Str
unfolding ◌==◌
take_back true [] = []
take_back false [] = codes ".." ∷ []
take_back rooted (p ∷ ps) = if p == codes ".." then codes ".." ∷ p ∷ ps else ps

-- the parts that are left, the last first
resolve_parts : Bool → List Str → List Str → List Str
unfolding take_back ◌==◌
resolve_parts rooted kept [] = kept
resolve_parts rooted kept (p ∷ ps) =
    resolve_parts rooted
      (if p == codes "" || p == codes "."
        then kept
        else if p == codes ".."
        then take_back rooted kept
        else p ∷ kept)
      ps

join_parts : List Str → Str
join_parts [] = []
join_parts (p ∷ []) = p
join_parts (p ∷ q ∷ ps) = p ++ codes "/" ++ join_parts (q ∷ ps)

-- path.Clean
unfoldable pub clean : Str → Str
unfolding parts resolve_parts join_parts has_prefix ◌==◌
clean s =
    let rooted = has_prefix s (codes "/") in
    let joined = join_parts (reverse (resolve_parts rooted [] (parts [] s))) in
    let out = if rooted then codes "/" ++ joined else joined in
    if out == codes "" then codes "." else out

-- the beginning up to the last slash
up_to_slash : Str → Str
unfolding ◌==◌
up_to_slash [] = []
up_to_slash (a ∷ s) =
    let rest = up_to_slash s in
    if not (rest == codes "") then a ∷ rest else if nat_eq a b'/' then a ∷ [] else []

-- path.Dir
unfoldable pub dir : Str → Str
unfolding clean up_to_slash
dir s = clean (up_to_slash s)

-- `normalize`
unfoldable pub normalize : Str → Str
unfolding clean trim_space has_prefix drop ◌==◌
normalize rel =
    let c = clean (trim_space rel) in
    if c == codes "." || c == codes "/"
    then codes ""
    else if has_prefix c (codes "./")
    then drop 2 c
    else c

pub record FsPathIndex : Type 0 where
  pub files : List Str
  pub dirs : List Str

unfoldable pub has_path : FsPathIndex → Str → Bool
unfolding is_in normalize
has_path i rel = is_in i.files (normalize rel)

unfoldable pub has_dir : FsPathIndex → Str → Bool
unfolding is_in normalize
has_dir i rel = is_in i.dirs (normalize rel)

-- an index answers these two questions
pub record PathIndex : Type 0 where
  pub has_path : Str → Bool
  pub has_dir : Str → Bool

unfoldable pub path_index : FsPathIndex → PathIndex
unfolding has_path has_dir
path_index i = record { has_path = λ rel. has_path i rel; has_dir = λ rel. has_dir i rel }

cleaned : clean (codes "a/./b/../c//") ≡ codes "a/c"
unfolding clean
cleaned = refl

above_root : clean (codes "/../a/..") ≡ codes "/"
unfolding clean
above_root = refl

parent : dir (codes "docs/guide.md") ≡ codes "docs"
unfolding dir
parent = refl
