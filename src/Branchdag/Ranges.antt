-- ===== src/Branchdag/Ranges.antt =====
-- The dirty range that appends to one branch build up.
use pancakes_harness.Prelude.{◌≡◌, refl, true, false, List, [], ◌∷◌, arith, All}
use pancakes_harness.Prelude.Result.{Result, ok, ◌>>=◌}
use pancakes_harness.Bytes.{Str, codes, ◌==◌}
use pancakes_harness.Branchdag.{BranchError, Branch, is_valid, append_to_branch}

-- `AppendToBranch` for each event in turn, up to the first error.
unfoldable pub append_events : Branch → List Str → Result BranchError Branch
append_events b [] = ok b
append_events b (e ∷ es) = append_to_branch b e >>= λ b'. append_events b' es

abbrev pub last_of : Str → List Str → Str
last_of e [] = e
last_of e (x ∷ xs) = last_of x xs

-- the branch with one dirty range, which its head ends
abbrev pub one_range : Str → Str → Branch → Branch
one_range first last b = record b {
  dirty_ranges = record { start_event_id = first; end_event_id = last } ∷ [];
  head_event_id = last;
}

append_to_one_range :
    (b : Branch) (first last e : Str)
    → (b.branch_id == codes "") ≡ false
    → (first == codes "") ≡ false
    → (last == codes "") ≡ false
    → (e == codes "") ≡ false
    → append_to_branch (one_range first last b) e ≡ ok (one_range first e b)
unfolding append_to_branch is_valid
append_to_one_range b first last e own f l h = ground arith

append_events-one_range :
    (b : Branch) (first last : Str) (es : List Str)
    → (b.branch_id == codes "") ≡ false
    → (first == codes "") ≡ false
    → (last == codes "") ≡ false
    → All (λ x. (x == codes "") ≡ false) es
    → append_events (one_range first last b) es ≡ ok (one_range first (last_of last es) b)
unfolding append_events
append_events-one_range b first last [] own f l all = refl
append_events-one_range b first last (e ∷ es) own f l (h, all) =
    rw (append_to_one_range b first last e own f l h)
      (append_events-one_range b first e es own f h all)

append_to_clean :
    (b : Branch) (e : Str)
    → is_valid b ≡ true
    → b.dirty_ranges ≡ []
    → (e == codes "") ≡ false
    → append_to_branch b e ≡ ok (one_range e e b)
unfolding append_to_branch
append_to_clean b e v clean h = rw (h, v, clean)

-- Appending events with ids to a valid branch that has no dirty range succeeds, leaves one range
-- from the first of them to the last, puts the head at the last, and changes nothing else.
append_events-clean :
    (b : Branch) (e : Str) (es : List Str)
    → is_valid b ≡ true
    → b.dirty_ranges ≡ []
    → All (λ x. (x == codes "") ≡ false) (e ∷ es)
    → append_events b (e ∷ es) ≡ ok (one_range e (last_of e es) b)
unfolding append_events
append_events-clean b e es v clean (h, all) =
    rw (append_to_clean b e v clean h) (append_events-one_range b e e es (own v) h h all)
  where
    own : is_valid b ≡ true → (b.branch_id == codes "") ≡ false
    own v = unfold is_valid in ground arith
