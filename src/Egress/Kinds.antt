-- ===== src/Egress/Kinds.antt =====
-- The tests on an event kind.
use pancakes_harness.Prelude.{Bool, true, false, ◌||◌, List, [], ◌∷◌, if◌then◌else◌}
use pancakes_harness.Bytes.{Str, codes, has_prefix, contains, trim_space, to_lower}

abbrev pub fold_kind : Str → Str
fold_kind kind = trim_space (to_lower kind)

-- `isDebugNeverKind`
unfoldable pub is_debug_never_kind : Str → Bool
unfolding trim_space to_lower has_prefix contains
is_debug_never_kind kind =
    let k = fold_kind kind in
    if has_prefix k (codes "packet.") || has_prefix k (codes "response.")
    then true
    else if contains k (codes "debug") || contains k (codes "metrics") || contains k (codes "trace")
    then true
    else false

-- the prefixes of the kinds that never leave, in the order in which they are tested
abbrev pub never_prefixes : List Str
never_prefixes =
    codes "branch.fork"
    ∷ codes "consult."
    ∷ codes "summary.rebuild"
    ∷ codes "replay."
    ∷ codes "recovery."
    ∷ codes "context.compact"
    ∷ codes "dream."
    ∷ codes "audit."
    ∷ []

unfoldable pub has_any_prefix : Str → List Str → Bool
unfolding has_prefix
has_any_prefix k [] = false
has_any_prefix k (p ∷ ps) = if has_prefix k p then true else has_any_prefix k ps

-- `isNeverEgressKind`
unfoldable pub is_never_egress_kind : Str → Bool
unfolding has_any_prefix trim_space to_lower
is_never_egress_kind kind = has_any_prefix (fold_kind kind) never_prefixes
