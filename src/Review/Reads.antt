-- ===== src/Review/Reads.antt =====
-- What a review store shows after saves, failed ones included.
use Prim.Native.Nat.{◌<◌}
use mathlib.Core.List.{append-nil, append_assoc}
use pancakes_harness.Prelude.{
  ◌+◌, ◌≡◌, refl, sym, ◌∙◌, ap, Option, none, some, List, [], ◌∷◌, ◌++◌, map, length, if◌then◌else◌,
}
use pancakes_harness.Prelude.Int.{ℤ}
use pancakes_harness.Prelude.Result.{ok}
use pancakes_harness.Bytes.{Str, ◌==◌}
use pancakes_harness.Dict.{lookup, lookup-insert}
use pancakes_harness.Eventlog.Store.{Context}
use pancakes_harness.Consult.{EventSummary}
use pancakes_harness.Prelude.Machine.{int_limit}
use pancakes_harness.Backend.Paging.{page, page_of, from_offset, from_limit}
use pancakes_harness.Backend.Paging.Pages.{window, page_of-window}
use pancakes_harness.Review.{
  ReviewStore, new_review_store, manifest_of, saved, save, list, event_found, get,
}

unfoldable pub save_all : List (Context × EventSummary) → ReviewStore → ReviewStore
save_all [] s = s
save_all ((ctx, e) ∷ es) s = save_all es (save ctx e s).0

-- the summaries of the live saves, in order
unfoldable pub live : List (Context × EventSummary) → List EventSummary
live [] = []
live ((none, e) ∷ es) = e ∷ live es
live ((some c, e) ∷ es) = live es

-- the last of them with a fingerprint, or what was there before
unfoldable pub last_with : Str → List EventSummary → Option EventSummary → Option EventSummary
last_with fp [] old = old
last_with fp (e ∷ es) old = last_with fp es (if e.fingerprint == fp then some e else old)

save_all-manifests :
    (es : List (Context × EventSummary)) (s : ReviewStore)
    → (save_all es s).manifests ≡ s.manifests ++ map manifest_of (live es)
unfolding save_all live save
save_all-manifests [] s = sym (append-nil s.manifests)
save_all-manifests ((none, e) ∷ es) s =
    save_all-manifests es (saved e s)
    ∙ append_assoc s.manifests (manifest_of e ∷ []) (map manifest_of (live es))
save_all-manifests ((some c, e) ∷ es) s = save_all-manifests es s

save_all-events :
    (es : List (Context × EventSummary)) (fp : Str) (s : ReviewStore)
    → lookup fp (save_all es s).events ≡ last_with fp (live es) (lookup fp s.events)
unfolding save_all live save last_with
save_all-events [] fp s = refl
save_all-events ((none, e) ∷ es) fp s =
    save_all-events es fp (saved e s)
    ∙ ap (last_with fp (live es)) (lookup-insert e.fingerprint fp e s.events)
save_all-events ((some c, e) ∷ es) fp s = save_all-events es fp s

-- After any saves, a page within the range of `int` is the window of the manifests of the saves made
-- under a live context, in their order, one for each; and the event of a fingerprint is the one
-- saved last under it.
pub reads_after_saves :
    (es : List (Context × EventSummary)) (limit offset : ℤ) (fp : Str)
    → from_offset offset + from_limit limit (length (map manifest_of (live es))) < int_limit
    → (list none limit offset (save_all es new_review_store)
        ≡ ok (
            page (
              window
                (from_offset offset)
                (from_limit limit (length (map manifest_of (live es))))
                (map manifest_of (live es)))))
      × (get none fp (save_all es new_review_store) ≡ event_found (last_with fp (live es) none))
unfolding list get lookup
reads_after_saves es limit offset fp small = (
  ap (λ ms. ok (page_of limit offset ms)) (save_all-manifests es new_review_store)
      ∙ ap ok (page_of-window limit offset (map manifest_of (live es)) small),
  ap event_found (save_all-events es fp new_review_store),
)
