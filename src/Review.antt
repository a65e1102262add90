-- ===== src/Review.antt =====
-- internal/review/memory_store.go: the store of event summaries for the review service. The stream
-- of manifests, which a goroutine sends, is left out.
pub mod Reads
use pancakes_harness.Prelude.{ℕ, Option, none, some, List, [], ◌∷◌, ◌++◌, length}
use pancakes_harness.Prelude.Int.{ℤ}
use pancakes_harness.Prelude.Result.{Result, ok, err}
use pancakes_harness.Bytes.{Str}
use pancakes_harness.Dict.{Dict, lookup, insert}
use pancakes_harness.Eventlog.Store.{Context, ContextError}
use pancakes_harness.Consult.{Manifest, EventSummary, zero_manifest}
use pancakes_harness.Backend.Paging.{Paged, page_of}

pub data ReviewError : Type 0 where
  context_error : ContextError → ReviewError
  not_found : ReviewError

pub record ReviewStore : Type 0 where
  pub events : Dict EventSummary
  pub manifests : List Manifest

abbrev pub new_review_store : ReviewStore
new_review_store = record { events = []; manifests = [] }

-- `consult.Manifest{EventID: e.Fingerprint}`
abbrev pub manifest_of : EventSummary → Manifest
manifest_of e = record zero_manifest { event_id = e.fingerprint }

-- the locked part of `SaveEvent`, and the body of the loop of `AddTestEvents`
abbrev pub saved : EventSummary → ReviewStore → ReviewStore
saved e s = record {
  events = insert e.fingerprint e s.events;
  manifests = s.manifests ++ manifest_of e ∷ [];
}

unfoldable pub save : Context → EventSummary → ReviewStore → ReviewStore × Option ReviewError
save (some c) e s = (s, some (context_error c))
save none e s = (saved e s, none)

-- `AddTestEvents`, which never fails
unfoldable pub add_events : List EventSummary → ReviewStore → ReviewStore
add_events [] s = s
add_events (e ∷ es) s = add_events es (saved e s)

-- `ListManifests`: the paging is that of the backend, copied
unfoldable pub list : Context → ℤ → ℤ → ReviewStore → Result ReviewError (Paged Manifest)
list (some c) limit offset s = err (context_error c)
list none limit offset s = ok (page_of limit offset s.manifests)

unfoldable pub event_found : Option EventSummary → Result ReviewError EventSummary
event_found none = err not_found
event_found (some e) = ok e

-- `GetEvent`
unfoldable pub get : Context → Str → ReviewStore → Result ReviewError EventSummary
unfolding event_found
get (some c) fingerprint s = err (context_error c)
get none fingerprint s = event_found (lookup fingerprint s.events)

unfoldable pub count : ReviewStore → ℕ
count s = length s.events
