-- ===== src/Backend.antt =====
-- internal/backend/memory.go: the in-memory backend. Each method takes the context first and gives
-- up if it is done. Its event maps and their append are those of internal/eventlog, statement by
-- statement, and are taken from there.
pub mod Paging
pub mod Laws
use pancakes_harness.Prelude.{
  ℕ, Bool, true, false, Option, none, some, List, [], ◌∷◌, map, if◌then◌else◌, length, keep,
}
use pancakes_harness.Prelude.Int.{ℤ}
use pancakes_harness.Prelude.Result.{Result, ok, err, ◌>>=◌}
use pancakes_harness.Bytes.{Str, codes, ◌==◌}
use pancakes_harness.Dict.{Dict, lookup, insert, keys}
use pancakes_harness.Eventlog.Event.{Event}
use pancakes_harness.Eventlog.Store
use pancakes_harness.Eventlog.Store.{
  Context, ContextError, MemoryStore, StoreError, append, get_by_id, list_by_session,
  new_memory_store,
}
use pancakes_harness.Consult.{Manifest, EventSummary, zero_manifest}
use pancakes_harness.Backend.Paging.{Paged, page_of, exchange_sort}

pub data BackendError : Type 0 where
  context_error : ContextError → BackendError
  blob_not_found duplicate_blob_ref duplicate_event_id event_not_found : BackendError
  invalid_event invalid_branch_read not_found : BackendError

pub record Diagnostic : Type 0 where
  pub code : Str
  pub message : Str
  pub details : Dict Str

pub record MemoryBackend : Type 0 where
  pub spine : MemoryStore
  pub blobs : Dict Str
  pub diag : List Diagnostic
  pub manifests : Dict Manifest
  pub events : Dict EventSummary

-- `NewMemoryBackend`
abbrev pub new_memory_backend : MemoryBackend
new_memory_backend = record {
  spine = new_memory_store;
  blobs = [];
  diag = [];
  manifests = [];
  events = [];
}

abbrev pub backend_error : StoreError → BackendError
backend_error (Store.context_error c) = context_error c
backend_error Store.invalid_event = invalid_event
backend_error Store.duplicate_event_id = duplicate_event_id
backend_error Store.event_not_found = event_not_found

abbrev pub backend_error? : Option StoreError → Option BackendError
backend_error? none = none
backend_error? (some e) = some (backend_error e)

abbrev pub as_backend : {A : Type 0} → Result StoreError A → Result BackendError A
as_backend (ok a) = ok a
as_backend (err e) = err (backend_error e)

-- A method that changes the backend returns it with the error.
abbrev pub Changed : Type 0
Changed = MemoryBackend × Option BackendError

unfoldable pub append_event : Context → Event → MemoryBackend → Changed
append_event ctx e b =
    let (s, error) = append ctx e b.spine in (record b { spine = s }, backend_error? error)

unfoldable pub append_blob_absent : Option Str → Str → Str → MemoryBackend → Changed
append_blob_absent (some _) ref payload b = (b, some duplicate_blob_ref)
append_blob_absent none ref payload b = (record b { blobs = insert ref payload b.blobs }, none)

unfoldable pub append_blob : Context → Str → Str → MemoryBackend → Changed
unfolding append_blob_absent
append_blob (some c) ref payload b = (b, some (context_error c))
append_blob none ref payload b =
    if ref == codes ""
    then (b, some blob_not_found)
    else append_blob_absent (lookup ref b.blobs) ref payload b

unfoldable pub get_event_by_id : Context → Str → Str → MemoryBackend → Result BackendError Event
get_event_by_id ctx sid eid b = as_backend (get_by_id ctx sid eid b.spine)

unfoldable pub list_events_by_session :
    Context → Str → MemoryBackend → Result BackendError (List Event)
list_events_by_session ctx sid b = as_backend (list_by_session ctx sid b.spine)

unfoldable pub list_events_by_branch :
    Context → Str → Str → MemoryBackend → Result BackendError (List Event)
unfolding list_events_by_session keep
list_events_by_branch (some c) sid bid b = err (context_error c)
list_events_by_branch none sid bid b =
    if bid == codes ""
    then err invalid_branch_read
    else (list_events_by_session none sid b >>= λ all. ok (keep (λ e. e.branch_id == bid) all))

-- `v, ok := m[key]; if !ok { return err }`
abbrev pub or_error : {A : Type 0} → BackendError → Option A → Result BackendError A
or_error e none = err e
or_error e (some a) = ok a

unfoldable pub fetch_blob : Context → Str → MemoryBackend → Result BackendError Str
fetch_blob (some c) ref b = err (context_error c)
fetch_blob none ref b = or_error blob_not_found (lookup ref b.blobs)

unfoldable pub save_manifest : Context → Manifest → MemoryBackend → Changed
save_manifest (some c) m b = (b, some (context_error c))
save_manifest none m b = (record b { manifests = insert m.event_id m b.manifests }, none)

unfoldable pub load_manifest : Context → Str → MemoryBackend → Result BackendError Manifest
load_manifest (some c) id b = err (context_error c)
load_manifest none id b = or_error not_found (lookup id b.manifests)

-- `b.manifests[id]`
or_zero : Option Manifest → Manifest
or_zero none = zero_manifest
or_zero (some m) = m

-- the manifests in the order of their ids
unfoldable pub sorted_manifests : MemoryBackend → List Manifest
unfolding or_zero exchange_sort
sorted_manifests b =
    let ids = keys b.manifests in
    map (λ id. or_zero (lookup id b.manifests)) (exchange_sort (length ids) ids)

unfoldable pub list_manifests :
    Context → ℤ → ℤ → MemoryBackend → Result BackendError (Paged Manifest)
unfolding sorted_manifests page_of
list_manifests (some c) limit offset b = err (context_error c)
list_manifests none limit offset b = ok (page_of limit offset (sorted_manifests b))

unfoldable pub save_event : Context → EventSummary → MemoryBackend → Changed
save_event (some c) e b = (b, some (context_error c))
save_event none e b = (record b { events = insert e.fingerprint e b.events }, none)

unfoldable pub load_event : Context → Str → MemoryBackend → Result BackendError EventSummary
load_event (some c) id b = err (context_error c)
load_event none id b = or_error not_found (lookup id b.events)

-- `HealthCheck`: whether it is OK; a live check clears the diagnostics
unfoldable pub health_check : Context → MemoryBackend → MemoryBackend × Bool
health_check (some c) b = (b, false)
health_check none b = (record b { diag = [] }, true)

unfoldable pub clear_diagnostics : MemoryBackend → MemoryBackend
clear_diagnostics b = record b { diag = [] }

unfoldable pub ping : Context → Option BackendError
ping (some c) = some (context_error c)
ping none = none
