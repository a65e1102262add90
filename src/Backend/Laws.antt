-- ===== src/Backend/Laws.antt =====
-- The in-memory backend under any sequence of calls: what is written once stays, and what may be
-- written again reads as it was written last.
use pancakes_harness.Prelude.{
  ◌≡◌, ◌≢◌, ◌⊎◌, refl, ap, ◌∙◌, false, Option, none, some, List, [], ◌∷◌, arith, keep,
  if◌then◌else◌, Bool-cases, Option-cases, inl, inr,
}
use pancakes_harness.Prelude.Result.{ok}
use pancakes_harness.Bytes.{Str, codes, ◌==◌, eq_iff}
use pancakes_harness.Dict.{lookup, insert, lookup-insert, lookup-insert_self}
use pancakes_harness.Eventlog.Event.{Event}
use pancakes_harness.Eventlog.Store.{Context, append}
use pancakes_harness.Eventlog.Store.Log.{
  append_all, log_append_all, of_session, reads_after_appends,
}
use pancakes_harness.Consult.{Manifest, EventSummary}
use pancakes_harness.Backend.{
  MemoryBackend, blob_not_found, not_found, append_event, append_blob, append_blob_absent,
  list_events_by_session, list_events_by_branch, fetch_blob, or_error, save_manifest, load_manifest,
  save_event, health_check, clear_diagnostics, new_memory_backend,
}

-- What `AppendBlob` does: it refuses and changes nothing, or adds the blob of a new reference.
blob_outcome :
    (ref payload : Str) (b : MemoryBackend)
    → (((append_blob none ref payload b).0 ≡ b) × ((append_blob none ref payload b).1 ≢ none))
      ⊎ ((lookup ref b.blobs ≡ none)
          × ((append_blob none ref payload b).0 ≡ record b { blobs = insert ref payload b.blobs }))
unfolding append_blob append_blob_absent
blob_outcome ref payload b = elim (Bool-cases (ref == codes "")) [
  | inl blank ↦ inl (rw blank, rw blank (λ e. cc))
  | inr filled ↦ elim (Option-cases (lookup ref b.blobs)) [
    | inl absent ↦ inr (absent, rw (filled, absent))
    | inr (old, there) ↦ inl (rw (filled, there), rw (filled, there) (λ e. cc))
  ]
]

-- The calls that change a backend.
pub data Call : Type 0 where
  event_call : Context → Event → Call
  blob_call : Context → Str → Str → Call
  manifest_call : Context → Manifest → Call
  summary_call : Context → EventSummary → Call
  health_call : Context → Call
  clear_call : Call

unfoldable pub perform : Call → MemoryBackend → MemoryBackend
perform (event_call ctx e) b = (append_event ctx e b).0
perform (blob_call ctx ref payload) b = (append_blob ctx ref payload b).0
perform (manifest_call ctx m) b = (save_manifest ctx m b).0
perform (summary_call ctx e) b = (save_event ctx e b).0
perform (health_call ctx) b = (health_check ctx b).0
perform clear_call b = clear_diagnostics b

unfoldable pub perform_all : List Call → MemoryBackend → MemoryBackend
unfolding perform
perform_all [] b = b
perform_all (c ∷ cs) b = perform_all cs (perform c b)

-- The calls that write the manifest of an id.
abbrev written : Str → Call → Option Manifest → Option Manifest
written id (manifest_call none m) old = if m.event_id == id then some m else old
written id _ old = old

unfoldable pub last_written : Str → List Call → Option Manifest → Option Manifest
last_written id [] old = old
last_written id (c ∷ cs) old = last_written id cs (written id c old)

perform-written :
    (c : Call) (id : Str) (b : MemoryBackend)
    → lookup id (perform c b).manifests ≡ written id c (lookup id b.manifests)
unfolding perform append_event append_blob save_manifest save_event health_check clear_diagnostics
perform-written (event_call ctx e) id b = refl
perform-written (blob_call (some x) ref payload) id b = refl
perform-written (blob_call none ref payload) id b = elim (blob_outcome ref payload b) [
  | inl (same, _) ↦ ap (λ c. lookup id c.manifests) same
  | inr (_, added) ↦ ap (λ c. lookup id c.manifests) added
]
perform-written (manifest_call (some x) m) id b = refl
perform-written (manifest_call none m) id b = lookup-insert m.event_id id m b.manifests
perform-written (summary_call (some x) e) id b = refl
perform-written (summary_call none e) id b = refl
perform-written (health_call (some x)) id b = refl
perform-written (health_call none) id b = refl
perform-written clear_call id b = refl

perform_all-written :
    (cs : List Call) (id : Str) (b : MemoryBackend)
    → lookup id (perform_all cs b).manifests ≡ last_written id cs (lookup id b.manifests)
unfolding perform_all last_written
perform_all-written [] id b = refl
perform_all-written (c ∷ cs) id b =
    perform_all-written cs id (perform c b) ∙ ap (last_written id cs) (perform-written c id b)

-- After any calls on a new backend, the manifest loaded for an id is the one that a live call saved
-- last under that id, or there is none.
load_manifest-last :
    (cs : List Call) (id : Str)
    → load_manifest none id (perform_all cs new_memory_backend)
      ≡ or_error not_found (last_written id cs none)
unfolding load_manifest lookup
load_manifest-last cs id = ap (or_error not_found) (perform_all-written cs id new_memory_backend)

perform-blob :
    (c : Call) (ref payload : Str) (b : MemoryBackend)
    → lookup ref b.blobs ≡ some payload
    → lookup ref (perform c b).blobs ≡ some payload
unfolding perform append_event append_blob save_manifest save_event health_check clear_diagnostics
perform-blob (event_call ctx e) ref payload b h = h
perform-blob (blob_call (some x) r p) ref payload b h = h
perform-blob (blob_call none r p) ref payload b h = elim (blob_outcome r p b) [
  | inl (same, _) ↦ ap (λ c. lookup ref c.blobs) same ∙ h
  | inr (absent, added) ↦
      ap (λ c. lookup ref c.blobs) added
      ∙ ground (arith, lookup-insert r ref p b.blobs, eq_iff r ref)
]
perform-blob (manifest_call (some x) m) ref payload b h = h
perform-blob (manifest_call none m) ref payload b h = h
perform-blob (summary_call (some x) e) ref payload b h = h
perform-blob (summary_call none e) ref payload b h = h
perform-blob (health_call (some x)) ref payload b h = h
perform-blob (health_call none) ref payload b h = h
perform-blob clear_call ref payload b h = h

perform_all-blob :
    (cs : List Call) (ref payload : Str) (b : MemoryBackend)
    → lookup ref b.blobs ≡ some payload
    → lookup ref (perform_all cs b).blobs ≡ some payload
unfolding perform_all
perform_all-blob [] ref payload b h = h
perform_all-blob (c ∷ cs) ref payload b h =
    perform_all-blob cs ref payload (perform c b) (perform-blob c ref payload b h)

append_blob-lookup :
    (ref payload : Str) (b : MemoryBackend)
    → (append_blob none ref payload b).1 ≡ none
    → lookup ref (append_blob none ref payload b).0.blobs ≡ some payload
append_blob-lookup ref payload b accepted = elim (blob_outcome ref payload b) [
  | inl (_, refused) ↦ absurd (refused accepted)
  | inr (_, added) ↦ ap (λ c. lookup ref c.blobs) added ∙ lookup-insert_self ref payload b.blobs
]

-- A blob that was accepted is what is fetched for its reference, whatever calls follow.
fetch_blob-stable :
    (b : MemoryBackend) (ref payload : Str) (cs : List Call)
    → (append_blob none ref payload b).1 ≡ none
    → fetch_blob none ref (perform_all cs (append_blob none ref payload b).0) ≡ ok payload
unfolding fetch_blob
fetch_blob-stable b ref payload cs accepted = ap (or_error blob_not_found) (
    perform_all-blob cs ref payload (append_blob none ref payload b).0
      (append_blob-lookup ref payload b accepted))

-- the events that calls append, in order
unfoldable pub appended_events : List Call → List Event
appended_events [] = []
appended_events (event_call none e ∷ cs) = e ∷ appended_events cs
appended_events (_ ∷ cs) = appended_events cs

spine-perform :
    (c : Call) (cs : List Call) (b : MemoryBackend)
    → append_all (appended_events cs) (perform c b).spine
      ≡ append_all (appended_events (c ∷ cs)) b.spine
unfolding perform append_event append append_blob append_all appended_events save_manifest
    save_event health_check clear_diagnostics
spine-perform (event_call (some x) e) cs b = refl
spine-perform (event_call none e) cs b = refl
spine-perform (blob_call (some x) ref payload) cs b = refl
spine-perform (blob_call none ref payload) cs b = elim (blob_outcome ref payload b) [
  | inl (same, _) ↦ ap (λ c. append_all (appended_events cs) c.spine) same
  | inr (_, added) ↦ ap (λ c. append_all (appended_events cs) c.spine) added
]
spine-perform (manifest_call (some x) m) cs b = refl
spine-perform (manifest_call none m) cs b = refl
spine-perform (summary_call (some x) e) cs b = refl
spine-perform (summary_call none e) cs b = refl
spine-perform (health_call (some x)) cs b = refl
spine-perform (health_call none) cs b = refl
spine-perform clear_call cs b = refl

perform_all-spine :
    (cs : List Call) (b : MemoryBackend)
    → (perform_all cs b).spine ≡ append_all (appended_events cs) b.spine
unfolding perform_all appended_events append_all
perform_all-spine [] b = refl
perform_all-spine (c ∷ cs) b = perform_all-spine cs (perform c b) ∙ spine-perform c cs b

-- After any calls on a new backend, a read of a branch with an id gives the accepted events of the
-- session and the branch, in the order of their appends.
pub list_events_by_branch-log :
    (cs : List Call) (sid bid : Str)
    → (bid == codes "") ≡ false
    → list_events_by_branch none sid bid (perform_all cs new_memory_backend)
      ≡ ok
          (keep (λ e. e.branch_id == bid) (of_session sid (log_append_all (appended_events cs) [])))
unfolding list_events_by_branch list_events_by_session
list_events_by_branch-log cs sid bid filled =
    let (listed, _) = reads_after_appends (appended_events cs) sid bid in
    rw (filled, perform_all-spine cs new_memory_backend, listed)
