-- ===== src/Eventlog/Store.antt =====
-- internal/eventlog/memory_store.go: an append-only list per session beside an index by id.
pub mod Log
use pancakes_harness.Prelude.{
  Bool, true, false, Option, none, some, List, [], ◌∷◌, ◌++◌, if◌then◌else◌,
}
use pancakes_harness.Prelude.Result.{Result, ok, err}
use pancakes_harness.Bytes.{Str}
use pancakes_harness.Dict.{Dict, lookup, insert}
use pancakes_harness.Eventlog.Event.{Event, is_valid}

-- `ctx.Err()` once `ctx.Done()` is closed; a live context is `none`.
pub data ContextError : Type 0 where
  canceled deadline_exceeded : ContextError

abbrev pub Context : Type 0
Context = Option ContextError

pub data StoreError : Type 0 where
  context_error : ContextError → StoreError
  invalid_event duplicate_event_id event_not_found : StoreError

pub record MemoryStore : Type 0 where
  pub sessions : Dict (List Event)
  pub by_id : Dict (Dict Event)

-- `NewMemoryStore`
abbrev pub new_memory_store : MemoryStore
new_memory_store = record { sessions = []; by_id = [] }

-- `s.sessions[id]`: a missing key reads as the nil slice
abbrev pub slice_of : Option (List Event) → List Event
slice_of none = []
slice_of (some es) = es

-- `s.byID[id]`, made empty where it is missing
abbrev pub index_of : Option (Dict Event) → Dict Event
index_of none = []
index_of (some m) = m

-- the locked part of `Append` once the id is known to be new
unfoldable pub record_event : Event → MemoryStore → MemoryStore
record_event e s = record {
  sessions = insert e.session_id (slice_of (lookup e.session_id s.sessions) ++ e ∷ []) s.sessions;
  by_id = insert e.session_id (insert e.id e (index_of (lookup e.session_id s.by_id))) s.by_id;
}

unfoldable pub append_new : Event → Option Event → MemoryStore → MemoryStore × Option StoreError
unfolding record_event
append_new e (some _) s = (s, some duplicate_event_id)
append_new e none s = (record_event e s, none)

unfoldable pub append : Context → Event → MemoryStore → MemoryStore × Option StoreError
unfolding append_new
append (some c) e s = (s, some (context_error c))
append none e s =
    if is_valid e
    then append_new e (lookup e.id (index_of (lookup e.session_id s.by_id))) s
    else (s, some invalid_event)

abbrev pub found : Option Event → Result StoreError Event
found none = err event_not_found
found (some e) = ok e

abbrev found_in : Option (Dict Event) → Str → Result StoreError Event
found_in none eid = err event_not_found
found_in (some events) eid = found (lookup eid events)

unfoldable pub get_by_id : Context → Str → Str → MemoryStore → Result StoreError Event
get_by_id (some c) sid eid s = err (context_error c)
get_by_id none sid eid s = found_in (lookup sid s.by_id) eid

unfoldable pub list_by_session : Context → Str → MemoryStore → Result StoreError (List Event)
list_by_session (some c) sid s = err (context_error c)
list_by_session none sid s = ok (slice_of (lookup sid s.sessions))
