-- ===== src/Eventlog/Store/Log.antt =====
-- What the in-memory store promises: it is one append-only log of events, of which a session's
-- list is the part with that session's id and the index finds the event of an id.
use pancakes_harness.Prelude.{
  ◌≡◌, refl, sym, ap, ◌∙◌, ◌&&◌, Option, none, some, List, [], ◌∷◌, ◌++◌, arith, keep,
  if◌then◌else◌, Bool-cases, inl, inr,
}
use pancakes_harness.Prelude.Result.{ok}
use pancakes_harness.Bytes.{Str, ◌==◌, eq_iff, eq_self}
use pancakes_harness.Dict.{Dict, lookup, insert, lookup-insert}
use pancakes_harness.Eventlog.Event.{Event, is_valid}
use pancakes_harness.Eventlog.Store.{
  Context, StoreError, context_error, invalid_event, duplicate_event_id, MemoryStore,
  new_memory_store, slice_of, index_of, found, found_in, append, append_new, record_event,
  get_by_id, list_by_session,
}

-- The abstract store.
abbrev pub Log : Type 0
Log = List Event

unfoldable pub of_session : Str → Log → List Event
of_session sid = keep (λ e. e.session_id == sid)

unfoldable pub find_event : Str → Str → Log → Option Event
find_event sid eid [] = none
find_event sid eid (e ∷ log) =
    let rest = find_event sid eid log in if e.session_id == sid && e.id == eid then some e else rest

abbrev add_new : Event → Option Event → Log → Log × Option StoreError
add_new e (some _) log = (log, some duplicate_event_id)
add_new e none log = (log ++ e ∷ [], none)

unfoldable pub log_append : Context → Event → Log → Log × Option StoreError
log_append (some c) e log = (log, some (context_error c))
log_append none e log =
    if is_valid e
    then add_new e (find_event e.session_id e.id log) log
    else (log, some invalid_event)

-- A store stands for a log.
pub record Represents (log : Log) (s : MemoryStore) : Type 0 where
  pub listed : (sid : Str) → slice_of (lookup sid s.sessions) ≡ of_session sid log
  pub indexed :
      (sid eid : Str) → lookup eid (index_of (lookup sid s.by_id)) ≡ find_event sid eid log

pub Represents-new : Represents [] new_memory_store
unfolding of_session find_event lookup keep
Represents-new = record { listed = λ sid. refl; indexed = λ sid eid. refl }

of_session-append :
    (sid : Str) (log : Log) (e : Event)
    → of_session sid (log ++ e ∷ [])
      ≡ (if e.session_id == sid then of_session sid log ++ e ∷ [] else of_session sid log)
unfolding of_session keep
of_session-append sid [] e = refl
of_session-append sid (x ∷ log) e = ground (arith, of_session-append sid log e)

find_event-append :
    (sid eid : Str) (log : Log) (e : Event)
    → find_event e.session_id e.id log ≡ none
    → find_event sid eid (log ++ e ∷ [])
      ≡ (if e.session_id == sid && e.id == eid then some e else find_event sid eid log)
unfolding find_event
find_event-append sid eid [] e h = refl
find_event-append sid eid (x ∷ log) e h = ground (
  arith,
  find_event-append sid eid log e,
  eq_iff e.session_id sid,
  eq_iff e.id eid,
  eq_iff x.session_id sid,
  eq_iff x.id eid,
  eq_iff x.session_id e.session_id,
  eq_iff x.id e.id,
)

record_event-Represents :
    (log : Log) (s : MemoryStore) (e : Event)
    → Represents log s
    → find_event e.session_id e.id log ≡ none
    → Represents (log ++ e ∷ []) (record_event e s)
unfolding record_event
record_event-Represents log s e r fresh = record {
  listed = λ sid. ground (
    arith,
    lookup-insert e.session_id sid (slice_of (lookup e.session_id s.sessions) ++ e ∷ []) s.sessions,
    of_session-append sid log e,
    r.listed sid,
    r.listed e.session_id,
    eq_iff e.session_id sid,
  );
  indexed = λ sid eid. ground (
    arith,
    lookup-insert e.session_id sid (insert e.id e (index_of (lookup e.session_id s.by_id))) s.by_id,
    lookup-insert e.id eid e (index_of (lookup e.session_id s.by_id)),
    find_event-append sid eid log e fresh,
    r.indexed sid eid,
    r.indexed e.session_id eid,
    eq_iff e.session_id sid,
  );
}

abbrev Simulates : MemoryStore × Option StoreError → Log × Option StoreError → Type 0
Simulates (s, e) (log, e') = Represents log s × (e ≡ e')

append_new-Simulates :
    (log : Log) (s : MemoryStore) (e : Event) (o : Option Event)
    → Represents log s
    → find_event e.session_id e.id log ≡ o
    → Simulates (append_new e o s) (add_new e o log)
unfolding append_new
append_new-Simulates log s e none r h = (record_event-Represents log s e r h, refl)
append_new-Simulates log s e (some x) r h = (r, refl)

-- `Append` does to the store what the abstract append does to the log, with the same error.
pub append-Simulates :
    (ctx : Context) (e : Event) (log : Log) (s : MemoryStore)
    → Represents log s
    → Represents (log_append ctx e log).0 (append ctx e s).0
      × ((append ctx e s).1 ≡ (log_append ctx e log).1)
unfolding append log_append
append-Simulates (some c) e log s r = (r, refl)
append-Simulates none e log s r = elim (Bool-cases (is_valid e)) [
  | inl valid ↦
      rw (valid, r.indexed e.session_id e.id)
        (append_new-Simulates log s e (find_event e.session_id e.id log) r refl)
  | inr invalid ↦ rw invalid (r, refl)
]

-- Every call of a client, in order; a refused event changes nothing.
unfoldable pub append_all : List Event → MemoryStore → MemoryStore
append_all [] s = s
append_all (e ∷ es) s = append_all es (append none e s).0

unfoldable pub log_append_all : List Event → Log → Log
log_append_all [] log = log
log_append_all (e ∷ es) log = log_append_all es (log_append none e log).0

append_all-Represents :
    (es : List Event) (log : Log) (s : MemoryStore)
    → Represents log s
    → Represents (log_append_all es log) (append_all es s)
unfolding append_all log_append_all
append_all-Represents [] log s r = r
append_all-Represents (e ∷ es) log s r =
    append_all-Represents es (log_append none e log).0 (append none e s).0
      (append-Simulates none e log s r).0

found_in-index :
    (o : Option (Dict Event)) (eid : Str) → found_in o eid ≡ found (lookup eid (index_of o))
unfolding lookup
found_in-index none eid = refl
found_in-index (some m) eid = refl

get-Represents :
    (log : Log) (s : MemoryStore) (sid eid : Str)
    → Represents log s
    → get_by_id none sid eid s ≡ found (find_event sid eid log)
unfolding get_by_id
get-Represents log s sid eid r =
    found_in-index (lookup sid s.by_id) eid ∙ ap found (r.indexed sid eid)

-- After any appends, refused ones included, a session's list is the accepted events of that
-- session in the order of their appends, and the index finds the accepted event of an id.
pub reads_after_appends :
    (es : List Event) (sid eid : Str)
    → (list_by_session none sid (append_all es new_memory_store)
        ≡ ok (of_session sid (log_append_all es [])))
      × (get_by_id none sid eid (append_all es new_memory_store)
          ≡ found (find_event sid eid (log_append_all es [])))
unfolding list_by_session
reads_after_appends es sid eid =
    let r = append_all-Represents es [] new_memory_store Represents-new in
    (ap ok (r.listed sid), get-Represents _ _ sid eid r)

find_event-append_old :
    (sid eid : Str) (log : Log) (e x : Event)
    → find_event sid eid log ≡ some x
    → find_event sid eid (log ++ e ∷ []) ≡ some x
unfolding find_event
find_event-append_old sid eid [] e x h = cc
find_event-append_old sid eid (y ∷ log) e x h =
    ground (arith, find_event-append_old sid eid log e x)

find-add_new :
    (e x : Event) (o : Option Event) (sid eid : Str) (log : Log)
    → find_event sid eid log ≡ some x
    → find_event sid eid (add_new e o log).0 ≡ some x
find-add_new e x (some y) sid eid log h = h
find-add_new e x none sid eid log h = find_event-append_old sid eid log e x h

find-log_append :
    (e x : Event) (sid eid : Str) (log : Log)
    → find_event sid eid log ≡ some x
    → find_event sid eid (log_append none e log).0 ≡ some x
unfolding log_append
find-log_append e x sid eid log h = elim (Bool-cases (is_valid e)) [
  | inl valid ↦ rw valid (find-add_new e x (find_event e.session_id e.id log) sid eid log h)
  | inr invalid ↦ rw invalid h
]

find-log_append_all :
    (es : List Event) (x : Event) (sid eid : Str) (log : Log)
    → find_event sid eid log ≡ some x
    → find_event sid eid (log_append_all es log) ≡ some x
unfolding log_append_all
find-log_append_all [] x sid eid log h = h
find-log_append_all (e ∷ es) x sid eid log h =
    find-log_append_all es x sid eid (log_append none e log).0 (find-log_append e x sid eid log h)

find-add_new_self :
    (e : Event) (o : Option Event) (log : Log)
    → find_event e.session_id e.id log ≡ o
    → (add_new e o log).1 ≡ none
    → find_event e.session_id e.id (add_new e o log).0 ≡ some e
find-add_new_self e (some y) log h accepted = cc
find-add_new_self e none log h accepted =
    rw (find_event-append e.session_id e.id log e h, eq_self e.session_id, eq_self e.id)

find-log_append_self :
    (e : Event) (log : Log)
    → (log_append none e log).1 ≡ none
    → find_event e.session_id e.id (log_append none e log).0 ≡ some e
unfolding log_append
find-log_append_self e log = elim (Bool-cases (is_valid e)) [
  | inl valid ↦ rw valid (find-add_new_self e (find_event e.session_id e.id log) log refl)
  | inr invalid ↦ rw invalid (λ h. cc)
]

-- An event that a store reached by appends has accepted is what `GetByID` returns for its id ever
-- after, whatever is appended later.
get-append_stable :
    (before : List Event) (e : Event) (later : List Event)
    → (append none e (append_all before new_memory_store)).1 ≡ none
    → get_by_id none e.session_id e.id
        (append_all later (append none e (append_all before new_memory_store)).0)
      ≡ ok e
get-append_stable before e later accepted =
    let log = log_append_all before [] in
    let r = append_all-Represents before [] new_memory_store Represents-new in
    let (r', same) = append-Simulates none e log (append_all before new_memory_store) r in
    let now = find-log_append_self e log (sym same ∙ accepted) in
    get-Represents (log_append_all later (log_append none e log).0) _ e.session_id e.id
      (append_all-Represents later (log_append none e log).0 _ r')
    ∙ ap found (find-log_append_all later e e.session_id e.id (log_append none e log).0 now)
