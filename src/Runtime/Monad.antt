-- ===== src/Runtime/Monad.antt =====
-- Actions on the core of a session. What was written stays written after an error.
use pancakes_harness.Prelude.{ℕ, ◌+◌, ◌-◌, Option, none, some, List, [], ◌∷◌, ◌++◌, length}
use pancakes_harness.Prelude.Result.{Result, ok, err}
use pancakes_harness.Prelude.Int.{pos}
use pancakes_harness.Bytes.{Str, codes}
use pancakes_harness.Json.{of_int}
use pancakes_harness.Eventlog.Event.{Event, Fields}
use pancakes_harness.Backend.{
  BackendError, MemoryBackend, append_event, append_blob, list_events_by_session,
  list_events_by_branch,
}
use pancakes_harness.Runtime.{Env, Core, RunError, backend_failed}

abbrev pub Action : Type 0 → Type 0 → Type 0
Action R A = Core R → Core R × Result RunError A

module _ {R : Type 0} where
  unfoldable pub pure : {A : Type 0} → A → Action R A
  pure a c = (c, ok a)

  unfoldable pub raise : {A : Type 0} → RunError → Action R A
  raise e c = (c, err e)

  abbrev pub modify : (Core R → Core R) → Action R Unit
  modify f c = (f c, ok tt)

  abbrev pub then_run :
      {A B : Type 0} → Core R × Result RunError A → (A → Action R B) → Core R × Result RunError B
  then_run (c, ok a) k = k a c
  then_run (c, err e) k = (c, err e)

infixl 5 ◌>>=◌
unfoldable pub ◌>>=◌ : {R A B : Type 0} → Action R A → (A → Action R B) → Action R B
◌>>=◌ m k c = then_run (m c) k

zeros : ℕ → Str
zeros ℕ.zero = []
zeros (ℕ.suc n) = b'0' ∷ zeros n

-- "%06d"
unfoldable pub six_digits : ℕ → Str
unfolding zeros of_int
six_digits n = let digits = of_int (pos n) in zeros (6 - length digits) ++ digits

abbrev pub ticked : {R : Type 0} → Core R → Core R
ticked c = record c { tick = c.tick + 1 }

-- the core after a write to its backend, which is one tick
abbrev pub written :
    {R : Type 0} → Core R → MemoryBackend × Option BackendError → Core R × Result RunError Unit
written c (b, none) = (record c { backend = b; tick = c.tick + 1 }, ok tt)
written c (b, some e) = (record c { backend = b; tick = c.tick + 1 }, err (backend_failed e))

abbrev pub read_out : {A : Type 0} → Result BackendError A → Result RunError A
read_out (ok a) = ok a
read_out (err e) = err (backend_failed e)

module _ {R : Type 0} (env : Env R) where
  -- `nextEventID`
  unfoldable pub next_event_id : Str → Action R Str
  unfolding six_digits
  next_event_id kind c =
      let n = c.counter + 1 in
      (record c { counter = n }, ok (env.id ++ codes "." ++ six_digits n ++ codes "." ++ kind))

  -- `time.Now()`
  abbrev pub time : Action R ℕ
  time c = (ticked c, ok (env.now c.tick))

  -- `backendAppendEvent`
  unfoldable pub append : Event → Action R Unit
  unfolding append_event
  append e c = written c (append_event (env.context c.tick) e c.backend)

  -- `backendAppendBlob`
  unfoldable pub put_blob : Str → Str → Action R Unit
  unfolding append_blob
  put_blob ref payload c = written c (append_blob (env.context c.tick) ref payload c.backend)

  unfoldable pub list_session : Action R (List Event)
  unfolding list_events_by_session
  list_session c =
      (ticked c, read_out (list_events_by_session (env.context c.tick) env.id c.backend))

  unfoldable pub list_branch : Str → Action R (List Event)
  unfolding list_events_by_branch
  list_branch branch c =
      (ticked c, read_out (list_events_by_branch (env.context c.tick) env.id branch c.backend))

  -- an event of the session on a branch, with a new id
  unfoldable pub new_event : Str → Str → Str → Fields → Action R Event
  unfolding next_event_id
  new_event name kind branch meta = next_event_id name >>= λ id. time >>= λ now. pure (record {
    id = id;
    session_id = env.id;
    ts = now;
    kind = kind;
    branch_id = branch;
    parent_event_id = codes "";
    refs = [];
    meta = meta;
    blob_ref = codes "";
  })

  -- an error that the source ignores
  unfoldable pub ignoring : Action R Unit → Action R Unit
  ignoring m c = ((m c).0, ok tt)
