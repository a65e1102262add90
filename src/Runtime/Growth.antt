-- ===== src/Runtime/Growth.antt =====
-- No operation of a session takes an event out of the log.
use mathlib.Core.Path.{subst}
use pancakes_harness.Prelude.{
  ◌≡◌, refl, sym, inl, inr, Option, none, some, List, [], ◌∷◌, ◌++◌, Bool-cases,
}
use pancakes_harness.Prelude.Result.{Result, ok, err}
use pancakes_harness.Bytes.{Str, codes, ◌==◌, eq_iff}
use pancakes_harness.Dict.{lookup, lookup-insert}
use pancakes_harness.Eventlog.Event.{Event, Fields, is_valid}
use pancakes_harness.Eventlog.Store.{
  Context, MemoryStore, slice_of, append, append_new, record_event,
}
use pancakes_harness.Backend.{
  MemoryBackend, BackendError, append_event, append_blob, append_blob_absent,
}
use pancakes_harness.Runtime.{Env, Core, RunError}
use pancakes_harness.Runtime.Monad.{
  Action, pure, raise, modify, then_run, written, ◌>>=◌, next_event_id, time, new_event, put_blob,
  list_session, list_branch, ignoring,
}
use pancakes_harness.Runtime.Monad
use pancakes_harness.Runtime.Texts.{Has}

-- the events of a session in the log
abbrev pub logged : Str → MemoryBackend → List Event
logged sid b = slice_of (lookup sid b.spine.sessions)

unfoldable pub Grows : MemoryBackend → MemoryBackend → Type 0
Grows b b' = (sid : Str) (e : Event) → Has e (logged sid b) → Has e (logged sid b')

Has-append : (e x : Event) (es : List Event) → Has e es → Has e (es ++ x ∷ [])
unfolding Has
Has-append e x [] h = absurd h
Has-append e x (y ∷ es) (inl same) = inl same
Has-append e x (y ∷ es) (inr h) = inr (Has-append e x es h)

-- the same, of the store below
StoreGrows : MemoryStore → MemoryStore → Type 0
StoreGrows s s' =
    (sid : Str) (e : Event)
    → Has e (slice_of (lookup sid s.sessions))
    → Has e (slice_of (lookup sid s'.sessions))

record_event-grows : (x : Event) (s : MemoryStore) → StoreGrows s (record_event x s)
unfolding record_event StoreGrows
record_event-grows x s sid e h =
    let found =
      lookup-insert x.session_id sid (slice_of (lookup x.session_id s.sessions) ++ x ∷ [])
        s.sessions in
    elim (Bool-cases (x.session_id == sid)) [
      | inl same ↦
          let key = (eq_iff x.session_id sid).0 same in
          rw (found, same)
            (Has-append e x _ (subst (λ k. Has e (slice_of (lookup k s.sessions))) (sym key) h))
      | inr other ↦ rw (found, other) h
    ]

append_new-grows :
    (x : Event) (old : Option Event) (s : MemoryStore) → StoreGrows s (append_new x old s).0
unfolding append_new StoreGrows
append_new-grows x (some _) s sid e h = h
append_new-grows x none s sid e h = record_event-grows x s sid e h

append-grows : (ctx : Context) (x : Event) (s : MemoryStore) → StoreGrows s (append ctx x s).0
unfolding append StoreGrows
append-grows (some c) x s sid e h = h
append-grows none x s sid e h = elim (Bool-cases (is_valid x)) [
  | inl good ↦ rw (append, good) (append_new-grows x _ s sid e h)
  | inr bad ↦ rw (append, bad) h
]

pub append_event-Grows :
    (ctx : Context) (x : Event) (b : MemoryBackend) → Grows b (append_event ctx x b).0
unfolding append_event Grows StoreGrows
append_event-Grows ctx x b sid e h = append-grows ctx x b.spine sid e h

append_blob_absent-Grows :
    (old : Option Str) (ref payload : Str) (b : MemoryBackend)
    → Grows b (append_blob_absent old ref payload b).0
unfolding append_blob_absent Grows
append_blob_absent-Grows (some _) ref payload b sid e h = h
append_blob_absent-Grows none ref payload b sid e h = h

pub append_blob-Grows :
    (ctx : Context) (ref payload : Str) (b : MemoryBackend)
    → Grows b (append_blob ctx ref payload b).0
unfolding append_blob Grows
append_blob-Grows (some c) ref payload b sid e h = h
append_blob-Grows none ref payload b sid e h = elim (Bool-cases (ref == codes "")) [
  | inl bad ↦ rw (append_blob, bad) h
  | inr good ↦
      rw (append_blob, good) (append_blob_absent-Grows (lookup ref b.blobs) ref payload b sid e h)
]

pub Grows-refl : (b : MemoryBackend) → Grows b b
unfolding Grows
Grows-refl b sid e h = h

pub Grows-trans : (a b c : MemoryBackend) → Grows a b → Grows b c → Grows a c
unfolding Grows
Grows-trans a b c g h sid e x = h sid e (g sid e x)

module _ {R : Type 0} where
  -- an action keeps the log
  unfoldable pub Grown : {A : Type 0} → Action R A → Type 0
  Grown m = (c : Core R) → Grows c.backend (m c).0.backend

  pub Grown-bind :
      {A B : Type 0} (m : Action R A) (k : A → Action R B)
      → Grown m
      → ((a : A) → Grown (k a))
      → Grown (m >>= k)
  unfolding Grown ◌>>=◌
  Grown-bind m k first rest c = go_on (m c) (first c)
    where
      go_on :
          (r : Core R × Result RunError _)
          → Grows c.backend r.0.backend
          → Grows c.backend (then_run r k).0.backend
      go_on (c', ok a) g = Grows-trans c.backend c'.backend _ g (rest a c')
      go_on (c', err e) g = g

  -- an action that leaves the backend as it is
  pub Grown-same :
      {A : Type 0} (m : Action R A) → ((c : Core R) → (m c).0.backend ≡ c.backend) → Grown m
  unfolding Grown Grows
  Grown-same m same c sid e h = subst (λ b. Has e (logged sid b)) (sym (same c)) h

  pub Grown-modify :
      (f : Core R → Core R) → ((c : Core R) → (f c).backend ≡ c.backend) → Grown (modify f)
  Grown-modify f same = Grown-same (modify f) same

  written-backend :
      (c : Core R) (r : MemoryBackend × Option BackendError) → (written c r).0.backend ≡ r.0
  written-backend c (b, none) = refl
  written-backend c (b, some e) = refl

pub Grown-pure : (R : Type 0) {A : Type 0} (a : A) → Grown (pure {R = R} a)
unfolding pure
Grown-pure R a = Grown-same (λ c. (c, ok a)) (λ c. refl)

pub Grown-raise : (R A : Type 0) (e : RunError) → Grown (raise {R = R} {A = A} e)
unfolding raise
Grown-raise R A e = Grown-same (λ c. (c, err e)) (λ c. refl)

module _ {R : Type 0} (env : Env R) where
  pub append-Grown : (x : Event) → Grown (Monad.append env x)
  unfolding Monad.append Grown Grows
  append-Grown x c sid e h =
      subst (λ b. Has e (logged sid b)) (sym (written-backend c _))
        (append_event-Grows (env.context c.tick) x c.backend sid e h)

  pub put_blob-Grown : (ref payload : Str) → Grown (put_blob env ref payload)
  unfolding put_blob Grown Grows
  put_blob-Grown ref payload c sid e h =
      subst (λ b. Has e (logged sid b)) (sym (written-backend c _))
        (append_blob-Grows (env.context c.tick) ref payload c.backend sid e h)

  pub next_event_id-Grown : (name : Str) → Grown (next_event_id env name)
  unfolding next_event_id
  next_event_id-Grown name = Grown-same _ (λ c. refl)

  pub time-Grown : Grown (time env)
  time-Grown = Grown-same _ (λ c. refl)

  pub new_event-Grown :
      (name kind branch : Str) (meta : Fields) → Grown (new_event env name kind branch meta)
  unfolding new_event
  new_event-Grown name kind branch meta =
      Grown-bind _ _ (next_event_id-Grown name)
        (λ id. Grown-bind _ _ time-Grown (λ now. Grown-pure R _))

  pub list_session-Grown : Grown (list_session env)
  unfolding list_session
  list_session-Grown = Grown-same _ (λ c. refl)

  pub list_branch-Grown : (branch : Str) → Grown (list_branch env branch)
  unfolding list_branch
  list_branch-Grown branch = Grown-same _ (λ c. refl)

  pub ignoring-Grown : (m : Action R Unit) → Grown m → Grown (ignoring env m)
  unfolding ignoring Grown
  ignoring-Grown m grown c = grown c

  -- an event with a new id that is appended, and what follows
  pub record-Grown :
      {A : Type 0} (name kind branch : Str) (meta : Fields) (k : Unit → Action R A)
      → ((u : Unit) → Grown (k u))
      → Grown (new_event env name kind branch meta >>= λ e. Monad.append env e >>= k)
  record-Grown name kind branch meta k rest =
      Grown-bind _ _ (new_event-Grown name kind branch meta)
        (λ e. Grown-bind _ _ (append-Grown e) rest)
