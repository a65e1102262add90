-- ===== src/Ingress/Inflight.antt =====
-- internal/ingress/inflight.go. A call is an object that the map and the tickets share: a place in
-- a heap. `Complete` first publishes its result and closes the channel, once, and then takes the
-- lock to delete the key: two steps, between which others may come in.
pub mod Steps
pub mod Results
use pancakes_harness.Prelude.{
  ℕ, Bool, true, false, Option, none, some, List, [], ◌∷◌, ◌++◌, length, get_elem?, set,
}
use pancakes_harness.Bytes.{Str}
use pancakes_harness.Dict.{Dict, lookup, insert, delete}

-- running; published and still in the map; or deleted from it
pub data Phase (V : Type 0) : Type 0 where
  active : Phase V
  published : V → Phase V
  released : V → Phase V

pub record Call (V : Type 0) : Type 0 where
  pub key : Str
  pub phase : Phase V

pub record Inflight (V : Type 0) : Type 0 where
  pub calls : Dict ℕ
  pub heap : List (Call V)

pub record Ticket : Type 0 where
  pub leader : Bool
  pub call : ℕ

module _ {V : Type 0} where
  -- `NewInflight`
  abbrev pub new_inflight : Inflight V
  new_inflight = record { calls = []; heap = [] }

  join : Option ℕ → Str → Inflight V → Inflight V × Ticket
  join (some c) key s = (s, record { leader = false; call = c })
  join none key s = (
    record {
      calls = insert key (length s.heap) s.calls;
      heap = s.heap ++ record { key = key; phase = active } ∷ [];
    },
    record { leader = true; call = length s.heap },
  )

  unfoldable pub enter : Str → Inflight V → Inflight V × Ticket
  unfolding join
  enter key s = join (lookup key s.calls) key s

  at_phase : Phase V → ℕ → V → Call V → Inflight V → Inflight V
  at_phase active c v x s = record s { heap = set s.heap c (record x { phase = published v }) }
  at_phase _ c v x s = s

  publish_found : Option (Call V) → ℕ → V → Inflight V → Inflight V
  unfolding at_phase
  publish_found none c v s = s
  publish_found (some x) c v s = at_phase x.phase c v x s

  -- `c.value = v; c.err = err; close(c.done)`, under the call's `once`
  unfoldable pub publish : ℕ → V → Inflight V → Inflight V
  unfolding publish_found
  publish c v s = publish_found (get_elem? s.heap c) c v s

  release_phase : Phase V → ℕ → Call V → Inflight V → Inflight V
  release_phase (published v) c x s = record s {
    calls = delete x.key s.calls;
    heap = set s.heap c (record x { phase = released v });
  }
  release_phase _ c x s = s

  release_found : Option (Call V) → ℕ → Inflight V → Inflight V
  unfolding release_phase
  release_found none c s = s
  release_found (some x) c s = release_phase x.phase c x s

  -- `delete(i.calls, key)` under the lock, the second part of the same `once`
  unfoldable pub release : ℕ → Inflight V → Inflight V
  unfolding release_found
  release c s = release_found (get_elem? s.heap c) c s

  -- `Ticket.Complete`, with nobody coming in between
  unfoldable pub complete : Ticket → V → Inflight V → Inflight V
  unfolding publish release
  complete t v s = elim t.leader [ true ↦ release t.call (publish t.call v s) | false ↦ s ]

  result_of : Option (Call V) → Option V
  result_of none = none
  result_of (some x) = elim x.phase [ active ↦ none | published v ↦ some v | released v ↦ some v ]

  -- What `t.read()` gives once `t.done` is closed, `none` while it is open.
  unfoldable pub read : ℕ → Inflight V → Option V
  unfolding result_of
  read c s = result_of (get_elem? s.heap c)

-- The ends that a `WaitValue` can come to: its `select` may take either case that is ready.
pub data Waited (V E : Type 0) : Type 0 where
  coalesced : V → Waited V E
  cancelled : E → Waited V E

module _ {V E : Type 0} where
  from_done : Option V → List (Waited V E)
  from_done none = []
  from_done (some v) = coalesced v ∷ []

  from_context : Option E → List (Waited V E)
  from_context none = []
  from_context (some e) = cancelled e ∷ []

  -- The empty list: the caller stays blocked.
  unfoldable pub wait_value : Option E → Ticket → Inflight V → List (Waited V E)
  unfolding from_done from_context read
  wait_value ctx t s = from_done (read t.call s) ++ from_context ctx
