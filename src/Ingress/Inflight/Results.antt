-- ===== src/Ingress/Inflight/Results.antt =====
-- The result of a call: it never changes, and followers read the leader's.
use pancakes_harness.Prelude.{
  ℕ, ◌≡◌, refl, ap, true, false, Option, none, some, List, [], ◌∷◌, ◌++◌, arith, length, get_elem?,
  set, get_elem?-set, get_elem?-append, get_elem?-length,
}
use pancakes_harness.Bytes.{Str, eq_self}
use pancakes_harness.Dict.{lookup, insert, delete, lookup-insert_self, lookup-delete}
use pancakes_harness.Ingress.Inflight.{
  Phase, active, published, released, Call, Inflight, Ticket, enter, publish, publish_found,
  at_phase, release, release_found, release_phase, complete, read, result_of,
}
use pancakes_harness.Ingress.Inflight.Steps.{Step, enters, publishes, releases, Reach, here, next}

module _ {V : Type 0} where
  -- What a call has published stays what its tickets read.
  read-enter :
      (key : Str) (s : Inflight V) (c : ℕ) (v : V)
      → read c s ≡ some v
      → read c (enter key s).0 ≡ some v
  unfolding read enter result_of
  read-enter key s c v h = ground (
    arith,
    get_elem?-append s.heap (record { key = key; phase = active }) c,
    get_elem?-length s.heap,
  )

  read-at_phase :
      (p : Phase V) (d : ℕ) (w : V) (x : Call V) (s : Inflight V) (c : ℕ) (v : V)
      → get_elem? s.heap d ≡ some x
      → x.phase ≡ p
      → read c s ≡ some v
      → read c (at_phase p d w x s) ≡ some v
  unfolding read at_phase result_of
  read-at_phase active d w x s c v at e h =
      ground (arith, get_elem?-set s.heap d c (record x { phase = published w }) x at)
  read-at_phase (published u) d w x s c v at e h = h
  read-at_phase (released u) d w x s c v at e h = h

  read-release_phase :
      (p : Phase V) (d : ℕ) (x : Call V) (s : Inflight V) (c : ℕ) (v : V)
      → get_elem? s.heap d ≡ some x
      → x.phase ≡ p
      → read c s ≡ some v
      → read c (release_phase p d x s) ≡ some v
  unfolding read release_phase result_of
  read-release_phase active d x s c v at e h = h
  read-release_phase (published u) d x s c v at e h =
      ground (arith, get_elem?-set s.heap d c (record x { phase = released u }) x at)
  read-release_phase (released u) d x s c v at e h = h

  read-Step : {s t : Inflight V} (c : ℕ) (v : V) → Step s t → read c s ≡ some v → read c t ≡ some v
  unfolding publish publish_found release release_found
  read-Step c v (enters key s) h = read-enter key s c v h
  read-Step c v (publishes d w s) h = found (get_elem? s.heap d) refl
    where
      found :
          (o : Option (Call V)) → get_elem? s.heap d ≡ o → read c (publish_found o d w s) ≡ some v
      found none e = h
      found (some x) e = read-at_phase x.phase d w x s c v e refl h
  read-Step c v (releases d s) h = found (get_elem? s.heap d) refl
    where
      found : (o : Option (Call V)) → get_elem? s.heap d ≡ o → read c (release_found o d s) ≡ some v
      found none e = h
      found (some x) e = read-release_phase x.phase d x s c v e refl h

  -- Once a call has a result, every ticket of it reads that result, whatever callers do later: a
  -- second completion changes nothing.
  read_stable :
      {s t : Inflight V} (c : ℕ) (v : V) → Reach s t → read c s ≡ some v → read c t ≡ some v
  read_stable c v here h = h
  read_stable c v (next r st) h = read-Step c v st (read_stable c v r h)

  last_call : (xs : List (Call V)) (x : Call V) → get_elem? (xs ++ x ∷ []) (length xs) ≡ some x
  last_call xs x = ground (arith, get_elem?-append xs x (length xs))

  -- the state after a leader has entered
  abbrev entered : Str → Inflight V → Inflight V
  entered key s = record {
    calls = insert key (length s.heap) s.calls;
    heap = s.heap ++ record { key = key; phase = active } ∷ [];
  }

  enter_free :
      (key : Str) (s : Inflight V)
      → lookup key s.calls ≡ none
      → enter key s ≡ (entered key s, record { leader = true; call = length s.heap })
  unfolding enter
  enter_free key s free = rw free

  enter_again :
      (key : Str) (s : Inflight V)
      → enter key (entered key s) ≡ (entered key s, record { leader = false; call = length s.heap })
  unfolding enter
  enter_again key s = rw (lookup-insert_self key (length s.heap) s.calls)

  -- and after it has completed
  abbrev finished : Str → V → Inflight V → Inflight V
  finished key v s = record {
    calls = delete key (entered key s).calls;
    heap =
        set (set (entered key s).heap (length s.heap) (record { key = key; phase = published v }))
          (length s.heap) (record { key = key; phase = released v });
  }

  published_call :
      (key : Str) (v : V) (s : Inflight V)
      → get_elem?
          (set (entered key s).heap (length s.heap) (record { key = key; phase = published v }))
          (length s.heap)
        ≡ some (record { key = key; phase = published v })
  published_call key v s =
      let running : Call V = record { key = key; phase = active } in
      ground (
        arith,
        get_elem?-set (entered key s).heap (length s.heap) (length s.heap)
            (record { key = key; phase = published v }) running (last_call s.heap running),
      )

  complete-entered :
      (key : Str) (v : V) (s : Inflight V)
      → complete (record { leader = true; call = length s.heap }) v (entered key s)
        ≡ finished key v s
  unfolding complete
  complete-entered key v s =
      rw (last_call s.heap (record { key = key; phase = active }), published_call key v s)

  read-finished :
      (key : Str) (v : V) (s : Inflight V) → read (length s.heap) (finished key v s) ≡ some v
  unfolding read
  read-finished key v s =
      let e =
        get_elem?-set
          (set (entered key s).heap (length s.heap) (record { key = key; phase = published v }))
          (length s.heap) (length s.heap) (record { key = key; phase = released v })
          (record { key = key; phase = published v }) (published_call key v s) in
      ground (arith, e)

  enter-finished :
      (key : Str) (v : V) (s : Inflight V) → (enter key (finished key v s)).1.leader ≡ true
  unfolding enter
  enter-finished key v s = rw (lookup-delete key key (entered key s).calls, eq_self key)

  -- The leader of a free key runs a call of its own; whoever enters with that key right after
  -- follows the same call, and once the leader completes it reads the leader's result, and the next
  -- to enter with the key leads again.
  pub coalesces :
      (key : Str) (v : V) (s : Inflight V)
      → lookup key s.calls ≡ none
      → ((enter key s).1.leader ≡ true)
        × ((enter key (enter key s).0).1 ≡ record { leader = false; call = (enter key s).1.call })
        × (read (enter key s).1.call (complete (enter key s).1 v (enter key s).0) ≡ some v)
        × ((enter key (complete (enter key s).1 v (enter key s).0)).1.leader ≡ true)
  coalesces key v s free =
      rw (enter_free key s free, complete-entered key v s)
        (
          refl,
          ap (λ (r : Inflight V × Ticket). r.1) (enter_again key s),
          read-finished key v s,
          enter-finished key v s,
        )
