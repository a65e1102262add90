-- ===== src/Ingress/Inflight/Steps.antt =====
-- Requests that enter and complete in any interleaving.
use pancakes_harness.Prelude.{
  ℕ, ◌≡◌, refl, sym, ◌∙◌, ap, Bool, true, false, Option, none, some, arith, length, get_elem?,
  get_elem?-set, get_elem?-append,
}
use pancakes_harness.Bytes.{Str, eq_iff}
use pancakes_harness.Dict.{lookup, lookup-insert, lookup-delete}
use pancakes_harness.Ingress.Inflight.{
  Phase, active, published, released, Call, Inflight, new_inflight, enter, join, publish,
  publish_found, at_phase, release, release_found, release_phase,
}

module _ {V : Type 0} where
  -- One step of any caller.
  pub data Step : Inflight V → Inflight V → Type 0 where
    enters : (key : Str) (s : Inflight V) → Step s (enter key s).0
    publishes : (c : ℕ) (v : V) (s : Inflight V) → Step s (publish c v s)
    releases : (c : ℕ) (s : Inflight V) → Step s (release c s)

  pub data Reach (s : Inflight V) : Inflight V → Type 0 where
    here : Reach s s
    next : {t u : Inflight V} → Reach s t → Step t u → Reach s u

  abbrev pub is_released : Phase V → Bool
  is_released active = false
  is_released (published v) = false
  is_released (released v) = true

  -- The map leads to the calls that are not released, each under its key, and to no other.
  pub record IsConsistent (s : Inflight V) : Type 0 where
    pub held :
        (c : ℕ) (x : Call V)
        → get_elem? s.heap c ≡ some x
        → is_released x.phase ≡ false
        → lookup x.key s.calls ≡ some c

  new-IsConsistent : IsConsistent new_inflight
  unfolding get_elem?
  new-IsConsistent = record { held = λ c x h r. cc }

  join-IsConsistent :
      (o : Option ℕ) (key : Str) (s : Inflight V)
      → lookup key s.calls ≡ o
      → IsConsistent s
      → IsConsistent (join o key s).0
  unfolding join
  join-IsConsistent (some c) key s h k = k
  join-IsConsistent none key s h k = record {
    held = λ c x at r. ground (
      arith,
      get_elem?-append s.heap (record { key = key; phase = active }) c,
      lookup-insert key x.key (length s.heap) s.calls,
      eq_iff key x.key,
      k.held c x,
    );
  }

  at_phase-IsConsistent :
      (p : Phase V) (c : ℕ) (v : V) (x : Call V) (s : Inflight V)
      → get_elem? s.heap c ≡ some x
      → x.phase ≡ p
      → IsConsistent s
      → IsConsistent (at_phase p c v x s)
  unfolding at_phase
  at_phase-IsConsistent active c v x s h e k = record {
    held = λ d y at r. ground (
      arith,
      get_elem?-set s.heap c d (record x { phase = published v }) x h,
      k.held d y,
      k.held c x,
    );
  }
  at_phase-IsConsistent (published w) c v x s h e k = k
  at_phase-IsConsistent (released w) c v x s h e k = k

  release_phase-IsConsistent :
      (p : Phase V) (c : ℕ) (x : Call V) (s : Inflight V)
      → get_elem? s.heap c ≡ some x
      → x.phase ≡ p
      → IsConsistent s
      → IsConsistent (release_phase p c x s)
  unfolding release_phase
  release_phase-IsConsistent (published w) c x s h e k = record {
    held = λ d y at r. ground (
      arith,
      get_elem?-set s.heap c d (record x { phase = released w }) x h,
      k.held d y,
      k.held c x,
      lookup-delete x.key y.key s.calls,
      eq_iff x.key y.key,
    );
  }
  release_phase-IsConsistent active c x s h e k = k
  release_phase-IsConsistent (released w) c x s h e k = k

  Step-IsConsistent : {s t : Inflight V} → Step s t → IsConsistent s → IsConsistent t
  unfolding enter publish publish_found release release_found
  Step-IsConsistent (enters key s) k = join-IsConsistent (lookup key s.calls) key s refl k
  Step-IsConsistent (publishes c v s) k = found (get_elem? s.heap c) refl
    where
      found : (o : Option (Call V)) → get_elem? s.heap c ≡ o → IsConsistent (publish_found o c v s)
      found none h = k
      found (some x) h = at_phase-IsConsistent x.phase c v x s h refl k
  Step-IsConsistent (releases c s) k = found (get_elem? s.heap c) refl
    where
      found : (o : Option (Call V)) → get_elem? s.heap c ≡ o → IsConsistent (release_found o c s)
      found none h = k
      found (some x) h = release_phase-IsConsistent x.phase c x s h refl k

  pub Reach-IsConsistent : {s t : Inflight V} → IsConsistent s → Reach s t → IsConsistent t
  Reach-IsConsistent k here = k
  Reach-IsConsistent k (next r st) = Step-IsConsistent st (Reach-IsConsistent k r)

  -- In every state that any callers can reach, two calls of one key that are not released are the
  -- same call: at most one leader runs for a key at a time.
  pub one_call_per_key :
      (s : Inflight V) (c d : ℕ) (x y : Call V)
      → Reach new_inflight s
      → get_elem? s.heap c ≡ some x
      → get_elem? s.heap d ≡ some y
      → x.key ≡ y.key
      → is_released x.phase ≡ false
      → is_released y.phase ≡ false
      → c ≡ d
  one_call_per_key s c d x y r h k same p q =
      let consistent = Reach-IsConsistent new-IsConsistent r in
      let found : lookup y.key s.calls ≡ some c =
        ap (λ k. lookup k s.calls) (sym same) ∙ consistent.held c x h p in
      cc (found, consistent.held d y k q)
