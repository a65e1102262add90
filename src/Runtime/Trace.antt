-- ===== src/Runtime/Trace.antt =====
-- The requests that a turn hands to the adapter: what holds of each of them, and how many there are.
use pancakes_harness.Prelude.{◌≡◌, refl, Option, List}
use pancakes_harness.Prelude.Result.{Result, ok, err}
use pancakes_harness.Model.{Request}
use pancakes_harness.Runtime.{Core, State, RunError}
use pancakes_harness.Runtime.Monad.{Action, pure, raise, then_run, ◌>>=◌}
use pancakes_harness.Runtime.Turn.{
  TurnResult, Step, go, stop, Round, next_step, step_of, lift, ◌>>>◌,
}

-- what a step goes on with
abbrev pub Goes : {A : Type 0} → (A → Type 0) → Step A → Type 0
Goes Q (go a) = Q a
Goes Q (stop r e) = Unit

-- what an action returns
abbrev pub Gives : {A : Type 0} → (A → Type 0) → Result RunError A → Type 0
Gives Q (ok a) = Q a
Gives Q (err e) = Unit

Gives-Goes : {A : Type 0} (Q : A → Type 0) (r : Result RunError A) → Gives Q r → Goes Q (step_of r)
Gives-Goes Q (ok a) q = q
Gives-Goes Q (err e) q = tt

abbrev pub Anything : {A : Type 0} → A → Type 0
Anything a = Unit

-- a result gives itself
pub Gives-self : {A : Type 0} (r : Result RunError A) → Gives (λ a. r ≡ ok a) r
Gives-self (ok a) = refl
Gives-self (err e) = tt

given : {A : Type 0} (r : Result RunError A) → Gives Anything r
given (ok a) = tt
given (err e) = tt

module _ {R : Type 0} where
  -- Every value that an action returns satisfies `Q`.
  unfoldable pub Returns : {A : Type 0} → (A → Type 0) → Action R A → Type 0
  Returns Q m = (c : Core R) → Gives Q (m c).1

  pub Returns-bind :
      {A B : Type 0} (Q : A → Type 0) (P : B → Type 0) (m : Action R A) (k : A → Action R B)
      → Returns Q m
      → ((a : A) → Q a → Returns P (k a))
      → Returns P (m >>= k)
  unfolding Returns ◌>>=◌
  Returns-bind Q P m k first rest c = go_on (m c) (first c)
    where
      go_on : (r : Core R × Result RunError _) → Gives Q r.1 → Gives P (then_run r k).1
      go_on (c', ok a) q = rest a q c'
      go_on (c', err e) q = tt

  -- The same at one core, and for a round at one state.
  pub Gives-bind :
      {A B : Type 0} (Q : A → Type 0) (P : B → Type 0) (m : Action R A) (k : A → Action R B)
      (c : Core R)
      → Gives Q (m c).1
      → ((a : A) → Q a → Returns P (k a))
      → Gives P ((m >>= k) c).1
  unfolding Returns ◌>>=◌
  Gives-bind Q P m k c first rest = go_on (m c) first
    where
      go_on : (r : Core R × Result RunError _) → Gives Q r.1 → Gives P (then_run r k).1
      go_on (c', ok a) q = rest a q c'
      go_on (c', err e) q = tt

  -- A round that starts with `I` of the requests sent ends with `J` of them, and goes on with values
  -- of `Q`.
  unfoldable pub Sends :
      {A : Type 0}
      → (List Request → Type 0)
      → (List Request → Type 0)
      → (A → Type 0)
      → Round R A
      → Type 0
  Sends I J Q m = (s : State R) → I s.sent → J (m s).0.sent × Goes Q (m s).1

  pub Sends-bind :
      {A B : Type 0} (I J K : List Request → Type 0) (Q : A → Type 0) (P : B → Type 0)
      (m : Round R A) (k : A → Round R B)
      → ((rs : List Request) → J rs → K rs)
      → Sends I J Q m
      → ((a : A) → Q a → Sends J K P (k a))
      → Sends I K P (m >>> k)
  unfolding Sends ◌>>>◌
  Sends-bind I J K Q P m k weaken first rest s i = go_on (m s) (first s i)
    where
      go_on :
          (r : State R × Step _)
          → J r.0.sent × Goes Q r.1
          → K (next_step r k).0.sent × Goes P (next_step r k).1
      go_on (s', go a) (j, q) = rest a q s' j
      go_on (s', stop r e) (j, q) = (weaken s'.sent j, tt)

  unfoldable pub SendsAt :
      {A : Type 0} → State R → (List Request → Type 0) → (A → Type 0) → Round R A → Type 0
  SendsAt s J Q m = J (m s).0.sent × Goes Q (m s).1

  pub SendsAt-bind :
      {A B : Type 0} (s : State R) (J K : List Request → Type 0) (Q : A → Type 0) (P : B → Type 0)
      (m : Round R A) (k : A → Round R B)
      → ((rs : List Request) → J rs → K rs)
      → SendsAt s J Q m
      → ((a : A) → Q a → Sends J K P (k a))
      → SendsAt s K P (m >>> k)
  unfolding Sends SendsAt ◌>>>◌
  SendsAt-bind s J K Q P m k weaken first rest = go_on (m s) first
    where
      go_on :
          (r : State R × Step _)
          → J r.0.sent × Goes Q r.1
          → K (next_step r k).0.sent × Goes P (next_step r k).1
      go_on (s', go a) (j, q) = rest a q s' j
      go_on (s', stop r e) (j, q) = (weaken s'.sent j, tt)

  pub SendsAt-lift :
      {A : Type 0} (s : State R) (Q : A → Type 0) (m : Action R A)
      → Gives Q (m s.core).1
      → SendsAt s (λ rs. rs ≡ s.sent) Q (lift m)
  unfolding SendsAt lift
  SendsAt-lift s Q m given = (refl, Gives-Goes Q (m s.core).1 given)

  -- An action on the core sends nothing.
  pub Sends-lift :
      {A : Type 0} (I : List Request → Type 0) (Q : A → Type 0) (m : Action R A)
      → Returns Q m
      → Sends I I Q (lift m)
  unfolding Sends Returns lift
  Sends-lift I Q m returns s i = (i, Gives-Goes Q (m s.core).1 (returns s.core))

  pub Returns-any : {A : Type 0} (m : Action R A) → Returns Anything m
  unfolding Returns
  Returns-any m c = given (m c).1

  -- the same, when nothing is asked of the first action
  pub Returns-after :
      {A B : Type 0} (P : B → Type 0) (m : Action R A) (k : A → Action R B)
      → ((a : A) → Returns P (k a))
      → Returns P (m >>= k)
  Returns-after P m k rest = Returns-bind Anything P m k (Returns-any m) (λ a _. rest a)

  -- A round that is an action on the core and then a fixed end.
  pub Sends-after :
      {A B : Type 0} (I : List Request → Type 0) (P : B → Type 0) (m : Action R A)
      (k : A → Round R B)
      → ((a : A) → Sends I I P (k a))
      → Sends I I P (lift m >>> k)
  Sends-after I P m k rest =
      Sends-bind I I I Anything P (lift m) k (λ rs i. i) (Sends-lift I Anything m (Returns-any m))
        (λ a _. rest a)

pub Returns-pure :
    (R : Type 0) {A : Type 0} (Q : A → Type 0) (a : A) → Q a → Returns Q (pure {R = R} a)
unfolding Returns pure
Returns-pure R Q a q c = q

pub Returns-raise :
    (R : Type 0) {A : Type 0} (Q : A → Type 0) (e : RunError) → Returns Q (raise {R = R} e)
unfolding Returns raise
Returns-raise R Q e c = tt

-- A round that ends the turn, or goes on with a value, at once.
pub Sends-stop :
    (R : Type 0) {A : Type 0} (I : List Request → Type 0) (Q : A → Type 0) (r : TurnResult)
    (e : Option RunError)
    → Sends {R = R} I I Q (λ s. (s, stop r e))
unfolding Sends
Sends-stop R I Q r e s i = (i, tt)

pub Sends-go :
    (R : Type 0) {A : Type 0} (I : List Request → Type 0) (Q : A → Type 0) (a : A)
    → Q a
    → Sends {R = R} I I Q (λ s. (s, go a))
unfolding Sends
Sends-go R I Q a q s i = (i, q)
