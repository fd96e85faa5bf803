-- ===== src/App/Told.antt =====
-- What a body returns together with the calls that it has made: one rule for each way to build it.
use localclaw.Common.{◌≡◌, refl, Option, none, some, List, [], ◌∷◌, ◌++◌}
use localclaw.App.Body.{
  Event, Flow, next, done, M, Body, result, pure, return, lift, func, or_return, nil_or_return,
  call, ◌>>=◌,
}
use localclaw.App.Host.{Call, Response, Host}
use localclaw.Domain.Errors.{Error, Result, ok, err}

abbrev pub event : (c : Call) → Response c → Event
event c r = record { call = c; answer = r }

-- `D` of what is returned and `P` of the value that the next statement starts with, and the calls.
abbrev pub Ends :
    {R A : Type 0}
    → (R → List Event → Type 0)
    → (A → List Event → Type 0)
    → Flow R A
    → List Event
    → Type 0
Ends D P (next a) events = P a events
Ends D P (done r) events = D r events

pub record Tells {S R A : Type 0} (D : R → List Event → Type 0) (P : A → List Event → Type 0)
    (m : Body S R A) : Type 0 where
  pub at : (s : S) → Ends D P (m s).value (m s).events

-- The same of what stands behind calls that were made.
abbrev pub Behind : {A : Type 0} → List Event → (A → List Event → Type 0) → A → List Event → Type 0
Behind events P a more = P a (events ++ more)

flow-Behind :
    {R A : Type 0} (D : R → List Event → Type 0) (P : A → List Event → Type 0) (events : List Event)
    (v : Flow R A) (more : List Event)
    → Ends (Behind events D) (Behind events P) v more
    → Ends D P v (events ++ more)
flow-Behind D P events (next a) more h = h
flow-Behind D P events (done r) more h = h

module _ {S R A : Type 0} {D : R → List Event → Type 0} {P : A → List Event → Type 0} where
  pub Tells-pure : (a : A) → P a [] → Tells {S = S} D P (pure a)
  unfolding pure
  Tells-pure a h = record { at = λ s. h }

  pub Tells-return : (r : R) → D r [] → Tells {S = S} D P (return r)
  unfolding return
  Tells-return r h = record { at = λ s. h }

  pub Tells-nil_then :
      (f : Error → R) (o : Option Error) (k : Unit {0} → Body S R A)
      → (o ≡ none → Tells D P (k tt))
      → ((e : Error) → D (f e) [])
      → Tells D P (nil_or_return f o >>= k)
  unfolding ◌>>=◌ nil_or_return pure return
  Tells-nil_then f none k h g = record { at = λ s. (h refl).at s }
  Tells-nil_then f (some e) k h g = record { at = λ s. g e }

  pub Tells-or_then :
      {B : Type 0} (f : Error → R) (r : Result B) (k : B → Body S R A)
      → ((b : B) → Tells D P (k b))
      → ((e : Error) → D (f e) [])
      → Tells D P (or_return f r >>= k)
  unfolding ◌>>=◌ or_return pure return
  Tells-or_then f (ok b) k h g = record { at = λ s. (h b).at s }
  Tells-or_then f (err e) k h g = record { at = λ s. g e }

  pub Tells-call_then :
      ⦃H : Host S⦄ (c : Call) (k : Response c → Body S R A)
      → ((r : Response c) → Tells (Behind (event c r ∷ []) D) (Behind (event c r ∷ []) P) (k r))
      → Tells D P (call c >>= k)
  unfolding ◌>>=◌ call
  Tells-call_then ⦃H = H⦄ c k h = record {
    at = λ s.
        flow-Behind D P (event c (H.answer c s).0 ∷ []) (k (H.answer c s).0 (H.answer c s).1).value
          (k (H.answer c s).0 (H.answer c s).1).events ((h (H.answer c s).0).at (H.answer c s).1);
  }

-- A call of another function, of which `Q` is known.
abbrev pub Told : {S A : Type 0} → (A → List Event → Type 0) → M S A → Type 0
Told {S = S} Q m = (s : S) → Q (m s).value (m s).events

module _ {S R A : Type 0} {D : R → List Event → Type 0} {P : A → List Event → Type 0} where
  pub Tells-lift_then :
      {B : Type 0} (Q : B → List Event → Type 0) (m : M S B) (k : B → Body S R A)
      → Told Q m
      → ((b : B) (events : List Event)
          → Q b events
          → Tells (Behind events D) (Behind events P) (k b))
      → Tells D P (lift m >>= k)
  unfolding ◌>>=◌ lift
  Tells-lift_then Q m k h g = record {
    at = λ s.
        flow-Behind D P (m s).events (k (m s).value (m s).state).value
          (k (m s).value (m s).state).events ((g (m s).value (m s).events (h s)).at (m s).state);
  }

whole :
    {R : Type 0} (D : R → List Event → Type 0) (v : Flow R R) (events : List Event)
    → Ends D D v events
    → D (result v) events
whole D (next a) events h = h
whole D (done r) events h = h

pub Told-func :
    {S R : Type 0} (D : R → List Event → Type 0) (b : Body S R R) → Tells D D b → Told D (func b)
unfolding func
Told-func D b h s = whole D (b s).value (b s).events (h.at s)
