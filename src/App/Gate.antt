-- ===== src/App/Gate.antt =====
-- The gate before the keychain: no item of a keychain is touched before a call of Exists has said
-- that the file of that keychain is there.
use localclaw.Common.{
  String, ◌≡◌, refl, ◌∙◌, ◌≢◌, Bool, true, false, ◌||◌, Option, none, some, List, [], ◌∷◌, ◌++◌,
  arith, if◌then◌else◌, ◌==◌, string_eq, nat_eq,
}
use localclaw.App.Host.{
  Call, ctx_err, keychain_exists, keychain_get, keychain_describe, keychain_delete, keychain_put,
  Response, Host,
}
use localclaw.App.Body.{
  on_error, and_then, Event, Flow, next, done, M, Body, pure, return, lift, func, or_return,
  nil_or_return, call, still_running, ◌>>=◌, ◌>>◌,
}
use mathlib.Core.Bool.{false≢true}
use localclaw.App.Secrets.{require_keychain}
use localclaw.Domain.Errors.{Error, Result, ok, err}

-- The keychain whose items a call touches.
abbrev pub touched : Call → Option String
touched (keychain_get path name) = some path
touched (keychain_describe path name) = some path
touched (keychain_delete path name) = some path
touched (keychain_put path name value source replace) = some path
touched _ = none

-- Whether the keychain at `p` is known to be there, behind a call and its answer.
abbrev pub learn : String → Bool → (c : Call) → Response c → Bool
learn p known (keychain_exists path) (ok true) = known || path == p
learn p known _ _ = known

abbrev pub MayTouch : String → Bool → Option String → Type 0
MayTouch p known none = Unit
MayTouch p true (some path) = Unit
MayTouch p false (some path) = path ≢ p

-- Every call that touches an item of the keychain at `p` comes when the keychain is known to be
-- there, where `known` says whether it is at the start.
abbrev pub Accepts : String → Bool → List Event → Type 0
Accepts p known [] = Unit
Accepts p known (e ∷ es) =
    MayTouch p known (touched e.call) × Accepts p (learn p known e.call e.answer) es

abbrev after : String → Bool → List Event → Bool
after p known [] = known
after p known (e ∷ es) = after p (learn p known e.call e.answer) es

-- What a function may rely on: nothing, or that one keychain is there.
pub data Opened : Type 0 where
  nothing : Opened
  opened : String → Opened

abbrev Good : Opened → String → Bool → Type 0
Good nothing p known = Unit
Good (opened path) p known = path ≡ p → known ≡ true

pub record Gated {S A : Type 0} (k : Opened) (m : M S A) : Type 0 where
  pub at : (p : String) (known : Bool) (s : S) → Good k p known → Accepts p known (m s).events

learn-true :
    (p : String) (known : Bool) (c : Call) (r : Response c)
    → known ≡ true
    → learn p known c r ≡ true
learn-true p known (keychain_exists path) (ok true) h = ground arith
learn-true p known (keychain_exists path) (ok false) h = h
learn-true p known (keychain_exists path) (err e) h = h
learn-true p known _ _ h = h

after-true : (p : String) (known : Bool) (es : List Event) → known ≡ true → after p known es ≡ true
after-true p known [] h = h
after-true p known (e ∷ es) h =
    after-true p (learn p known e.call e.answer) es (learn-true p known e.call e.answer h)

Good-after :
    (k : Opened) (p : String) (known : Bool) (es : List Event)
    → Good k p known
    → Good k p (after p known es)
Good-after nothing p known es g = tt
Good-after (opened path) p known es g = λ e. after-true p known es (g e)

Accepts-append :
    (p : String) (known : Bool) (xs ys : List Event)
    → Accepts p known xs
    → Accepts p (after p known xs) ys
    → Accepts p known (xs ++ ys)
Accepts-append p known [] ys h k = k
Accepts-append p known (x ∷ xs) ys (hx, hs) k =
    (hx, Accepts-append p (learn p known x.call x.answer) xs ys hs k)

-- A call that touches no item, or an item of the keychain that is open.
abbrev Fits : Opened → Option String → Type 0
Fits k none = Unit
Fits nothing (some path) = ⊥
Fits (opened path) (some path') = path ≡ path'

Fits-MayTouch :
    (k : Opened) (p : String) (known : Bool) (t : Option String)
    → Good k p known
    → Fits k t
    → MayTouch p known t
Fits-MayTouch k p known none g f = tt
Fits-MayTouch nothing p known (some path) g f = absurd f
Fits-MayTouch (opened path) p true (some path') g f = tt
Fits-MayTouch (opened path) p false (some path') g f = λ e. false≢true (g (f ∙ e))

module _ {S : Type 0} {k : Opened} where
  pub Gated-pure : {R A : Type 0} (a : A) → Gated k (pure {S = S} {R = R} a)
  unfolding pure
  Gated-pure a = record { at = λ p known s g. tt }

  pub Gated-return : {R A : Type 0} (r : R) → Gated k (return {S = S} {A = A} r)
  unfolding return
  Gated-return r = record { at = λ p known s g. tt }

  pub Gated-lift : {R A : Type 0} (m : M S A) → Gated k m → Gated k (lift {R = R} m)
  unfolding lift
  Gated-lift m h = record { at = λ p known s g. h.at p known s g }

  pub Gated-func : {R : Type 0} (b : Body S R R) → Gated k b → Gated k (func b)
  unfolding func
  Gated-func b h = record { at = λ p known s g. h.at p known s g }

  pub Gated-or_return :
      {R A : Type 0} (f : Error → R) (r : Result A) → Gated k (or_return {S = S} f r)
  unfolding or_return
  Gated-or_return f (ok a) = Gated-pure a
  Gated-or_return f (err e) = Gated-return (f e)

  pub Gated-nil_or_return :
      {R : Type 0} (f : Error → R) (o : Option Error) → Gated k (nil_or_return {S = S} f o)
  unfolding nil_or_return
  Gated-nil_or_return f none = Gated-pure tt
  Gated-nil_or_return f (some e) = Gated-return (f e)

  pub Gated-if :
      {A : Type 0} (b : Bool) (m n : M S A) → Gated k m → Gated k n → Gated k (if b then m else n)
  Gated-if true m n hm hn = hm
  Gated-if false m n hm hn = hn

  pub Gated-on_error :
      {A : Type 0} (o : Option Error) (f : Error → M S A) (m : M S A)
      → ((e : Error) → Gated k (f e))
      → Gated k m
      → Gated k (on_error o f m)
  unfolding on_error
  Gated-on_error none f m hf hm = hm
  Gated-on_error (some e) f m hf hm = hf e

module _ {S R A B : Type 0} {k : Opened} where
  bound :
      (v : Flow R A) (events : List Event) (s : S) (f : A → Body S R B) (p : String) (known : Bool)
      → Good k p known
      → Accepts p known events
      → ((a : A) → Gated k (f a))
      → Accepts p known (and_then (record { value = v; events = events; state = s }) f).events
  bound (next a) events s f p known g h r =
      Accepts-append p known events _ h ((r a).at p _ s (Good-after k p known events g))
  bound (done r) events s f p known g h _ = h

  pub Gated-bind :
      (m : Body S R A) (f : A → Body S R B)
      → Gated k m
      → ((a : A) → Gated k (f a))
      → Gated k (m >>= f)
  unfolding ◌>>=◌
  Gated-bind m f h r = record {
    at = λ p known s g. bound (m s).value (m s).events (m s).state f p known g (h.at p known s g) r;
  }

module _ {S : Type 0} ⦃H : Host S⦄ where
  require_keychain-events :
      (path : String) (s : S)
      → (require_keychain path s).events
        ≡ record { call = keychain_exists path; answer = (H.answer (keychain_exists path) s).0 }
          ∷ []
  unfolding require_keychain call func or_return pure return ◌>>=◌
  require_keychain-events path s = ground arith

  require_keychain-none :
      (path : String) (s : S)
      → (require_keychain path s).value ≡ none
      → (H.answer (keychain_exists path) s).0 ≡ ok true
  unfolding require_keychain call func or_return pure return ◌>>=◌
  require_keychain-none path s h = ground arith

  behind :
      {R B : Type 0} (path : String) (v : Option Error) (es : List Event) (s : S) (f : Error → R)
      (rest : Body S R B) (p : String) (known : Bool)
      → Accepts p known es
      → (v ≡ none → Good (opened path) p (after p known es))
      → Gated (opened path) rest
      → Accepts p known (es ++ ((nil_or_return f v >> rest) s).events)
  unfolding nil_or_return pure return ◌>>=◌
  behind path none es s f rest p known a g h =
      Accepts-append p known es _ a (h.at p (after p known es) s (g refl))
  behind path (some e) es s f rest p known a g h = Accepts-append p known es [] a tt

module _ {S : Type 0} ⦃H : Host S⦄ {k : Opened} where
  pub Gated-call : {R : Type 0} (c : Call) → Fits k (touched c) → Gated {S = S} k (call {R = R} c)
  unfolding call
  Gated-call c h = record { at = λ p known s g. (Fits-MayTouch k p known (touched c) g h, tt) }

  pub Gated-still_running : {R : Type 0} (f : Error → R) → Gated {S = S} k (still_running f)
  unfolding still_running
  Gated-still_running f =
      Gated-bind (call ctx_err) (nil_or_return f) (Gated-call ctx_err tt) (Gated-nil_or_return f)

  -- What follows the gate may rely on the keychain.
  pub Gated-behind :
      {R B : Type 0} (path : String) (f : Error → R) (rest : Body S R B)
      → Gated (opened path) rest
      → Gated {S = S} k (lift (require_keychain path) >>= λ gate. nil_or_return f gate >> rest)
  unfolding ◌>>=◌ lift
  Gated-behind path f rest h = record {
    at = λ p known s g.
        behind path (require_keychain path s).value (require_keychain path s).events
          (require_keychain path s).state f rest p known (rw require_keychain-events (tt, tt))
          (λ e q. rw (require_keychain-events, require_keychain-none path s e) (ground arith)) h;
  }

pub ruleset gated_rules = (
  Gated-pure, Gated-return, Gated-lift, Gated-func, Gated-or_return, Gated-nil_or_return, Gated-if,
  Gated-on_error, Gated-bind, Gated-call, Gated-still_running, Gated-behind,
)
