-- ===== src/App/Trace.antt =====
-- Which calls a function makes, whatever the ports answer: one rule for each way to build a body.
use localclaw.Common.{
  subst, sym, ap, ◌∙◌, ◌++◌, [], ◌∷◌, ◌≡◌, refl, true, false, none, Bool, true, false, Option, none,
  some, List, if◌then◌else◌, string_eq, nat_eq, All, All-append,
}
use localclaw.App.Body.{
  on_error, and_then, Event, Flow, next, done, M, Body, pure, return, lift, func, or_return,
  nil_or_return, call, still_running, ◌>>=◌,
}
use localclaw.App.Host.{Call, Response, ctx_err, Host}
use localclaw.Domain.Errors.{Error, Result, ok, err}

abbrev pub Calls : (Call → Type 0) → List Event → Type 0
Calls P = All (λ e. P e.call)

-- The host's state behind these calls.
abbrev pub replay : {S : Type 0} → ⦃H : Host S⦄ → List Event → S → S
replay [] s = s
replay {S = S} ⦃H = H⦄ (e ∷ es) s = replay es (H.answer e.call s).1

pub replay-append :
    {S : Type 0} ⦃H : Host S⦄ (es fs : List Event) (s : S)
    → replay (es ++ fs) s ≡ replay fs (replay es s)
replay-append [] fs s = refl
replay-append ⦃H = H⦄ (e ∷ es) fs s = replay-append es fs (H.answer e.call s).1

-- Every call of `m` satisfies `P`, and `m` changes the state by its calls alone.
pub record Only {S A : Type 0} ⦃H : Host S⦄ (P : Call → Type 0) (m : M S A) : Type 0 where
  pub at : (s : S) → Calls P (m s).events
  pub linked : (s : S) → (m s).state ≡ replay (m s).events s

module _ {S : Type 0} ⦃H : Host S⦄ {P : Call → Type 0} where
  pub Only-pure : {R A : Type 0} (a : A) → Only P (pure {S = S} {R = R} a)
  unfolding pure
  Only-pure a = record { at = λ s. tt; linked = λ s. refl }

  pub Only-return : {R A : Type 0} (r : R) → Only P (return {S = S} {A = A} r)
  unfolding return
  Only-return r = record { at = λ s. tt; linked = λ s. refl }

  pub Only-lift : {R A : Type 0} (m : M S A) → Only P m → Only P (lift {R = R} m)
  unfolding lift
  Only-lift m h = record { at = λ s. h.at s; linked = λ s. h.linked s }

  pub Only-func : {R : Type 0} (b : Body S R R) → Only P b → Only P (func b)
  unfolding func
  Only-func b h = record { at = λ s. h.at s; linked = λ s. h.linked s }

  pub Only-or_return :
      {R A : Type 0} (f : Error → R) (r : Result A) → Only P (or_return {S = S} f r)
  unfolding or_return
  Only-or_return f (ok a) = Only-pure a
  Only-or_return f (err e) = Only-return (f e)

  pub Only-nil_or_return :
      {R : Type 0} (f : Error → R) (o : Option Error) → Only P (nil_or_return {S = S} f o)
  unfolding nil_or_return
  Only-nil_or_return f none = Only-pure tt
  Only-nil_or_return f (some e) = Only-return (f e)

  pub Only-if :
      {A : Type 0} (b : Bool) (m n : M S A) → Only P m → Only P n → Only P (if b then m else n)
  Only-if true m n hm hn = hm
  Only-if false m n hm hn = hn

  pub Only-on_error :
      {A : Type 0} (o : Option Error) (f : Error → M S A) (m : M S A)
      → ((e : Error) → Only P (f e))
      → Only P m
      → Only P (on_error o f m)
  unfolding on_error
  Only-on_error none f m hf hm = hm
  Only-on_error (some e) f m hf hm = hf e

module _ {S R A B : Type 0} ⦃H : Host S⦄ {P : Call → Type 0} where
  bound :
      (v : Flow R A) (events : List Event) (s : S) (f : A → Body S R B)
      → Calls P events
      → ((a : A) → Only P (f a))
      → Calls P (and_then (record { value = v; events = events; state = s }) f).events
  bound (next a) events s f h k = All-append (λ e. P e.call) events _ h ((k a).at s)
  bound (done r) events s f h k = h

  bound_linked :
      (v : Flow R A) (events : List Event) (s s0 : S) (f : A → Body S R B)
      → s ≡ replay events s0
      → ((a : A) → Only P (f a))
      → (and_then (record { value = v; events = events; state = s }) f).state
        ≡ replay (and_then (record { value = v; events = events; state = s }) f).events s0
  bound_linked (next a) events s s0 f h k =
      (k a).linked s ∙ (ap (replay (f a s).events) h ∙ sym (replay-append events (f a s).events s0))
  bound_linked (done r) events s s0 f h k = h

  pub Only-bind :
      (m : Body S R A) (f : A → Body S R B) → Only P m → ((a : A) → Only P (f a)) → Only P (m >>= f)
  unfolding ◌>>=◌
  Only-bind m f h k = record {
    at = λ s. bound (m s).value (m s).events (m s).state f (h.at s) k;
    linked = λ s. bound_linked (m s).value (m s).events (m s).state s f (h.linked s) k;
  }

-- The same, where what a test has found matters.
pub Only-split :
    {S A : Type 0} ⦃H : Host S⦄ {P : Call → Type 0} (b : Bool) (m n : M S A)
    → (b ≡ true → Only P m)
    → (b ≡ false → Only P n)
    → Only P (if b then m else n)
Only-split true m n hm hn = hm refl
Only-split false m n hm hn = hn refl

module _ {S R A : Type 0} ⦃H : Host S⦄ {P : Call → Type 0} where
  pub Only-nil_then :
      (f : Error → R) (o : Option Error) (k : Unit {0} → Body S R A)
      → (o ≡ none → Only P (k tt))
      → Only P (nil_or_return f o >>= k)
  unfolding ◌>>=◌ nil_or_return pure return
  Only-nil_then f none k h = record { at = λ s. (h refl).at s; linked = λ s. (h refl).linked s }
  Only-nil_then f (some e) k h = record { at = λ s. tt; linked = λ s. refl }

  pub Only-or_then :
      {B : Type 0} (f : Error → R) (r : Result B) (k : B → Body S R A)
      → ((b : B) → r ≡ ok b → Only P (k b))
      → Only P (or_return f r >>= k)
  unfolding ◌>>=◌ or_return pure return
  Only-or_then f (ok b) k h = record {
    at = λ s. (h b refl).at s;
    linked = λ s. (h b refl).linked s;
  }
  Only-or_then f (err e) k h = record { at = λ s. tt; linked = λ s. refl }

  pub Only-ok :
      {B : Type 0} (f : Error → R) (b : B) (k : B → Body S R A)
      → Only P (k b)
      → Only P (or_return f (ok b) >>= k)
  unfolding ◌>>=◌ or_return pure
  Only-ok f b k h = record { at = λ s. h.at s; linked = λ s. h.linked s }

  -- A call of a function that has nothing to do, and a result that is known.
  pub Only-known :
      {B : Type 0} (f : Error → R) (b : B) (k : B → Body S R A)
      → Only P (k b)
      → Only P (lift (func (pure (ok b))) >>= λ r. or_return f r >>= k)
  unfolding ◌>>=◌ or_return pure lift func
  Only-known f b k h = record { at = λ s. h.at s; linked = λ s. h.linked s }

module _ {S : Type 0} ⦃H : Host S⦄ {P : Call → Type 0} where
  pub Only-call : {R : Type 0} (c : Call) → P c → Only {S = S} P (call {R = R} c)
  unfolding call
  Only-call c h = record { at = λ s. (h, tt); linked = λ s. refl }

  pub Only-still_running :
      {R : Type 0} (f : Error → R) → P ctx_err → Only {S = S} P (still_running f)
  unfolding still_running
  Only-still_running f h =
      Only-bind (call ctx_err) (nil_or_return f) (Only-call ctx_err h) (Only-nil_or_return f)

-- A call whose answer is known beforehand.
module _ {S R A : Type 0} ⦃H : Host S⦄ {P : Call → Type 0} where
  pub Only-answered :
      (c : Call) (r : Response c) (k : Response c → Body S R A)
      → ((s : S) → (H.answer c s).0 ≡ r)
      → P c
      → Only {S = S} P (k r)
      → Only {S = S} P (call c >>= k)
  unfolding ◌>>=◌ call
  Only-answered c r k known p h = record {
    at = λ s. (
      p,
      subst (λ a. Calls P (k a (H.answer c s).1).events) (sym (known s)) (h.at (H.answer c s).1),
    );
    linked = λ s.
        subst
          (λ a.
            (k a (H.answer c s).1).state ≡ replay (k a (H.answer c s).1).events (H.answer c s).1)
          (sym (known s)) (h.linked (H.answer c s).1);
  }

pub ruleset only_rules = (
  Only-pure, Only-return, Only-lift, Only-func, Only-or_return, Only-nil_or_return, Only-if,
  Only-on_error, Only-bind, Only-call, Only-still_running,
)
