-- ===== src/App/Held.antt =====
-- What holds of the state where a body goes on or returns: one rule for each way to build a body.
use localclaw.App.Body.{
  Flow, next, done, M, Body, and_then, Event, pure, return, lift, func, result, or_return,
  nil_or_return, call, ◌>>=◌,
}
use localclaw.App.Host.{Call, Response, Host}
use localclaw.Common.{Option, none, some, List, Bool, true, false, ◌≡◌, refl, if◌then◌else◌}
use localclaw.Domain.Errors.{Error, Result, ok, err}

-- `D` of what is returned, `P` of the value that the next statement starts with, and the states.
abbrev pub Held : {S R A : Type 0} → (R → S → Type 0) → (A → S → Type 0) → Flow R A → S → Type 0
Held D P (next a) s = P a s
Held D P (done r) s = D r s

pub record Keeps {S R A : Type 0} (Pre : S → Type 0) (D : R → S → Type 0) (P : A → S → Type 0)
    (m : Body S R A) : Type 0 where
  pub at : (s : S) → Pre s → Held D P (m s).value (m s).state

module _ {S R : Type 0} {Pre : S → Type 0} {D : R → S → Type 0} where
  pub Keeps-pure :
      {A : Type 0} (P : A → S → Type 0) (a : A) → ((s : S) → Pre s → P a s) → Keeps Pre D P (pure a)
  unfolding pure
  Keeps-pure P a h = record { at = h }

  pub Keeps-return :
      {A : Type 0} (P : A → S → Type 0) (r : R)
      → ((s : S) → Pre s → D r s)
      → Keeps Pre D P (return r)
  unfolding return
  Keeps-return P r h = record { at = h }

  pub Keeps-lift :
      {A : Type 0} (P : A → S → Type 0) (m : M S A)
      → ((s : S) → Pre s → P (m s).value (m s).state)
      → Keeps Pre D P (lift m)
  unfolding lift
  Keeps-lift P m h = record { at = h }

  pub Keeps-if :
      {A : Type 0} (P : A → S → Type 0) (b : Bool) (m n : Body S R A)
      → (b ≡ true → Keeps Pre D P m)
      → (b ≡ false → Keeps Pre D P n)
      → Keeps Pre D P (if b then m else n)
  Keeps-if P true m n hm hn = hm refl
  Keeps-if P false m n hm hn = hn refl

  pub Keeps-nil_or_return :
      (P : Unit {0} → S → Type 0) (f : Error → R) (o : Option Error)
      → (o ≡ none → (s : S) → Pre s → P tt s)
      → ((e : Error) (s : S) → Pre s → D (f e) s)
      → Keeps Pre D P (nil_or_return f o)
  unfolding nil_or_return
  Keeps-nil_or_return P f none h k = Keeps-pure P tt (h refl)
  Keeps-nil_or_return P f (some e) h k = Keeps-return P (f e) (k e)

  pub Keeps-or_return :
      {A : Type 0} (P : A → S → Type 0) (f : Error → R) (r : Result A)
      → ((a : A) → r ≡ ok a → (s : S) → Pre s → P a s)
      → ((e : Error) → r ≡ err e → (s : S) → Pre s → D (f e) s)
      → Keeps Pre D P (or_return f r)
  unfolding or_return
  Keeps-or_return P f (ok a) h k = Keeps-pure P a (h a refl)
  Keeps-or_return P f (err e) h k = Keeps-return P (f e) (k e refl)

module _ {S R A B : Type 0} {D : R → S → Type 0} (N : A → S → Type 0) {P : B → S → Type 0} where
  held :
      (v : Flow R A) (events : List Event) (s : S) (f : A → Body S R B)
      → Held D N v s
      → ((a : A) → Keeps (N a) D P (f a))
      → Held D P
          (and_then (record { value = v; events = events; state = s }) f).value
          (and_then (record { value = v; events = events; state = s }) f).state
  held (next a) events s f h k = (k a).at s h
  held (done r) events s f h k = h

  pub Keeps-bind :
      {Pre : S → Type 0} (m : Body S R A) (f : A → Body S R B)
      → Keeps Pre D N m
      → ((a : A) → Keeps (N a) D P (f a))
      → Keeps Pre D P (m >>= f)
  unfolding ◌>>=◌
  Keeps-bind m f h k = record {
    at = λ s p. held (m s).value (m s).events (m s).state f (h.at s p) k;
  }

-- A whole function.
module _ {S R : Type 0} (D : R → S → Type 0) where
  whole : (v : Flow R R) (s : S) → Held D D v s → D (result v) s
  whole (next a) s h = h
  whole (done r) s h = h

  pub Keeps-func :
      {Pre : S → Type 0} (b : Body S R R)
      → Keeps Pre D D b
      → (s : S) → Pre s
      → D (func b s).value (func b s).state
  unfolding func
  Keeps-func b h s p = whole (b s).value (b s).state (h.at s p)

module _ {S R : Type 0} ⦃H : Host S⦄ {Pre : S → Type 0} {D : R → S → Type 0} where
  pub Keeps-call :
      (c : Call) (P : Response c → S → Type 0)
      → ((s : S) → Pre s → P (H.answer c s).0 (H.answer c s).1)
      → Keeps {S = S} {R = R} Pre D P (call c)
  unfolding call
  Keeps-call c P h = record { at = h }
