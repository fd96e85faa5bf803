-- ===== src/App/Body.antt =====
-- The body of a Go function: calls of the ports in order, and early returns.
use localclaw.Common.{Option, none, some, List, [], ◌∷◌, ◌++◌}
use localclaw.Domain.Errors.{Error, Result, ok, err}
use localclaw.App.Host.{Call, ctx_err, Response, Host}

-- A call that was made, with its answer.
pub record Event : Type 0 where
  pub call : Call
  pub answer : Response call

pub record Run (S A : Type 0) : Type 0 where
  pub value : A
  pub events : List Event
  pub state : S

-- A function that has run to its end.
abbrev pub M : Type 0 → Type 0 → Type 0
M S A = S → Run S A

-- The next statement runs, or the function has returned.
pub data Flow (R A : Type 0) : Type 0 where
  next : A → Flow R A
  done : R → Flow R A

abbrev pub Body : Type 0 → Type 0 → Type 0 → Type 0
Body S R A = M S (Flow R A)

module _ {S R A : Type 0} where
  unfoldable pub pure : A → Body S R A
  pure a s = record { value = next a; events = []; state = s }

  -- `return r`
  unfoldable pub return : R → Body S R A
  return r s = record { value = done r; events = []; state = s }

  -- A call of another function.
  unfoldable pub lift : M S A → Body S R A
  lift m s =
      let out : Run S A = m s in
      record { value = next out.value; events = out.events; state = out.state }

module _ {S R A B : Type 0} where
  abbrev pub and_then : Run S (Flow R A) → (A → Body S R B) → Run S (Flow R B)
  and_then out f = elim out.value [
    | next a ↦
        let rest : Run S (Flow R B) = f a out.state in
        record { value = rest.value; events = out.events ++ rest.events; state = rest.state }
    | done r ↦ record { value = done r; events = out.events; state = out.state }
  ]

  infixl 10 ◌>>=◌ ◌>>◌
  unfoldable pub ◌>>=◌ : Body S R A → (A → Body S R B) → Body S R B
  ◌>>=◌ m f s = and_then (m s) f

  abbrev pub ◌>>◌ : Body S R A → Body S R B → Body S R B
  m >> n = m >>= λ _. n

abbrev pub result : {R : Type 0} → Flow R R → R
result (next r) = r
result (done r) = r

-- A whole function from its body.
unfoldable pub func : {S R : Type 0} → Body S R R → M S R
func b s = record { value = result (b s).value; events = (b s).events; state = (b s).state }

module _ {S R A : Type 0} where
  -- `if err != nil { return … }` behind a call that gives a value, and behind one that gives none.
  unfoldable pub or_return : (Error → R) → Result A → Body S R A
  unfolding pure return
  or_return f (ok a) = pure a
  or_return f (err e) = return (f e)

unfoldable pub nil_or_return : {S R : Type 0} → (Error → R) → Option Error → Body S R (Unit {0})
unfolding pure return
nil_or_return f none = pure tt
nil_or_return f (some e) = return (f e)

-- `if err != nil { … } else { … }`, where neither branch returns at once.
unfoldable pub on_error : {A : Type 0} → Option Error → (Error → A) → A → A
on_error none f a = a
on_error (some e) f a = f e

module _ {S : Type 0} ⦃H : Host S⦄ where
  -- A call of a port.
  unfoldable pub call : {R : Type 0} (c : Call) → Body S R (Response c)
  call c s =
      let (r, s') = H.answer c s in
      record { value = next r; events = record { call = c; answer = r } ∷ []; state = s' }

  -- `if err := ctx.Err(); err != nil { return … }`
  unfoldable pub still_running : {R : Type 0} → (Error → R) → Body S R (Unit {0})
  unfolding call ◌>>=◌ nil_or_return
  still_running f = call ctx_err >>= nil_or_return f
