-- ===== src/Adapters/Litellm/Waiting.antt =====
-- The loop of Ready ends.
use localclaw.Common.{
  ℕ, zero, suc, ◌+◌, ◌*◌, ◌≤◌, ◌<◌, String, ◌≡◌, refl, Option, none, some, List, [], arith,
  string_eq, nat_eq, ltb, trim_space,
}
use localclaw.App.Body.{M, pure, lift, func, call, ◌>>=◌}
use localclaw.App.Held.{
  Keeps, Keeps-pure, Keeps-return, Keeps-lift, Keeps-if, Keeps-nil_or_return, Keeps-or_return,
  Keeps-bind, Keeps-func, Keeps-call,
}
use localclaw.App.Host.{Call, Host, system, ctx_err}
use localclaw.Os.{run, now, sleep}
use localclaw.Domain.Errors.{Error, Result, ok, err}
use localclaw.Adapters.Libraries.{Libraries}
use localclaw.Adapters.Scripts.{ready_script}
use localclaw.Adapters.Litellm.{
  Minter, timeout_of, interval_of, Wait, ended, waiting, or_ready, or_stopped, go_on, run_script,
  poll, polls, ready, script_command,
}

-- A clock that no call turns back, that `now` reads, and that a sleep which was not cut short moves
-- by its length.
pub record Ticking (S : Type 0) (H : Host S) : Type 0 where
  pub clock : S → ℕ
  pub forward : (c : Call) (s : S) → clock s ≤ clock (H.answer c s).1
  pub reads :
      (s : S)
      → (clock s ≤ (H.answer (system now) s).0)
        × ((H.answer (system now) s).0 ≤ clock (H.answer (system now) s).1)
  pub sleeps :
      (i : ℕ) (s : S)
      → (H.answer (system (sleep i)) s).0 ≡ none
      → clock s + i ≤ clock (H.answer (system (sleep i)) s).1

module _ {S : Type 0} ⦃H : Host S⦄ (t : Ticking S H) where
  -- The clock has reached `n`.
  abbrev At : ℕ → S → Type 0
  At n s = n ≤ t.clock s

  call_kept :
      {R : Type 0} {D : R → S → Type 0} (n : ℕ) (c : Call)
      → Keeps {S = S} {R = R} (At n) D (λ _. At n) (call c)
  call_kept n c = Keeps-call c (λ _. At n) (λ s h. omega (arith, t.forward c s))

  run_script_kept :
      (n : ℕ) (script : String) (stdin : List ℕ) (args : List String) (s : S)
      → At n s
      → At n (run_script script stdin args s).state
  unfolding run_script
  run_script_kept n script stdin args =
      Keeps-func (λ _. At n) _
        (Keeps-bind (λ _. At n) _ _ (call_kept n (system (run (script_command script stdin args))))
          λ answer.
            Keeps-bind (λ _. At n) _ _
              (Keeps-or_return (λ _. At n) err answer (λ _ _ s h. h) (λ _ _ s h. h))
              λ out. Keeps-pure (λ _. At n) (ok (trim_space out.stdout)) (λ s h. h))

  -- The clock where a turn goes on: it had not passed the deadline, and the sleep has moved it.
  Later : ℕ → ℕ → ℕ → Wait → S → Type 0
  Later n deadline i (ended r) s = Unit
  Later n deadline i waiting s = (n + i ≤ t.clock s) × (n ≤ deadline)

  or_ready_kept :
      {A : Type 0} (n deadline i : ℕ) (answer : Result A)
      → Keeps (At n) (Later n deadline i) (λ _. At n) (or_ready {S = S} answer)
  unfolding or_ready Later
  or_ready_kept n deadline i (ok a) = Keeps-return _ _ (λ _ _. tt)
  or_ready_kept n deadline i (err e) = Keeps-pure _ _ (λ _ h. h)

  or_stopped_kept :
      (n deadline i : ℕ) (stopped : Option Error)
      → Keeps (At n) (Later n deadline i) (λ _. At n) (or_stopped {S = S} stopped)
  unfolding or_stopped Later
  or_stopped_kept n deadline i none = Keeps-pure _ _ (λ _ h. h)
  or_stopped_kept n deadline i (some e) =
      Keeps-bind (λ _. At n) _ _ (call_kept n ctx_err) λ again. Keeps-return _ _ (λ _ _. tt)

  poll_kept :
      (libs : Libraries) (m : Minter) (n deadline : ℕ) (s : S)
      → At n s
      → Later n deadline
          (interval_of m)
          (poll libs m deadline s).value
          (poll libs m deadline s).state
  unfolding poll Later
  poll_kept libs m n deadline =
      let i = interval_of m in
      Keeps-func (Later n deadline i) _ (
        Keeps-bind (λ _. At n) _ _ (Keeps-lift (λ _. At n) _ (run_script_kept n ready_script [] []))
          λ answer.
            Keeps-bind (λ _. At n) _ _ (or_ready_kept n deadline i answer)
              λ e.
                Keeps-bind (λ _. At n) _ _ (call_kept n ctx_err)
                  λ stopped.
                    Keeps-bind (λ _. At n) _ _ (or_stopped_kept n deadline i stopped)
                      λ _.
                        Keeps-bind (λ time s. (n ≤ time) × At n s) _ _
                          (Keeps-call (system now) (λ time s. (n ≤ time) × At n s)
                            (λ s h. (
                              omega (arith, (t.reads s).0),
                              omega (arith, t.forward (system now) s),
                            )))
                          λ time.
                            Keeps-bind (λ _ s. (n ≤ deadline) × At n s) _ _
                              (Keeps-if (λ _ s. (n ≤ deadline) × At n s) (ltb deadline time) _ _
                                (λ late. Keeps-return _ _ (λ _ _. tt))
                                (λ early. Keeps-pure _ _ (λ _ h. (ground arith, h.1))))
                              λ _.
                                Keeps-bind
                                  (λ slept s. (slept ≡ none) → (n + i ≤ t.clock s) × (n ≤ deadline))
                                  _ _
                                  (Keeps-call (system (sleep i))
                                    (λ slept s.
                                      (slept ≡ none) → (n + i ≤ t.clock s) × (n ≤ deadline))
                                    (λ s h k. (omega (arith, h, t.sleeps i s k), h.0)))
                                  λ slept.
                                    Keeps-bind (λ _ s. (n + i ≤ t.clock s) × (n ≤ deadline)) _ _
                                      (Keeps-nil_or_return
                                        (λ _ s. (n + i ≤ t.clock s) × (n ≤ deadline)) _ slept
                                        (λ e s h. h e) (λ _ _ _. tt))
                                      λ _. Keeps-pure _ _ (λ _ h. h))

module _ {S : Type 0} ⦃H : Host S⦄ (t : Ticking S H) (libs : Libraries) (m : Minter) where
  Ends : M S Wait → S → Type 0
  Ends f s = (r : Option Error) × ((f s).value ≡ ended r)

  turned :
      (n deadline : ℕ) (w : Wait) (k : M S Wait) (s : S)
      → Later t n deadline (interval_of m) w s
      → ((n + interval_of m ≤ t.clock s) × (n ≤ deadline) → Ends k s)
      → Ends (go_on w k) s
  unfolding Later Ends go_on func pure
  turned n deadline (ended r) k s h again = (r, refl)
  turned n deadline waiting k s h again = again h

  -- The turns that are left reach over the deadline.
  polls_end :
      (fuel n deadline : ℕ) (s : S)
      → At t n s
      → deadline < n + fuel * interval_of m
      → Ends (polls libs m (suc fuel) deadline) s
  unfolding polls Ends func ◌>>=◌ lift
  polls_end zero n deadline s h short =
      turned n deadline _ (polls libs m zero deadline) _ (poll_kept t libs m n deadline s h)
        (λ late. absurd (omega (arith, late, short)))
  polls_end (suc fuel) n deadline s h short =
      turned n deadline _ (polls libs m (suc fuel) deadline) _ (poll_kept t libs m n deadline s h)
        (λ late. polls_end fuel (n + interval_of m) deadline _ late.0 (omega (arith, short)))

  -- Where no call turns the clock back and a sleep moves it by its length, Ready returns. Of any
  -- number of turns whose intervals are together longer than the timeout, one turn more is enough.
  pub ready_ends :
      (fuel : ℕ) (s : S)
      → timeout_of m < fuel * interval_of m
      → (r : Option Error) × ((ready libs m (suc fuel) s).value ≡ ended r)
  unfolding ready func ◌>>=◌ lift call Ends
  ready_ends fuel s h =
      let start = (H.answer (system now) s).0 in
      polls_end fuel start (start + timeout_of m) (H.answer (system now) s).1 (t.reads s).1
        (omega (arith, h))
