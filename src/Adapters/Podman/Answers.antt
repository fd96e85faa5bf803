-- ===== src/Adapters/Podman/Answers.antt =====
-- What the client of `podman` makes of answers, and how it stores a secret.
use localclaw.Common.{
  ℕ, String, ◌≡◌, refl, ◌⊎◌, inl, inr, Bool, true, false, Option, none, some, List, [], ◌∷◌, arith,
  ◌==◌, string_eq, nat_eq, Bool-cases, ℤ, pos, negsuc,
}
use localclaw.App.Body.{Run, func, ◌>>=◌, or_return, call, pure, return}
use localclaw.App.Host.{Host, system}
use localclaw.Os.{Command, Output, run}
use localclaw.Domain.Errors.{Error, as_exit, Result-cases, Result, ok, err}
use localclaw.Adapters.Libraries.{Libraries}
use localclaw.Adapters.Podman.{exists_code, exists_result, wrap}
use localclaw.Adapters.Podman.Client.{kube_secret, store_command, store_secret}

-- The command ran and exited with code 1.
abbrev pub ExitedOne : Error → Type 0
ExitedOne e = (stderr : List ℕ) × (as_exit e ≡ some (pos 1, stderr))

-- What `podman … exists` answers: yes where the command succeeded, no where it exited with code 1,
-- and an error that has the command's own behind it where anything else went wrong.
abbrev pub Said : String → Result Output → Result Bool → Type 0
Said op (ok out) r = r ≡ ok true
Said op (err e) r = (ExitedOne e × (r ≡ ok false)) ⊎ ((¬ ExitedOne e) × (r ≡ err (wrap op e)))

exists_code_iff :
    (e : Error) (o : Option (ℤ × List ℕ)) (op : String)
    → (((stderr : List ℕ) × (o ≡ some (pos 1, stderr))) × (exists_code e o op ≡ ok false))
      ⊎ ((¬ ((stderr : List ℕ) × (o ≡ some (pos 1, stderr))))
          × (exists_code e o op ≡ err (wrap op e)))
exists_code_iff e none op = inr ((λ p. let h = p.1 in absurd (ground arith)), refl)
exists_code_iff e (some (pos code, stderr)) op = elim (Bool-cases (code == 1)) [
  | inl one ↦ let same : code ≡ 1 = ground arith in inl ((stderr, rw same refl), rw one refl)
  | inr other ↦
      inr ((λ p. let h = p.1 in let same : code ≡ 1 = cc in absurd (ground arith)), rw other refl)
]
exists_code_iff e (some (negsuc code, stderr)) op =
    inr ((λ p. let h = p.1 in absurd (ground arith)), refl)

-- existsResult is true for a command that succeeded, false for one that exited with code 1, and the
-- wrapped error of the command for every other error.
pub exists_result_iff : (op : String) (r : Result Output) → Said op r (exists_result op r)
unfolding exists_result
exists_result_iff op (ok out) = refl
exists_result_iff op (err e) = exists_code_iff e (as_exit e) op

-- The command of StoreSecret: it is sensitive, the document is its standard input, and of the secret
-- its arguments have the name alone.
abbrev pub IsStore : String → List ℕ → Command → Type 0
IsStore name body c =
    (c.sensitive ≡ true)
    × (c.stdin ≡ some body)
    × (c.args
        ≡ "--connection" ∷ "lclaw" ∷ "secret" ∷ "create" ∷ "--replace" ∷ "--label"
          ∷ "app.kubernetes.io/part-of=localclaw" ∷ name ∷ "-" ∷ [])

-- The function returns nil where the command succeeded, and an error where it did not.
abbrev pub Reports : Result Output → Option Error → Type 0
Reports (ok out) o = o ≡ none
Reports (err e) o = (reported : Error) × (o ≡ some reported)

module _ {S : Type 0} ⦃H : Host S⦄ where
  -- A run that makes this one call.
  abbrev pub Stores : String → List ℕ → S → Run S (Option Error) → Type 0
  Stores name body s out =
      (c : Command) × IsStore name body c
      × (out.events
          ≡ record { call = system (run c); answer = (H.answer (system (run c)) s).0 } ∷ [])
      × Reports (H.answer (system (run c)) s).0 out.value

  -- Where the document of the secret can be encoded, StoreSecret runs exactly one command, marked as
  -- sensitive, whose arguments have the name and nothing of the value: the document goes to its
  -- standard input. It returns nil if the command succeeded, and an error if it did not.
  pub store_secret_sealed :
      (libs : Libraries) (name : String) (value body : List ℕ) (s : S)
      → libs.marshal (kube_secret name value) ≡ ok body
      → Stores name body s (store_secret libs name value s)
  unfolding store_secret func ◌>>=◌ or_return call pure return
  store_secret_sealed libs name value body s h =
      elim (Result-cases (H.answer (system (run (store_command name body))) s).0) [
        | inl (out, good) ↦
            (store_command name body, (refl, refl, refl), rw h (rw good refl), rw h (rw good refl))
        | inr (e, bad) ↦ (
          store_command name body,
          (refl, refl, refl),
          rw h (rw bad refl),
          rw h (rw bad (_, refl)),
        )
      ]
