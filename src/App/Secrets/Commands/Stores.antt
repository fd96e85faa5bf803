-- ===== src/App/Secrets/Commands/Stores.antt =====
-- What Set and Update store.
use localclaw.Common.{
  ℕ, String, ◌≡◌, refl, Bool, true, false, none, some, Option-cases, inl, inr, List, [], ◌∷◌, arith,
  string_eq, nat_eq,
}
use localclaw.App.Trace.{
  Only, Only-bind, Only-func, Only-lift, Only-call, Only-or_return, Only-nil_or_return,
  Only-nil_then, Only-or_then, Only-known, only_rules,
}
use mathlib.Core.Bool.{false≢true}
use localclaw.App.Kinds.{Asks, Only-weaken}
use localclaw.App.Secrets.Calls.{prepare-Asks, require_keychain-Asks}
use localclaw.App.Body.{M, lift, call, nil_or_return, ◌>>=◌, ◌>>◌}
use localclaw.App.Host.{Host, Call, keychain_put, keychain_describe, store_secret}
use localclaw.App.Secrets.{push, Outcome, lookup_spec}
use localclaw.App.Secrets.Commands.{set, update, update_source}
use localclaw.Domain.Catalogue.{Catalogue, lookup}
use localclaw.Domain.Errors.{Error, Result, ok, err}
use localclaw.Domain.Secret.{SecretSpec, Source, user, validate_value}

-- What one command may write: to the keychain and to the store, the value that was given under the
-- name that was given, when that value is valid, with source user.
abbrev pub Stores : String → List ℕ → Bool → Call → Type 0
Stores name value replacing (keychain_put path n v source replace) =
    (n ≡ name)
    × (v ≡ value)
    × (validate_value value ≡ none)
    × (source ≡ user)
    × (replace ≡ replacing)
Stores name value replacing (store_secret n v) =
    (n ≡ name) × (v ≡ value) × (validate_value value ≡ none)
Stores name value replacing _ = Unit

lookup-name :
    (cat : Catalogue) (name : String) (spec : SecretSpec)
    → lookup cat name ≡ some spec
    → spec.name ≡ name
unfolding lookup
lookup-name [] name spec h = cc
lookup-name (s ∷ specs) name spec h = ground (arith, lookup-name specs name spec)

lookup_spec-name :
    (cat : Catalogue) (dir name : String) (spec : SecretSpec)
    → lookup_spec cat dir name ≡ ok spec
    → spec.name ≡ name
unfolding lookup_spec
lookup_spec-name cat dir name spec h = elim (Option-cases (lookup cat name)) [
  | inl missing ↦ ground (arith, missing)
  | inr (found, e) ↦ lookup-name cat name spec (ground (arith, e))
]

Asks-Stores :
    (name : String) (value : List ℕ) (b : Bool) (c : Call) → Asks c → Stores name value b c
Asks-Stores name value b (keychain_put path n v source false) h = absurd (false≢true h)
Asks-Stores name value b (keychain_put path n v source true) h = absurd (false≢true h)
Asks-Stores name value b (store_secret n v) h = absurd (false≢true h)
Asks-Stores name value b _ h = tt

update_source-user :
    (spec : SecretSpec) (name : String) (value : List ℕ) (source : Source)
    → update_source spec name value false ≡ ok source
    → (source ≡ user) × (validate_value value ≡ none)
unfolding update_source
update_source-user spec name value source h = elim (Option-cases (validate_value value)) [
  | inl valid ↦ (ground (arith, valid), valid)
  | inr (e, bad) ↦ ground (arith, bad)
]

module _ {S : Type 0} ⦃H : Host S⦄ where
  asking :
      {A : Type 0} (name : String) (value : List ℕ) (b : Bool) (m : M S A)
      → Only Asks m
      → Only (Stores name value b) m
  asking name value b m h = Only-weaken Asks (Stores name value b) m (Asks-Stores name value b) h

  push-Stores :
      (name : String) (value : List ℕ) (b : Bool) (spec : SecretSpec)
      → spec.name ≡ name
      → validate_value value ≡ none
      → Only {S = S} (Stores name value b) (push spec value)
  unfolding push
  push-Stores name value b spec h v =
      let stored : Stores name value b (store_secret spec.name value) = (h, refl, v) in
      search (only_rules, stored) depth 20

  -- The end of both commands.
  written-Stores :
      (name : String) (value : List ℕ) (b : Bool) (path : String) (spec : SecretSpec)
      (source : Source) (f : Error → Result Outcome)
      → spec.name ≡ name
      → source ≡ user
      → validate_value value ≡ none
      → Only {S = S} (Stores name value b) (
          call (keychain_put path name value source b) >>= λ problem.
          nil_or_return f problem >> lift (push spec value))
  written-Stores name value b path spec source f h u v =
      let put : Stores name value b (keychain_put path name value source b) =
        (refl, refl, v, u, refl) in
      let pushed = push-Stores name value b spec h v in search (only_rules, put, pushed) depth 20

  set-Stores :
      (dir name : String) (value : List ℕ)
      → Only {S = S} (Stores name value false) (set dir name value)
  unfolding set
  set-Stores dir name value = Only-func _ (
      Only-bind _ _ (Only-lift _ (asking name value false _ (prepare-Asks dir))) λ prepared.
        Only-bind _ _ (Only-or_return err prepared) λ (topo, cat).
          Only-or_then err (lookup_spec cat dir name) _ λ spec h.
            Only-nil_then err (validate_value value) _ λ v.
              Only-bind _ _
                (Only-lift _ (asking name value false _ (require_keychain-Asks topo.keychain_path)))
                λ gate. Only-bind _ _ (Only-nil_or_return err gate) λ _.
                  written-Stores name value false topo.keychain_path spec user _
                    (lookup_spec-name cat dir name spec h) refl v)

  update-Stores :
      (dir name : String) (value : List ℕ)
      → Only {S = S} (Stores name value true) (update dir name value false)
  unfolding update
  update-Stores dir name value = Only-func _ (
      Only-bind _ _ (Only-lift _ (asking name value true _ (prepare-Asks dir))) λ prepared.
        Only-bind _ _ (Only-or_return err prepared) λ (topo, cat).
          Only-or_then err (lookup_spec cat dir name) _ λ spec h.
            Only-or_then err (update_source spec name value false) _ λ source e.
              Only-bind _ _
                (Only-lift _ (asking name value true _ (require_keychain-Asks topo.keychain_path)))
                λ gate. Only-bind _ _ (Only-nil_or_return err gate) λ _.
                  Only-bind _ _ (Only-call (keychain_describe topo.keychain_path name) tt) λ item.
                    Only-bind _ _ (Only-or_return _ item) λ _. Only-known _ value _ (
                      written-Stores name value true topo.keychain_path spec source _
                        (lookup_spec-name cat dir name spec h)
                        (update_source-user spec name value source e).0
                        (update_source-user spec name value source e).1))

  -- Whatever the ports answer: all that `lclaw secrets set` writes to the keychain or to the store of
  -- the machine is the value that was given, under the name that was given and with source user. The
  -- value has passed ValidateValue, and nothing in the keychain is replaced. `lclaw secrets update`
  -- without generate does the same, but replaces.
  pub given-Stores :
      (dir name : String) (value : List ℕ)
      → Only {S = S} (Stores name value false) (set dir name value)
        × Only {S = S} (Stores name value true) (update dir name value false)
  given-Stores dir name value = (set-Stores dir name value, update-Stores dir name value)
