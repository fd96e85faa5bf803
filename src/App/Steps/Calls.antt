-- ===== src/App/Steps/Calls.antt =====
-- The calls of the secret steps of up and down.
use localclaw.Common.{ℕ, String, List, [], ◌∷◌, string_eq, nat_eq}
use localclaw.App.Trace.{Only, Only-bind, only_rules}
use localclaw.App.Kinds.{Within, Only-asks, raises, lowers, asks-raises}
use localclaw.App.Host.{Host}
use localclaw.App.Secrets.{require_keychain}
use localclaw.App.Secrets.Calls.{require_keychain-Asks, run_generator-makes}
use localclaw.App.Steps.{
  Resolution, ResolvedSecret, keep_minted, supply, resolve_answer, resolve_entries, resolve,
  inject_one, inject_all, inject, purge_one, purge_all, purge,
}
use localclaw.Domain.Catalogue.{Catalogue}
use localclaw.Domain.Errors.{Result, ok, err}
use localclaw.Domain.Role.{Role}
use localclaw.Domain.Secret.{SecretSpec, Source, generated, minted, user}

module _ {S : Type 0} ⦃H : Host S⦄ where
  keep_minted-Raises :
      (path : String) (spec : SecretSpec) (made : Result (List ℕ)) (r : Resolution)
      → Only {S = S} (Within raises) (keep_minted path spec made r)
  unfolding keep_minted
  keep_minted-Raises path spec (ok value) r = search only_rules depth 9
  keep_minted-Raises path spec (err e) r = search only_rules

  supply-Raises :
      (path : String) (spec : SecretSpec) (source : Source) (r : Resolution)
      → Only {S = S} (Within raises) (supply path spec source r)
  unfolding supply
  supply-Raises path spec user r = search only_rules
  supply-Raises path spec minted r = search (only_rules, keep_minted-Raises) depth 9
  supply-Raises path spec generated r = search (only_rules, run_generator-makes) depth 12

  resolve_answer-Raises :
      (path : String) (spec : SecretSpec) (answered : Result (List ℕ)) (r : Resolution)
      → Only {S = S} (Within raises) (resolve_answer path spec answered r)
  unfolding resolve_answer
  resolve_answer-Raises path spec (ok value) r = search only_rules
  resolve_answer-Raises path spec (err e) r = search (only_rules, supply-Raises) depth 9

  resolve_entries-Raises :
      (path : String) (specs : List SecretSpec) (r : Resolution)
      → Only {S = S} (Within raises) (resolve_entries path specs r)
  unfolding resolve_entries
  resolve_entries-Raises path [] r = search only_rules
  resolve_entries-Raises path (spec ∷ specs) r =
      let ih = resolve_entries-Raises path specs in
      search (only_rules, resolve_answer-Raises, ih) depth 14

  pub resolve-Raises :
      (path : String) (cat : Catalogue) (role : Role)
      → Only {S = S} (Within raises) (resolve path cat role)
  unfolding resolve
  resolve-Raises path cat role =
      let gate =
        Only-asks {S = S} raises (require_keychain path) asks-raises (require_keychain-Asks path) in
      search (only_rules, gate, resolve_entries-Raises) depth 14

  inject_one-Raises : (s : ResolvedSecret) → Only {S = S} (Within raises) (inject_one s)
  unfolding inject_one
  inject_one-Raises s = search only_rules depth 12

  inject_all-Raises :
      (secrets : List ResolvedSecret) → Only {S = S} (Within raises) (inject_all secrets)
  unfolding inject_all
  inject_all-Raises [] = search only_rules
  inject_all-Raises (s ∷ secrets) =
      Only-bind (inject_one s) _ (inject_one-Raises s) (λ _. inject_all-Raises secrets)

  pub inject-Raises :
      (secrets : List ResolvedSecret) → Only {S = S} (Within raises) (inject secrets)
  unfolding inject
  inject-Raises secrets = search (only_rules, inject_all-Raises) depth 9

  purge_one-Lowers : (name : String) → Only {S = S} (Within lowers) (purge_one name)
  unfolding purge_one
  purge_one-Lowers name = search only_rules depth 14

  purge_all-Lowers : (names : List String) → Only {S = S} (Within lowers) (purge_all names)
  unfolding purge_all
  purge_all-Lowers [] = search only_rules
  purge_all-Lowers (name ∷ names) =
      Only-bind (purge_one name) _ (purge_one-Lowers name) (λ _. purge_all-Lowers names)

  pub purge-Lowers : Only {S = S} (Within lowers) purge
  unfolding purge
  purge-Lowers = search (only_rules, purge_all-Lowers) depth 12
