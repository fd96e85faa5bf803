-- ===== src/App/Steps/Gate.antt =====
-- The secret steps touch the keychain behind its gate only.
use localclaw.Common.{ℕ, String, List, [], ◌∷◌, string_eq, nat_eq}
use localclaw.App.Gate.{Opened, opened, Gated, Gated-bind, gated_rules}
use localclaw.App.Host.{Host}
use localclaw.App.Secrets.Gate.{run_generator-Gated}
use localclaw.App.Steps.{
  Resolution, ResolvedSecret, keep_minted, supply, resolve_answer, resolve_entries, resolve,
  inject_one, inject_all, inject,
}
use localclaw.Domain.Catalogue.{Catalogue}
use localclaw.Domain.Errors.{Result, ok, err}
use localclaw.Domain.Role.{Role}
use localclaw.Domain.Secret.{SecretSpec, Source, generated, minted, user}

module _ {S : Type 0} ⦃H : Host S⦄ (path : String) where
  keep_minted-Gated :
      (spec : SecretSpec) (made : Result (List ℕ)) (r : Resolution)
      → Gated {S = S} (opened path) (keep_minted path spec made r)
  unfolding keep_minted
  keep_minted-Gated spec (ok value) r = search gated_rules depth 9
  keep_minted-Gated spec (err e) r = search gated_rules

  supply-Gated :
      (spec : SecretSpec) (source : Source) (r : Resolution)
      → Gated {S = S} (opened path) (supply path spec source r)
  unfolding supply
  supply-Gated spec user r = search gated_rules
  supply-Gated spec minted r = search (gated_rules, keep_minted-Gated) depth 9
  supply-Gated spec generated r = search (gated_rules, run_generator-Gated) depth 12

  resolve_answer-Gated :
      (spec : SecretSpec) (answered : Result (List ℕ)) (r : Resolution)
      → Gated {S = S} (opened path) (resolve_answer path spec answered r)
  unfolding resolve_answer
  resolve_answer-Gated spec (ok value) r = search gated_rules
  resolve_answer-Gated spec (err e) r = search (gated_rules, supply-Gated) depth 9

  resolve_entries-Gated :
      (specs : List SecretSpec) (r : Resolution)
      → Gated {S = S} (opened path) (resolve_entries path specs r)
  unfolding resolve_entries
  resolve_entries-Gated [] r = search gated_rules
  resolve_entries-Gated (spec ∷ specs) r =
      let ih = resolve_entries-Gated specs in
      search (gated_rules, resolve_answer-Gated, ih) depth 14

  pub resolve-Gated :
      {k : Opened} (cat : Catalogue) (role : Role) → Gated {S = S} k (resolve path cat role)
  unfolding resolve
  resolve-Gated cat role = search (gated_rules, resolve_entries-Gated) depth 14

module _ {S : Type 0} ⦃H : Host S⦄ {k : Opened} where
  inject_one-Gated : (s : ResolvedSecret) → Gated {S = S} k (inject_one s)
  unfolding inject_one
  inject_one-Gated s = search gated_rules depth 12

  inject_all-Gated : (secrets : List ResolvedSecret) → Gated {S = S} k (inject_all secrets)
  unfolding inject_all
  inject_all-Gated [] = search gated_rules
  inject_all-Gated (s ∷ secrets) =
      Gated-bind (inject_one s) _ (inject_one-Gated s) (λ _. inject_all-Gated secrets)

  pub inject-Gated : (secrets : List ResolvedSecret) → Gated {S = S} k (inject secrets)
  unfolding inject
  inject-Gated secrets = search (gated_rules, inject_all-Gated) depth 9
