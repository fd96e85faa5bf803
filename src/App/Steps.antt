-- ===== src/App/Steps.antt =====
-- internal/app/lifecycle_secrets.go: the steps that resolve, inject and purge secrets.
pub mod Calls
pub mod Gate
use localclaw.Common.{
  ℕ, String, ◌<>◌, false, not, Option, none, some, List, [], ◌∷◌, ◌++◌, if◌then◌else◌, string_eq,
  nat_eq,
}
use localclaw.App.Body.{
  M, Body, pure, return, lift, func, or_return, nil_or_return, call, still_running, ◌>>=◌, ◌>>◌,
}
use localclaw.App.Host.{
  Host, keychain_get, keychain_put, mint, store_secret, list_secrets, remove_secret, remove_volume,
}
use localclaw.App.Secrets.{require_keychain, run_generator}
use localclaw.Domain.Catalogue.{Catalogue, for_zone}
use localclaw.Domain.Errors.{Error, is, text, wrapped, secret_not_found, Result, ok, err}
use localclaw.Domain.Report.{Check, fail}
use localclaw.Domain.Role.{Role}
use localclaw.Domain.Secret.{SecretSpec, Source, generated, minted, user, source_eq}

pub record ResolvedSecret : Type 0 where
  pub name : String
  pub value : List ℕ

-- The values and the findings of a zone.
pub record Resolution : Type 0 where
  pub resolved : List ResolvedSecret
  pub findings : List Check

abbrev unset_finding : SecretSpec → Check
unset_finding spec = record {
  name = spec.name;
  status = fail;
  summary = "unset";
  hint = "run `lclaw secrets set " <> (spec.name <> "`");
}

abbrev mint_finding : SecretSpec → Error → Check
mint_finding spec e = record {
  name = spec.name;
  status = fail;
  summary = "not minted: " <> text e;
  hint = "run `lclaw up services` first";
}

abbrev found : SecretSpec → List ℕ → Resolution → Resolution
found spec value r = record r {
  resolved = r.resolved ++ (record { name = spec.name; value = value } ∷ []);
}

abbrev noted : Check → Resolution → Resolution
noted c r = record r { findings = r.findings ++ (c ∷ []) }

abbrev Resolving : Type 0 → Type 0 → Type 0
Resolving S A = Body S (Result Resolution) A

module _ {S : Type 0} ⦃H : Host S⦄ where
  keep : String → SecretSpec → Source → List ℕ → Resolution → Resolving S Resolution
  keep path spec source value r = do
    problem ← call (keychain_put path spec.name value source false)
    nil_or_return (λ e. err (wrapped ("resolve secrets: store " <> (spec.name <> ": ")) e ""))
        problem
    pure (found spec value r)

  keep_minted : String → SecretSpec → Result (List ℕ) → Resolution → Resolving S Resolution
  unfolding keep
  keep_minted path spec (ok value) r = keep path spec minted value r
  keep_minted path spec (err e) r = pure (noted (mint_finding spec e) r)

  -- The secret is not in the keychain.
  supply : String → SecretSpec → Source → Resolution → Resolving S Resolution
  unfolding keep keep_minted
  supply path spec user r = pure (noted (unset_finding spec) r)
  supply path spec minted r = do value ← call (mint spec.name); keep_minted path spec value r
  supply path spec generated r = do
    made ← lift (run_generator spec)
    value ← or_return (λ e. err (wrapped ("resolve secrets: " <> (spec.name <> ": ")) e "")) made
    keep path spec generated value r

  resolve_answer : String → SecretSpec → Result (List ℕ) → Resolution → Resolving S Resolution
  unfolding supply
  resolve_answer path spec (ok value) r = pure (found spec value r)
  resolve_answer path spec (err e) r =
      if not (is secret_not_found e)
      then return (err (wrapped ("resolve secrets: " <> (spec.name <> ": ")) e ""))
      else supply path spec spec.source r

  resolve_entries : String → List SecretSpec → Resolution → Resolving S Resolution
  unfolding resolve_answer
  resolve_entries path [] r = pure r
  resolve_entries path (spec ∷ specs) r = do
    still_running err
    answered ← call (keychain_get path spec.name)
    r' ← resolve_answer path spec answered r
    resolve_entries path specs r'

  -- ResolveSecrets.Run
  unfoldable pub resolve : String → Catalogue → Role → M S (Result Resolution)
  unfolding resolve_entries
  resolve path cat role = func (do
    gate ← lift (require_keychain path)
    nil_or_return err gate
    r ← resolve_entries path (for_zone cat role) (record { resolved = []; findings = [] })
    pure (ok r))

  inject_one : ResolvedSecret → Body S (Option Error) (Unit {0})
  inject_one s = do
    still_running some
    problem ← call (store_secret s.name s.value)
    nil_or_return (λ e. some (wrapped ("inject secrets: " <> (s.name <> ": ")) e "")) problem

  inject_all : List ResolvedSecret → Body S (Option Error) (Unit {0})
  unfolding inject_one
  inject_all [] = pure tt
  inject_all (s ∷ secrets) = do inject_one s; inject_all secrets

  -- InjectSecrets.Run
  unfoldable pub inject : List ResolvedSecret → M S (Option Error)
  unfolding inject_all
  inject secrets = func (do inject_all secrets; pure none)

  purge_one : String → Body S (Result (List String)) (Unit {0})
  purge_one name = do
    still_running err
    problem ← call (remove_secret name)
    nil_or_return (λ e. err (wrapped ("purge secrets: remove " <> (name <> ": ")) e "")) problem
    problem' ← call (remove_volume name)
    nil_or_return (λ e. err (wrapped ("purge secrets: remove volume " <> (name <> ": ")) e ""))
        problem'

  purge_all : List String → Body S (Result (List String)) (Unit {0})
  unfolding purge_one
  purge_all [] = pure tt
  purge_all (name ∷ names) = do purge_one name; purge_all names

  -- PurgeSecrets.Run
  unfoldable pub purge : M S (Result (List String))
  unfolding purge_all
  purge = func (do
    listed ← call list_secrets
    names ← or_return (λ e. err (wrapped "purge secrets: " e "")) listed
    purge_all names
    pure (ok names))
