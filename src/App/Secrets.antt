-- ===== src/App/Secrets.antt =====
-- internal/app/secrets.go, the shared parts: the types, loading, the keychain gate and the store.
pub mod Calls
pub mod Gate
use localclaw.Common.{
  ℕ, zero, suc, ◌+◌, ◌-◌, ◌*◌, ◌/◌, ◌%◌, ◌^◌, ◌≤◌, ◌<◌, String, ◌<>◌, ◌≡◌, refl, sym, ap, ◌∙◌,
  subst, ◌≢◌, ◌↔◌, ◌⊎◌, inl, inr, Bool, true, false, not, ◌&&◌, ◌||◌, Option, none, some, List, [],
  ◌∷◌, ◌++◌, map, arith, if◌then◌else◌, Eq, ◌==◌, contains, string_eq, nat_eq, ltb, leb, Bool-cases,
  Option-cases, length, is_nil, select, find, length-append, All, All-append, update, Distinct,
  contains-append, codes, join, width, byte_len, join_path, clean, is_digit, is_lower, itoa, itoa_ℤ,
  ℤ, pos, negsuc, is_pos, quote,
}
use localclaw.App.Body.{
  Event, M, Body, pure, return, lift, func, or_return, nil_or_return, call, still_running, ◌>>=◌,
  ◌>>◌,
}
use localclaw.App.Host.{
  Host, open_dir, load_topology, keychain_exists, mint, read_random, machine_running, secret_exists,
  store_secret, Response, Call,
}
use localclaw.Domain.Catalogue.{Catalogue, new_catalogue, lookup}
use localclaw.Domain.Errors.{
  Error, sentinel, findings_error, wrapped, keychain_missing, unknown_secret, Result, ok, err,
}
use localclaw.Domain.Finding.{Finding}
use localclaw.Domain.Secret.{SecretSpec, Source, minted, source_eq, builtin_secrets, generate}
use localclaw.Domain.Topology.{Topology, declared_secrets, topology_file}
pub mod Commands

pub data StoreState : Type 0 where
  stored removed absent stopped failed : StoreState

pub StoreState-discrete : Discrete StoreState
StoreState-discrete = hlevel

instance unfoldable pub store_state_eq : Eq StoreState
unfolding StoreState-discrete
store_state_eq = record { dec = StoreState-discrete }

pub record StoreOutcome : Type 0 where
  pub state : StoreState
  pub error : Option Error

pub record SecretStatus : Type 0 where
  pub spec : SecretSpec
  pub source : Source
  pub set : Bool

pub record SecretDetail : Type 0 where
  pub status : SecretStatus
  pub created : ℕ
  pub modified : ℕ
  pub store : StoreOutcome

pub record Outcome : Type 0 where
  pub name : String
  pub store : StoreOutcome
  pub warning : String

abbrev pub just : StoreState → StoreOutcome
just s = record { state = s; error = none }

abbrev stored_as : SecretSpec → StoreOutcome → Outcome
stored_as spec s = record { name = spec.name; store = s; warning = "" }

abbrev pub broken : Error → StoreOutcome
broken e = record { state = failed; error = some e }

missing_unless : String → Bool → Option Error
missing_unless path true = none
missing_unless path false =
    some (
      wrapped "" (sentinel keychain_missing)
        (" at " <> (path <> "; run `lclaw init` to create it")))

abbrev stored_unless : Option Error → StoreOutcome
stored_unless none = just stored
stored_unless (some e) = broken e

module _ {S : Type 0} ⦃H : Host S⦄ where
  catalogue_or_findings : {R : Type 0} → Topology → Body S (Result R) Catalogue
  unfolding pure return
  catalogue_or_findings top =
      let (cat, findings) = new_catalogue builtin_secrets (declared_secrets top) in
      if is_nil findings then pure cat else return (err (findings_error findings))

  -- s.prepare(dir)
  unfoldable pub prepare : String → M S (Result (Topology × Catalogue))
  unfolding catalogue_or_findings
  prepare dir = func (do
    opened ← call (open_dir dir)
    fsys ← or_return (λ e. err (wrapped "secrets: " e "")) opened
    loaded ← call (load_topology fsys)
    topo ← or_return (λ e. err (wrapped "secrets: " e "")) loaded
    cat ← catalogue_or_findings topo
    pure (ok (topo, cat)))

  -- requireKeychain: nil when the keychain file is there.
  unfoldable pub require_keychain : String → M S (Option Error)
  unfolding missing_unless
  require_keychain path = func (do
    answered ← call (keychain_exists path)
    exists ← or_return (λ e. some (wrapped "secrets: " e "")) answered
    pure (missing_unless path exists))

  -- inspect: what the store of the machine holds for a name.
  unfoldable pub inspect : String → M S StoreOutcome
  inspect name = func (do
    answered ← call machine_running
    running ← or_return broken answered
    if not running then pure (just stopped) else do
      found ← call (secret_exists name)
      exists ← or_return broken found
      pure (if exists then just stored else just absent))

  -- push: the value goes to the store of a running machine.
  unfoldable pub push : SecretSpec → List ℕ → M S (Result Outcome)
  push spec value = func (do
    still_running err
    answered ← call machine_running
    running ← or_return (λ e. ok (stored_as spec (broken e))) answered
    if not running then pure (ok (stored_as spec (just stopped))) else do
      problem ← call (store_secret spec.name value)
      pure (ok (stored_as spec (stored_unless problem))))

  -- io.ReadFull on the reader, which is a port.
  read_bytes : ℕ → S × List Event → Result (List ℕ) × (S × List Event)
  read_bytes n (s, events) =
      let (r, s') = H.answer (read_random n) s in
      (r, (s', events ++ (record { call = read_random n; answer = r } ∷ [])))

  -- spec.Generator.Generate(s.Random)
  unfoldable pub run_generator : SecretSpec → M S (Result (List ℕ))
  unfolding read_bytes
  run_generator spec s =
      let (value, (s', events)) = generate read_bytes spec.generator (s, []) in
      record { value = value; events = events; state = s' }

  -- produce: a value the way the default source says.
  unfoldable pub produce : SecretSpec → M S (Result (List ℕ))
  produce spec = if spec.source == minted then func (call (mint spec.name)) else run_generator spec

-- The error of the helper `lookup`.
unknown_error : String → String → Error
unknown_error dir name = wrapped "" (sentinel unknown_secret) (
    ": "
    <> (quote name
        <> (" is not in the catalogue; declare it under zones.<role>.secrets in "
            <> join_path dir topology_file)))

unfoldable pub lookup_spec : Catalogue → String → String → Result SecretSpec
unfolding unknown_error
lookup_spec cat dir name = elim (lookup cat name) [
  | some spec ↦ ok spec
  | none ↦ err (unknown_error dir name)
]
