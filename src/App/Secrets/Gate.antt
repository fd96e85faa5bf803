-- ===== src/App/Secrets/Gate.antt =====
-- The shared parts of the secrets commands touch no item of the keychain.
use localclaw.Common.{ℕ, String, List, arith, ◌==◌, string_eq, nat_eq}
use localclaw.App.Gate.{Gated-if, Gated-call, Opened, Gated, Gated-func, gated_rules}
use localclaw.App.Body.{func, call}
use localclaw.App.Host.{mint, Host}
use localclaw.App.Secrets.{prepare, inspect, push, produce, run_generator}
use localclaw.Domain.Secret.{SecretSpec, minted, source_eq, generate}

module _ {S : Type 0} ⦃H : Host S⦄ {k : Opened} where
  pub prepare-Gated : (dir : String) → Gated {S = S} k (prepare dir)
  unfolding prepare
  prepare-Gated dir = search gated_rules depth 14

  pub inspect-Gated : (name : String) → Gated {S = S} k (inspect name)
  unfolding inspect
  inspect-Gated name = search gated_rules depth 14

  pub push-Gated : (spec : SecretSpec) (value : List ℕ) → Gated {S = S} k (push spec value)
  unfolding push
  push-Gated spec value = search gated_rules depth 14

  pub run_generator-Gated : (spec : SecretSpec) → Gated {S = S} k (run_generator spec)
  unfolding run_generator generate
  run_generator-Gated spec = record { at = λ p known s g. ground arith }

  pub produce-Gated : (spec : SecretSpec) → Gated {S = S} k (produce spec)
  unfolding produce
  produce-Gated spec =
      Gated-if (spec.source == minted) (func (call (mint spec.name))) (run_generator spec)
        (Gated-func (call (mint spec.name)) (Gated-call (mint spec.name) tt))
        (run_generator-Gated spec)
