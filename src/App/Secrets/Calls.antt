-- ===== src/App/Secrets/Calls.antt =====
-- The calls of the shared parts of the secrets commands.
use localclaw.Common.{String, arith, string_eq, nat_eq}
use localclaw.App.Trace.{Only, only_rules}
use localclaw.App.Kinds.{Asks, Within}
use localclaw.App.Host.{Host}
use localclaw.Domain.Secret.{SecretSpec, generate}
use localclaw.App.Kinds.{Within, raises}
use localclaw.App.Secrets.{run_generator, prepare, require_keychain, inspect}

module _ {S : Type 0} ⦃H : Host S⦄ where
  pub prepare-Asks : (dir : String) → Only {S = S} Asks (prepare dir)
  unfolding prepare
  prepare-Asks dir = search only_rules depth 14

  pub require_keychain-Asks : (path : String) → Only {S = S} Asks (require_keychain path)
  unfolding require_keychain
  require_keychain-Asks path = search only_rules depth 14

  pub inspect-Asks : (name : String) → Only {S = S} Asks (inspect name)
  unfolding inspect
  inspect-Asks name = search only_rules depth 14

  pub run_generator-makes : (spec : SecretSpec) → Only {S = S} (Within raises) (run_generator spec)
  unfolding run_generator generate
  run_generator-makes spec = record { at = λ s. ground arith; linked = λ s. ground arith }
