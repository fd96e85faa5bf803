-- ===== src/App/Secrets/Commands/Calls.antt =====
-- The secrets commands that show no value: they only ask.
use localclaw.Common.{String, List, [], ◌∷◌, string_eq, nat_eq}
use localclaw.App.Trace.{Only, only_rules}
use localclaw.App.Kinds.{Asks}
use localclaw.App.Host.{Host}
use localclaw.App.Secrets.{SecretStatus}
use localclaw.App.Secrets.Calls.{prepare-Asks, require_keychain-Asks, inspect-Asks}
use localclaw.App.Secrets.Commands.{list_rows, list_secrets, describe}
use localclaw.Domain.Secret.{SecretSpec}

module _ {S : Type 0} ⦃H : Host S⦄ where
  list_rows-Asks :
      (path : String) (specs : List SecretSpec) (out : List SecretStatus)
      → Only {S = S} Asks (list_rows path specs out)
  unfolding list_rows
  list_rows-Asks path [] out = search only_rules
  list_rows-Asks path (spec ∷ specs) out =
      let ih = list_rows-Asks path specs in search (only_rules, ih) depth 12

  -- Whatever the ports answer, `lclaw secrets list` changes nothing on the host and reads no value.
  pub list_secrets-Asks : (dir : String) → Only {S = S} Asks (list_secrets dir)
  unfolding list_secrets
  list_secrets-Asks dir =
      search (only_rules, prepare-Asks, require_keychain-Asks, list_rows-Asks) depth 20

  -- Whatever the ports answer, `lclaw secrets describe` changes nothing on the host and reads no
  -- value.
  pub describe-Asks : (dir name : String) → Only {S = S} Asks (describe dir name)
  unfolding describe
  describe-Asks dir name =
      search (only_rules, prepare-Asks, require_keychain-Asks, inspect-Asks) depth 20
