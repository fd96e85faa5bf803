-- ===== src/App/Doctor/Calls.antt =====
-- Doctor only asks.
use localclaw.Common.{String, Option, none, some, List, [], ◌∷◌, string_eq, nat_eq}
use localclaw.App.Trace.{Only, Only-if, Only-pure, only_rules}
use localclaw.App.Kinds.{Asks}
use localclaw.App.Host.{Host}
use localclaw.App.Doctor.{
  doctor, describe_all, declared_checks, secret_checks, scaffold_checks, machine_checks,
  network_checks,
}
use localclaw.App.Networks.Calls.{networks_present-Asks}
use localclaw.Domain.Finding.{Finding}
use localclaw.Domain.Report.{Check, Report}
use localclaw.Domain.Secret.{SecretSpec}
use localclaw.Domain.Topology.{Topology}

module _ {S : Type 0} ⦃H : Host S⦄ where
  scaffold_checks-Asks :
      (shown : Finding → String) (dir : String) → Only {S = S} Asks (scaffold_checks shown dir)
  unfolding scaffold_checks
  scaffold_checks-Asks shown dir = search only_rules depth 14

  describe_all-Asks :
      (path : String) (specs : List SecretSpec) (checks : List Check)
      → Only {S = S} Asks (describe_all path specs checks)
  unfolding describe_all
  describe_all-Asks path [] checks = search only_rules
  describe_all-Asks path (spec ∷ specs) checks =
      let ih = describe_all-Asks path specs in search (only_rules, ih) depth 12

  declared_checks-Asks :
      (path : String) (keychain : Check) (specs : List SecretSpec)
      → Only {S = S} Asks (declared_checks path keychain specs)
  unfolding declared_checks
  declared_checks-Asks path keychain [] = search only_rules
  declared_checks-Asks path keychain (spec ∷ specs) =
      Only-if _ _ _ (Only-pure _) (describe_all-Asks path (spec ∷ specs) _)

  secret_checks-Asks : (top : Option Topology) → Only {S = S} Asks (secret_checks top)
  unfolding secret_checks
  secret_checks-Asks none = search only_rules
  secret_checks-Asks (some top) = search (only_rules, declared_checks-Asks) depth 12

  network_checks-Asks : (top : Topology) (r : Report) → Only {S = S} Asks (network_checks top r)
  unfolding network_checks
  network_checks-Asks top r = search (only_rules, networks_present-Asks) depth 12

  machine_checks-Asks :
      (top : Option Topology) (r : Report) → Only {S = S} Asks (machine_checks top r)
  unfolding machine_checks
  machine_checks-Asks none r = search only_rules depth 12
  machine_checks-Asks (some top) r = search (only_rules, network_checks-Asks) depth 12

  -- Whatever the ports answer, `lclaw doctor` changes nothing on the host and reads no secret value.
  pub doctor-Asks : (shown : Finding → String) (dir : String) → Only {S = S} Asks (doctor shown dir)
  unfolding doctor
  doctor-Asks shown dir =
      search (only_rules, scaffold_checks-Asks, secret_checks-Asks, machine_checks-Asks) depth 24
