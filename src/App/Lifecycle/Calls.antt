-- ===== src/App/Lifecycle/Calls.antt =====
-- What loading a scaffold and ensureMachine call.
use localclaw.Common.{String, Option, none, some, string_eq, nat_eq}
use localclaw.App.Trace.{Only, only_rules}
use localclaw.Domain.Role.{Machine}
use localclaw.Domain.Topology.{Topology}
use localclaw.App.Kinds.{Within, raises, Asks}
use localclaw.App.Host.{Host}
use localclaw.App.Lifecycle.{create_or_start, ensure_machine, load, ensure_machine, create_or_start}

module _ {S : Type 0} ⦃H : Host S⦄ where
  pub load-Asks : (dir : String) → Only {S = S} Asks (load dir)
  unfolding load
  load-Asks dir = search only_rules depth 14

  create_or_start-Raises :
      (dir : String) (top : Topology) (m : Option Machine)
      → Only {S = S} (Within raises) (create_or_start dir top m)
  unfolding create_or_start
  create_or_start-Raises dir top none = search only_rules depth 16
  create_or_start-Raises dir top (some m) = search only_rules depth 16

  pub ensure_machine-Raises :
      (dir : String) (top : Topology) → Only {S = S} (Within raises) (ensure_machine dir top)
  unfolding ensure_machine
  ensure_machine-Raises dir top = search (only_rules, create_or_start-Raises) depth 12
