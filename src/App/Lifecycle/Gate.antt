-- ===== src/App/Lifecycle/Gate.antt =====
-- Loading and ensureMachine touch no item of the keychain.
use localclaw.Common.{String, Option, none, some, string_eq, nat_eq}
use localclaw.App.Gate.{Opened, Gated, gated_rules}
use localclaw.App.Host.{Host}
use localclaw.App.Lifecycle.{load, ensure_machine, create_or_start}
use localclaw.Domain.Role.{Machine}
use localclaw.Domain.Topology.{Topology}

module _ {S : Type 0} ⦃H : Host S⦄ {k : Opened} where
  pub load-Gated : (dir : String) → Gated {S = S} k (load dir)
  unfolding load
  load-Gated dir = search gated_rules depth 14

  create_or_start-Gated :
      (dir : String) (top : Topology) (m : Option Machine)
      → Gated {S = S} k (create_or_start dir top m)
  unfolding create_or_start
  create_or_start-Gated dir top none = search gated_rules depth 16
  create_or_start-Gated dir top (some m) = search gated_rules depth 16

  pub ensure_machine-Gated :
      (dir : String) (top : Topology) → Gated {S = S} k (ensure_machine dir top)
  unfolding ensure_machine
  ensure_machine-Gated dir top = search (gated_rules, create_or_start-Gated) depth 12
