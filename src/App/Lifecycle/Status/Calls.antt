-- ===== src/App/Lifecycle/Status/Calls.antt =====
-- Status only asks.
use localclaw.Common.{String, string_eq, nat_eq}
use localclaw.App.Trace.{Only, only_rules}
use localclaw.App.Kinds.{Asks}
use localclaw.App.Host.{Host}
use localclaw.App.Lifecycle.Calls.{load-Asks}
use localclaw.App.Lifecycle.Status.{status}
use localclaw.App.Networks.Calls.{networks_present-Asks}

module _ {S : Type 0} ⦃H : Host S⦄ where
  -- Whatever the ports answer, `lclaw status` changes nothing on the host and reads no secret value.
  pub status-Asks : (dir : String) → Only {S = S} Asks (status dir)
  unfolding status
  status-Asks dir = search (only_rules, load-Asks, networks_present-Asks) depth 20
