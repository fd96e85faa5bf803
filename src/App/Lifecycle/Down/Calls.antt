-- ===== src/App/Lifecycle/Down/Calls.antt =====
-- The calls of Down and destroy.
use localclaw.Common.{
  String, Bool, true, false, Option, none, some, List, [], ◌∷◌, string_eq, nat_eq,
}
use localclaw.App.Trace.{Only-func, Only-lift, Only, Only-bind, only_rules}
use localclaw.App.Kinds.{Within, Only-asks, lowers, asks-lowers}
use localclaw.App.Host.{Host, Call}
use localclaw.App.Lifecycle.{load}
use localclaw.App.Lifecycle.Calls.{load-Asks}
use localclaw.App.Lifecycle.Down.{
  Emptying, forget, forget_minted, destroy, stop_pod, stop_pods, settle_network, leave_network,
  empty_zones, shut_down, down_machine, down,
}
use localclaw.App.Steps.Calls.{purge-Lowers}
use localclaw.Domain.Catalogue.{Catalogue}
use localclaw.Domain.Errors.{Result, ok, err}
use localclaw.Domain.Report.{Report}
use localclaw.Domain.Role.{Role, Machine}
use localclaw.Domain.Secret.{SecretSpec, SecretItem}
use localclaw.Domain.Topology.{Topology}

abbrev Lowers : Call → Type 0
Lowers = Within lowers

module _ {S : Type 0} ⦃H : Host S⦄ where
  forget-Lowers :
      (path : String) (spec : SecretSpec) (item : Result SecretItem) (r : Report)
      → Only {S = S} Lowers (forget path spec item r)
  unfolding forget
  forget-Lowers path spec (ok item) r = search only_rules depth 9
  forget-Lowers path spec (err e) r = search only_rules

  forget_minted-Lowers :
      (path : String) (specs : List SecretSpec) (r : Report)
      → Only {S = S} Lowers (forget_minted path specs r)
  unfolding forget_minted
  forget_minted-Lowers path [] r = search only_rules
  forget_minted-Lowers path (spec ∷ specs) r =
      let ih = forget_minted-Lowers path specs in search (only_rules, forget-Lowers, ih) depth 14

  destroy-Lowers :
      (top : Topology) (cat : Catalogue) (r : Report) → Only {S = S} Lowers (destroy top cat r)
  unfolding destroy
  destroy-Lowers top cat r = search (only_rules, forget_minted-Lowers) depth 14

  stop_pod-Lowers :
      (host : String) (role : Role) (w : String) (at : Emptying)
      → Only {S = S} Lowers (stop_pod host role w at)
  unfolding stop_pod
  stop_pod-Lowers host role w at = search only_rules depth 14

  stop_pods-Lowers :
      (host : String) (role : Role) (ws : List String) (at : Emptying)
      → Only {S = S} Lowers (stop_pods host role ws at)
  unfolding stop_pods
  stop_pods-Lowers host role [] at = search only_rules
  stop_pods-Lowers host role (w ∷ ws) at =
      let ih = stop_pods-Lowers host role ws in search (only_rules, stop_pod-Lowers, ih) depth 14

  settle_network-Lowers :
      (role : Role) (answered : Result Bool) (r : Report)
      → Only {S = S} Lowers (settle_network role answered r)
  unfolding settle_network
  settle_network-Lowers role (err e) r = search only_rules
  settle_network-Lowers role (ok true) r = search only_rules depth 14
  settle_network-Lowers role (ok false) r = search only_rules

  leave_network-Lowers :
      (role : Role) (zone_ok : Bool) (r : Report)
      → Only {S = S} Lowers (leave_network role zone_ok r)
  unfolding leave_network
  leave_network-Lowers role false r = search only_rules
  leave_network-Lowers role true r = search (only_rules, settle_network-Lowers) depth 9

  empty_zones-Lowers :
      (host : String) (top : Topology) (roles : List Role) (at : Report × List String)
      → Only {S = S} Lowers (empty_zones host top roles at)
  unfolding empty_zones
  empty_zones-Lowers host top [] at = search only_rules
  empty_zones-Lowers host top (role ∷ roles) at =
      let ih = empty_zones-Lowers host top roles in
      search (only_rules, stop_pods-Lowers, leave_network-Lowers, ih) depth 14

  shut_down-Lowers :
      (top : Topology) (cat : Catalogue) (wipe : Bool) (r : Report)
      → Only {S = S} Lowers (shut_down top cat wipe r)
  unfolding shut_down
  shut_down-Lowers top cat wipe r = search (only_rules, purge-Lowers, destroy-Lowers) depth 20

  down_machine-Lowers :
      (host : String) (top : Topology) (cat : Catalogue) (selected : List Role) (wipe : Bool)
      (m : Option Machine)
      → Only {S = S} Lowers (down_machine host top cat selected wipe m)
  unfolding down_machine
  down_machine-Lowers host top cat selected wipe none = search only_rules
  down_machine-Lowers host top cat selected wipe (some m) =
      search (only_rules, empty_zones-Lowers, shut_down-Lowers, destroy-Lowers) depth 20

  -- Whatever the ports answer, `lclaw down` builds, creates and starts nothing, writes no file, no
  -- keychain item and no secret of the store, and neither reads nor makes a secret value.
  pub down-Lowers :
      (dir : String) (selected : List Role) (wipe : Bool)
      → Only {S = S} (Within lowers) (down dir selected wipe)
  unfolding down
  down-Lowers dir selected wipe =
      let loads = Only-asks {S = S} lowers (load dir) asks-lowers (load-Asks dir) in
      Only-func _
        (Only-bind _ _ (Only-lift _ loads) λ l. search (only_rules, down_machine-Lowers) depth 20)
