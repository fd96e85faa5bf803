-- ===== src/App/Lifecycle/Status.antt =====
-- internal/app/lifecycle.go, Status.
pub mod Calls
use localclaw.Common.{String, none, some, [], ◌∷◌, ◌++◌, if◌then◌else◌, string_eq, nat_eq}
use localclaw.App.Body.{M, Body, pure, lift, func, or_return, call, still_running, ◌>>=◌, ◌>>◌}
use localclaw.App.Host.{Host, list_machines, list_pods}
use localclaw.App.Lifecycle.{Reported, load, failed}
use localclaw.App.Networks.{networks_present}
use localclaw.Domain.Errors.{Error}
use localclaw.Domain.Observe.{evaluate_machine, evaluate_networks, evaluate_workloads}
use localclaw.Domain.Report.{Report}
use localclaw.Domain.Role.{roles}
use localclaw.Domain.Topology.{Topology}

abbrev ended : Report → Error → Reported
ended r e = (r, some e)

module _ {S : Type 0} ⦃H : Host S⦄ where
  -- The machine runs.
  inside : Topology → Report → Body S Reported Reported
  inside top r = do
    answered ← lift (networks_present roles)
    still_running (ended r)
    present ← or_return (λ e. (r ++ (failed "networks" e ∷ []), none)) answered
    listed ← call list_pods
    still_running (ended (r ++ evaluate_networks top roles present))
    pods ←
        or_return
          (λ e. ((r ++ evaluate_networks top roles present) ++ (failed "pods" e ∷ []), none)) listed
    pure ((r ++ evaluate_networks top roles present) ++ evaluate_workloads top roles pods, none)

  -- l.Status
  unfoldable pub status : String → M S Reported
  unfolding inside
  status host = func (do
    loaded ← lift (load host)
    (top, _) ← or_return (ended []) loaded
    listed ← call list_machines
    machines ← or_return (λ e. (failed "machine" e ∷ [], none)) listed
    let (check, running) = evaluate_machine machines
    if running then inside top (check ∷ []) else pure (check ∷ [], none))
