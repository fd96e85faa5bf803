-- ===== src/Domain/Observe.antt =====
-- internal/domain/status.go and secret_check.go: observations turned into checks.
pub mod Workloads
use localclaw.Common.{
  String, ◌<>◌, Bool, true, false, not, ◌&&◌, Option, none, some, List, [], ◌∷◌, ◌++◌, map,
  if◌then◌else◌, ◌==◌, string_eq, nat_eq, is_nil,
}
use localclaw.Domain.Errors.{Error, is, text, secret_not_found}
use localclaw.Domain.Report.{Check, pass, warn, fail}
use localclaw.Domain.Role.{Role, role_name, network_name, machine_name, Machine}
use localclaw.Domain.Secret.{SecretSpec}
use localclaw.Domain.Topology.{Topology, zone, zone_or_zero}

pub record Container : Type 0 where
  pub name : String
  pub state : String

pub record Pod : Type 0 where
  pub name : String
  pub containers : List Container

all_running : List Container → Bool
all_running [] = true
all_running (c ∷ cs) = c.state == "running" && all_running cs

-- p.Running()
unfoldable pub running : Pod → Bool
unfolding all_running
running p = not (is_nil p.containers) && all_running p.containers

unfoldable pub evaluate_machine : List Machine → Check × Bool
evaluate_machine [] = (
  record { name = "machine"; status = warn; summary = "not created"; hint = "run `lclaw up`" },
  false,
)
evaluate_machine (m ∷ ms) =
    let rest = evaluate_machine ms in
    if not (m.name == machine_name)
    then rest
    else if m.running
    then (record { name = "machine"; status = pass; summary = "running"; hint = "" }, true)
    else (
      record { name = "machine"; status = pass; summary = "stopped"; hint = "run `lclaw up`" },
      false,
    )

network_check : Topology → (String → Bool) → Role → Check
network_check t present r =
    if present (network_name r)
    then record {
      name = "network/" <> role_name r;
      status = pass;
      summary = if (zone_or_zero (zone t r)).internal then "present (internal)" else "present";
      hint = "";
    }
    else record {
      name = "network/" <> role_name r;
      status = warn;
      summary = "missing";
      hint = "run `lclaw up " <> (role_name r <> "`");
    }

-- The map `present` is a function.
unfoldable pub evaluate_networks : Topology → List Role → (String → Bool) → List Check
unfolding network_check
evaluate_networks t rs present = map (network_check t present) rs

-- `byName` is built in list order, so the last pod of a name stands in it.
unfoldable pub pod_named : List Pod → String → Option Pod
pod_named [] name = none
pod_named (p ∷ ps) name = elim (pod_named ps name) [
  | some q ↦ some q
  | none ↦ if p.name == name then some p else none
]

degraded_from : List Container → String → String
degraded_from [] out = out
degraded_from (c ∷ cs) out = degraded_from cs (
    if c.state == "running"
    then out
    else (if out == "" then out else out <> ", ") <> ("container " <> (c.name <> (" " <> c.state))))

degraded : Pod → String
unfolding degraded_from
degraded p = if is_nil p.containers then "no containers" else degraded_from p.containers ""

pod_check : Role → String → Option Pod → Check
pod_check r w none = record {
  name = role_name r <> ("/" <> w);
  status = warn;
  summary = "absent";
  hint = "run `lclaw up " <> (role_name r <> "`");
}
pod_check r w (some p) =
    if running p
    then record { name = role_name r <> ("/" <> w); status = pass; summary = "running"; hint = "" }
    else record {
      name = role_name r <> ("/" <> w);
      status = fail;
      summary = "degraded: " <> degraded p;
      hint = "podman --connection lclaw pod logs " <> p.name;
    }

zone_checks : Role → List Pod → List String → List Check
zone_checks r pods ws = map (λ w. pod_check r w (pod_named pods w)) ws

unfoldable pub evaluate_workloads : Topology → List Role → List Pod → List Check
unfolding zone_checks pod_check degraded
evaluate_workloads t [] pods = []
evaluate_workloads t (r ∷ rs) pods =
    (elim (zone t r) [ none ↦ [] | some z ↦ zone_checks r pods z.workloads ])
    ++ evaluate_workloads t rs pods

unfoldable pub evaluate_keychain : String → Bool → Option Error → Check
evaluate_keychain path exists (some e) = record {
  name = "keychain";
  status = fail;
  summary = text e;
  hint = "";
}
evaluate_keychain path exists none =
    if exists
    then record { name = "keychain"; status = pass; summary = path; hint = "" }
    else record {
      name = "keychain";
      status = fail;
      summary = "not found at " <> path;
      hint = "run `lclaw init` to create it";
    }

unfoldable pub evaluate_secret : SecretSpec → Option Error → Check
evaluate_secret spec none = record { name = spec.name; status = pass; summary = "set"; hint = "" }
evaluate_secret spec (some e) =
    if is secret_not_found e
    then record {
      name = spec.name;
      status = fail;
      summary = "unset";
      hint = "run `lclaw secrets set " <> (spec.name <> "`");
    }
    else record { name = spec.name; status = fail; summary = text e; hint = "" }
