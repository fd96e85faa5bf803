-- ===== src/Tests/Files.antt =====
-- The theorems on lclaw.toml, on what it declares and on what is observed, at concrete data.
use localclaw.Common.{
  tally, String, ◌≡◌, refl, ◌↔◌, Bool, true, Option, none, some, List, [], ◌∷◌, contains, string_eq,
  nat_eq, All, Distinct, pos,
}
use localclaw.Tests.Ports.{small_topology, plain_zone}
use localclaw.Domain.Catalogue.{new_catalogue}
use localclaw.Domain.Catalogue.Merging.{new_catalogue-Distinct}
use localclaw.Domain.NameOrder.Sorting.{names, IsSorted}
use localclaw.Domain.Errors.{Error}
use localclaw.Domain.Observe.{Pod, evaluate_workloads}
use localclaw.Domain.Observe.Workloads.{IsUp, Passes, workloads_at, evaluate_workloads_iff}
use localclaw.Domain.Report.{pass}
use localclaw.Domain.Requirement.{podman_requirement, evaluate_tool}
use localclaw.Domain.Requirement.Accepted.{evaluate_tool_iff}
use localclaw.Domain.Role.{services, agent, roles, role_name, parse_role}
use localclaw.Domain.Role.Selection.{parse_role_iff}
use localclaw.Domain.Secret.{builtin_secrets, valid_name}
use localclaw.Domain.Topology.{ZoneSpec, zone, networks, bridges_of, providers, declared_secrets}
use localclaw.Domain.Topology.Networks.{InPlace, network_names, networks-InPlace}
use localclaw.Domain.Validate.{
  validate, schema_findings, provider_findings, positive_findings, volume_findings,
  valid_workload_name, count_findings, reach_findings,
}
use localclaw.Domain.Validate.Accepted.{IsSized, validate-nil}
use localclaw.Domain.Validate.Counted.{tables}
use localclaw.Domain.Validate.Walked.{IsAccepted}
use localclaw.Domain.Version.{Version}
use localclaw.Domain.Version.Order.{Above}

everything : String → Bool
everything path = true

small_topology-valid : validate small_topology everything ≡ []
unfolding everything validate string_eq schema_findings nat_eq provider_findings positive_findings
    volume_findings valid_workload_name parse_role count_findings reach_findings new_catalogue
    declared_secrets valid_name
small_topology-valid = refl

validate-nil_example :
    (small_topology.schema ≡ pos 2)
    × (contains providers small_topology.provider ≡ true)
    × IsSized small_topology
    × All (IsAccepted everything) small_topology.zones
    × All (λ r. tables (role_name r) small_topology.zones ≡ 1) roles
    × ((new_catalogue builtin_secrets (declared_secrets small_topology)).1 ≡ [])
validate-nil_example = validate-nil small_topology everything small_topology-valid

builtin_secrets-Distinct : Distinct (names builtin_secrets)
unfolding string_eq
builtin_secrets-Distinct = (refl, (refl, (refl, (refl, (refl, tt)))))

new_catalogue-Distinct_example :
    Distinct (names (new_catalogue builtin_secrets (declared_secrets small_topology)).0)
    × IsSorted (new_catalogue builtin_secrets (declared_secrets small_topology)).0
new_catalogue-Distinct_example =
    new_catalogue-Distinct builtin_secrets (declared_secrets small_topology)
      builtin_secrets-Distinct

abbrev one_pod : List Pod
one_pod =
    record { name = "litellm"; containers = record { name = "main"; state = "running" } ∷ [] } ∷ []

evaluate_workloads_iff_example :
    All Passes (evaluate_workloads small_topology (services ∷ []) one_pod)
    ↔ All (λ r. All (λ w. IsUp one_pod w) (workloads_at (zone small_topology r))) (services ∷ [])
evaluate_workloads_iff_example = evaluate_workloads_iff small_topology (services ∷ []) one_pod

abbrev found_podman : Version
found_podman = record { major = 5; minor = 10; patch = 1; raw = [] }

abbrev no_error : Option Error
no_error = none

evaluate_tool_iff_example :
    ((evaluate_tool podman_requirement found_podman no_error).status ≡ pass)
    ↔ ((no_error ≡ none) × Above found_podman podman_requirement.least)
evaluate_tool_iff_example = evaluate_tool_iff podman_requirement found_podman no_error

parse_role_iff_example : (parse_role "agent" ≡ some agent) ↔ ("agent" ≡ role_name agent)
parse_role_iff_example = parse_role_iff "agent" agent

abbrev bridged_zone : ZoneSpec
bridged_zone = record (plain_zone "services" ("litellm" ∷ [])) {
  bridges = ("litellm", "agent" ∷ "infra" ∷ []) ∷ [];
}

networks-InPlace_example :
    (bridged : List String) × (networks bridged_zone "litellm"
      ≡ "lclaw-services" ∷ network_names bridged)
    × InPlace bridged
    × ((p : String → Bool) → tally p bridged ≡ tally p (bridges_of bridged_zone.bridges "litellm"))
networks-InPlace_example = networks-InPlace bridged_zone "litellm"
