-- ===== src/App/Doctor.antt =====
-- internal/app/doctor.go: whether the host can run LocalClaw.
pub mod Calls
use localclaw.Common.{
  String, ◌<>◌, Bool, false, Option, none, some, List, [], ◌∷◌, ◌++◌, if◌then◌else◌, ◌==◌,
  string_eq, nat_eq, length, itoa,
}
use localclaw.App.Body.{M, Body, pure, lift, func, or_return, call, still_running, ◌>>=◌, ◌>>◌}
use localclaw.App.Host.{
  Host, open_dir, load_topology, flox_version, podman_version, list_machines, keychain_exists,
  keychain_describe,
}
use localclaw.App.Networks.{networks_present}
use localclaw.Domain.Catalogue.{new_catalogue}
use localclaw.Domain.Errors.{Error, is, text, not_exist, Result, ok, err}
use localclaw.Domain.Finding.{Finding}
use localclaw.Domain.Observe.{
  evaluate_machine, evaluate_networks, evaluate_keychain, evaluate_secret,
}
use localclaw.Domain.Report.{Report, Check, Status, pass, warn, fail, status_eq}
use localclaw.Domain.Requirement.{evaluate_tool, flox_requirement, podman_requirement}
use localclaw.Domain.Role.{roles}
use localclaw.Domain.Secret.{SecretSpec, user, source_eq, builtin_secrets}
use localclaw.Domain.Topology.{Topology, all_workloads, declared_secrets, topology_file}
use localclaw.Domain.Validate.{validate}

abbrev Reported : Type 0
Reported = Report × Option Error

abbrev ended : Report → Error → Reported
ended r e = (r, some e)

abbrev check : String → Status → String → String → Check
check name status summary hint = record {
  name = name;
  status = status;
  summary = summary;
  hint = hint;
}

-- The checks of the scaffold, and the topology where it can be read.
abbrev Scaffold : Type 0
Scaffold = List Check × Option Topology

skipped_topology : String → Check
skipped_topology hint = check "topology" warn "skipped because the scaffold check failed" hint

not_opened : String → Error → Scaffold
not_opened dir e =
    if is not_exist e
    then (
      check "scaffold" warn (dir <> " not found") "run `lclaw init` to write the default files"
          ∷ skipped_topology "run `lclaw init`, then `lclaw doctor` again"
          ∷ [],
      none,
    )
    else (
      check "scaffold" fail (text e) ""
          ∷ skipped_topology "fix the scaffold directory, then run `lclaw doctor` again"
          ∷ [],
      none,
    )

not_loaded : String → Error → Scaffold
not_loaded dir e = (
  check "scaffold" pass dir ""
      ∷ check "topology" fail (text e)
          (if is not_exist e then "run `lclaw init` to write the default " <> topology_file else "")
      ∷ [],
  none,
)

-- One check for each finding; `shown` renders a finding as "where: message".
finding_checks : (Finding → String) → List Finding → List Check
finding_checks shown [] = []
finding_checks shown (f ∷ fs) = check "topology" fail (shown f) "" ∷ finding_checks shown fs

topology_checks : (Finding → String) → Topology → List Finding → List Check
unfolding finding_checks
topology_checks shown top [] =
    check "topology" pass
      ("1 machine, "
        <> (itoa (length top.zones)
            <> (" zones, " <> (itoa (length (all_workloads top)) <> " workloads"))))
      ""
    ∷ []
topology_checks shown top (f ∷ fs) = finding_checks shown (f ∷ fs)

declared_user : List SecretSpec → List SecretSpec
declared_user [] = []
declared_user (s ∷ specs) =
    let rest = declared_user specs in if s.source == user then s ∷ rest else rest

error_of : {A : Type 0} → Result A → Option Error
error_of (ok a) = none
error_of (err e) = some e

answer_or_false : Result Bool → Bool
answer_or_false (ok b) = b
answer_or_false (err e) = false

podman_skipped : Report → Report
podman_skipped r =
    r
    ++ (check "machine" warn "skipped because the podman check failed"
          "fix podman, then run `lclaw doctor` again"
        ∷ [])

module _ {S : Type 0} ⦃H : Host S⦄ where
  -- d.scaffoldChecks(dir); its last result is whether the topology is there.
  scaffold_checks : (Finding → String) → String → M S Scaffold
  unfolding not_opened not_loaded topology_checks skipped_topology
  scaffold_checks shown dir = func (do
    opened ← call (open_dir dir)
    fsys ← or_return (not_opened dir) opened
    loaded ← call (load_topology fsys)
    top ← or_return (not_loaded dir) loaded
    pure (
      check "scaffold" pass dir "" ∷ topology_checks shown top (validate top fsys.exists),
      some top,
    ))

  -- The loop stops where the context has ended, and what it has found stands.
  describe_all : String → List SecretSpec → List Check → Body S (List Check) (List Check)
  unfolding error_of
  describe_all path [] checks = pure checks
  describe_all path (spec ∷ specs) checks = do
    still_running (λ _. checks)
    item ← call (keychain_describe path spec.name)
    describe_all path specs (checks ++ (evaluate_secret spec (error_of item) ∷ []))

  -- The declared secrets, behind the check of the keychain.
  declared_checks : String → Check → List SecretSpec → Body S (List Check) (List Check)
  unfolding describe_all
  declared_checks path keychain [] = pure (keychain ∷ [])
  declared_checks path keychain (spec ∷ specs) =
      if keychain.status == fail
      then pure (
          keychain
          ∷ check "secrets" warn "skipped because the keychain check failed"
              "run `lclaw init`, then `lclaw doctor` again"
          ∷ [])
      else describe_all path (spec ∷ specs) (keychain ∷ [])

  -- d.secretChecks
  secret_checks : Option Topology → M S (List Check)
  unfolding declared_checks declared_user error_of answer_or_false
  secret_checks none = func (
      pure (
        check "keychain" warn "skipped because the topology check failed"
          ("fix " <> (topology_file <> ", then run `lclaw doctor` again"))
        ∷ []))
  secret_checks (some top) = func (do
    answered ← call (keychain_exists top.keychain_path)
    declared_checks top.keychain_path
        (evaluate_keychain top.keychain_path (answer_or_false answered) (error_of answered))
        (declared_user (new_catalogue builtin_secrets (declared_secrets top)).0))

  network_checks : Topology → Report → Body S Reported Reported
  network_checks top r = do
    answered ← lift (networks_present roles)
    still_running (ended r)
    present ← or_return (λ e. (r ++ (check "networks" fail (text e) "" ∷ []), none)) answered
    pure (r ++ evaluate_networks top roles present, none)

  machine_checks : Option Topology → Report → Body S Reported Reported
  unfolding network_checks
  machine_checks top r = do
    listed ← call list_machines
    still_running (ended r)
    machines ← or_return (λ e. (r ++ (check "machine" fail (text e) "" ∷ []), none)) listed
    let (machine, running) = evaluate_machine machines
    elim top [
      | none ↦ pure (r ++ (machine ∷ []), none)
      | some t ↦
          if running
          then network_checks t (r ++ (machine ∷ []))
          else pure (r ++ (machine ∷ []), none)
    ]

  -- d.Run
  unfoldable pub doctor : (Finding → String) → String → M S Reported
  unfolding scaffold_checks secret_checks machine_checks podman_skipped
  doctor shown dir = func (do
    (fv, fe) ← call flox_version
    let flox = evaluate_tool flox_requirement fv fe
    still_running (ended (flox ∷ []))
    (pv, pe) ← call podman_version
    let podman = evaluate_tool podman_requirement pv pe
    still_running (ended (flox ∷ podman ∷ []))
    (scaffold, top) ← lift (scaffold_checks shown dir)
    secrets ← lift (secret_checks top)
    let r : Report = (flox ∷ podman ∷ scaffold) ++ secrets
    still_running (ended r)
    if podman.status == fail then pure (podman_skipped r, none) else machine_checks top r)
