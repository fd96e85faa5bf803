-- ===== src/App/Lifecycle/Up.antt =====
-- internal/app/lifecycle.go, Up. The report is passed along in place of the variable r.
pub mod Calls
pub mod Gate
use localclaw.Common.{
  ℕ, ◌+◌, String, ◌<>◌, Bool, true, false, not, ◌&&◌, none, some, List, [], ◌∷◌, ◌++◌,
  if◌then◌else◌, ◌==◌, string_eq, nat_eq, ltb, length, is_nil, join_path, itoa,
}
use localclaw.App.Body.{
  on_error, M, Body, pure, return, lift, func, or_return, nil_or_return, call, still_running, ◌>>=◌,
  ◌>>◌,
}
use localclaw.App.Host.{
  Host, step, keychain_describe, network_exists, create_network, build, play, minter_ready,
}
use localclaw.App.Lifecycle.{Reported, load, passed, warned, failed, ensure_machine}
use localclaw.App.Secrets.{require_keychain}
use localclaw.App.Steps.{ResolvedSecret, resolve, inject}
use localclaw.Domain.Catalogue.{Catalogue, for_zone}
use localclaw.Domain.Errors.{Error, is, secret_not_found, wrapped, Result, ok, err}
use localclaw.Domain.Observe.{evaluate_secret}
use localclaw.Domain.Report.{Report, Check}
use localclaw.Domain.Role.{Role, services, role_eq, role_name, network_name, machine_name}
use localclaw.Domain.Secret.{SecretSpec, SecretItem, user, source_eq}
use localclaw.Domain.Topology.{
  Topology, ZoneSpec, zone, zone_or_zero, networks, dir, pod_file, image_tag,
}

abbrev ended : Report → Error → Reported
ended r e = (r, some e)

-- The report, and the name of the step that failed in this zone or an earlier one, or "".
abbrev Progressed : Type 0
Progressed = Report × String

abbrev skipped : Role → String → Check
skipped role problem =
    warned (role_name role) ("skipped because " <> (problem <> " failed"))
      "fix it, then run `lclaw up` again"

module _ {S : Type 0} ⦃H : Host S⦄ where
  -- The answer of Describe for a user secret; the count of the missing ones goes along.
  note_secret : SecretSpec → Result SecretItem → Report × ℕ → Body S Reported (Report × ℕ)
  note_secret spec (ok item) (r, missing) = pure (r, missing)
  note_secret spec (err e) (r, missing) =
      if is secret_not_found e
      then pure (r ++ (evaluate_secret spec (some e) ∷ []), missing + 1)
      else return (ended r (wrapped "lifecycle: " e ""))

  check_secrets : String → List SecretSpec → Report × ℕ → Body S Reported (Report × ℕ)
  unfolding note_secret
  check_secrets path [] at = pure at
  check_secrets path (spec ∷ specs) (r, missing) =
      if not (spec.source == user) then check_secrets path specs (r, missing) else do
        still_running (ended r)
        item ← call (keychain_describe path spec.name)
        at ← note_secret spec item (r, missing)
        check_secrets path specs at

  check_zones : String → Catalogue → List Role → Report × ℕ → Body S Reported (Report × ℕ)
  unfolding check_secrets
  check_zones path cat [] at = pure at
  check_zones path cat (role ∷ roles) at = do
    at' ← check_secrets path (for_zone cat role) at
    check_zones path cat roles at'

  create_if_absent : Role → Bool → Bool → Report → Body S Reported Report
  create_if_absent role internal true r =
      pure (r ++ (passed ("network/" <> role_name role) "present" ∷ []))
  create_if_absent role internal false r = do
    call (step ("network/" <> role_name role) ("creating " <> network_name role))
    problem ← call (create_network (network_name role) internal)
    nil_or_return (λ e. (r ++ (failed ("network/" <> role_name role) e ∷ []), none)) problem
    pure (
        r
        ++ (passed ("network/" <> role_name role)
              (if internal then "created (internal)" else "created")
            ∷ []))

  create_networks : Topology → List Role → Report → Body S Reported Report
  unfolding create_if_absent
  create_networks top [] r = pure r
  create_networks top (role ∷ roles) r = do
    still_running (ended r)
    answered ← call (network_exists (network_name role))
    exists ← or_return (λ e. (r ++ (failed ("network/" <> role_name role) e ∷ []), none)) answered
    r' ← create_if_absent role (zone_or_zero (zone top role)).internal exists r
    create_networks top roles r'

  -- A step that failed: the zone stops here, unless the context has ended.
  stop_zone : Report → String → Error → Body S Reported Progressed
  stop_zone r name e = do still_running (ended r); pure (r ++ (failed name e ∷ []), name)

  -- The rest of a workload after a successful build.
  play_workload : String → Role → ZoneSpec → String → Report → Body S Reported Progressed
  unfolding stop_zone
  play_workload host role z w r = do
    call (step (role_name role <> ("/" <> w)) ("playing " <> pod_file w))
    problem ←
        call (play (join_path host (pod_file w)) (networks z w) (if z.internal then "auto" else ""))
    on_error problem (λ e. stop_zone r (role_name role <> ("/" <> w)) e)
        (pure (r ++ (passed (role_name role <> ("/" <> w)) "built and playing" ∷ []), ""))

  apply_workload : String → Role → ZoneSpec → String → Report → Body S Reported Progressed
  unfolding play_workload
  apply_workload host role z w r = do
    still_running (ended r)
    call (step (role_name role <> ("/" <> w)) ("building " <> image_tag w))
    problem ← call (build (image_tag w) (join_path host (dir w)))
    on_error problem (λ e. stop_zone r (role_name role <> ("/" <> w)) e)
        (play_workload host role z w r)

  -- The loop breaks at the first workload that fails.
  apply_workloads : String → Role → ZoneSpec → List String → Report → Body S Reported Progressed
  unfolding apply_workload
  apply_workloads host role z [] r = pure (r, "")
  apply_workloads host role z (w ∷ ws) r = do
    (r', problem) ← apply_workload host role z w r
    if problem == "" then apply_workloads host role z ws r' else pure (r', problem)

  -- The minter's Ready, behind the services zone.
  await_minter : Bool → Role → Report → Body S Reported Progressed
  unfolding stop_zone
  await_minter has_minter role r = if not (role == services && has_minter) then pure (r, "") else do
    call (step (role_name role <> "/ready") "waiting for LiteLLM")
    problem ← call minter_ready
    on_error problem (λ e. stop_zone r (role_name role <> "/ready") e)
        (pure (r ++ (passed (role_name role <> "/ready") "LiteLLM is ready" ∷ []), ""))

  apply_zone : Bool → String → Role → ZoneSpec → Report → Body S Reported Progressed
  unfolding apply_workloads await_minter
  apply_zone has_minter host role z r = do
    (r', problem) ← apply_workloads host role z z.workloads r
    if problem == "" then await_minter has_minter role r' else pure (r', problem)

  inject_zone :
      Bool → String → Role → ZoneSpec → List ResolvedSecret → Report → Body S Reported Progressed
  unfolding apply_zone stop_zone
  inject_zone has_minter host role z secrets r = do
    problem ← lift (inject secrets)
    on_error problem (λ e. stop_zone r (role_name role <> "/secrets") e)
        (apply_zone has_minter host role z (
          r ++ (passed (role_name role <> "/secrets") (itoa (length secrets) <> " injected") ∷ [])))

  -- The body of the loop over the zones, for a zone that is not skipped.
  up_zone : Bool → String → Topology → Catalogue → Role → Report → Body S Reported Progressed
  unfolding inject_zone
  up_zone has_minter host top cat role r = do
    call (step (role_name role <> "/secrets") "resolving secrets")
    answered ← lift (resolve top.keychain_path cat role)
    resolution ← or_return (ended r) answered
    if not (is_nil resolution.findings)
        then pure (r ++ resolution.findings, role_name role <> "/secrets")
        else inject_zone has_minter host role (zone_or_zero (zone top role)) resolution.resolved r

  zone_or_skip :
      Bool → String → Topology → Catalogue → Role → Report → String → Body S Reported Progressed
  unfolding up_zone
  zone_or_skip has_minter host top cat role r problem =
      if problem == ""
      then up_zone has_minter host top cat role r
      else pure (r ++ (skipped role problem ∷ []), problem)

  up_zones :
      Bool → String → Topology → Catalogue → List Role → Report → String → Body S Reported Report
  unfolding zone_or_skip
  up_zones has_minter host top cat [] r problem = pure r
  up_zones has_minter host top cat (role ∷ roles) r problem = do
    still_running (ended r)
    (r', problem') ← zone_or_skip has_minter host top cat role r problem
    up_zones has_minter host top cat roles r' problem'

  -- From the machine on; `return r, nil` where a user secret is missing.
  up_machine : Bool → String → Topology → Catalogue → List Role → Report → Body S Reported Reported
  unfolding create_networks up_zones
  up_machine has_minter host top cat roles r = do
    call (step "machine" ("inspecting " <> machine_name))
    (check, problem) ← lift (ensure_machine host top)
    still_running (ended r)
    nil_or_return (λ _. (r ++ (check ∷ []), none)) problem
    r' ← create_networks top roles (r ++ (check ∷ []))
    r'' ← up_zones has_minter host top cat roles r' ""
    pure (r'', none)

  -- l.Up; `has_minter` is whether l.Minter is set.
  unfoldable pub up : Bool → String → List Role → M S Reported
  unfolding check_zones up_machine
  up has_minter host roles = func (do
    loaded ← lift (load host)
    (top, cat) ← or_return (ended []) loaded
    call (step "secrets" "checking the keychain")
    gate ← lift (require_keychain top.keychain_path)
    nil_or_return (ended []) gate
    (r, missing) ← check_zones top.keychain_path cat roles ([], 0)
    if ltb 0 missing then pure (r, none) else up_machine has_minter host top cat roles r)
