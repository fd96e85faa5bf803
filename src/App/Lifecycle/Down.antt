-- ===== src/App/Lifecycle/Down.antt =====
-- internal/app/lifecycle.go, Down and destroy.
pub mod Calls
pub mod Refusal
use localclaw.Common.{
  String, ◌<>◌, Bool, true, false, not, ◌&&◌, Option, none, some, List, [], ◌∷◌, ◌++◌,
  if◌then◌else◌, ◌==◌, contains, string_eq, nat_eq, length, is_nil, reversed, join_path, itoa,
}
use localclaw.App.Body.{
  on_error, M, Body, pure, return, lift, func, or_return, call, still_running, ◌>>=◌, ◌>>◌,
}
use localclaw.App.Host.{
  Host, step, list_machines, list_pods, kube_down, network_exists, remove_network, stop_machine,
  remove_machine, keychain_describe, keychain_delete,
}
use localclaw.App.Lifecycle.{Reported, load, passed, warned, failed}
use localclaw.App.Steps.{purge}
use localclaw.Domain.Catalogue.{Catalogue}
use localclaw.Domain.Errors.{Error, is, failure, secret_not_found, Result, ok, err}
use localclaw.Domain.Observe.{Pod}
use localclaw.Domain.Report.{Report, Check}
use localclaw.Domain.Role.{Role, roles, role_name, network_name, machine_name, Machine}
use localclaw.Domain.Secret.{SecretSpec, SecretItem, minted, source_eq}
use localclaw.Domain.Topology.{Topology, zone, zone_or_zero, pod_file}

abbrev ended : Report → Error → Reported
ended r e = (r, some e)

abbrev plus : Report → Check → Report
plus r c = r ++ (c ∷ [])

-- The loop does not break, so the last machine of the name stands.
last_machine : List Machine → Option Machine → Option Machine
last_machine [] found = found
last_machine (m ∷ ms) found = last_machine ms (if m.name == machine_name then some m else found)

-- The keys of the map `present`.
pod_names : List Pod → List String → List String
pod_names [] present = present
pod_names (p ∷ ps) present =
    pod_names ps (if contains present p.name then present else present ++ (p.name ∷ []))

without : String → List String → List String
without name [] = []
without name (p ∷ ps) = let rest = without name ps in if p == name then rest else p ∷ rest

-- What the loop over a zone's workloads carries: the report, the pods that are left, zoneOK.
abbrev Emptying : Type 0
Emptying = Report × List String × Bool

purge_check : Report → Result (List String) → Report
purge_check r (ok names) = plus r (passed "secrets" (itoa (length names) <> " purged"))
purge_check r (err e) = plus r (failed "secrets" e)

abbrev kept_hint : String
kept_hint = "run `lclaw down` with no zone to stop the machine"

kept_checks : Report → List String → Report
kept_checks r present =
    plus
      (plus r (
        warned "secrets" ("kept: " <> (itoa (length present) <> " pod(s) still running"))
          kept_hint))
      (warned "machine" "running" kept_hint)

abbrev whole_machine : Reported
whole_machine =
    ([], some (failure "lifecycle: --destroy applies to the whole machine; name no zone"))

module _ {S : Type 0} ⦃H : Host S⦄ where
  -- Forgetting one minted secret, from what Describe answers.
  forget : String → SecretSpec → Result SecretItem → Report → Body S Reported Report
  forget path spec (err e) r =
      if is secret_not_found e then pure r else pure (plus r (failed ("secrets/" <> spec.name) e))
  forget path spec (ok item) r = do
    problem ← call (keychain_delete path spec.name)
    on_error problem (λ e. pure (plus r (failed ("secrets/" <> spec.name) e)))
        (pure (plus r (passed ("secrets/" <> spec.name) "forgotten; minted again on the next up")))

  forget_minted : String → List SecretSpec → Report → Body S Reported Report
  unfolding forget
  forget_minted path [] r = pure r
  forget_minted path (spec ∷ specs) r =
      if not (spec.source == minted) then forget_minted path specs r else do
        still_running (ended r)
        item ← call (keychain_describe path spec.name)
        r' ← forget path spec item r
        forget_minted path specs r'

  -- l.destroy
  unfoldable pub destroy : Topology → Catalogue → Report → M S Reported
  unfolding forget_minted
  destroy top cat r = func (do
    call (step "machine" ("removing " <> machine_name))
    problem ← call (remove_machine top.provider machine_name)
    on_error problem (λ e. do still_running (ended r); pure (plus r (failed "destroy" e), none))
        (do
          r' ←
              forget_minted top.keychain_path cat
                (plus r (passed "destroy" (machine_name <> " removed with its images and volumes")))
          pure (r', none)))

  stop_pod : String → Role → String → Emptying → Body S Reported Emptying
  unfolding without
  stop_pod host role w (r, present, zone_ok) =
      if not (contains present w)
      then pure (plus r (warned (role_name role <> ("/" <> w)) "absent" ""), present, zone_ok)
      else do
        call (step (role_name role <> ("/" <> w)) ("kube down " <> pod_file w))
        problem ← call (kube_down (join_path host (pod_file w)))
        on_error problem
            (λ e. do
              still_running (ended r)
              pure (plus r (failed (role_name role <> ("/" <> w)) e), present, false))
            (pure (
              plus r (passed (role_name role <> ("/" <> w)) "stopped"),
              without w present,
              zone_ok,
            ))

  stop_pods : String → Role → List String → Emptying → Body S Reported Emptying
  unfolding stop_pod
  stop_pods host role [] at = pure at
  stop_pods host role (w ∷ ws) (r, present, zone_ok) = do
    still_running (ended r)
    at ← stop_pod host role w (r, present, zone_ok)
    stop_pods host role ws at

  drop_network : Role → Bool → Report → Body S Reported Report
  drop_network role false r = pure (plus r (warned ("network/" <> role_name role) "absent" ""))
  drop_network role true r = do
    call (step ("network/" <> role_name role) ("removing " <> network_name role))
    problem ← call (remove_network (network_name role))
    on_error problem (λ e. pure (plus r (failed ("network/" <> role_name role) e)))
        (pure (plus r (passed ("network/" <> role_name role) "removed")))

  settle_network : Role → Result Bool → Report → Body S Reported Report
  unfolding drop_network
  settle_network role (err e) r = pure (plus r (failed ("network/" <> role_name role) e))
  settle_network role (ok exists) r = drop_network role exists r

  leave_network : Role → Bool → Report → Body S Reported Report
  unfolding settle_network
  leave_network role false r =
      pure (
        plus r (warned ("network/" <> role_name role) "kept because a pod could not be stopped" ""))
  leave_network role true r = do
    answered ← call (network_exists (network_name role))
    still_running (ended r)
    settle_network role answered r

  -- The zones in the order given, which is the reverse of the selection.
  empty_zones :
      String → Topology → List Role → Report × List String → Body S Reported (Report × List String)
  unfolding stop_pods leave_network
  empty_zones host top [] at = pure at
  empty_zones host top (role ∷ roles) (r, present) = do
    (r', present', zone_ok) ←
        stop_pods host role (reversed (zone_or_zero (zone top role)).workloads) (r, present, true)
    r'' ← leave_network role zone_ok r'
    empty_zones host top roles (r'', present')

  -- No pod is left: purge the store, stop the machine, and destroy it if that was asked.
  shut_down : Topology → Catalogue → Bool → Report → Body S Reported Reported
  unfolding purge_check
  shut_down top cat wipe r = do
    call (step "secrets" "purging the secret store")
    purged ← lift purge
    still_running (ended r)
    call (step "machine" ("stopping " <> machine_name))
    problem ← call (stop_machine top.provider machine_name)
    on_error problem
        (λ e. do
          still_running (ended (purge_check r purged))
          pure (plus (purge_check r purged) (failed "machine" e), none))
        (if not wipe
          then pure (plus (purge_check r purged) (passed "machine" "stopped"), none)
          else lift (destroy top cat (plus (purge_check r purged) (passed "machine" "stopped"))))

  -- The machine runs.
  down_running : String → Topology → Catalogue → List Role → Bool → Body S Reported Reported
  unfolding empty_zones shut_down kept_checks pod_names
  down_running host top cat selected wipe = do
    listed ← call list_pods
    pods ← or_return (λ e. (failed "pods" e ∷ [], none)) listed
    (r, present) ← empty_zones host top (reversed selected) ([], pod_names pods [])
    if not (is_nil present) then pure (kept_checks r present, none) else shut_down top cat wipe r

  down_machine :
      String → Topology → Catalogue → List Role → Bool → Option Machine → Body S Reported Reported
  unfolding down_running
  down_machine host top cat selected wipe none =
      pure (warned "machine" "not created" "nothing to take down" ∷ [], none)
  down_machine host top cat selected wipe (some m) =
      if m.running
      then down_running host top cat selected wipe
      else if wipe
      then lift (destroy top cat [])
      else pure (warned "machine" "stopped" "nothing to take down" ∷ [], none)

  -- l.Down
  unfoldable pub down : String → List Role → Bool → M S Reported
  unfolding down_machine last_machine
  down host selected wipe = func (do
    loaded ← lift (load host)
    (top, cat) ← or_return (ended []) loaded
    if wipe && not (length selected == length roles) then return whole_machine else do
      listed ← call list_machines
      machines ← or_return (λ e. (failed "machine" e ∷ [], none)) listed
      down_machine host top cat selected wipe (last_machine machines none))
