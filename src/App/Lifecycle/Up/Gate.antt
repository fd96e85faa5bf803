-- ===== src/App/Lifecycle/Up/Gate.antt =====
-- Up touches the keychain behind its gate only.
use localclaw.Common.{ℕ, String, Bool, true, false, List, [], ◌∷◌, string_eq, nat_eq}
use localclaw.App.Gate.{
  Gated-or_return, Gated-call, Gated-behind, Gated-if, Opened, nothing, opened, Gated, Accepts,
  Gated-bind, Gated-func, Gated-lift, Gated-pure, gated_rules,
}
use localclaw.App.Host.{step, Host}
use localclaw.App.Lifecycle.Gate.{load-Gated, ensure_machine-Gated}
use localclaw.App.Lifecycle.Up.{
  note_secret, check_secrets, check_zones, create_if_absent, create_networks, apply_workload,
  apply_workloads, apply_zone, up_zone, up_zones, up_machine, up, ended,
}
use localclaw.App.Steps.Gate.{resolve-Gated, inject-Gated}
use localclaw.Domain.Catalogue.{Catalogue}
use localclaw.Domain.Errors.{Result, ok, err}
use localclaw.Domain.Report.{Report}
use localclaw.Domain.Role.{Role}
use localclaw.Domain.Secret.{SecretSpec, SecretItem}
use localclaw.Domain.Topology.{Topology, ZoneSpec}

module _ {S : Type 0} ⦃H : Host S⦄ {k : Opened} where
  note_secret-Gated :
      (spec : SecretSpec) (item : Result SecretItem) (at : Report × ℕ)
      → Gated {S = S} k (note_secret spec item at)
  unfolding note_secret
  note_secret-Gated spec (ok item) at = search gated_rules
  note_secret-Gated spec (err e) at = search gated_rules

  create_if_absent-Gated :
      (role : Role) (internal exists : Bool) (r : Report)
      → Gated {S = S} k (create_if_absent role internal exists r)
  unfolding create_if_absent
  create_if_absent-Gated role internal true r = search gated_rules
  create_if_absent-Gated role internal false r = search gated_rules depth 14

  create_networks-Gated :
      (top : Topology) (roles : List Role) (r : Report)
      → Gated {S = S} k (create_networks top roles r)
  unfolding create_networks
  create_networks-Gated top [] r = search gated_rules
  create_networks-Gated top (role ∷ roles) r =
      let ih = create_networks-Gated top roles in
      search (gated_rules, create_if_absent-Gated, ih) depth 16

  apply_workload-Gated :
      (host : String) (role : Role) (z : ZoneSpec) (w : String) (r : Report)
      → Gated {S = S} k (apply_workload host role z w r)
  unfolding apply_workload
  apply_workload-Gated host role z w r = search gated_rules depth 24

  apply_workloads-Gated :
      (host : String) (role : Role) (z : ZoneSpec) (ws : List String) (r : Report)
      → Gated {S = S} k (apply_workloads host role z ws r)
  unfolding apply_workloads
  apply_workloads-Gated host role z [] r = search gated_rules
  apply_workloads-Gated host role z (w ∷ ws) r =
      let ih = apply_workloads-Gated host role z ws in
      search (gated_rules, apply_workload-Gated, ih) depth 14

  apply_zone-Gated :
      (has_minter : Bool) (host : String) (role : Role) (z : ZoneSpec) (r : Report)
      → Gated {S = S} k (apply_zone has_minter host role z r)
  unfolding apply_zone
  apply_zone-Gated has_minter host role z r = search (gated_rules, apply_workloads-Gated) depth 24

  up_zone-Gated :
      (has_minter : Bool) (host : String) (top : Topology) (cat : Catalogue) (role : Role)
      (r : Report)
      → Gated {S = S} k (up_zone has_minter host top cat role r)
  unfolding up_zone
  up_zone-Gated has_minter host top cat role r =
      search (gated_rules, resolve-Gated, inject-Gated, apply_zone-Gated) depth 24

  up_zones-Gated :
      (has_minter : Bool) (host : String) (top : Topology) (cat : Catalogue) (roles : List Role)
      (r : Report) (problem : String)
      → Gated {S = S} k (up_zones has_minter host top cat roles r problem)
  unfolding up_zones
  up_zones-Gated has_minter host top cat [] r problem = search gated_rules
  up_zones-Gated has_minter host top cat (role ∷ roles) r problem =
      let ih = up_zones-Gated has_minter host top cat roles in
      search (gated_rules, up_zone-Gated, ih) depth 14

  up_machine-Gated :
      (has_minter : Bool) (host : String) (top : Topology) (cat : Catalogue) (roles : List Role)
      (r : Report)
      → Gated {S = S} k (up_machine has_minter host top cat roles r)
  unfolding up_machine
  up_machine-Gated has_minter host top cat roles r =
      search (gated_rules, ensure_machine-Gated, create_networks-Gated, up_zones-Gated) depth 30

module _ {S : Type 0} ⦃H : Host S⦄ (path : String) where
  check_secrets-Gated :
      (specs : List SecretSpec) (at : Report × ℕ)
      → Gated {S = S} (opened path) (check_secrets path specs at)
  unfolding check_secrets
  check_secrets-Gated [] at = search gated_rules
  check_secrets-Gated (spec ∷ specs) at =
      let ih = check_secrets-Gated specs in search (gated_rules, note_secret-Gated, ih) depth 14

  check_zones-Gated :
      (cat : Catalogue) (roles : List Role) (at : Report × ℕ)
      → Gated {S = S} (opened path) (check_zones path cat roles at)
  unfolding check_zones
  check_zones-Gated cat [] at = search gated_rules
  check_zones-Gated cat (role ∷ roles) at =
      let ih = check_zones-Gated cat roles in search (gated_rules, check_secrets-Gated, ih) depth 14

module _ {S : Type 0} ⦃H : Host S⦄ where
  up-Gated :
      (has_minter : Bool) (dir : String) (roles : List Role)
      → Gated {S = S} nothing (up has_minter dir roles)
  unfolding up
  up-Gated has_minter dir roles = Gated-func _ (
      Gated-bind _ _ (Gated-lift _ (load-Gated dir)) λ l.
        Gated-bind _ _ (Gated-or_return (ended []) l) λ x.
          Gated-bind _ _ (Gated-call (step "secrets" "checking the keychain") tt) λ _.
            Gated-behind x.0.keychain_path (ended []) _ (
              Gated-bind _ _ (check_zones-Gated x.0.keychain_path x.1 roles ([], 0)) λ at.
                Gated-if _ _ _ (Gated-pure _) (up_machine-Gated has_minter dir x.0 x.1 roles at.0)))

  -- For every keychain `p`: whatever the ports answer, Up reads, describes and writes no item of `p`
  -- before a call of Exists has said that `p` is there.
  pub up-Accepts :
      (has_minter : Bool) (dir : String) (roles : List Role) (p : String) (s : S)
      → Accepts p false (up has_minter dir roles s).events
  up-Accepts has_minter dir roles p s = (up-Gated has_minter dir roles).at p false s tt
