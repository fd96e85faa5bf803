-- ===== src/App/Lifecycle/Up/Calls.antt =====
-- The calls of Up.
use localclaw.Common.{ℕ, String, Bool, true, false, List, [], ◌∷◌, string_eq, nat_eq}
use localclaw.App.Trace.{Only-func, Only-lift, Only, Only-bind, only_rules}
use localclaw.App.Kinds.{Asks, Within, Only-asks, raises, asks-raises}
use localclaw.App.Host.{Host, Call}
use localclaw.App.Lifecycle.{load}
use localclaw.App.Lifecycle.Calls.{load-Asks, ensure_machine-Raises}
use localclaw.App.Lifecycle.Up.{
  note_secret, check_secrets, check_zones, create_if_absent, create_networks, apply_workload,
  apply_workloads, apply_zone, up_zone, up_zones, up,
}
use localclaw.App.Secrets.{require_keychain}
use localclaw.App.Secrets.Calls.{require_keychain-Asks}
use localclaw.App.Steps.Calls.{resolve-Raises, inject-Raises}
use localclaw.Domain.Catalogue.{Catalogue}
use localclaw.Domain.Errors.{Result, ok, err}
use localclaw.Domain.Report.{Report}
use localclaw.Domain.Role.{Role}
use localclaw.Domain.Secret.{SecretSpec, SecretItem}
use localclaw.Domain.Topology.{Topology, ZoneSpec}

abbrev Raises : Call → Type 0
Raises = Within raises

module _ {S : Type 0} ⦃H : Host S⦄ where
  note_secret-Asks :
      (spec : SecretSpec) (item : Result SecretItem) (at : Report × ℕ)
      → Only {S = S} Asks (note_secret spec item at)
  unfolding note_secret
  note_secret-Asks spec (ok item) at = search only_rules
  note_secret-Asks spec (err e) at = search only_rules

  check_secrets-Asks :
      (path : String) (specs : List SecretSpec) (at : Report × ℕ)
      → Only {S = S} Asks (check_secrets path specs at)
  unfolding check_secrets
  check_secrets-Asks path [] at = search only_rules
  check_secrets-Asks path (spec ∷ specs) at =
      let ih = check_secrets-Asks path specs in search (only_rules, note_secret-Asks, ih) depth 14

  check_zones-Asks :
      (path : String) (cat : Catalogue) (roles : List Role) (at : Report × ℕ)
      → Only {S = S} Asks (check_zones path cat roles at)
  unfolding check_zones
  check_zones-Asks path cat [] at = search only_rules
  check_zones-Asks path cat (role ∷ roles) at =
      let ih = check_zones-Asks path cat roles in
      search (only_rules, check_secrets-Asks, ih) depth 14

  create_if_absent-Raises :
      (role : Role) (internal exists : Bool) (r : Report)
      → Only {S = S} Raises (create_if_absent role internal exists r)
  unfolding create_if_absent
  create_if_absent-Raises role internal true r = search only_rules
  create_if_absent-Raises role internal false r = search only_rules depth 14

  create_networks-Raises :
      (top : Topology) (roles : List Role) (r : Report)
      → Only {S = S} Raises (create_networks top roles r)
  unfolding create_networks
  create_networks-Raises top [] r = search only_rules
  create_networks-Raises top (role ∷ roles) r =
      let ih = create_networks-Raises top roles in
      search (only_rules, create_if_absent-Raises, ih) depth 16

  apply_workload-Raises :
      (host : String) (role : Role) (z : ZoneSpec) (w : String) (r : Report)
      → Only {S = S} Raises (apply_workload host role z w r)
  unfolding apply_workload
  apply_workload-Raises host role z w r = search only_rules depth 24

  apply_workloads-Raises :
      (host : String) (role : Role) (z : ZoneSpec) (ws : List String) (r : Report)
      → Only {S = S} Raises (apply_workloads host role z ws r)
  unfolding apply_workloads
  apply_workloads-Raises host role z [] r = search only_rules
  apply_workloads-Raises host role z (w ∷ ws) r =
      let ih = apply_workloads-Raises host role z ws in
      search (only_rules, apply_workload-Raises, ih) depth 14

  apply_zone-Raises :
      (has_minter : Bool) (host : String) (role : Role) (z : ZoneSpec) (r : Report)
      → Only {S = S} Raises (apply_zone has_minter host role z r)
  unfolding apply_zone
  apply_zone-Raises has_minter host role z r = search (only_rules, apply_workloads-Raises) depth 24

  up_zone-Raises :
      (has_minter : Bool) (host : String) (top : Topology) (cat : Catalogue) (role : Role)
      (r : Report)
      → Only {S = S} Raises (up_zone has_minter host top cat role r)
  unfolding up_zone
  up_zone-Raises has_minter host top cat role r =
      search (only_rules, resolve-Raises, inject-Raises, apply_zone-Raises) depth 24

  up_zones-Raises :
      (has_minter : Bool) (host : String) (top : Topology) (cat : Catalogue) (roles : List Role)
      (r : Report) (problem : String)
      → Only {S = S} Raises (up_zones has_minter host top cat roles r problem)
  unfolding up_zones
  up_zones-Raises has_minter host top cat [] r problem = search only_rules
  up_zones-Raises has_minter host top cat (role ∷ roles) r problem =
      let ih = up_zones-Raises has_minter host top cat roles in
      search (only_rules, up_zone-Raises, ih) depth 14

  -- Whatever the ports answer, `lclaw up` makes no call that stops or removes a machine, removes a
  -- network, a volume, a secret of the store or a keychain item, or takes the pods of a file down; it
  -- replaces no keychain item, makes no keychain and writes no file of the scaffold. What it may
  -- replace are pods and secrets of the store, by those of the same name: Play and StoreSecret are
  -- among the calls that it may make.
  pub up-Raises :
      (has_minter : Bool) (dir : String) (roles : List Role)
      → Only {S = S} (Within raises) (up has_minter dir roles)
  unfolding up
  up-Raises has_minter dir roles =
      let loads = Only-asks {S = S} raises (load dir) asks-raises (load-Asks dir) in
      let gates = λ (p : String).
        Only-asks {S = S} raises (require_keychain p) asks-raises (require_keychain-Asks p) in
      let checks = λ (p : String) (cat : Catalogue).
        Only-asks {S = S} raises (check_zones p cat roles ([], 0)) asks-raises
          (check_zones-Asks p cat roles ([], 0)) in
      Only-func _ (
        Only-bind _ _ (Only-lift _ loads) λ l.
          search
            (
              only_rules, gates, checks, ensure_machine-Raises, create_networks-Raises,
              up_zones-Raises,
            )
            depth 30)
