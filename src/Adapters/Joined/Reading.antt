-- ===== src/Adapters/Joined/Reading.antt =====
-- What the commands that only look reach of the operating system.
use localclaw.Common.{
  String, ◌≡◌, refl, sym, subst, Bool, true, false, not, ◌&&◌, ◌||◌, Option, none, some, List, [],
  ◌∷◌, arith, ◌==◌, string_eq, nat_eq,
}
use localclaw.App.Host.{
  Call, ctx_err, step, podman_version, list_machines, network_exists, list_pods, flox_version,
  open_dir, load_topology, keychain_exists, keychain_describe, keychain_put, machine_running,
  list_secrets, secret_exists, minter_ready, system, Host, Directory,
}
use localclaw.App.Kinds.{Only-weaken, Asks}
use localclaw.App.Trace.{Only, only_rules}
use localclaw.Os.{run, interactive, stat, dir_fs, read_file, home_dir}
use localclaw.Adapters.Libraries.{Libraries}
use localclaw.Adapters.Joined.{adapter}
use localclaw.Adapters.Keychain.Client.Sealed.{Sealed, describe_args, reads-Sealed}
use localclaw.Adapters.Files as Files
use localclaw.Adapters.Toml as Toml
use localclaw.Adapters.Keychain.Client as Keychain
use localclaw.Adapters.Podman.Client as Podman

unfoldable pub starts : List String → List String → Bool
starts args [] = true
starts [] (p ∷ ps) = false
starts (a ∷ args) (p ∷ ps) = a == p && starts args ps

-- `security find-generic-password` without -g, which does not show the value.
unfoldable pub describing : List String → Bool
describing (verb ∷ a ∷ name ∷ s ∷ service ∷ path ∷ []) =
    verb == "find-generic-password" && a == "-a" && s == "-s"
describing _ = false

abbrev pub on_lclaw : String → String → List String
on_lclaw what verb = "--connection" ∷ "lclaw" ∷ what ∷ verb ∷ []

-- The commands that stop or remove something.
unfoldable pub destroys : String → List String → Bool
unfolding starts
destroys name args =
    (name == "podman"
      && (starts args ("machine" ∷ "stop" ∷ [])
          || starts args ("machine" ∷ "rm" ∷ [])
          || starts args (on_lclaw "network" "rm")
          || starts args (on_lclaw "kube" "down")
          || starts args (on_lclaw "secret" "rm")
          || starts args (on_lclaw "volume" "rm")))
    || (name == "security" && starts args ("delete-generic-password" ∷ []))

-- The commands that change nothing: versions, lists, questions and descriptions.
unfoldable pub looks : String → List String → Bool
unfolding starts describing destroys
looks name args =
    (starts args ("--version" ∷ [])
      || (name == "podman"
          && (starts args ("machine" ∷ "list" ∷ [])
              || starts args (on_lclaw "network" "exists")
              || starts args (on_lclaw "secret" "exists")
              || starts args (on_lclaw "volume" "exists")
              || starts args (on_lclaw "secret" "ls")
              || starts args (on_lclaw "secret" "inspect")
              || starts args (on_lclaw "pod" "ps")))
      || (name == "security" && describing args))
    && not (destroys name args)

-- Files are looked at and read, a command looks, and the keychain may be unlocked.
unfoldable pub Reads : Call → Type 0
unfolding looks
Reads ctx_err = Unit
Reads (step name detail) = Unit
Reads minter_ready = Unit
Reads (system (stat path)) = Unit
Reads (system (dir_fs dir)) = Unit
Reads (system (read_file dir path)) = Unit
Reads (system home_dir) = Unit
Reads (system (run c)) = looks c.name c.args ≡ true
Reads (system (interactive c)) = starts c.args ("unlock-keychain" ∷ []) ≡ true
Reads _ = ⊥

Sealed-Reads :
    (path name : String) (c : Call) → Sealed path (describe_args path name) none c → Reads c
unfolding Reads looks string_eq
Sealed-Reads path name (system (stat p)) h = tt
Sealed-Reads path name (system (run c)) h = subst (λ d. looks d.name d.args ≡ true) (sym h) refl
Sealed-Reads path name (system (interactive c)) h =
    subst (λ d. starts d.args ("unlock-keychain" ∷ []) ≡ true) (sym h) refl
Sealed-Reads path name _ h = absurd h

module _ {S : Type 0} ⦃H : Host S⦄ where
  podman_version-Reads : Only {S = S} Reads (Podman.podman_version)
  unfolding Podman.podman_version Reads looks string_eq
  podman_version-Reads = search only_rules depth 30

  flox_version-Reads : Only {S = S} Reads (Podman.flox_version)
  unfolding Podman.flox_version Reads looks string_eq
  flox_version-Reads = search only_rules depth 30

  network_exists-Reads : (name : String) → Only {S = S} Reads (Podman.network_exists name)
  unfolding Podman.network_exists Podman.question Reads looks string_eq
  network_exists-Reads name = search only_rules depth 30

  secret_exists-Reads : (name : String) → Only {S = S} Reads (Podman.secret_exists name)
  unfolding Podman.secret_exists Podman.question Reads looks string_eq
  secret_exists-Reads name = search only_rules depth 30

  list_machines-Reads : (libs : Libraries) → Only {S = S} Reads (Podman.list_machines libs)
  unfolding Podman.list_machines Reads looks string_eq
  list_machines-Reads libs = search only_rules depth 30

  list_pods-Reads : (libs : Libraries) → Only {S = S} Reads (Podman.list_pods libs)
  unfolding Podman.list_pods Reads looks string_eq
  list_pods-Reads libs = search only_rules depth 30

  list_secrets-Reads : (libs : Libraries) → Only {S = S} Reads (Podman.list_secrets libs)
  unfolding Podman.list_secrets Reads looks string_eq
  list_secrets-Reads libs = search only_rules depth 30

  machine_running-Reads : (libs : Libraries) → Only {S = S} Reads (Podman.machine_running libs)
  unfolding Podman.machine_running Reads looks string_eq
  machine_running-Reads libs = search (only_rules, list_machines-Reads libs) depth 30

  open_dir-Reads : (dir : String) → Only {S = S} Reads (Files.open_dir dir)
  unfolding Files.open_dir Reads looks string_eq
  open_dir-Reads dir = search only_rules depth 30

  exists-Reads : (path : String) → Only {S = S} Reads (Keychain.exists path)
  unfolding Keychain.exists Reads looks string_eq
  exists-Reads path = search only_rules depth 30

  describe-Reads :
      (libs : Libraries) (path name : String)
      → Only {S = S} Reads (Keychain.describe libs path name)
  describe-Reads libs path name =
      Only-weaken (Sealed path (describe_args path name) none) Reads _ (Sealed-Reads path name)
        (reads-Sealed libs path name).1.0

  expand-Reads : (raw : String) (rest : Option String) → Only {S = S} Reads (Toml.expand raw rest)
  unfolding Toml.expand Reads
  expand-Reads raw none = search only_rules depth 20
  expand-Reads raw (some rest) = search only_rules depth 20

  load-Reads :
      (libs : Libraries) (scaffold : Directory) → Only {S = S} Reads (Toml.load libs scaffold)
  unfolding Toml.load Toml.to_domain Toml.keychain_path Reads
  load-Reads libs scaffold = search (only_rules, expand-Reads) depth 40

  -- What answers a question.
  pub adapter-Reads : (libs : Libraries) (c : Call) → Asks c → Only {S = S} Reads (adapter libs c)
  unfolding adapter Reads
  adapter-Reads libs ctx_err h = search only_rules
  adapter-Reads libs (step name detail) h = search only_rules
  adapter-Reads libs podman_version h = podman_version-Reads
  adapter-Reads libs list_machines h = list_machines-Reads libs
  adapter-Reads libs (network_exists name) h = network_exists-Reads name
  adapter-Reads libs list_pods h = list_pods-Reads libs
  adapter-Reads libs flox_version h = flox_version-Reads
  adapter-Reads libs (open_dir dir) h = open_dir-Reads dir
  adapter-Reads libs (load_topology scaffold) h = load-Reads libs scaffold
  adapter-Reads libs (keychain_exists path) h = exists-Reads path
  adapter-Reads libs (keychain_describe path name) h = describe-Reads libs path name
  adapter-Reads libs machine_running h = machine_running-Reads libs
  adapter-Reads libs list_secrets h = list_secrets-Reads libs
  adapter-Reads libs (secret_exists name) h = secret_exists-Reads name
  adapter-Reads libs minter_ready h = search only_rules
  adapter-Reads libs (keychain_put path name value source false) h = absurd (ground arith)
  adapter-Reads libs (keychain_put path name value source true) h = absurd (ground arith)
  adapter-Reads libs _ h = absurd (ground arith)
